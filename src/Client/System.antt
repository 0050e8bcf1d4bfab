-- ===== src/Client/System.antt =====
-- bin/client/src/lib.rs, `run`: the bridge, the coordinator and the swarm task joined by their four channels, as
-- steps in any order. A channel holds what was sent and is not yet received.
pub mod Budget
pub mod Statuses
pub mod Uploads
pub mod Pending
pub mod Blobs
pub mod Starvation
use gozara.Base.{ℕ, ◌+◌, ◌≡◌, String, List, [], ◌∷◌, Option, some, Result, All, Eq}
use gozara.Peyk.Protocol.{HandlerMessage, SwarmMessage}
use gozara.Peyk.Swarm
use gozara.Peyk.Swarm.{
  Swarm, rx_message, taken, continues, round, take_from, handle_swarm_message, swarm_new,
}
use gozara.Client.Messages.{ToPipeline, ToBridge}
use gozara.Client.Services.{Services}
use gozara.Client.Bridge.{BridgeState, StatusCode, get_blob, handle_message}
use gozara.Client.Bridge.Server.Blobs.{ActionFits}
use gozara.Client.Bridge.Server.{Server, Action, server_new, serve, serve_all}
use gozara.Client.Bridge.Upload.{Frame, new_blob}
use gozara.Client.Bridge.Upload.Body.{FitsMemory}
use gozara.Client.Coordinator.{Pipeline, pipeline_new}
use gozara.Client.Coordinator.Events.{Event, running, admission, handler, step}

pub record System (Hash Tree : Type 0) : Type 0 where
  pub server : Server Hash Tree
  pub pipeline : Pipeline Hash Tree
  pub swarm : Swarm

unfoldable pub system_new : {Hash Tree : Type 0} → System Hash Tree
system_new = record { server = server_new; pipeline = pipeline_new; swarm = swarm_new }

-- The events of the coordinator that come from its own timers, streams and tasks.
abbrev pub IsInternal : {Hash Tree : Type 0} → Event Hash Tree → Type 0
IsInternal (handler m) = ⊥
IsInternal (admission m) = ⊥
IsInternal _ = Unit {0}

-- The events of the swarm task that come from the network and its timer.
abbrev pub IsExternal : gozara.Peyk.Swarm.Event → Type 0
IsExternal (rx_message m) = ⊥
IsExternal taken = ⊥
IsExternal _ = Unit {0}

-- `decode` is `bincode::deserialize::<u8>`.
module _ {Hash Tree : Type 0} ⦃hash_eq : Eq Hash⦄ (services : Services Hash Tree)
    (decode : List ℕ → Option ℕ) where
  -- `request` is a step of the requests of `new_blob`, and `fetch` one of `get_blob`; `receive`, `notify`,
  -- `hear` and `ask` take the next message out of a channel; `work` is a round of the coordinator and
  -- `listen` one of the swarm task on an event of their own; `release` gives the permits of the blobs that
  -- were dropped back to the semaphore that they were taken from.
  pub data Step : System Hash Tree → System Hash Tree → Type 0 where
    request :
        (s : System Hash Tree) (a : Action)
        → ActionFits a
        → Step s (record s { server = serve services s.server a })
    fetch :
        (s : System Hash Tree) (id : String) (now : ℕ) (r : Result StatusCode (StatusCode × String))
        (bridge' : BridgeState Hash Tree)
        → get_blob services s.server.bridge id now ≡ some (r, bridge')
        → Step s (record s { server = record (s.server) { bridge = bridge' } })
    receive :
        (s : System Hash Tree) (now : ℕ) (m : ToPipeline Hash Tree)
        (rest : List (ToPipeline Hash Tree)) (pipeline' : Pipeline Hash Tree)
        → s.server.bridge.tx_admission ≡ m ∷ rest
        → step services s.pipeline now (admission m) ≡ running pipeline'
        → Step s (record s {
          server = record (s.server) { bridge = record (s.server.bridge) { tx_admission = rest } };
          pipeline = pipeline';
        })
    work :
        (s : System Hash Tree) (now : ℕ) (e : Event Hash Tree) (pipeline' : Pipeline Hash Tree)
        → IsInternal e
        → step services s.pipeline now e ≡ running pipeline'
        → Step s (record s { pipeline = pipeline' })
    notify :
        (s : System Hash Tree) (now : ℕ) (m : ToBridge) (rest : List ToBridge)
        → s.pipeline.tx_bridge ≡ m ∷ rest
        → Step s (record {
          server = record (s.server) { bridge = handle_message s.server.bridge now m };
          pipeline = record (s.pipeline) { tx_bridge = rest };
          swarm = s.swarm;
        })
    hear :
        (s : System Hash Tree) (now : ℕ) (m : HandlerMessage) (rest : List HandlerMessage)
        (pipeline' : Pipeline Hash Tree)
        → s.swarm.tx_handler ≡ m ∷ rest
        → step services s.pipeline now (handler m) ≡ running pipeline'
        → Step s (record s { pipeline = pipeline'; swarm = take_from (m ∷ rest) s.swarm })
    ask :
        (s : System Hash Tree) (m : SwarmMessage) (rest : List SwarmMessage)
        → s.pipeline.tx_swarm ≡ m ∷ rest
        → Step s (record s {
          pipeline = record (s.pipeline) { tx_swarm = rest };
          swarm = handle_swarm_message m s.swarm;
        })
    listen :
        (s : System Hash Tree) (e : gozara.Peyk.Swarm.Event) (swarm' : Swarm)
        → IsExternal e
        → round decode s.swarm e ≡ continues swarm'
        → Step s (record s { swarm = swarm' })
    release :
        (s : System Hash Tree)
        → Step s (record {
          server = record (s.server) {
            bridge = record (s.server.bridge) {
              admission_budget = s.server.bridge.admission_budget + s.pipeline.returned;
            };
          };
          pipeline = record (s.pipeline) { returned = 0 };
          swarm = s.swarm;
        })

  pub data Reach (s : System Hash Tree) : System Hash Tree → Type 0 where
    here : Reach s s
    next : {t u : System Hash Tree} → Reach s t → Step t u → Reach s u

  -- Steps of the requests, one after the other.
  pub Reach-serve_all :
      {s : System Hash Tree} (actions : List Action) (t : System Hash Tree)
      → All ActionFits actions
      → Reach s t
      → Reach s (record t { server = serve_all services t.server actions })
  unfolding serve_all
  Reach-serve_all [] t fit r = r
  Reach-serve_all (a ∷ rest) t fit r = Reach-serve_all rest _ fit.1 (next r (request t a fit.0))
