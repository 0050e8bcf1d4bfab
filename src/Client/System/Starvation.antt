-- ===== src/Client/System/Starvation.antt =====
-- bin/client/src/lib.rs, `run`: the coordinator behind the handler channel of the swarm task.
use gozara.Base.{ℕ, ◌≡◌, sym, subst, List, [], ◌∷◌, Option, Eq, All}
use gozara.Peyk.Protocol.{HandlerMessage}
use gozara.Peyk.Swarm.{process_swarm, swarm_new}
use gozara.Peyk.Swarm.Channel.{IsNoResponse, state_of, process_swarm-new-IsSound}
use gozara.Client.Services.{Services}
use gozara.Client.Coordinator.{pipeline_new}
use gozara.Client.Coordinator.Events.{
  Event, shutdown_requested, stale_tick, assign_tick, handler, admission, internal, incoming_push,
  incoming_pull, transfer, closed, ended, run,
}
use gozara.Client.Coordinator.Starved.{ComesFromSwarm, LoopStarves, run-new-LoopStarves}

module _ {Hash Tree : Type 0} where
  -- The messages that a history takes from the handler channel.
  abbrev pub heard : List (ℕ × Event Hash Tree) → List HandlerMessage
  heard [] = []
  heard ((now, handler m) ∷ rest) = m ∷ heard rest
  heard ((now, _) ∷ rest) = heard rest

  heard-ComesFromSwarm :
      (history : List (ℕ × Event Hash Tree))
      → All IsNoResponse (heard history)
      → All (λ r. ComesFromSwarm r.1) history
  heard-ComesFromSwarm [] h = tt
  heard-ComesFromSwarm ((now, handler m) ∷ rest) (h, hs) = (h, heard-ComesFromSwarm rest hs)
  heard-ComesFromSwarm ((now, shutdown_requested) ∷ rest) h = (tt, heard-ComesFromSwarm rest h)
  heard-ComesFromSwarm ((now, stale_tick) ∷ rest) h = (tt, heard-ComesFromSwarm rest h)
  heard-ComesFromSwarm ((now, assign_tick) ∷ rest) h = (tt, heard-ComesFromSwarm rest h)
  heard-ComesFromSwarm ((now, admission m) ∷ rest) h = (tt, heard-ComesFromSwarm rest h)
  heard-ComesFromSwarm ((now, internal) ∷ rest) h = (tt, heard-ComesFromSwarm rest h)
  heard-ComesFromSwarm ((now, incoming_push p) ∷ rest) h = (tt, heard-ComesFromSwarm rest h)
  heard-ComesFromSwarm ((now, incoming_pull p) ∷ rest) h = (tt, heard-ComesFromSwarm rest h)
  heard-ComesFromSwarm ((now, transfer e) ∷ rest) h = (tt, heard-ComesFromSwarm rest h)
  heard-ComesFromSwarm ((now, closed) ∷ rest) h = (tt, heard-ComesFromSwarm rest h)
  heard-ComesFromSwarm ((now, ended i r) ∷ rest) h = (tt, heard-ComesFromSwarm rest h)

module _ {Hash Tree : Type 0} ⦃hash_eq : Eq Hash⦄ (services : Services Hash Tree) where
  -- After any history of the coordinator whose swarm messages are those that the swarm task
  -- has delivered after any history of its own, the coordinator's loop has not panicked, it
  -- holds no storage permit, has started no upload, and has told the bridge nothing.
  pub client-LoopStarves :
      (decode : List ℕ → Option ℕ) (swarm_history : List gozara.Peyk.Swarm.Event)
      (history : List (ℕ × Event Hash Tree))
      → heard history ≡ (state_of (process_swarm decode swarm_new swarm_history)).delivered
      → LoopStarves (run services pipeline_new history)
  client-LoopStarves decode swarm_history history same = run-new-LoopStarves services history (
      heard-ComesFromSwarm history
        (subst (All IsNoResponse) (sym same) (process_swarm-new-IsSound decode swarm_history).1))
