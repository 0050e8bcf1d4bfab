-- ===== src/Client/System/Budget.antt =====
-- bin/client: the permits of the bridge's memory budget, wherever their blob is.
use gozara.Base.{List, [], Option, ℕ, ◌+◌, ◌≡◌, refl, ap, subst, Eq, arith, inl}
use gozara.Client.Messages.{ToPipeline}
use gozara.Client.Services.{Services}
use gozara.Client.Bridge.{bridge_new, total_chunk_budget}
use gozara.Client.Bridge.Server.{server_new}
use gozara.Client.Bridge.Server.Turns.{carried, in_flight}
use gozara.Client.Bridge.Server.Others.{handle_message-Gentle, get_blob-Gentle}
use gozara.Client.Bridge.Server.Permits.{server_permits, serve-permits}
use gozara.Client.Coordinator.{Pipeline, pipeline_new}
use gozara.Client.Coordinator.Events.{
  Event, running, admission, handler, shutdown_requested, stale_tick, assign_tick, internal,
  incoming_push, incoming_pull, transfer, closed, ended, step,
}
use gozara.Client.Coordinator.Order.{view, IsBusy}
use gozara.Client.Coordinator.Order.Loops.{admitted_by, Comes, step-Goes}
use gozara.Client.Coordinator.Order.History.{permits, permits_of, Moves-permits}
use gozara.Client.System.{
  IsInternal, System, system_new, Step, request, fetch, receive, work, notify, hear, ask, listen,
  release, Reach, here, next,
}

module _ {Hash Tree : Type 0} where
  -- The free permits, those on their way, those of the requests, those of the coordinator's blobs, and
  -- those it has dropped.
  abbrev pub all_permits : System Hash Tree → ℕ
  all_permits s = server_permits s.server + permits (view s.pipeline)

  -- Every permit is accounted for, and no blob waits while none is in work.
  abbrev pub IsBudgeted : System Hash Tree → Type 0
  IsBudgeted s = (all_permits s ≡ total_chunk_budget) × IsBusy s.pipeline

  admitted_by-carried :
      (m : ToPipeline Hash Tree) → permits_of (admitted_by (admission m)) ≡ carried m
  admitted_by-carried (ToPipeline.get_blob id) = refl
  admitted_by-carried (ToPipeline.new_blob blob) = omega arith

  internal-none : (e : Event Hash Tree) → IsInternal e → admitted_by e ≡ []
  internal-none shutdown_requested own = refl
  internal-none stale_tick own = refl
  internal-none assign_tick own = refl
  internal-none internal own = refl
  internal-none (incoming_push p) own = refl
  internal-none (incoming_pull p) own = refl
  internal-none (transfer e) own = refl
  internal-none closed own = refl
  internal-none (ended i r) own = refl
  internal-none (handler m) own = absurd own
  internal-none (admission m) own = absurd own

module _ {Hash Tree : Type 0} ⦃hash_eq : Eq Hash⦄ (services : Services Hash Tree) where
  -- A round of the coordinator after which it goes on.
  round-permits :
      (p p' : Pipeline Hash Tree) (now : ℕ) (e : Event Hash Tree)
      → IsBusy p
      → step services p now e ≡ running p'
      → (permits (view p') ≡ permits (view p) + permits_of (admitted_by e)) × IsBusy p'
  round-permits p p' now e ready h =
      let (goes_on, goes) = subst (Comes e p) h (step-Goes services p now e ready) in
      (Moves-permits goes.0, goes.1)

module _ {Hash Tree : Type 0} ⦃hash_eq : Eq Hash⦄ (services : Services Hash Tree)
    (decode : List ℕ → Option ℕ) where
  Step-IsBudgeted :
      {s t : System Hash Tree} → Step services decode s t → IsBudgeted s → IsBudgeted t
  Step-IsBudgeted (request s a fits) (all', ready) =
      (omega (arith, all', serve-permits services s.server a), ready)
  Step-IsBudgeted (fetch s id now r b' h) (all', ready) =
      (omega (arith, all', (get_blob-Gentle services s.server.bridge b' id now r h).0), ready)
  Step-IsBudgeted (receive s now m rest p' waiting h) (all', ready) =
      let (same, ready') = round-permits services s.pipeline p' now (admission m) ready h in
      (omega (arith, all', same, admitted_by-carried m, ap in_flight waiting), ready')
  Step-IsBudgeted (work s now e p' none' h) (all', ready) =
      let (same, ready') = round-permits services s.pipeline p' now e ready h in
      (omega (arith, all', same, ap permits_of (internal-none e none')), ready')
  Step-IsBudgeted (hear s now m rest p' waiting h) (all', ready) =
      let (same, ready') = round-permits services s.pipeline p' now (handler m) ready h in
      (omega (arith, all', same), ready')
  Step-IsBudgeted (ask s m rest waiting) h = h
  Step-IsBudgeted (listen s e swarm' own h') h = h
  Step-IsBudgeted (notify s now m rest waiting) (all', ready) =
      (omega (arith, all', (handle_message-Gentle s.server.bridge now m).0), ready)
  Step-IsBudgeted (release s) (all', ready) = (omega (arith, all'), ready)

  -- In every state that the bridge, the coordinator and the swarm task reach from their start,
  -- whatever the order of the steps of the uploads that run at the same time, the other
  -- requests, the rounds and the messages, the bridge's free permits, those of the uploads
  -- that run, those of the blobs on their way to the coordinator, those that its blobs hold
  -- and those of the blobs it has dropped are together `total_chunk_budget`, and no blob waits
  -- while none is in work.
  pub Reach-IsBudgeted : {s : System Hash Tree} → Reach services decode system_new s → IsBudgeted s
  unfolding system_new server_new bridge_new pipeline_new
  Reach-IsBudgeted here = (refl, inl refl)
  Reach-IsBudgeted (next r st) = Step-IsBudgeted st (Reach-IsBudgeted r)
