-- ===== src/Client/Coordinator/Starved.antt =====
-- bin/client/src/coordinator.rs: the pipeline behind a swarm task that delivers no response.
use gozara.Base.{
  ℕ, ◌≡◌, refl, sym, ap, subst, List, [], ◌∷◌, map, none, some, Eq, All, arith, inl, inr,
}
use gozara.Peyk.Protocol.{HandlerMessage, would_store, request, response}
use gozara.Peyk.Swarm.Channel.{IsNoResponse}
use gozara.Client.Messages.{ToPipeline}
use gozara.Client.Services.{Services}
use gozara.Client.Coordinator.{
  InternalMessage, LocalBlob, Pipeline, unexpired, pipeline_new, request_storage_permits, pop_blob,
  begin_next_blob, add_local_blob,
}
use gozara.Client.Coordinator.Assign.{eligible_peers, assign_blob, assign_chunks}
use gozara.Client.Coordinator.Events.{
  Event, Loop, running, stopped, panicked, take_task, UploadResult, shutdown_requested, stale_tick,
  assign_tick, handler, admission, internal, incoming_push, incoming_pull, transfer, closed, ended,
  stale, handle_swarm, end_upload, handle_internal, handle_admission, step, run,
}
use gozara.Client.Coordinator.Order.Keeps.{assign_chunks-cases}
use gozara.Client.Coordinator.Order.Finish.{begin_next_blob-cases}

module _ {Hash Tree : Type 0} where
  -- No permit to store, no upload, and no news of one.
  abbrev pub IsStarved : Pipeline Hash Tree → Type 0
  IsStarved p =
      (p.storage_permits ≡ []) × (p.uploads ≡ []) × (p.rx_internal ≡ []) × (p.tx_bridge ≡ [])

  request-IsStarved :
      (now : ℕ) (p : Pipeline Hash Tree) → IsStarved p → IsStarved (request_storage_permits now p)
  unfolding request_storage_permits
  request-IsStarved now p (permits, uploads, news, told) = ground arith

  pop_blob-IsStarved :
      (now : ℕ) (blobs : List (LocalBlob Hash Tree)) (p : Pipeline Hash Tree)
      → IsStarved p
      → IsStarved (pop_blob now blobs p)
  unfolding pop_blob
  pop_blob-IsStarved now [] p h = h
  pop_blob-IsStarved now (blob ∷ rest) p h =
      request-IsStarved now (record p { current_blob = some blob; pending_local_blobs = rest }) h

  begin_next_blob-IsStarved :
      (now : ℕ) (p : Pipeline Hash Tree) → IsStarved p → IsStarved (begin_next_blob now p)
  begin_next_blob-IsStarved now p h = elim (begin_next_blob-cases now p) [
    | inl (same, busy) ↦ subst IsStarved (sym same) h
    | inr (idle, popped) ↦
        subst IsStarved (sym popped) (pop_blob-IsStarved now p.pending_local_blobs p h)
  ]

  assign_blob-IsStarved :
      (now : ℕ) (blob : LocalBlob Hash Tree) (p : Pipeline Hash Tree)
      → IsStarved p
      → IsStarved (assign_blob now (eligible_peers now p) blob p)
  unfolding assign_blob
  assign_blob-IsStarved now blob p (permits, uploads, news, told) =
      let nobody : eligible_peers now p ≡ [] =
        ap (λ permits'. map (λ q. q.0) (unexpired now permits')) permits in
      rw (nobody, assign_blob) (permits, uploads, news, told)

  assign_chunks-IsStarved :
      (now : ℕ) (p : Pipeline Hash Tree) → IsStarved p → IsStarved (assign_chunks now p)
  assign_chunks-IsStarved now p h = elim (assign_chunks-cases now p) [
    | inl same ↦ subst IsStarved (sym same) h
    | inr (blob, busy, assigned) ↦
        subst IsStarved (sym assigned) (assign_blob-IsStarved now blob p h)
  ]

  stale-IsStarved : (now : ℕ) (p : Pipeline Hash Tree) → IsStarved p → IsStarved (stale now p)
  unfolding stale request_storage_permits
  stale-IsStarved now p (permits, uploads, news, told) = ground arith

  handle_swarm-IsStarved :
      (now : ℕ) (m : HandlerMessage) (p : Pipeline Hash Tree)
      → IsNoResponse m
      → IsStarved p
      → IsStarved (handle_swarm now m p)
  unfolding handle_swarm
  handle_swarm-IsStarved now (would_store peer_id) p c h = h
  handle_swarm-IsStarved now (request peer_id request_id r channel) p c h = h
  handle_swarm-IsStarved now (response peer_id request_id r) p c h = absurd c

  end_upload-IsStarved :
      (now i : ℕ) (r : UploadResult) (p : Pipeline Hash Tree)
      → IsStarved p
      → IsStarved (end_upload now i r p)
  unfolding end_upload
  end_upload-IsStarved now i r p (permits, uploads, news, told) =
      let none' : take_task i p.uploads ≡ none = ap (take_task i) uploads in
      rw (none', end_upload) (permits, uploads, news, told)

  -- An event that the swarm task lets come about.
  abbrev pub ComesFromSwarm : Event Hash Tree → Type 0
  ComesFromSwarm (handler m) = IsNoResponse m
  ComesFromSwarm _ = Unit {0}

  abbrev pub LoopStarves : Loop Hash Tree → Type 0
  LoopStarves (running p) = IsStarved p
  LoopStarves (stopped p) = IsStarved p
  LoopStarves panicked = ⊥

module _ {Hash Tree : Type 0} ⦃hash_eq : Eq Hash⦄ (services : Services Hash Tree) where
  internal-LoopStarves :
      (now : ℕ) (messages : List (InternalMessage Hash)) (p : Pipeline Hash Tree)
      → messages ≡ []
      → IsStarved p
      → LoopStarves
          (elim (handle_internal now messages p) [ none ↦ panicked | some p' ↦ running p' ])
  unfolding handle_internal
  internal-LoopStarves now [] p e h = h
  internal-LoopStarves now (m ∷ rest) p e h = absurd (ground arith)

  pub step-LoopStarves :
      (p : Pipeline Hash Tree) (now : ℕ) (e : Event Hash Tree)
      → ComesFromSwarm e
      → IsStarved p
      → LoopStarves (step services p now e)
  unfolding step handle_admission add_local_blob
  step-LoopStarves p now shutdown_requested c h = h
  step-LoopStarves p now closed c h = h
  step-LoopStarves p now stale_tick c h = stale-IsStarved now p h
  step-LoopStarves p now assign_tick c h = assign_chunks-IsStarved now p h
  step-LoopStarves p now (handler m) c h = handle_swarm-IsStarved now m p c h
  step-LoopStarves p now (admission (ToPipeline.get_blob id)) c h = h
  step-LoopStarves p now (admission (ToPipeline.new_blob blob)) c h =
      begin_next_blob-IsStarved now (add_local_blob now blob p) h
  step-LoopStarves p now internal c h = internal-LoopStarves now p.rx_internal p h.2 h
  step-LoopStarves p now (incoming_push push) c h = h
  step-LoopStarves p now (incoming_pull pull) c h = h
  step-LoopStarves p now (transfer e) c h = h
  step-LoopStarves p now (ended i r) c h = end_upload-IsStarved now i r p h

  run-LoopStarves :
      (history : List (ℕ × Event Hash Tree)) (p : Pipeline Hash Tree)
      → All (λ (r : ℕ × Event Hash Tree). ComesFromSwarm r.1) history
      → IsStarved p
      → LoopStarves (run services p history)
  unfolding run
  run-LoopStarves [] p c h = h
  run-LoopStarves ((now, e) ∷ rest) p (c, cs) h =
      continue (step services p now e) (step-LoopStarves p now e c h)
        (λ p'. run-LoopStarves rest p' cs)
    where
      continue :
          (s : Loop Hash Tree)
          → LoopStarves s
          → ((p' : Pipeline Hash Tree) → IsStarved p' → LoopStarves (run services p' rest))
          → LoopStarves (elim s [
            | running p' ↦ run services p' rest
            | stopped p' ↦ stopped p'
            | panicked ↦ panicked
          ])
      continue (running p') h' later = later p' h'
      continue (stopped p') h' later = h'
      continue panicked h' later = absurd h'

  pub run-new-LoopStarves :
      (history : List (ℕ × Event Hash Tree))
      → All (λ (r : ℕ × Event Hash Tree). ComesFromSwarm r.1) history
      → LoopStarves (run services pipeline_new history)
  unfolding pipeline_new
  run-new-LoopStarves history c = run-LoopStarves history pipeline_new c (refl, refl, refl, refl)
