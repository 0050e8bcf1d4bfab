-- ===== src/Client/Coordinator/Order/Loops.antt =====
-- bin/client/src/coordinator.rs, `run`: the rounds of the loop as moves of the queue.
use gozara.Base.{
  ℕ, ◌≡◌, refl, sym, ap, ◌∙◌, subst, String, List, [], ◌∷◌, ◌++◌, map, Bool, true, false, Option,
  none, some, Eq, nat_eq, Bool-cases, Option-cases, inl, inr, arith,
}
use mathlib.Core.List.{map-append}
use gozara.Base.Maps.{lookup, modify}
use gozara.Client.Messages.{AdmittedBlob, ToPipeline}
use gozara.Client.Services.{Services}
use gozara.Client.Coordinator.{
  ChunkUploadStatus, pending, inflight, finalized, Chunk, InternalMessage, update_chunk_status,
  LocalBlob, Pipeline, begin_next_blob, add_local_blob,
}
use gozara.Client.Coordinator.Assign.{assign_chunks}
use gozara.Client.Coordinator.Events.{
  Event, Loop, running, stopped, panicked, all_finalized, shutdown_requested, stale_tick,
  assign_tick, handler, admission, internal, incoming_push, incoming_pull, transfer, closed, ended,
  stale, handle_swarm, after_update, end_upload, update_status_of, handle_internal,
  handle_admission, step,
}
use gozara.Client.Coordinator.Order.{brief, held, Moves, admit, view, IsBusy, Goes}
use gozara.Client.Coordinator.Order.Keeps.{
  assign_chunks-Keeps, stale-Keeps, handle_swarm-Keeps, end_upload-Keeps, Goes-Keeps,
}
use gozara.Client.Coordinator.Order.Finish.{
  begin_next_blob-view, begin_next_blob-IsBusy, finish_blob-Goes,
}

module _ {Hash Tree : Type 0} where
  -- From `q` on, which keeps the blobs of `p`, an operation goes where it goes from `p` on.
  pub Keeps-Goes : (p q p' : Pipeline Hash Tree) → view q ≡ view p → Goes [] q p' → Goes [] p p'
  Keeps-Goes p q p' same (moves, busy) = (subst (λ v. Moves [] v (view p')) same moves, busy)

  pub Goes-assign :
      (now : ℕ) (p p' : Pipeline Hash Tree) → Goes [] p p' → Goes [] p (assign_chunks now p')
  Goes-assign now p p' (moves, busy) =
      let kept = assign_chunks-Keeps now p' in
      (
        subst (λ v. Moves [] (view p) v) (sym kept.0) moves,
        elim busy [
          | inl empty ↦ inl (kept.1 ∙ empty)
          | inr working ↦ inr (λ e. working (kept.2 e))
        ],
      )

  -- A result that is no panic, and goes from `p` on.
  abbrev pub Continues : Pipeline Hash Tree → Option (Pipeline Hash Tree) → Type 0
  Continues p o = (p' : Pipeline Hash Tree) × ((o ≡ some p') × Goes [] p p')

  pub after_update-Goes :
      (now : ℕ) (status : ChunkUploadStatus) (blob : LocalBlob Hash Tree) (p : Pipeline Hash Tree)
      → p.current_blob ≡ some blob
      → Continues p (after_update now status blob p)
  unfolding after_update
  after_update-Goes now pending blob p busy =
      (p, (refl, Goes-Keeps p p (inr (λ e. absurd (ground arith))) (refl, refl, λ e. e)))
  after_update-Goes now (inflight to) blob p busy =
      (p, (refl, Goes-Keeps p p (inr (λ e. absurd (ground arith))) (refl, refl, λ e. e)))
  after_update-Goes now (finalized owner) blob p busy =
      elim (Bool-cases (all_finalized blob.chunks)) [
        | inl all' ↦
            let (p', (done, goes)) = finish_blob-Goes now blob p busy in
            (assign_chunks now p', (rw (all', done, after_update) refl, Goes-assign now p p' goes))
        | inr some' ↦ (
          assign_chunks now p,
          (
            rw (some', after_update) refl,
            Goes-assign now p p
                (Goes-Keeps p p (inr (λ e. absurd (ground arith))) (refl, refl, λ e. e)),
          ),
        )
      ]

module _ {Hash Tree : Type 0} ⦃hash_eq : Eq Hash⦄ where
  -- The blob whose chunk has the status.
  abbrev pub with_status : ℕ → Hash → ChunkUploadStatus → LocalBlob Hash Tree → LocalBlob Hash Tree
  with_status now hash status blob = record blob {
    chunks =
        modify hash (λ (c : Chunk). record c { status = record { at = now; status = status } })
          blob.chunks;
  }

  pub update_status_of-Continues :
      (now : ℕ) (hash : Hash) (status : ChunkUploadStatus) (p : Pipeline Hash Tree)
      → IsBusy p
      → Continues p (update_status_of now hash status p)
  unfolding update_status_of
  update_status_of-Continues now hash status p ready = elim (Option-cases p.current_blob) [
    | inl idle ↦ (p, (ground arith, Goes-Keeps p p ready (refl, refl, λ e. e)))
    | inr (blob, busy) ↦ elim (Option-cases (lookup hash blob.chunks)) [
      | inl absent ↦ (p, (ground arith, Goes-Keeps p p ready (refl, refl, λ e. e)))
      | inr (c, found) ↦
          let changed = with_status now hash status blob in
          let (p', (done, goes)) =
            after_update-Goes now status changed (record p { current_blob = some changed }) refl in
          (
            p',
            (
              rw (busy, found, update_status_of) done,
              Keeps-Goes p (record p { current_blob = some changed }) p' (rw busy refl) goes,
            ),
          )
    ]
  ]

  handle_internal-Continues :
      (now : ℕ) (messages : List (InternalMessage Hash)) (p : Pipeline Hash Tree)
      → IsBusy p
      → Continues p (handle_internal now messages p)
  unfolding handle_internal
  handle_internal-Continues now [] p ready = (p, (refl, Goes-Keeps p p ready (refl, refl, λ e. e)))
  handle_internal-Continues now (update_chunk_status hash status at ∷ rest) p ready =
      update_status_of-Continues now hash status (record p { rx_internal = rest }) ready

module _ {Hash Tree : Type 0} where
  abbrev pub admitted_by : Event Hash Tree → List (String × ℕ)
  admitted_by (admission (ToPipeline.new_blob blob)) = (blob.id, blob.allowance) ∷ []
  admitted_by _ = []

  -- The events that end the loop.
  abbrev pub ends_loop : Event Hash Tree → Bool
  ends_loop shutdown_requested = true
  ends_loop closed = true
  ends_loop _ = false

  -- What a round comes to: it stops at an event that ends the loop, with the pipeline as it was, and
  -- at another it goes on with a move of the queue that lets in the blobs of the event.
  abbrev pub Comes : Event Hash Tree → Pipeline Hash Tree → Loop Hash Tree → Type 0
  Comes e p (running p') = (ends_loop e ≡ false) × Goes (admitted_by e) p p'
  Comes e p (stopped p') = (ends_loop e ≡ true) × (p' ≡ p)
  Comes e p panicked = ⊥

module _ {Hash Tree : Type 0} ⦃hash_eq : Eq Hash⦄ (services : Services Hash Tree) where
  map-held-append :
      (o : Option (LocalBlob Hash Tree)) (l : List (LocalBlob Hash Tree)) (b : LocalBlob Hash Tree)
      → map brief (held o (l ++ b ∷ [])) ≡ map brief (held o l) ++ brief b ∷ []
  map-held-append none l b = map-append brief l (b ∷ [])
  map-held-append (some c) l b = ap (◌∷◌ (brief c)) (map-append brief l (b ∷ []))

  pub add_local_blob-view :
      (now : ℕ) (blob : AdmittedBlob Hash Tree) (p : Pipeline Hash Tree)
      → view (add_local_blob now blob p)
        ≡ record (view p) { waiting = (view p).waiting ++ (blob.id, blob.allowance) ∷ [] }
  unfolding add_local_blob
  add_local_blob-view now blob p =
      ap (λ w. record (view p) { waiting = w })
        (map-held-append p.current_blob p.pending_local_blobs _)

  new_blob-Goes :
      (now : ℕ) (blob : AdmittedBlob Hash Tree) (p : Pipeline Hash Tree)
      → IsBusy p
      → Goes ((blob.id, blob.allowance) ∷ []) p (begin_next_blob now (add_local_blob now blob p))
  new_blob-Goes now blob p ready = (
    subst (λ q. Moves ((blob.id, blob.allowance) ∷ []) (view p) q)
        (sym
          (begin_next_blob-view now (add_local_blob now blob p) ∙ add_local_blob-view now blob p))
        (admit (view p) blob.id blob.allowance),
    begin_next_blob-IsBusy now _,
  )

  -- From a pipeline in which no blob waits while none is in work, a round does not panic. It
  -- stops exactly at an event that ends the loop, with the pipeline as it was, and at another
  -- event it is a move of the queue of blobs that lets in the blobs of that event, after which
  -- again no blob waits while none is in work.
  pub step-Goes :
      (p : Pipeline Hash Tree) (now : ℕ) (e : Event Hash Tree)
      → IsBusy p
      → Comes e p (step services p now e)
  unfolding step handle_admission
  step-Goes p now shutdown_requested ready = (refl, refl)
  step-Goes p now closed ready = (refl, refl)
  step-Goes p now stale_tick ready = (refl, Goes-Keeps p (stale now p) ready (stale-Keeps now p))
  step-Goes p now assign_tick ready =
      (refl, Goes-Keeps p (assign_chunks now p) ready (assign_chunks-Keeps now p))
  step-Goes p now (handler m) ready =
      (refl, Goes-Keeps p (handle_swarm now m p) ready (handle_swarm-Keeps now m p))
  step-Goes p now (admission (ToPipeline.get_blob id)) ready = (
    refl,
    Goes-Keeps p (handle_admission services now (ToPipeline.get_blob id) p) ready
        (refl, refl, λ e. e),
  )
  step-Goes p now (admission (ToPipeline.new_blob blob)) ready =
      (refl, new_blob-Goes now blob p ready)
  step-Goes p now internal ready =
      let (p', (done, goes)) = handle_internal-Continues now p.rx_internal p ready in
      rw (done, Comes) (refl, goes)
  step-Goes p now (incoming_push push) ready = (refl, Goes-Keeps p p ready (refl, refl, λ e. e))
  step-Goes p now (incoming_pull pull) ready = (refl, Goes-Keeps p p ready (refl, refl, λ e. e))
  step-Goes p now (transfer e) ready = (refl, Goes-Keeps p p ready (refl, refl, λ e. e))
  step-Goes p now (ended i r) ready =
      (refl, Goes-Keeps p (end_upload now i r p) ready (end_upload-Keeps now i r p))
