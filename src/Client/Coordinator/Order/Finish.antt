-- ===== src/Client/Coordinator/Order/Finish.antt =====
-- bin/client/src/coordinator.rs, `begin_next_blob` and `archive_cur_blob`: the queue moves on.
use gozara.Base.{
  ℕ, ◌+◌, ◌≡◌, ◌≢◌, refl, sym, ap, ◌∙◌, subst, List, [], ◌∷◌, ◌++◌, map, none, some, nat_eq,
  if◌then◌else◌, Option-cases, inl, inr, ◌⊎◌, arith,
}
use gozara.Client.Messages.{Status, update_status}
use gozara.Client.Coordinator.{LocalBlob, Pipeline, archive_cur_blob, pop_blob, begin_next_blob}
use gozara.Client.Coordinator.Events.{finish_blob}
use gozara.Client.Coordinator.Order.{Moves, finish, view, IsBusy, Goes}
use gozara.Client.Coordinator.Order.Keeps.{request-Keeps}

module _ {Hash Tree : Type 0} where
  pub pop_blob-view :
      (now : ℕ) (pending : List (LocalBlob Hash Tree)) (p : Pipeline Hash Tree)
      → p.current_blob ≡ none
      → p.pending_local_blobs ≡ pending
      → view (pop_blob now pending p) ≡ view p
  unfolding pop_blob
  pop_blob-view now [] p idle h = rw (idle, h) refl
  pop_blob-view now (blob ∷ rest) p idle h =
      (request-Keeps now (record p { current_blob = some blob; pending_local_blobs = rest })).0
      ∙ rw (idle, h) refl

  pub pop_blob-IsBusy :
      (now : ℕ) (pending : List (LocalBlob Hash Tree)) (p : Pipeline Hash Tree)
      → IsBusy (pop_blob now pending p)
  unfolding pop_blob
  pop_blob-IsBusy now [] p = inl refl
  pop_blob-IsBusy now (blob ∷ rest) p = inr λ e. absurd (
      ground (
        arith,
        (request-Keeps now (record p { current_blob = some blob; pending_local_blobs = rest })).2 e,
      ))

  pub begin_next_blob-cases :
      (now : ℕ) (p : Pipeline Hash Tree)
      → ((begin_next_blob now p ≡ p) × (p.current_blob ≢ none))
        ⊎ ((p.current_blob ≡ none) × (begin_next_blob now p ≡ pop_blob now p.pending_local_blobs p))
  unfolding begin_next_blob
  begin_next_blob-cases now p = elim (Option-cases p.current_blob) [
    | inl idle ↦ inr (idle, ground arith)
    | inr (blob, busy) ↦ inl (ground arith)
  ]

  -- The next blob is taken out of the pending ones, and the queue is as it was.
  pub begin_next_blob-view :
      (now : ℕ) (p : Pipeline Hash Tree) → view (begin_next_blob now p) ≡ view p
  begin_next_blob-view now p = elim (begin_next_blob-cases now p) [
    | inl (same, busy) ↦ ap view same
    | inr (idle, popped) ↦ ap view popped ∙ pop_blob-view now p.pending_local_blobs p idle refl
  ]

  pub begin_next_blob-IsBusy : (now : ℕ) (p : Pipeline Hash Tree) → IsBusy (begin_next_blob now p)
  begin_next_blob-IsBusy now p = elim (begin_next_blob-cases now p) [
    | inl (same, busy) ↦ subst IsBusy (sym same) (inr busy)
    | inr (idle, popped) ↦ subst IsBusy (sym popped) (pop_blob-IsBusy now p.pending_local_blobs p)
  ]

  -- The pipeline once the blob in work is dropped.
  abbrev pub dropped : LocalBlob Hash Tree → Pipeline Hash Tree → Pipeline Hash Tree
  dropped blob p = record p {
    current_blob = none;
    returned = p.returned + blob.allowance;
    tx_bridge =
        if p.bridge_open
        then p.tx_bridge ++ update_status blob.id Status.finalized ∷ []
        else p.tx_bridge;
  }

  pub dropped-Moves :
      (blob : LocalBlob Hash Tree) (p : Pipeline Hash Tree)
      → p.current_blob ≡ some blob
      → Moves [] (view p) (view (dropped blob p))
  dropped-Moves blob p busy =
      finish (view p) blob.id blob.allowance
        (map (λ (b : LocalBlob Hash Tree). (b.id, b.allowance)) p.pending_local_blobs)
        (rw busy refl)

  pub finish_blob-eq :
      (now : ℕ) (blob : LocalBlob Hash Tree) (p : Pipeline Hash Tree)
      → p.current_blob ≡ some blob
      → finish_blob now blob p ≡ some (begin_next_blob now (dropped blob p))
  unfolding finish_blob archive_cur_blob
  finish_blob-eq now blob p busy = rw (busy, finish_blob) refl

  -- The blob in work leaves the queue.
  pub finish_blob-Goes :
      (now : ℕ) (blob : LocalBlob Hash Tree) (p : Pipeline Hash Tree)
      → p.current_blob ≡ some blob
      → (p' : Pipeline Hash Tree) × ((finish_blob now blob p ≡ some p') × Goes [] p p')
  finish_blob-Goes now blob p busy = (
    begin_next_blob now (dropped blob p),
    (
      finish_blob-eq now blob p busy,
      (
        subst (λ q. Moves [] (view p) q) (sym (begin_next_blob-view now (dropped blob p)))
            (dropped-Moves blob p busy),
        begin_next_blob-IsBusy now (dropped blob p),
      ),
    ),
  )
