-- ===== src/Client/Coordinator/Order/Told.antt =====
-- bin/client/src/coordinator.rs: when the bridge is told that a blob is finalized.
use gozara.Base.{
  ℕ, ◌≡◌, refl, ap, ◌∙◌, subst, List, [], ◌∷◌, ◌++◌, true, some, Eq, nat_eq, Bool-cases,
  Option-cases, inl, inr, ◌⊎◌, arith,
}
use gozara.Base.Maps.{lookup}
use gozara.Client.Messages.{ToPipeline, ToBridge, Status, update_status}
use gozara.Client.Services.{Services}
use gozara.Client.Coordinator.{
  ChunkUploadStatus, pending, inflight, finalized, Chunk, InternalMessage, update_chunk_status,
  LocalBlob, Pipeline, begin_next_blob, add_local_blob,
}
use gozara.Client.Coordinator.Assign.{assign_chunks}
use gozara.Client.Coordinator.Events.{
  Event, Loop, running, stopped, panicked, all_finalized, shutdown_requested, stale_tick,
  assign_tick, handler, admission, internal, incoming_push, incoming_pull, transfer, closed, ended,
  finish_blob, after_update, update_status_of, handle_internal, handle_admission, step,
}
use gozara.Client.Coordinator.Order.Keeps.{
  assign_chunks-Keeps, stale-Keeps, handle_swarm-Keeps, end_upload-Keeps,
}
use gozara.Client.Coordinator.Order.Finish.{begin_next_blob-view}
use gozara.Client.Coordinator.Order.Finish.{dropped, finish_blob-eq}
use gozara.Client.Coordinator.Order.Loops.{with_status, add_local_blob-view}

module _ {Hash Tree : Type 0} where
  -- The bridge is told of the blob, and each chunk of `chunks` is finalized.
  abbrev pub TellsOf :
      LocalBlob Hash Tree → List (Hash × Chunk) → List ToBridge → List ToBridge → Type 0
  TellsOf blob chunks sent sent' =
      (all_finalized chunks ≡ true) × (sent' ≡ sent ++ update_status blob.id Status.finalized ∷ [])

  finish_blob-tells :
      (now : ℕ) (blob : LocalBlob Hash Tree) (p : Pipeline Hash Tree)
      → p.current_blob ≡ some blob
      → all_finalized blob.chunks ≡ true
      → (p' : Pipeline Hash Tree) × ((finish_blob now blob p ≡ some p')
          × ((p'.tx_bridge ≡ p.tx_bridge) ⊎ TellsOf blob blob.chunks p.tx_bridge p'.tx_bridge))
  finish_blob-tells now blob p busy done =
      let same : (begin_next_blob now (dropped blob p)).tx_bridge ≡ (dropped blob p).tx_bridge =
        ap (λ v. v.told) (begin_next_blob-view now (dropped blob p)) in
      (
        begin_next_blob now (dropped blob p),
        (
          finish_blob-eq now blob p busy,
          elim (Bool-cases p.bridge_open) [
            | inl open' ↦ inr (done, same ∙ rw open' refl)
            | inr closed' ↦ inl (same ∙ rw closed' refl)
          ],
        ),
      )

  after_update-tells :
      (now : ℕ) (status : ChunkUploadStatus) (blob : LocalBlob Hash Tree) (p : Pipeline Hash Tree)
      → p.current_blob ≡ some blob
      → (p' : Pipeline Hash Tree) × ((after_update now status blob p ≡ some p')
          × ((p'.tx_bridge ≡ p.tx_bridge)
              ⊎ ((owner : ℕ) × (status ≡ finalized owner)
                  × TellsOf blob blob.chunks p.tx_bridge p'.tx_bridge)))
  unfolding after_update
  after_update-tells now pending blob p busy = (p, (refl, inl refl))
  after_update-tells now (inflight to) blob p busy = (p, (refl, inl refl))
  after_update-tells now (finalized owner) blob p busy =
      elim (Bool-cases (all_finalized blob.chunks)) [
        | inl all' ↦
            let (q, (done, told)) = finish_blob-tells now blob p busy all' in
            let kept : (assign_chunks now q).tx_bridge ≡ q.tx_bridge =
              ap (λ v. v.told) (assign_chunks-Keeps now q).0 in
            (
              assign_chunks now q,
              (
                rw (all', done, after_update) refl,
                rw kept
                    (elim told [ inl none' ↦ inl none' | inr tells ↦ inr (owner, refl, tells) ]),
              ),
            )
        | inr some' ↦ (
          assign_chunks now p,
          (rw (some', after_update) refl, inl (ap (λ v. v.told) (assign_chunks-Keeps now p).0)),
        )
      ]

module _ {Hash Tree : Type 0} ⦃hash_eq : Eq Hash⦄ where
  -- From `p` to `p'` the bridge is told that the blob in work is finalized: the next internal message says
  -- that one of its chunks is, and with that each of them is.
  abbrev pub Finalizes : ℕ → Pipeline Hash Tree → Pipeline Hash Tree → Type 0
  Finalizes now p p' =
      (blob : LocalBlob Hash Tree) × (hash : Hash) × (owner at : ℕ) × (chunk : Chunk)
      × (later : List (InternalMessage Hash)) × (p.current_blob ≡ some blob)
      × (p.rx_internal ≡ update_chunk_status hash (finalized owner) at ∷ later)
      × (lookup hash blob.chunks ≡ some chunk)
      × TellsOf blob (with_status now hash (finalized owner) blob).chunks p.tx_bridge p'.tx_bridge

  abbrev Tells : ℕ → Pipeline Hash Tree → Pipeline Hash Tree → Type 0
  Tells now p p' = (p'.tx_bridge ≡ p.tx_bridge) ⊎ Finalizes now p p'

  -- The same of a message that gives the chunk `hash` this status.
  abbrev TellsBy : ℕ → Hash → ChunkUploadStatus → Pipeline Hash Tree → Pipeline Hash Tree → Type 0
  TellsBy now hash status p p' =
      (p'.tx_bridge ≡ p.tx_bridge)
      ⊎ ((blob : LocalBlob Hash Tree) × (owner : ℕ) × (chunk : Chunk) × (p.current_blob ≡ some blob)
          × (status ≡ finalized owner)
          × (lookup hash blob.chunks ≡ some chunk)
          × TellsOf blob (with_status now hash status blob).chunks p.tx_bridge p'.tx_bridge)

  update_status_of-TellsBy :
      (now : ℕ) (hash : Hash) (status : ChunkUploadStatus) (p : Pipeline Hash Tree)
      → (p' : Pipeline Hash Tree) × ((update_status_of now hash status p ≡ some p')
          × TellsBy now hash status p p')
  unfolding update_status_of
  update_status_of-TellsBy now hash status p = elim (Option-cases p.current_blob) [
    | inl idle ↦ (p, (ground arith, inl refl))
    | inr (blob, busy) ↦ elim (Option-cases (lookup hash blob.chunks)) [
      | inl absent ↦ (p, (ground arith, inl refl))
      | inr (c, found) ↦
          let changed = with_status now hash status blob in
          let (p', (done, told)) =
            after_update-tells now status changed (record p { current_blob = some changed }) refl in
          (
            p',
            (
              rw (busy, found, update_status_of) done,
              elim told [
                | inl none' ↦ inl none'
                | inr (owner, says, tells) ↦ inr (blob, owner, c, busy, says, found, tells)
              ],
            ),
          )
    ]
  ]

  handle_internal-Tells :
      (now : ℕ) (messages : List (InternalMessage Hash)) (p : Pipeline Hash Tree)
      → p.rx_internal ≡ messages
      → (p' : Pipeline Hash Tree) × ((handle_internal now messages p ≡ some p') × Tells now p p')
  unfolding handle_internal
  handle_internal-Tells now [] p waiting = (p, (refl, inl refl))
  handle_internal-Tells now (update_chunk_status hash status at ∷ rest) p waiting =
      let (p', (done, told)) =
        update_status_of-TellsBy now hash status (record p { rx_internal = rest }) in
      (
        p',
        (
          done,
          elim told [
            | inl none' ↦ inl none'
            | inr (blob, owner, chunk, busy, says, found, tells) ↦ inr (
              blob,
              hash,
              owner,
              at,
              chunk,
              rest,
              busy,
              waiting ∙ ap (λ s. update_chunk_status hash s at ∷ rest) says,
              found,
              subst
                  (λ s. TellsOf blob (with_status now hash s blob).chunks p.tx_bridge p'.tx_bridge)
                  says tells,
            )
          ],
        ),
      )

  abbrev pub LoopTells : ℕ → Event Hash Tree → Pipeline Hash Tree → Loop Hash Tree → Type 0
  LoopTells now e p (running p') =
      (p'.tx_bridge ≡ p.tx_bridge) ⊎ ((e ≡ internal) × Finalizes now p p')
  LoopTells now e p (stopped p') = p'.tx_bridge ≡ p.tx_bridge
  LoopTells now e p panicked = ⊥

module _ {Hash Tree : Type 0} ⦃hash_eq : Eq Hash⦄ (services : Services Hash Tree) where
  -- In one round of the loop the bridge is told nothing, or exactly that the blob in work is
  -- finalized; in the second case the round is one that takes an internal message, the next of
  -- these says that a chunk of this blob is finalized, and once that status is set each chunk
  -- of the blob is finalized. The round does not panic.
  pub step-LoopTells :
      (p : Pipeline Hash Tree) (now : ℕ) (e : Event Hash Tree)
      → LoopTells now e p (step services p now e)
  unfolding step handle_admission
  step-LoopTells p now shutdown_requested = refl
  step-LoopTells p now closed = refl
  step-LoopTells p now stale_tick = inl (ap (λ v. v.told) (stale-Keeps now p).0)
  step-LoopTells p now assign_tick = inl (ap (λ v. v.told) (assign_chunks-Keeps now p).0)
  step-LoopTells p now (handler m) = inl (ap (λ v. v.told) (handle_swarm-Keeps now m p).0)
  step-LoopTells p now (admission (ToPipeline.get_blob id)) = inl refl
  step-LoopTells p now (admission (ToPipeline.new_blob blob)) = inl (
      ap (λ v. v.told)
        (begin_next_blob-view now (add_local_blob now blob p)
          ∙ add_local_blob-view services now blob p))
  step-LoopTells p now internal =
      let (p', (done, told)) = handle_internal-Tells now p.rx_internal p refl in
      rw (done, LoopTells) (elim told [ inl none' ↦ inl none' | inr tells ↦ inr (refl, tells) ])
  step-LoopTells p now (incoming_push push) = inl refl
  step-LoopTells p now (incoming_pull pull) = inl refl
  step-LoopTells p now (transfer e) = inl refl
  step-LoopTells p now (ended i r) = inl (ap (λ v. v.told) (end_upload-Keeps now i r p).0)
