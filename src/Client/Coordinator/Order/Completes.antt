-- ===== src/Client/Coordinator/Order/Completes.antt =====
-- bin/client/src/coordinator.rs, `run`: the message that finalizes the last chunk of a blob.
use gozara.Base.{ℕ, ◌+◌, ◌≡◌, refl, ◌∙◌, List, [], ◌∷◌, ◌++◌, map, true, some, Eq}
use gozara.Base.Maps.{lookup}
use gozara.Client.Messages.{Status, update_status}
use gozara.Client.Services.{Services}
use gozara.Client.Coordinator.{
  finalized, Chunk, InternalMessage, update_chunk_status, LocalBlob, Pipeline, begin_next_blob,
}
use gozara.Client.Coordinator.Assign.{assign_chunks}
use gozara.Client.Coordinator.Events.{
  running, internal, all_finalized, after_update, update_status_of, handle_internal, step,
}
use gozara.Client.Coordinator.Order.{Queue, brief, view}
use gozara.Client.Coordinator.Order.Keeps.{assign_chunks-Keeps}
use gozara.Client.Coordinator.Order.Finish.{begin_next_blob-view, dropped, finish_blob-eq}
use gozara.Client.Coordinator.Order.Loops.{with_status}

module _ {Hash Tree : Type 0} where
  -- The queue once its first blob is finalized.
  abbrev pub finalized_view : LocalBlob Hash Tree → Pipeline Hash Tree → Queue
  finalized_view blob p = record {
    waiting = map brief p.pending_local_blobs;
    told = p.tx_bridge ++ update_status blob.id Status.finalized ∷ [];
    returned = p.returned + blob.allowance;
    bridge_open = true;
  }

  after_update-completes :
      (now owner : ℕ) (blob : LocalBlob Hash Tree) (p : Pipeline Hash Tree)
      → p.current_blob ≡ some blob
      → all_finalized blob.chunks ≡ true
      → p.bridge_open ≡ true
      → (p' : Pipeline Hash Tree) × (after_update now (finalized owner) blob p ≡ some p')
        × (view p' ≡ finalized_view blob p)
  unfolding after_update
  after_update-completes now owner blob p busy complete open' = (
    assign_chunks now (begin_next_blob now (dropped blob p)),
    rw (complete, finish_blob-eq now blob p busy, after_update) refl,
    (assign_chunks-Keeps now (begin_next_blob now (dropped blob p))).0
        ∙ begin_next_blob-view now (dropped blob p)
        ∙ rw open' refl,
  )

module _ {Hash Tree : Type 0} ⦃hash_eq : Eq Hash⦄ (services : Services Hash Tree) where
  -- If the next internal message says that a chunk of the blob in work is finalized, each
  -- chunk of the blob is finalized once that status is set, and the bridge receives, then the
  -- round does not panic: it tells the bridge that the blob is finalized, gives its permits
  -- back, and leaves the blobs behind it in their order.
  pub step-completes :
      (now at owner : ℕ) (hash : Hash) (chunk : Chunk) (blob : LocalBlob Hash Tree)
      (later : List (InternalMessage Hash)) (p : Pipeline Hash Tree)
      → p.current_blob ≡ some blob
      → p.rx_internal ≡ update_chunk_status hash (finalized owner) at ∷ later
      → lookup hash blob.chunks ≡ some chunk
      → all_finalized (with_status now hash (finalized owner) blob).chunks ≡ true
      → p.bridge_open ≡ true
      → (p' : Pipeline Hash Tree) × (step services p now internal ≡ running p')
        × (view p' ≡ finalized_view blob p)
  unfolding step handle_internal update_status_of
  step-completes now at owner hash chunk blob later p busy waiting found complete open' =
      let changed = with_status now hash (finalized owner) blob in
      let q = record p { rx_internal = later; current_blob = some changed } in
      let (p', finished, seen) = after_update-completes now owner changed q refl complete open' in
      (p', rw (waiting, step) (rw (busy, found, update_status_of) (rw finished refl)), seen)
