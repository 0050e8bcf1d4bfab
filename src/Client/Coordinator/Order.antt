-- ===== src/Client/Coordinator/Order.antt =====
-- bin/client/src/coordinator.rs: the pipeline as a queue of blobs, and its loop as moves of the queue.
pub mod Keeps
pub mod Finish
pub mod Loops
pub mod History
pub mod Told
pub mod Completes
pub mod Coverage
pub mod Drains
use gozara.Base.{
  ℕ, ◌+◌, ◌≡◌, ◌≢◌, refl, sym, ap, ◌∙◌, subst, String, List, [], ◌∷◌, ◌++◌, map, Bool, true, false,
  Option, none, some, is_empty, ltb, Eq, ◌==◌, nat_eq, if◌then◌else◌, Bool-cases, Option-cases, inl,
  inr, ◌⊎◌, arith, sum, append_assoc, append-nil,
}
use gozara.Base.Maps.{lookup, insert, modify}
use gozara.Base.Time.{checked_add_secs}
use gozara.Peyk.Protocol.{
  HandlerMessage, would_store, request, response, Response, issued_storage_permit,
}
use gozara.Client.Messages.{ToPipeline, ToBridge, Status, update_status}
use gozara.Client.Services.{Services}
use gozara.Client.Coordinator.{
  ChunkUploadStatus, pending, inflight, finalized, InternalMessage, update_chunk_status, LocalBlob,
  UploadTask, Pipeline, unexpired, pipeline_new, archive_cur_blob, request_storage_permits,
  pop_blob, begin_next_blob, add_local_blob,
}
use gozara.Client.Coordinator.Assign.{eligible_peers, assign_blob, assign_chunks}
use gozara.Client.Coordinator.Events.{
  Event, Loop, all_finalized, take_task, UploadResult, pushed, push_failed, timed_out, stale,
  handle_response, handle_swarm, finish_blob, after_update, report_upload, end_upload,
  update_status_of, handle_internal, handle_admission, step, run,
}

-- The blobs that wait, the first of them in work, each an id and its permits, with what the bridge
-- was told and the permits that have come back.
pub record Queue : Type 0 where
  pub waiting : List (String × ℕ)
  pub told : List ToBridge
  pub returned : ℕ
  pub bridge_open : Bool

-- The moves, each with the blobs that it lets in.
pub data Moves : List (String × ℕ) → Queue → Queue → Type 0 where
  stay : (q : Queue) → Moves [] q q
  admit :
      (q : Queue) (id : String) (allowance : ℕ)
      → Moves ((id, allowance) ∷ []) q (record q { waiting = q.waiting ++ (id, allowance) ∷ [] })
  finish :
      (q : Queue) (id : String) (allowance : ℕ) (rest : List (String × ℕ))
      → q.waiting ≡ (id, allowance) ∷ rest
      → Moves [] q (record q {
        waiting = rest;
        told = if q.bridge_open then q.told ++ update_status id Status.finalized ∷ [] else q.told;
        returned = q.returned + allowance;
      })

module _ {Hash Tree : Type 0} where
  abbrev pub brief : LocalBlob Hash Tree → String × ℕ
  brief blob = (blob.id, blob.allowance)

  abbrev pub held :
      Option (LocalBlob Hash Tree) → List (LocalBlob Hash Tree) → List (LocalBlob Hash Tree)
  held none behind = behind
  held (some blob) behind = blob ∷ behind

  -- The blob in work and those behind it.
  abbrev pub blobs : Pipeline Hash Tree → List (LocalBlob Hash Tree)
  blobs p = held p.current_blob p.pending_local_blobs

  abbrev pub view : Pipeline Hash Tree → Queue
  view p = record {
    waiting = map brief (blobs p);
    told = p.tx_bridge;
    returned = p.returned;
    bridge_open = p.bridge_open;
  }

  -- No blob waits while none is in work.
  abbrev pub IsBusy : Pipeline Hash Tree → Type 0
  IsBusy p = (p.pending_local_blobs ≡ []) ⊎ (p.current_blob ≢ none)

  -- What an operation keeps that leaves the blobs in place.
  abbrev pub Keeps : Pipeline Hash Tree → Pipeline Hash Tree → Type 0
  Keeps p p' =
      (view p' ≡ view p)
      × (p'.pending_local_blobs ≡ p.pending_local_blobs)
      × (p'.current_blob ≡ none → p.current_blob ≡ none)

  -- A move of the queue, after which no blob waits while none is in work.
  abbrev pub Goes : List (String × ℕ) → Pipeline Hash Tree → Pipeline Hash Tree → Type 0
  Goes admitted p p' = Moves admitted (view p) (view p') × IsBusy p'
