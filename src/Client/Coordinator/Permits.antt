-- ===== src/Client/Coordinator/Permits.antt =====
-- bin/client/src/coordinator.rs: the permits of `upload_allowance` and the tasks that hold them.
pub mod Rounds
use gozara.Base.{
  ℕ, zero, suc, ◌+◌, ◌≡◌, refl, ap, ◌∙◌, subst, List, [], ◌∷◌, Option, none, some, Eq, length,
  length-append, arith, Bool-cases, Option-cases, inl, inr,
}
use gozara.Base.Maps.{lookup}
use gozara.Peyk.Protocol.{
  HandlerMessage, would_store, request, response, Response, issued_storage_permit,
}
use gozara.Client.Messages.{ToPipeline}
use gozara.Client.Services.{Services}
use gozara.Client.Coordinator.{
  ChunkUploadStatus, pending, inflight, finalized, InternalMessage, update_chunk_status, LocalBlob,
  UploadTask, Pipeline, pipeline_new, archive_cur_blob, request_storage_permits, pop_blob,
  begin_next_blob, add_local_blob,
}
use gozara.Client.Coordinator.Assign.{eligible_peers, assign_blob, assign_chunks}
use gozara.Client.Coordinator.Assign.Turns.{assign_loop-permits}
use gozara.Client.Coordinator.Events.{
  Event, Loop, running, stopped, panicked, all_finalized, take_task, UploadResult, pushed,
  push_failed, timed_out, shutdown_requested, stale_tick, assign_tick, handler, admission, internal,
  incoming_push, incoming_pull, transfer, closed, ended, stale, handle_response, handle_swarm,
  finish_blob, after_update, report_upload, end_upload, update_status_of, handle_internal,
  handle_admission, step, run,
}
use gozara.Client.Coordinator.Order.Keeps.{assign_chunks-cases}

module _ {Hash : Type 0} where
  pub take_task-length :
      (i : ℕ) (tasks : List (UploadTask Hash)) (t : UploadTask Hash)
      (others : List (UploadTask Hash))
      → take_task i tasks ≡ some (t, others)
      → length tasks ≡ suc (length others)
  take_task-length i [] t others h = absurd (ground arith)
  take_task-length zero (u ∷ us) t others h = ground arith
  take_task-length (suc i) (u ∷ us) t others h = elim (Option-cases (take_task i us)) [
    | inl none' ↦ absurd (ground arith)
    | inr ((v, vs), found) ↦ ground (arith, take_task-length i us v vs found)
  ]

module _ {Hash Tree : Type 0} where
  -- The permits that are free and those that the tasks hold.
  abbrev pub upload_permits : Pipeline Hash Tree → ℕ
  upload_permits p = p.upload_allowance + length p.uploads

  pub request-permits :
      (now : ℕ) (p : Pipeline Hash Tree)
      → upload_permits (request_storage_permits now p) ≡ upload_permits p
  unfolding request_storage_permits
  request-permits now p = ground arith

  pub stale-permits :
      (now : ℕ) (p : Pipeline Hash Tree) → upload_permits (stale now p) ≡ upload_permits p
  unfolding stale request_storage_permits
  stale-permits now p = ground arith

  pub pop_blob-permits :
      (now : ℕ) (blobs : List (LocalBlob Hash Tree)) (p : Pipeline Hash Tree)
      → upload_permits (pop_blob now blobs p) ≡ upload_permits p
  unfolding pop_blob
  pop_blob-permits now [] p = refl
  pop_blob-permits now (blob ∷ rest) p = request-permits now _

  pub begin_next_blob-permits :
      (now : ℕ) (p : Pipeline Hash Tree) → upload_permits (begin_next_blob now p) ≡ upload_permits p
  unfolding begin_next_blob
  begin_next_blob-permits now p = ground (arith, pop_blob-permits now p.pending_local_blobs p)

  pub assign_blob-permits :
      (now : ℕ) (peers : List ℕ) (blob : LocalBlob Hash Tree) (p : Pipeline Hash Tree)
      → upload_permits (assign_blob now peers blob p) ≡ upload_permits p
  unfolding assign_blob
  assign_blob-permits now [] blob p = refl
  assign_blob-permits now (peer ∷ peers) blob p =
      rw (length-append p.uploads _)
        (omega (arith, assign_loop-permits now (peer ∷ peers) p.upload_allowance 0 blob.chunks))

  pub assign_chunks-permits :
      (now : ℕ) (p : Pipeline Hash Tree) → upload_permits (assign_chunks now p) ≡ upload_permits p
  assign_chunks-permits now p = elim (assign_chunks-cases now p) [
    | inl same ↦ ap upload_permits same
    | inr (blob, busy, assigned) ↦
        ap upload_permits assigned ∙ assign_blob-permits now (eligible_peers now p) blob p
  ]

  pub handle_swarm-permits :
      (now : ℕ) (m : HandlerMessage) (p : Pipeline Hash Tree)
      → upload_permits (handle_swarm now m p) ≡ upload_permits p
  unfolding handle_swarm handle_response
  handle_swarm-permits now (would_store peer_id) p = refl
  handle_swarm-permits now (request peer_id request_id r channel) p = refl
  handle_swarm-permits now (response peer_id request_id (issued_storage_permit valid_for)) p =
      assign_chunks-permits now _
  handle_swarm-permits now (response peer_id request_id (Response.blob_meta id root chunks)) p =
      refl

  pub report_upload-permits :
      (now : ℕ) (task : UploadTask Hash) (r : UploadResult) (p : Pipeline Hash Tree)
      → upload_permits (report_upload now task r p) ≡ upload_permits p
  unfolding report_upload
  report_upload-permits now task pushed p = refl
  report_upload-permits now task push_failed p = refl
  report_upload-permits now task timed_out p = refl

  pub end_upload-permits :
      (now i : ℕ) (r : UploadResult) (p : Pipeline Hash Tree)
      → upload_permits (end_upload now i r p) ≡ upload_permits p
  unfolding end_upload
  end_upload-permits now i r p = elim (Option-cases (take_task i p.uploads)) [
    | inl none' ↦ rw (none', end_upload) refl
    | inr ((task, others), found) ↦
        rw (found, end_upload)
          (report_upload-permits now task r _
            ∙ omega (arith, take_task-length i p.uploads task others found))
  ]

  -- What `o` holds, if it holds a pipeline, has `n` permits.
  abbrev pub Holds : ℕ → Option (Pipeline Hash Tree) → Type 0
  Holds n none = Unit {0}
  Holds n (some p) = upload_permits p ≡ n

  pub finish_blob-Holds :
      (now : ℕ) (blob : LocalBlob Hash Tree) (p : Pipeline Hash Tree)
      → Holds (upload_permits p) (finish_blob now blob p)
  unfolding finish_blob archive_cur_blob
  finish_blob-Holds now blob p = elim (Option-cases p.current_blob) [
    | inl idle ↦ rw (idle, finish_blob, archive_cur_blob) tt
    | inr (b, busy) ↦ rw (busy, finish_blob, archive_cur_blob) (begin_next_blob-permits now _)
  ]

  pub Holds-assign :
      (now n : ℕ) (o : Option (Pipeline Hash Tree))
      → Holds n o
      → Holds n (elim o [ none ↦ none | some p ↦ some (assign_chunks now p) ])
  Holds-assign now n none h = tt
  Holds-assign now n (some p) h = assign_chunks-permits now p ∙ h

  pub after_update-Holds :
      (now : ℕ) (status : ChunkUploadStatus) (blob : LocalBlob Hash Tree) (p : Pipeline Hash Tree)
      → Holds (upload_permits p) (after_update now status blob p)
  unfolding after_update
  after_update-Holds now pending blob p = refl
  after_update-Holds now (inflight to) blob p = refl
  after_update-Holds now (finalized owner) blob p = elim (Bool-cases (all_finalized blob.chunks)) [
    | inl all' ↦
        rw (all', after_update)
          (Holds-assign now (upload_permits p) (finish_blob now blob p)
            (finish_blob-Holds now blob p))
    | inr some' ↦ rw (some', after_update) (assign_chunks-permits now p)
  ]

module _ {Hash Tree : Type 0} ⦃hash_eq : Eq Hash⦄ where
  pub update_status_of-Holds :
      (now : ℕ) (hash : Hash) (status : ChunkUploadStatus) (p : Pipeline Hash Tree)
      → Holds (upload_permits p) (update_status_of now hash status p)
  unfolding update_status_of
  update_status_of-Holds now hash status p = elim (Option-cases p.current_blob) [
    | inl idle ↦ rw (idle, update_status_of) refl
    | inr (blob, busy) ↦ elim (Option-cases (lookup hash blob.chunks)) [
      | inl absent ↦ rw (busy, absent, update_status_of) refl
      | inr (c, found) ↦ rw (busy, found, update_status_of) (after_update-Holds now status _ _)
    ]
  ]

  pub handle_internal-Holds :
      (now : ℕ) (messages : List (InternalMessage Hash)) (p : Pipeline Hash Tree)
      → Holds (upload_permits p) (handle_internal now messages p)
  unfolding handle_internal
  handle_internal-Holds now [] p = refl
  handle_internal-Holds now (update_chunk_status hash status at ∷ rest) p =
      update_status_of-Holds now hash status _
