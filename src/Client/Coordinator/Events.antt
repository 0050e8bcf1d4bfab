-- ===== src/Client/Coordinator/Events.antt =====
-- bin/client/src/coordinator.rs, `run`: the loop over what the pipeline receives.
use gozara.Base.{
  ℕ, suc, zero, ◌+◌, List, [], ◌∷◌, ◌++◌, Bool, true, false, Option, none, some, ltb, filter,
  replicate, all, Eq, nat_eq, string_eq, if◌then◌else◌,
}
use gozara.Base.Maps.{insert, lookup, modify}
use gozara.Base.Time.{secs_since, checked_add_secs}
use gozara.Peyk.Protocol.{
  HandlerMessage, would_store, request, response, Response, issued_storage_permit,
}
use gozara.Peyk.Events.{IncomingPush, IncomingPull, TransferEvent}
use gozara.Client.Messages.{ToPipeline, Status, update_status}
use gozara.Client.Services.{Services}
use gozara.Client.Coordinator.{
  ChunkUploadStatus, pending, inflight, finalized, Chunk, InternalMessage, update_chunk_status,
  LocalBlob, RemoteBlob, UploadTask, Pipeline, archive_cur_blob, request_storage_permits,
  begin_next_blob, add_local_blob, storage_provider_decay,
}
use gozara.Client.Coordinator.Assign.{assign_chunks}

-- How the push of an upload task ends: `Ok(Ok(_))`, `Ok(Err(_))` or the elapsed timeout.
pub data UploadResult : Type 0 where
  pushed push_failed timed_out : UploadResult

-- One round of `select!`: the branch that is taken, with the clock. `ended i r` is no branch: the
-- `i`-th upload task ends with `r`. `closed` is a channel whose senders are gone.
pub data Event (Hash Tree : Type 0) : Type 0 where
  shutdown_requested : Event Hash Tree
  stale_tick : Event Hash Tree
  assign_tick : Event Hash Tree
  handler : HandlerMessage → Event Hash Tree
  admission : ToPipeline Hash Tree → Event Hash Tree
  internal : Event Hash Tree
  incoming_push : IncomingPush Hash → Event Hash Tree
  incoming_pull : IncomingPull Hash → Event Hash Tree
  transfer : TransferEvent Hash → Event Hash Tree
  closed : Event Hash Tree
  ended : ℕ → UploadResult → Event Hash Tree

-- The loop goes on, has left by `break`, or has panicked.
pub data Loop (Hash Tree : Type 0) : Type 0 where
  running : Pipeline Hash Tree → Loop Hash Tree
  stopped : Pipeline Hash Tree → Loop Hash Tree
  panicked : Loop Hash Tree

abbrev pub is_finalized : Chunk → Bool
is_finalized c = elim c.status.status [ finalized owner ↦ true | _ ↦ false ]

abbrev pub all_finalized {ℓ} : {K : Type ℓ} → List (K × Chunk) → Bool
all_finalized chunks = all (λ p. is_finalized p.1) chunks

module _ {Hash : Type 0} where
  -- The `i`-th task of a list, and the others.
  abbrev pub take_task :
      ℕ → List (UploadTask Hash) → Option (UploadTask Hash × List (UploadTask Hash))
  take_task i [] = none
  take_task zero (t ∷ ts) = some (t, ts)
  take_task (suc i) (t ∷ ts) = elim (take_task i ts) [
    | none ↦ none
    | some (u, us) ↦ some (u, t ∷ us)
  ]

module _ {Hash Tree : Type 0} where
  unfoldable pub stale : ℕ → Pipeline Hash Tree → Pipeline Hash Tree
  stale now p =
      let p' = record p {
        storage_provider_hints =
            filter (λ h. ltb (secs_since now h.1) storage_provider_decay) p.storage_provider_hints;
      } in
      elim p.current_blob [ some _ ↦ request_storage_permits now p' | none ↦ p' ]

  unfoldable pub handle_response : ℕ → ℕ → Response → Pipeline Hash Tree → Pipeline Hash Tree
  handle_response now peer_id (issued_storage_permit valid_for) p =
      let expires_at : ℕ = elim (checked_add_secs now valid_for) [ some t ↦ t | none ↦ now ] in
      assign_chunks now (record p { storage_permits = insert peer_id expires_at p.storage_permits })
  handle_response now peer_id (Response.blob_meta id root chunks) p = p

  unfoldable pub handle_swarm : ℕ → HandlerMessage → Pipeline Hash Tree → Pipeline Hash Tree
  handle_swarm now (would_store peer_id) p = record p {
    storage_provider_hints = insert peer_id now p.storage_provider_hints;
  }
  handle_swarm now (request peer_id request_id r channel) p = p
  handle_swarm now (response peer_id request_id r) p = handle_response now peer_id r p

  -- The blob is stored globally: the bridge is told, and the next blob begins.
  unfoldable pub finish_blob :
      ℕ → LocalBlob Hash Tree → Pipeline Hash Tree → Option (Pipeline Hash Tree)
  finish_blob now blob p =
      let told = record p {
        tx_bridge =
            if p.bridge_open
            then p.tx_bridge ++ update_status blob.id Status.finalized ∷ []
            else p.tx_bridge;
      } in
      elim (archive_cur_blob told) [ none ↦ none | some p' ↦ some (begin_next_blob now p') ]

  -- After the chunk's status is set.
  unfoldable pub after_update :
      ℕ → ChunkUploadStatus → LocalBlob Hash Tree → Pipeline Hash Tree → Option (Pipeline Hash Tree)
  after_update now pending blob p = some p
  after_update now (inflight to) blob p = some p
  after_update now (finalized owner) blob p =
      let finished = if all_finalized blob.chunks then finish_blob now blob p else some p in
      elim finished [ none ↦ none | some p' ↦ some (assign_chunks now p') ]

  -- The end of an upload task: its permit is free, and a message follows unless it timed out.
  unfoldable pub report_upload :
      ℕ → UploadTask Hash → UploadResult → Pipeline Hash Tree → Pipeline Hash Tree
  report_upload now task pushed p = record p {
    rx_internal = p.rx_internal ++ update_chunk_status task.hash (finalized task.peer) now ∷ [];
  }
  report_upload now task push_failed p = record p {
    rx_internal = p.rx_internal ++ update_chunk_status task.hash pending now ∷ [];
  }
  report_upload now task timed_out p = p

  unfoldable pub end_upload : ℕ → ℕ → UploadResult → Pipeline Hash Tree → Pipeline Hash Tree
  end_upload now i r p = elim (take_task i p.uploads) [
    | none ↦ p
    | some (task, others) ↦
        report_upload now task r
          (record p { uploads = others; upload_allowance = p.upload_allowance + 1 })
  ]

module _ {Hash Tree : Type 0} ⦃hash_eq : Eq Hash⦄ where
  unfoldable pub update_status_of :
      ℕ → Hash → ChunkUploadStatus → Pipeline Hash Tree → Option (Pipeline Hash Tree)
  update_status_of now hash status p = elim p.current_blob [
    | none ↦ some p
    | some blob ↦ elim (lookup hash blob.chunks) [
      | none ↦ some p
      | some _ ↦
          let set_status =
            λ (c : Chunk). record c { status = record { at = now; status = status } } in
          let blob' = record blob { chunks = modify hash set_status blob.chunks } in
          after_update now status blob' (record p { current_blob = some blob' })
    ]
  ]

  unfoldable pub handle_internal :
      ℕ → List (InternalMessage Hash) → Pipeline Hash Tree → Option (Pipeline Hash Tree)
  handle_internal now [] p = some p
  handle_internal now (update_chunk_status hash status at ∷ rest) p =
      update_status_of now hash status (record p { rx_internal = rest })

module _ {Hash Tree : Type 0} ⦃hash_eq : Eq Hash⦄ (services : Services Hash Tree) where
  unfoldable pub handle_admission :
      ℕ → ToPipeline Hash Tree → Pipeline Hash Tree → Pipeline Hash Tree
  handle_admission now (ToPipeline.get_blob id) p =
      let remote : RemoteBlob Hash = record {
        root_hash = services.b3.from_bytes (replicate 32 0);
        chunk_hashes = [];
        chunks = [];
      } in
      record p { remote_blobs = insert id remote p.remote_blobs }
  handle_admission now (ToPipeline.new_blob blob) p =
      begin_next_blob now (add_local_blob now blob p)

  unfoldable pub step : Pipeline Hash Tree → ℕ → Event Hash Tree → Loop Hash Tree
  step p now shutdown_requested = stopped p
  step p now closed = stopped p
  step p now stale_tick = running (stale now p)
  step p now assign_tick = running (assign_chunks now p)
  step p now (handler m) = running (handle_swarm now m p)
  step p now (admission m) = running (handle_admission now m p)
  step p now internal = elim (handle_internal now p.rx_internal p) [
    | none ↦ panicked
    | some p' ↦ running p'
  ]
  step p now (incoming_push push) = running p
  step p now (incoming_pull pull) = running p
  step p now (transfer e) = running p
  step p now (ended i r) = running (end_upload now i r p)

  -- The loop over a history of timed events.
  unfoldable pub run : Pipeline Hash Tree → List (ℕ × Event Hash Tree) → Loop Hash Tree
  run p [] = running p
  run p ((now, e) ∷ rest) = elim (step p now e) [
    | running p' ↦ run p' rest
    | stopped p' ↦ stopped p'
    | panicked ↦ panicked
  ]
