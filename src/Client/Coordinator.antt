-- ===== src/Client/Coordinator.antt =====
-- bin/client/src/coordinator.rs: the state of the pipeline and its methods. An instant is an argument:
-- the clock readings of one handler are one.
pub mod Assign
pub mod Events
pub mod Order
pub mod Permits
pub mod Starved
use gozara.Base.{
  ℕ, ◌+◌, String, List, [], ◌∷◌, ◌++◌, map, Bool, true, false, Option, none, some, ltb, filter,
  is_empty, replicate, Eq, nat_eq, if◌then◌else◌,
}
use gozara.Base.Maps.{insert}
use gozara.Base.Time.{secs_since}
use gozara.Peyk.Protocol.{SwarmMessage}
use gozara.Client.Messages.{AdmittedBlob, ToBridge}
use gozara.Client.Services.{Services}

abbrev pub chunk_upload_window : ℕ
chunk_upload_window = 30

abbrev pub storage_provider_decay : ℕ
storage_provider_decay = 300

pub data ChunkUploadStatus : Type 0 where
  pending : ChunkUploadStatus
  inflight : ℕ → ChunkUploadStatus
  finalized : ℕ → ChunkUploadStatus

pub record TimestampedStatus : Type 0 where
  pub at : ℕ
  pub status : ChunkUploadStatus

pub record Chunk : Type 0 where
  pub payload : List ℕ
  pub status : TimestampedStatus

pub data InternalMessage (Hash : Type 0) : Type 0 where
  update_chunk_status : Hash → ChunkUploadStatus → ℕ → InternalMessage Hash

pub record LocalBlob (Hash Tree : Type 0) : Type 0 where
  pub id : String
  pub root_hash : Hash
  pub merkle_tree : Tree
  pub chunks : List (Hash × Chunk)
  pub allowance : ℕ
  pub created_at : ℕ

pub record RemoteBlob (Hash : Type 0) : Type 0 where
  pub root_hash : Hash
  pub chunk_hashes : List Hash
  pub chunks : List (Hash × List ℕ)

-- A spawned task that pushes a chunk, and holds a permit of `upload_allowance` until it ends.
pub record UploadTask (Hash : Type 0) : Type 0 where
  pub hash : Hash
  pub peer : ℕ
  pub payload : List ℕ
  pub started : ℕ

-- Beside the fields of the source: `rx_internal` holds the internal messages not yet received,
-- `tx_swarm` and `tx_bridge` what was sent, `uploads` the running tasks, and `returned` counts the
-- admission permits that dropped blobs have given back. `bridge_open` says whether the bridge still
-- receives.
pub record Pipeline (Hash Tree : Type 0) : Type 0 where
  pub remote_blobs : List (String × RemoteBlob Hash)
  pub pending_local_blobs : List (LocalBlob Hash Tree)
  pub current_blob : Option (LocalBlob Hash Tree)
  pub storage_provider_hints : List (ℕ × ℕ)
  pub storage_permits : List (ℕ × ℕ)
  pub rx_internal : List (InternalMessage Hash)
  pub tx_swarm : List SwarmMessage
  pub tx_bridge : List ToBridge
  pub bridge_open : Bool
  pub uploads : List (UploadTask Hash)
  pub returned : ℕ
  pub download_allowance : ℕ
  pub upload_allowance : ℕ

-- `retain(|_, expires_at| *expires_at > now)`
abbrev pub unexpired : ℕ → List (ℕ × ℕ) → List (ℕ × ℕ)
unexpired now permits = filter (λ p. ltb now p.1) permits

module _ {Hash Tree : Type 0} where
  unfoldable pub pipeline_new : Pipeline Hash Tree
  pipeline_new = record {
    remote_blobs = [];
    pending_local_blobs = [];
    current_blob = none;
    storage_provider_hints = [];
    storage_permits = [];
    rx_internal = [];
    tx_swarm = [];
    tx_bridge = [];
    bridge_open = true;
    uploads = [];
    returned = 0;
    download_allowance = 32;
    upload_allowance = 20;
  }

  -- `None` is the panic of `take().unwrap()`. The blob is dropped, and its permits go back.
  unfoldable pub archive_cur_blob : Pipeline Hash Tree → Option (Pipeline Hash Tree)
  archive_cur_blob p = elim p.current_blob [
    | none ↦ none
    | some blob ↦ some (record p { current_blob = none; returned = p.returned + blob.allowance })
  ]

  unfoldable pub request_storage_permits : ℕ → Pipeline Hash Tree → Pipeline Hash Tree
  request_storage_permits now p =
      let permits = unexpired now p.storage_permits in
      if is_empty p.storage_provider_hints
      then p
      else if is_empty permits
      then record p {
        storage_permits = permits;
        tx_swarm =
            p.tx_swarm
            ++ SwarmMessage.request_storage_permits (map (λ h. h.0) p.storage_provider_hints) ∷ [];
      }
      else record p { storage_permits = permits }

  -- `begin_next_blob`, once no blob is current.
  unfoldable pub pop_blob : ℕ → List (LocalBlob Hash Tree) → Pipeline Hash Tree → Pipeline Hash Tree
  pop_blob now [] p = record p { current_blob = none; pending_local_blobs = [] }
  pop_blob now (blob ∷ rest) p =
      request_storage_permits now
        (record p { current_blob = some blob; pending_local_blobs = rest })

  unfoldable pub begin_next_blob : ℕ → Pipeline Hash Tree → Pipeline Hash Tree
  begin_next_blob now p = elim p.current_blob [
    | some _ ↦ p
    | none ↦ pop_blob now p.pending_local_blobs p
  ]

module _ {Hash : Type 0} ⦃hash_eq : Eq Hash⦄ where
  -- `collect()` into a `HashMap`: of two chunks with one hash the later stays.
  unfoldable pub collect_chunks :
      ℕ → List (Hash × List ℕ) → List (Hash × Chunk) → List (Hash × Chunk)
  collect_chunks now [] chunks_map = chunks_map
  collect_chunks now ((hash, payload) ∷ rest) chunks_map =
      let chunk : Chunk = record {
        payload = payload;
        status = record { status = pending; at = now };
      } in
      collect_chunks now rest (insert hash chunk chunks_map)

module _ {Hash Tree : Type 0} ⦃hash_eq : Eq Hash⦄ where
  unfoldable pub add_local_blob :
      ℕ → AdmittedBlob Hash Tree → Pipeline Hash Tree → Pipeline Hash Tree
  add_local_blob now admitted_blob p =
      let blob : LocalBlob Hash Tree = record {
        id = admitted_blob.id;
        root_hash = admitted_blob.root_hash;
        merkle_tree = admitted_blob.merkle_tree;
        chunks = collect_chunks now admitted_blob.chunks [];
        allowance = admitted_blob.allowance;
        created_at = now;
      } in
      record p { pending_local_blobs = p.pending_local_blobs ++ blob ∷ [] }
