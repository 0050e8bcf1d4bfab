-- ===== src/Client/Coordinator/Assign.antt =====
-- bin/client/src/coordinator.rs, `assign_chunks`: the chunks that are due go to the peers in turn.
pub mod Turns
pub mod Peers
use gozara.Base.{
  ℕ, suc, ◌+◌, ◌-◌, ◌%◌, String, List, [], ◌∷◌, ◌++◌, map, Bool, true, false, not, Option, none,
  some, ltb, filter, is_empty, length, get_or, ◌==◌, nat_eq, if◌then◌else◌,
}
use gozara.Base.Time.{secs_since}
use gozara.Client.Coordinator.{
  ChunkUploadStatus, pending, inflight, finalized, Chunk, LocalBlob, UploadTask, Pipeline,
  unexpired, chunk_upload_window,
}

-- What the loop leaves: the chunks, the tasks that it has spawned, and the permits that are left.
pub record Assigned (Hash : Type 0) : Type 0 where
  pub chunks : List (Hash × Chunk)
  pub uploads : List (UploadTask Hash)
  pub permits : ℕ

-- The closure `is_eligible`, by the chunk's status and its instant.
unfoldable pub is_due : ℕ → ℕ → ChunkUploadStatus → Bool
is_due now at pending = true
is_due now at (inflight to) = ltb chunk_upload_window (secs_since now at)
is_due now at (finalized owner) = false

unfoldable pub is_eligible : ℕ → Chunk → Bool
is_eligible now c = is_due now c.status.at c.status.status

module _ {Hash : Type 0} where
  -- The loop over the chunks in the map's order. `left` is what `take` still lets through, and
  -- `permits` what `try_acquire_owned` may still take.
  unfoldable pub assign_loop : ℕ → List ℕ → ℕ → ℕ → ℕ → List (Hash × Chunk) → Assigned Hash
  assign_loop now peers left permits peer_index [] = record {
    chunks = [];
    uploads = [];
    permits = permits;
  }
  assign_loop now peers left permits peer_index ((hash, chunk) ∷ rest) =
      let passed = assign_loop now peers left permits peer_index rest in
      let next =
        assign_loop now peers (left - 1) (permits - 1) ((peer_index + 1) % length peers) rest in
      let peer = get_or peers peer_index 0 in
      if not (is_eligible now chunk)
      then record passed { chunks = (hash, chunk) ∷ passed.chunks }
      else if left == 0
      then record { chunks = (hash, chunk) ∷ rest; uploads = []; permits = permits }
      else if permits == 0
      then record { chunks = (hash, chunk) ∷ rest; uploads = []; permits = permits }
      else record {
        chunks =
            (hash, record chunk { status = record { at = now; status = inflight peer } })
            ∷ next.chunks;
        uploads =
            record { hash = hash; peer = peer; payload = chunk.payload; started = now }
            ∷ next.uploads;
        permits = next.permits;
      }

module _ {Hash Tree : Type 0} where
  -- The peers whose permit is still good.
  abbrev pub eligible_peers : ℕ → Pipeline Hash Tree → List ℕ
  eligible_peers now p = map (λ q. q.0) (unexpired now p.storage_permits)

  -- `assign_chunks`, with a current blob.
  unfoldable pub assign_blob :
      ℕ → List ℕ → LocalBlob Hash Tree → Pipeline Hash Tree → Pipeline Hash Tree
  assign_blob now [] blob p = p
  assign_blob now (peer ∷ peers) blob p =
      let done =
        assign_loop now (peer ∷ peers) p.upload_allowance p.upload_allowance 0 blob.chunks in
      record p {
        current_blob = some (record blob { chunks = done.chunks });
        uploads = p.uploads ++ done.uploads;
        upload_allowance = done.permits;
      }

  unfoldable pub assign_chunks : ℕ → Pipeline Hash Tree → Pipeline Hash Tree
  assign_chunks now p = if p.upload_allowance == 0 then p else (elim p.current_blob [
    | none ↦ p
    | some blob ↦ assign_blob now (eligible_peers now p) blob p
  ])
