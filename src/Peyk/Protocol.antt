-- ===== src/Peyk/Protocol.antt =====
-- crates/peyk/src/protocol.rs and the messages of crates/peyk/src/lib.rs. Peers, requests and response
-- channels are named by numbers, which are only compared and passed on.
use gozara.Base.{ℕ, String, List}

pub data Request : Type 0 where
  storage_permit : Request
  blob_meta : String → Request

-- `issued_storage_permit valid_for`, in seconds; `blob_meta id root_hash chunks`, each chunk a hash
-- with its owner.
pub data Response : Type 0 where
  issued_storage_permit : ℕ → Response
  blob_meta : String → List ℕ → List (List ℕ × ℕ) → Response

pub data SwarmMessage : Type 0 where
  request_storage_permits : List ℕ → SwarmMessage

-- `would_store peer_id`, `request peer_id request_id request channel` and
-- `response peer_id request_id response`.
pub data HandlerMessage : Type 0 where
  would_store : ℕ → HandlerMessage
  request : ℕ → ℕ → Request → ℕ → HandlerMessage
  response : ℕ → ℕ → Response → HandlerMessage
