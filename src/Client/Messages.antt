-- ===== src/Client/Messages.antt =====
-- The messages between the bridge and the coordinator. Their module, bin/client/src/admission.rs, is
-- not in the repository: these are the constructors and fields that bridge.rs and coordinator.rs
-- build and match on, in full.
use gozara.Base.{ℕ, String, List, Option}

pub data Status : Type 0 where
  pending finalized : Status
  failed : Option String → Status

-- `allowance` is the number of permits that the blob's semaphore permit holds.
pub record AdmittedBlob (Hash Tree : Type 0) : Type 0 where
  pub id : String
  pub root_hash : Hash
  pub merkle_tree : Tree
  pub chunks : List (Hash × List ℕ)
  pub allowance : ℕ

pub data ToPipeline (Hash Tree : Type 0) : Type 0 where
  get_blob : String → ToPipeline Hash Tree
  new_blob : AdmittedBlob Hash Tree → ToPipeline Hash Tree

pub data ToBridge : Type 0 where
  update_status : String → Status → ToBridge
