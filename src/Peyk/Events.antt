-- ===== src/Peyk/Events.antt =====
-- crates/peyk/src/blob_transfer.rs: what the transfers report on their channels. A peer is named by
-- a number, which is only compared.
use gozara.Base.{ℕ, List, Bool}

pub data Direction : Type 0 where
  push_direction pull_direction : Direction

pub record TransferEvent (Hash : Type 0) : Type 0 where
  pub peer : ℕ
  pub hash : Hash
  pub len : ℕ
  pub direction : Direction
  pub ok : Bool

pub record IncomingPush (Hash : Type 0) : Type 0 where
  pub peer : ℕ
  pub hash : Hash
  pub payload : List ℕ

-- The sender of the reply is the consumer's function, an argument of `handle_incoming_pull`.
pub record IncomingPull (Hash : Type 0) : Type 0 where
  pub peer : ℕ
  pub hash : Hash
