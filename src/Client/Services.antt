-- ===== src/Client/Services.antt =====
-- What the client takes from code outside the repository: the crates blake3, rs_merkle, mti and http,
-- the tokio runtime, and the constant CHUNK_SIZE of the missing module admission.rs.
use gozara.Base.{ℕ, ◌<◌, ◌≢◌, String, List, ◌∷◌, Bool, Option, none}
use gozara.Peyk.Blake3.{Blake3}

pub record Services (Hash Tree : Type 0) : Type 0 where
  pub b3 : Blake3 Hash
  -- `MerkleTree::from_leaves` and `root`: a tree with a leaf has a root.
  pub from_leaves : List Hash → Tree
  pub root : Tree → Option Hash
  pub root-from_leaves : (h : Hash) (hs : List Hash) → root (from_leaves (h ∷ hs)) ≢ none
  -- `MagicTypeId::from_str(..)` and the text of the id that it accepts.
  pub parse_id : String → Option String
  -- `HeaderValue::to_str`, over bytes.
  pub to_str : List ℕ → Option (List ℕ)
  -- Whether the blocking task that hashes these bytes ends without a panic.
  pub runs : List ℕ → Bool
  pub chunk_size : ℕ
  pub chunk_size_pos : 0 < chunk_size
