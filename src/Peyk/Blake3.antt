-- ===== src/Peyk/Blake3.antt =====
-- The blake3 crate, which is not part of the repository: its operations, and what it documents.
use gozara.Base.{ℕ, ◌≡◌, List, Option, some, length}

pub record Blake3 (Hash : Type 0) : Type 0 where
  -- `blake3::hash`, `Hash::as_slice`, `Hash::from_slice`, `From<[u8; 32]>` and the hexadecimal text.
  pub hash : List ℕ → Hash
  pub as_slice : Hash → List ℕ
  pub from_slice : List ℕ → Option Hash
  pub from_bytes : List ℕ → Hash
  pub to_hex : Hash → List ℕ
  pub length-as_slice : (h : Hash) → length (as_slice h) ≡ 32
  pub from_slice-as_slice : (h : Hash) → from_slice (as_slice h) ≡ some h
  pub as_slice-from_slice :
      (bytes : List ℕ) (h : Hash) → from_slice bytes ≡ some h → as_slice h ≡ bytes
  pub length-to_hex : (h : Hash) → length (to_hex h) ≡ 64
