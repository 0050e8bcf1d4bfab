-- ===== src/Examples/Instances.antt =====
-- A toy hash, tree and id format in the place of the crates, for runs on concrete inputs.
use gozara.Base.{
  ℕ, zero, suc, ◌≡◌, ◌≢◌, refl, ap, List, [], ◌∷◌, Bool, true, false, ◌&&◌, Option, none, some,
  length, replicate, sum, arith, ◌==◌, nat_eq, string_eq, if◌then◌else◌, Bool-cases, inl, inr,
}
use gozara.Peyk.Blake3.{Blake3}
use gozara.Client.Services.{Services}

abbrev pub are_zeros : ℕ → List ℕ → Bool
are_zeros zero [] = true
are_zeros zero (b ∷ bs) = false
are_zeros (suc n) [] = false
are_zeros (suc n) (b ∷ bs) = (b == 0) && are_zeros n bs

are_zeros-replicate : (n : ℕ) → are_zeros n (replicate n 0) ≡ true
are_zeros-replicate zero = refl
are_zeros-replicate (suc n) = are_zeros-replicate n

are_zeros-eq : (n : ℕ) (l : List ℕ) → are_zeros n l ≡ true → replicate n 0 ≡ l
are_zeros-eq zero [] h = refl
are_zeros-eq zero (b ∷ bs) h = absurd (ground arith)
are_zeros-eq (suc n) [] h = absurd (ground arith)
are_zeros-eq (suc n) (b ∷ bs) h = ground (arith, are_zeros-eq n bs)

length-replicate : (n a : ℕ) → length (replicate n a) ≡ n
length-replicate zero a = refl
length-replicate (suc n) a = ap suc (length-replicate n a)

abbrev pub toy_from_slice : List ℕ → Option ℕ
toy_from_slice [] = none
toy_from_slice (b ∷ bs) = if are_zeros 31 bs then some b else none

pub toy_as_slice-from_slice :
    (bytes : List ℕ) (h : ℕ) → toy_from_slice bytes ≡ some h → h ∷ replicate 31 0 ≡ bytes
toy_as_slice-from_slice [] h e = absurd (ground arith)
toy_as_slice-from_slice (b ∷ bs) h e = elim (Bool-cases (are_zeros 31 bs)) [
  | inl zeros ↦ ground (arith, are_zeros-eq 31 bs zeros)
  | inr others ↦ absurd (ground arith)
]

-- A hash is the sum of the bytes, and its text is of the hash's size.
abbrev pub toy_blake3 : Blake3 ℕ
toy_blake3 = record {
  hash = sum;
  as_slice = λ h. h ∷ replicate 31 0;
  from_slice = toy_from_slice;
  from_bytes = sum;
  to_hex = λ h. replicate 64 b'0';
  length-as_slice = λ h. refl;
  from_slice-as_slice = λ h. refl;
  as_slice-from_slice = toy_as_slice-from_slice;
  length-to_hex = λ h. refl;
}

abbrev pub toy_root : List ℕ → Option ℕ
toy_root [] = none
toy_root (h ∷ hs) = some (sum (h ∷ hs))

pub toy_root-from_leaves : (h : ℕ) (hs : List ℕ) → toy_root (h ∷ hs) ≢ none
toy_root-from_leaves h hs e = ground arith

-- Chunks of four bytes; every id but the empty text is accepted.
abbrev pub toy_services : Services ℕ (List ℕ)
toy_services = record {
  b3 = toy_blake3;
  from_leaves = λ hs. hs;
  root = toy_root;
  root-from_leaves = toy_root-from_leaves;
  parse_id = λ id. if id == "" then none else some id;
  to_str = λ value. some value;
  runs = λ chunk. true;
  chunk_size = 4;
  chunk_size_pos = omega arith;
}
