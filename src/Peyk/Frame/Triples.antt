-- ===== src/Peyk/Frame/Triples.antt =====
-- `read_frame` and `write_frame` report nothing, and a frame that is read is within its limit.
use gozara.Base.{ℕ, ◌≤◌, List, length, arith, ltb, Bool-cases, inl, inr, ◌^◌}
use gozara.Peyk.Link.{read_exact, write_all}
use gozara.Peyk.Link.Triple.{Triple, Triple-bind, read_exact-Triple, write_all-Triple}
use gozara.Peyk.Frame.{read_frame, write_frame, from_be_bytes, to_be_bytes}

module _ {M : Type 0} (pre : List M → Type 0) where
  pub read_frame-Triple :
      (max_len : ℕ)
      → Triple pre (read_frame max_len) (λ bytes l. (length bytes ≤ max_len) × pre l) pre
  unfolding read_frame
  read_frame-Triple max_len =
      Triple-bind pre _ (λ bytes l. (length bytes ≤ max_len) × pre l) pre (read_exact 4) _
        (read_exact-Triple pre 4)
        λ header s h. elim (Bool-cases (ltb max_len (from_be_bytes header))) [
          | inl over ↦ rw over h.1
          | inr within ↦
              let got = read_exact-Triple pre (from_be_bytes header) s h.1 in ground (arith, got)
        ]

  pub write_frame-Triple : (bytes : List ℕ) → Triple pre (write_frame bytes) (λ _. pre) pre
  unfolding write_frame
  write_frame-Triple bytes s h = elim (Bool-cases (ltb (length bytes) (2 ^ 32))) [
    | inl fits ↦ rw fits (
        Triple-bind pre (λ _. pre) (λ _. pre) pre (write_all (to_be_bytes (length bytes))) _
          (write_all-Triple pre _) (λ _. write_all-Triple pre bytes) s h)
    | inr long ↦ rw long h
  ]
