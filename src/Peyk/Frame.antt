-- ===== src/Peyk/Frame.antt =====
-- crates/peyk/src/blob_transfer.rs, `write_frame` and `read_frame`: bytes behind a 32-bit length.
pub mod RoundTrip
pub mod Bounds
pub mod Triples
use gozara.Base.{ℕ, ◌+◌, ◌*◌, ◌/◌, ◌%◌, ◌^◌, List, [], ◌∷◌, ltb, length, if◌then◌else◌}
use gozara.Peyk.Link.{
  Io, ◌>>=◌, ◌>>◌, return, throw, write_all, read_exact, len_exceeds_u32, frame_exceeds_limit,
}

-- `u32::to_be_bytes` and `u32::from_be_bytes`.
unfoldable pub to_be_bytes : ℕ → List ℕ
to_be_bytes n = (n / 2 ^ 24 % 256) ∷ (n / 2 ^ 16 % 256) ∷ (n / 2 ^ 8 % 256) ∷ (n % 256) ∷ []

from_digits : ℕ → List ℕ → ℕ
from_digits acc [] = acc
from_digits acc (b ∷ bs) = from_digits (acc * 256 + b) bs

unfoldable pub from_be_bytes : List ℕ → ℕ
unfolding from_digits
from_be_bytes bs = from_digits 0 bs

module _ {M : Type 0} where
  unfoldable pub write_frame : List ℕ → Io M (Unit {0})
  write_frame bytes =
      if ltb (length bytes) (2 ^ 32)
      then (do write_all (to_be_bytes (length bytes)); write_all bytes)
      else throw len_exceeds_u32

  unfoldable pub read_frame : ℕ → Io M (List ℕ)
  read_frame max_len = do
    len_buf ← read_exact 4
    let len = from_be_bytes len_buf
    if ltb max_len len then throw (frame_exceeds_limit len max_len) else read_exact len
