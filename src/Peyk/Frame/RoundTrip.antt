-- ===== src/Peyk/Frame/RoundTrip.antt =====
-- What `write_frame` puts out, `read_frame` takes back.
use gozara.Base.{
  ℕ, ◌+◌, ◌-◌, ◌^◌, ◌≤◌, ◌<◌, ◌≡◌, refl, ap, ◌∙◌, List, ◌++◌, length, length-append,
  take-append_exact, drop-append_exact, append_assoc, take, drop, arith,
}
use gozara.Peyk.Link.{Link, done, read_exact, write_all}
use gozara.Peyk.Frame.{to_be_bytes, from_be_bytes, write_frame, read_frame}

-- The bytes of a frame.
abbrev pub frame : List ℕ → List ℕ
frame bytes = to_be_bytes (length bytes) ++ bytes

pub from_be_bytes-to_be_bytes : (n : ℕ) → n < 2 ^ 32 → from_be_bytes (to_be_bytes n) ≡ n
unfolding from_be_bytes to_be_bytes
from_be_bytes-to_be_bytes n h = omega arith

pub length-to_be_bytes : (n : ℕ) → length (to_be_bytes n) ≡ 4
unfolding to_be_bytes
length-to_be_bytes n = refl

pub length-frame : (bytes : List ℕ) → length (frame bytes) ≡ 4 + length bytes
length-frame bytes =
    omega
      (arith, length-append (to_be_bytes (length bytes)) bytes, length-to_be_bytes (length bytes))

module _ {M : Type 0} where
  pub read_exact-append :
      (bytes rest : List ℕ) (n : ℕ) (s : Link M)
      → length bytes ≡ n
      → s.input ≡ bytes ++ rest
      → read_exact n s ≡ done bytes (record s { input = rest })
  unfolding read_exact
  read_exact-append bytes rest n s hn hs = ground (
    arith,
    length-append bytes rest,
    ap length hs,
    take-append_exact n bytes rest hn,
    drop-append_exact n bytes rest hn,
    ap (take n) hs,
    ap (drop n) hs,
  )

  pub write_all_fits :
      (bytes : List ℕ) (s : Link M)
      → length bytes ≤ s.room
      → write_all bytes s
        ≡ done tt (record s { output = s.output ++ bytes; room = s.room - length bytes })
  unfolding write_all
  write_all_fits bytes s h = ground arith

  pub write_frame_fits :
      (bytes : List ℕ) (s : Link M)
      → length bytes < 2 ^ 32
      → 4 + length bytes ≤ s.room
      → write_frame bytes s
        ≡ done tt
            (record s { output = s.output ++ frame bytes; room = s.room - (4 + length bytes) })
  unfolding write_frame
  write_frame_fits bytes s h hr = ground (
    arith,
    length-to_be_bytes (length bytes),
    write_all_fits (to_be_bytes (length bytes)) s,
    write_all_fits bytes
        (record s { output = s.output ++ to_be_bytes (length bytes); room = s.room - 4 }),
    append_assoc s.output (to_be_bytes (length bytes)) bytes,
  )

  -- A frame of fewer than 2 ^ 32 bytes and no more than the limit, with any bytes behind it,
  -- is read back by `read_frame` as its bytes, and the bytes behind it are left in the input.
  pub read_frame-frame :
      (bytes rest : List ℕ) (max_len : ℕ) (s : Link M)
      → length bytes < 2 ^ 32
      → length bytes ≤ max_len
      → s.input ≡ frame bytes ++ rest
      → read_frame max_len s ≡ done bytes (record s { input = rest })
  unfolding read_frame
  read_frame-frame bytes rest max_len s h hm hs = ground (
    arith,
    read_exact-append (to_be_bytes (length bytes)) (bytes ++ rest) 4 s
        (length-to_be_bytes (length bytes)) (hs ∙ append_assoc _ bytes rest),
    from_be_bytes-to_be_bytes (length bytes) h,
    read_exact-append bytes rest (length bytes) (record s { input = bytes ++ rest }) refl refl,
  )
