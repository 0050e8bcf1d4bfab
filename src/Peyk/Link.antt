-- ===== src/Peyk/Link.antt =====
-- One libp2p stream as a handler of crates/peyk/src/blob_transfer.rs sees it, with the channel on
-- which the handler reports: a state monad with failure over the bytes that come in and go out.
pub mod Bind
pub mod Triple
use gozara.Base.{
  ℕ, ◌+◌, ◌-◌, ◌≤◌, List, ◌∷◌, [], ◌++◌, Bool, true, false, Result, ok, err, length, take, drop,
  leb, if◌then◌else◌,
}

-- The errors that `eyre::Result` carries. A text that a peer sent is kept as its bytes, before the
-- lossy decoding; a hash is kept as its bytes.
pub data Error : Type 0 where
  open_stream : Error
  unexpected_eof : Error
  write_failed : Error
  close_failed : Error
  len_exceeds_u32 : Error
  frame_exceeds_limit : ℕ → ℕ → Error
  bad_hash : List ℕ → Error
  refused : List ℕ → Error
  hash_mismatch : List ℕ → List ℕ → Error

-- `input` is what the peer sends before it ends its side; the transport takes `room` more bytes from
-- us before it fails. `reachable` and `closes` say what opening and closing will answer. `sent` is
-- what went on the report channel, oldest first.
pub record Link (M : Type 0) : Type 0 where
  pub reachable : Bool
  pub input : List ℕ
  pub output : List ℕ
  pub room : ℕ
  pub closes : Bool
  pub closed : Bool
  pub sent : List M

-- An action ends with a value or with the error that `?` hands on; both leave a state.
pub data Outcome (M : Type 0) (A : Type 0) : Type 0 where
  done : A → Link M → Outcome M A
  fail : Error → Link M → Outcome M A

abbrev pub Io : Type 0 → Type 0 → Type 0
Io M A = Link M → Outcome M A

abbrev pub link_of : {M A : Type 0} → Outcome M A → Link M
link_of (done a s) = s
link_of (fail e s) = s

abbrev pub result_of : {M A : Type 0} → Outcome M A → Result Error A
result_of (done a s) = ok a
result_of (fail e s) = err e

abbrev pub return : {M A : Type 0} → A → Io M A
return a s = done a s

abbrev pub throw : {M A : Type 0} → Error → Io M A
throw e s = fail e s

infixl 5 ◌>>=◌ ◌>>◌
abbrev pub ◌>>=◌ : {M A B : Type 0} → Io M A → (A → Io M B) → Io M B
◌>>=◌ m f s = elim (m s) [ done a s' ↦ f a s' | fail e s' ↦ fail e s' ]

abbrev pub ◌>>◌ : {M A B : Type 0} → Io M A → Io M B → Io M B
m >> k = m >>= λ _. k

-- The result of an action as a value: what the code does with a `Result` that it does not hand on.
abbrev pub attempt : {M A : Type 0} → Io M A → Io M (Result Error A)
attempt m s = elim (m s) [ done a s' ↦ done (ok a) s' | fail e s' ↦ done (err e) s' ]

-- `Ok` or `Err` as the last expression of a function.
abbrev pub from_result : {M A : Type 0} → Result Error A → Io M A
from_result (ok a) s = done a s
from_result (err e) s = fail e s

unfoldable pub open_io : {M : Type 0} → Io M (Unit {0})
open_io s = if s.reachable then done tt s else fail open_stream s

-- A write that the transport breaks off has put out what fitted.
unfoldable pub write_all : {M : Type 0} → List ℕ → Io M (Unit {0})
write_all bytes s =
    if leb (length bytes) s.room
    then done tt (record s { output = s.output ++ bytes; room = s.room - length bytes })
    else fail write_failed (record s { output = s.output ++ take s.room bytes; room = 0 })

unfoldable pub read_exact : {M : Type 0} → ℕ → Io M (List ℕ)
read_exact n s =
    if leb n (length s.input)
    then done (take n s.input) (record s { input = drop n s.input })
    else fail unexpected_eof (record s { input = [] })

unfoldable pub close : {M : Type 0} → Io M (Unit {0})
close s =
    if s.closes
    then done tt (record s { closed = true })
    else fail close_failed (record s { closed = true })

unfoldable pub send : {M : Type 0} → M → Io M (Unit {0})
send m s = done tt (record s { sent = s.sent ++ (m ∷ []) })
