-- ===== src/Peyk/Transfer/Steps.antt =====
-- crates/peyk/src/blob_transfer.rs: what the steps of both ends of a transfer, when one reads what the
-- other has written.
use gozara.Base.{
  ℕ, ◌≡◌, List, [], ◌++◌, Bool, true, false, Bool-cases, inl, inr, length, arith, Eq, ok, err,
  if◌then◌else◌,
}
use gozara.Peyk.Link.{Link, done, close_failed, close, open_io, attempt}
use gozara.Peyk.Frame.{read_frame}
use gozara.Peyk.Frame.RoundTrip.{frame, read_frame-frame}
use gozara.Peyk.Blake3.{Blake3}
use gozara.Peyk.Events.{TransferEvent, push_direction, pull_direction}
use gozara.Peyk.Transfer.{parse_hash}

pub attempt-close :
    {M : Type 0} (s : Link M)
    → attempt close s
      ≡ done (if s.closes then ok tt else err close_failed) (record s { closed = true })
unfolding close
attempt-close s = elim (Bool-cases s.closes) [ inl e ↦ rw e | inr e ↦ rw e ]

pub open_io_lem : {M : Type 0} (s : Link M) → s.reachable ≡ true → open_io s ≡ done tt s
unfolding open_io
open_io_lem s h = ground arith

-- A stream that has just been opened.
abbrev pub open_link : {M : Type 0} → ℕ → Bool → List ℕ → Link M
open_link room closes input = record {
  reachable = true;
  input = input;
  output = [];
  room = room;
  closes = closes;
  closed = false;
  sent = [];
}

-- The events that the two functions report.
module _ {Hash : Type 0} where
  abbrev pub push_event : ℕ → Hash → List ℕ → Bool → TransferEvent Hash
  push_event peer h payload fine = record {
    peer = peer;
    hash = h;
    len = length payload;
    direction = push_direction;
    ok = fine;
  }

  abbrev pub pull_event : ℕ → Hash → ℕ → Bool → TransferEvent Hash
  pull_event peer h len fine = record {
    peer = peer;
    hash = h;
    len = len;
    direction = pull_direction;
    ok = fine;
  }

module _ {Hash : Type 0} ⦃hash_eq : Eq Hash⦄ (b3 : Blake3 Hash) where
  open b3 use {hash as digest, as_slice, from_slice, to_hex}

  -- What a push puts on the stream before it waits for the acknowledgement.
  abbrev pub push_request : Hash → List ℕ → List ℕ
  push_request hash payload = frame (as_slice hash) ++ frame payload

  pub parse_hash_lem :
      {M : Type 0} (h : Hash) (s : Link M) → parse_hash b3 (as_slice h) s ≡ done h s
  parse_hash_lem h s = ground (arith, b3.from_slice-as_slice h)

  pub read_hash :
      {M : Type 0} (h : Hash) (rest : List ℕ) (s : Link M)
      → s.input ≡ frame (as_slice h) ++ rest
      → read_frame 32 s ≡ done (as_slice h) (record s { input = rest })
  read_hash h rest s hs =
      read_frame-frame (as_slice h) rest 32 s (omega (arith, b3.length-as_slice h))
        (omega (arith, b3.length-as_slice h)) hs
