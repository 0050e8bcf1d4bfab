-- ===== src/Peyk/Transfer.antt =====
-- crates/peyk/src/blob_transfer.rs: pushing and pulling a blob, and the handlers on the other side.
pub mod Steps
pub mod PushSteps
pub mod PullSteps
pub mod Guarantees
pub mod PullGuarantees
pub mod Session
pub mod PullSession
use gozara.Base.{
  ℕ, ◌+◌, List, [], ◌∷◌, ◌++◌, Bool, true, false, Option, none, some, Result, ok, err, is_ok,
  length, Eq, ◌==◌, nat_eq, if◌then◌else◌,
}
use gozara.Base.Text.{codes}
use gozara.Peyk.Link.{
  Link, Io, ◌>>=◌, ◌>>◌, return, throw, attempt, from_result, link_of, Error, open_io, write_all,
  read_exact, close, send, bad_hash, refused, hash_mismatch,
}
use gozara.Peyk.Frame.{write_frame, read_frame}
use gozara.Peyk.Blake3.{Blake3}
use gozara.Peyk.Events.{TransferEvent, IncomingPush, IncomingPull, push_direction, pull_direction}

abbrev pub hash_max_len : ℕ
hash_max_len = 32

-- The single byte of a tag that `read_exact` has filled.
abbrev pub tag_of : List ℕ → ℕ
tag_of [] = 0
tag_of (b ∷ bs) = b

-- `Ok(Some(data))` has the data's length, any other result of a pull has none.
abbrev pub pulled_len : Result Error (Option (List ℕ)) → ℕ
pulled_len (ok (some bytes)) = length bytes
pulled_len (ok none) = 0
pulled_len (err e) = 0

abbrev pub is_pulled : Result Error (Option (List ℕ)) → Bool
is_pulled (ok (some bytes)) = true
is_pulled (ok none) = false
is_pulled (err e) = false

-- `reply_rx.await.unwrap_or(None)`: a consumer that drops the request has answered `None`.
abbrev pub reply_or_none : Option (Option (List ℕ)) → Option (List ℕ)
reply_or_none none = none
reply_or_none (some reply) = reply

module _ {Hash : Type 0} ⦃hash_eq : Eq Hash⦄ (b3 : Blake3 Hash) where
  open b3 use {hash as digest, as_slice, from_slice, to_hex}

  -- `Hash::from_slice(..).map_err(..)?`
  abbrev pub parse_hash : {M : Type 0} → List ℕ → Io M Hash
  parse_hash bytes = elim (from_slice bytes) [ none ↦ throw (bad_hash bytes) | some h ↦ return h ]

  unfoldable pub mismatch_text : Hash → List ℕ
  mismatch_text actual = codes "integrity check failed (got " ++ to_hex actual ++ codes ")"

  unfoldable pub push_result : List ℕ → Io (TransferEvent Hash) (Result Error (Unit {0}))
  push_result ack_tag =
      if tag_of ack_tag == 1
      then return (ok tt)
      else (do reason ← read_frame 4096; return (err (refused reason)))

  -- `push`, once the request is written.
  unfoldable pub await_ack : ℕ → Hash → List ℕ → Io (TransferEvent Hash) (Unit {0})
  await_ack peer hash payload = do
    ack_tag ← read_exact 1
    result ← push_result ack_tag
    attempt close
    send (record {
      peer = peer;
      hash = hash;
      len = length payload;
      direction = push_direction;
      ok = is_ok result;
    })
    from_result result

  unfoldable pub push : ℕ → Hash → List ℕ → Io (TransferEvent Hash) (Unit {0})
  push peer hash payload = do
    open_io
    write_frame (as_slice hash)
    write_frame payload
    await_ack peer hash payload

  unfoldable pub pull_result :
      Hash → ℕ → List ℕ → Io (TransferEvent Hash) (Result Error (Option (List ℕ)))
  pull_result hash max_payload_len found_tag =
      if tag_of found_tag == 0 then return (ok none) else (do
        payload ← read_frame max_payload_len
        let received_hash = digest payload
        if received_hash == hash
            then return (ok (some payload))
            else return (err (hash_mismatch (as_slice hash) (as_slice received_hash))))

  -- `pull`, once the request is written.
  unfoldable pub await_blob : ℕ → Hash → ℕ → Io (TransferEvent Hash) (Option (List ℕ))
  await_blob peer hash max_payload_len = do
    found_tag ← read_exact 1
    result ← pull_result hash max_payload_len found_tag
    attempt close
    send (record {
      peer = peer;
      hash = hash;
      len = pulled_len result;
      direction = pull_direction;
      ok = is_pulled result;
    })
    from_result result

  unfoldable pub pull : ℕ → Hash → ℕ → Io (TransferEvent Hash) (Option (List ℕ))
  pull peer hash max_payload_len = do
    open_io
    write_frame (as_slice hash)
    await_blob peer hash max_payload_len

  unfoldable pub reject_push : Hash → Hash → Io (IncomingPush Hash) (Unit {0})
  reject_push expected_hash actual_hash = do
    write_all (0 ∷ [])
    write_frame (mismatch_text actual_hash)
    attempt close
    throw (hash_mismatch (as_slice expected_hash) (as_slice actual_hash))

  unfoldable pub accept_push : ℕ → Hash → List ℕ → Io (IncomingPush Hash) (Unit {0})
  accept_push peer expected_hash payload = do
    write_all (1 ∷ [])
    attempt close
    send (record { peer = peer; hash = expected_hash; payload = payload })

  unfoldable pub handle_incoming_push : ℕ → ℕ → Io (IncomingPush Hash) (Unit {0})
  handle_incoming_push peer max_payload_len = do
    hash_bytes ← read_frame hash_max_len
    expected_hash ← parse_hash hash_bytes
    payload ← read_frame max_payload_len
    let actual_hash = digest payload
    if actual_hash == expected_hash
        then accept_push peer expected_hash payload
        else reject_push expected_hash actual_hash

  unfoldable pub answer_pull : Option (List ℕ) → Io (IncomingPull Hash) (Unit {0})
  answer_pull none = write_all (0 ∷ [])
  answer_pull (some bytes) = write_all (1 ∷ []) >> write_frame bytes

  -- `reply` is what the consumer of the channel answers; `none` means that it dropped the request.
  unfoldable pub handle_incoming_pull :
      ℕ → (IncomingPull Hash → Option (Option (List ℕ))) → Io (IncomingPull Hash) (Unit {0})
  handle_incoming_pull peer reply = do
    hash_bytes ← read_frame hash_max_len
    hash ← parse_hash hash_bytes
    let request : IncomingPull Hash = record { peer = peer; hash = hash }
    send request
    answer_pull (reply_or_none (reply request))
    close

  -- The streams in the order in which their tasks end. Each has a task of its own, which only logs an
  -- error; all report on one channel.
  unfoldable pub accept_pushes : ℕ → List (ℕ × Link (IncomingPush Hash)) → List (IncomingPush Hash)
  accept_pushes max_payload_len [] = []
  accept_pushes max_payload_len ((peer, stream) ∷ rest) =
      (link_of (handle_incoming_push peer max_payload_len (record stream { sent = [] }))).sent
      ++ accept_pushes max_payload_len rest

  unfoldable pub accept_pulls :
      (IncomingPull Hash → Option (Option (List ℕ)))
      → List (ℕ × Link (IncomingPull Hash))
      → List (IncomingPull Hash)
  accept_pulls reply [] = []
  accept_pulls reply ((peer, stream) ∷ rest) =
      (link_of (handle_incoming_pull peer reply (record stream { sent = [] }))).sent
      ++ accept_pulls reply rest
