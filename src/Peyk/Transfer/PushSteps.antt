-- ===== src/Peyk/Transfer/PushSteps.antt =====
-- crates/peyk/src/blob_transfer.rs: a push at both ends, step by step.
use gozara.Base.{
  ℕ, ◌+◌, ◌-◌, ◌≤◌, ◌<◌, ◌^◌, ◌≡◌, refl, sym, ◌∙◌, List, [], ◌∷◌, ◌++◌, true, false, length,
  length-append, append-nil, append_assoc, arith, Eq, ◌==◌, err, if◌then◌else◌,
}
use gozara.Peyk.Link.{
  Link, done, fail, refused, hash_mismatch, write_all, close, open_io, send, attempt, read_exact,
}
use gozara.Peyk.Link.Bind.{>>=_done}
use gozara.Peyk.Frame.{read_frame, write_frame}
use gozara.Peyk.Frame.RoundTrip.{
  frame, write_all_fits, write_frame_fits, read_frame-frame, read_exact-append,
}
use gozara.Peyk.Blake3.{Blake3}
use gozara.Peyk.Events.{TransferEvent, IncomingPush}
use gozara.Peyk.Transfer.{
  push, push_result, handle_incoming_push, accept_push, reject_push, await_ack, mismatch_text,
  parse_hash,
}
use gozara.Peyk.Transfer.Steps.{
  attempt-close, open_io_lem, push_request, parse_hash_lem, read_hash, push_event,
}

module _ {Hash : Type 0} ⦃hash_eq : Eq Hash⦄ (b3 : Blake3 Hash) where
  open b3 use {hash as digest, as_slice, from_slice, to_hex}

  -- The server, once both frames are in.
  pub handle_incoming_push-request :
      (peer max_len : ℕ) (h : Hash) (payload : List ℕ) (s : Link (IncomingPush Hash))
      → length payload < 2 ^ 32
      → length payload ≤ max_len
      → s.input ≡ push_request b3 h payload
      → handle_incoming_push b3 peer max_len s
        ≡ (if digest payload == h
              then accept_push b3 peer h payload
              else reject_push b3 h (digest payload))
            (record s { input = [] })
  unfolding handle_incoming_push
  handle_incoming_push-request peer max_len h payload s hl hm hs =
      >>=_done (read_frame 32) _ s (read_hash b3 h (frame payload) s hs)
      ∙ >>=_done (parse_hash b3 (as_slice h)) _ _ (parse_hash_lem b3 h _)
      ∙ >>=_done (read_frame max_len) _ _ (
          read_frame-frame payload [] max_len (record s { input = frame payload }) hl hm
            (sym (append-nil (frame payload))))

  pub accept_push_fits :
      (peer : ℕ) (h : Hash) (payload : List ℕ) (s : Link (IncomingPush Hash))
      → 1 ≤ s.room
      → accept_push b3 peer h payload s
        ≡ done tt (record s {
          output = s.output ++ 1 ∷ [];
          room = s.room - 1;
          closed = true;
          sent = s.sent ++ record { peer = peer; hash = h; payload = payload } ∷ [];
        })
  unfolding accept_push send
  accept_push_fits peer h payload s hr =
      >>=_done (write_all (1 ∷ [])) _ s (write_all_fits (1 ∷ []) s hr)
      ∙ >>=_done (attempt close) _ _ (attempt-close _)

  pub length-mismatch_text : (h : Hash) → length (mismatch_text b3 h) ≡ 93
  unfolding mismatch_text
  length-mismatch_text h = omega (arith, length-append (to_hex h) (41 ∷ []), b3.length-to_hex h)

  pub reject_push_fits :
      (expected actual : Hash) (s : Link (IncomingPush Hash))
      → 98 ≤ s.room
      → reject_push b3 expected actual s
        ≡ fail (hash_mismatch (as_slice expected) (as_slice actual)) (record s {
          output = s.output ++ 0 ∷ frame (mismatch_text b3 actual);
          room = s.room - 98;
          closed = true;
        })
  unfolding reject_push
  reject_push_fits expected actual s hr =
      >>=_done (write_all (0 ∷ [])) _ s (write_all_fits (0 ∷ []) s (omega arith))
      ∙ >>=_done (write_frame (mismatch_text b3 actual)) _ _ (
          write_frame_fits (mismatch_text b3 actual) _ (omega (arith, length-mismatch_text actual))
            (omega (arith, length-mismatch_text actual)))
      ∙ >>=_done (attempt close) _ _ (attempt-close _)
      ∙ ground (
        arith,
        append_assoc s.output (0 ∷ []) (frame (mismatch_text b3 actual)),
        length-mismatch_text actual,
      )

  -- The client, once both frames are out.
  pub push-request :
      (peer : ℕ) (h : Hash) (payload : List ℕ) (s : Link (TransferEvent Hash))
      → s.reachable ≡ true
      → length payload < 2 ^ 32
      → 40 + length payload ≤ s.room
      → push b3 peer h payload s
        ≡ await_ack b3 peer h payload (record s {
          output = s.output ++ push_request b3 h payload;
          room = s.room - (40 + length payload);
        })
  unfolding push
  push-request peer h payload s ho hl hr =
      >>=_done open_io _ s (open_io_lem s ho)
      ∙ >>=_done (write_frame (as_slice h)) _ _ (
          write_frame_fits (as_slice h) s (omega (arith, b3.length-as_slice h))
            (omega (arith, b3.length-as_slice h)))
      ∙ >>=_done (write_frame payload) _ _
          (write_frame_fits payload _ hl (omega (arith, b3.length-as_slice h)))
      ∙ ground
          (arith, append_assoc s.output (frame (as_slice h)) (frame payload), b3.length-as_slice h)

  -- The client of a push, at the server's answer.
  pub await_ack_accepted :
      (peer : ℕ) (h : Hash) (payload rest : List ℕ) (s : Link (TransferEvent Hash))
      → s.input ≡ 1 ∷ rest
      → await_ack b3 peer h payload s
        ≡ done tt (record s {
          input = rest;
          closed = true;
          sent = s.sent ++ push_event peer h payload true ∷ [];
        })
  unfolding await_ack push_result send
  await_ack_accepted peer h payload rest s hs =
      >>=_done (read_exact 1) _ s (read_exact-append (1 ∷ []) rest 1 s refl hs)
      ∙ >>=_done (attempt close) _ _ (attempt-close _)

  await_refusal :
      (reason : List ℕ) (s : Link (TransferEvent Hash))
      → length reason ≤ 4096
      → s.input ≡ frame reason
      → push_result b3 (0 ∷ []) s ≡ done (err (refused reason)) (record s { input = [] })
  unfolding push_result
  await_refusal reason s hl hs =
      >>=_done (read_frame 4096) _ s
        (read_frame-frame reason [] 4096 s (omega arith) hl (hs ∙ sym (append-nil (frame reason))))

  pub await_ack_refused :
      (peer : ℕ) (h : Hash) (payload reason : List ℕ) (s : Link (TransferEvent Hash))
      → length reason ≤ 4096
      → s.input ≡ 0 ∷ frame reason
      → await_ack b3 peer h payload s
        ≡ fail (refused reason) (record s {
          input = [];
          closed = true;
          sent = s.sent ++ push_event peer h payload false ∷ [];
        })
  unfolding await_ack send
  await_ack_refused peer h payload reason s hl hs =
      >>=_done (read_exact 1) _ s (read_exact-append (0 ∷ []) (frame reason) 1 s refl hs)
      ∙ >>=_done (push_result b3 (0 ∷ [])) _ _ (await_refusal reason _ hl refl)
      ∙ >>=_done (attempt close) _ _ (attempt-close _)
