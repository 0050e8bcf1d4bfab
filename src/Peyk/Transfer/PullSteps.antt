-- ===== src/Peyk/Transfer/PullSteps.antt =====
-- crates/peyk/src/blob_transfer.rs: a pull at both ends, step by step.
use gozara.Base.{
  ℕ, ◌-◌, ◌≤◌, ◌<◌, ◌^◌, ◌≡◌, refl, sym, ◌∙◌, List, [], ◌∷◌, ◌++◌, true, false, Option, none, some,
  length, append-nil, arith, Eq, ok,
}
use gozara.Peyk.Link.{◌>>◌, Link, done, close, open_io, send, attempt, read_exact}
use gozara.Peyk.Link.Bind.{>>=_done}
use gozara.Peyk.Frame.{read_frame, write_frame}
use gozara.Peyk.Frame.RoundTrip.{frame, write_frame_fits, read_frame-frame, read_exact-append}
use gozara.Peyk.Blake3.{Blake3}
use gozara.Peyk.Events.{TransferEvent, IncomingPull}
use gozara.Peyk.Transfer.{
  pull, await_blob, reply_or_none, pull_result, handle_incoming_pull, answer_pull, parse_hash,
}
use gozara.Peyk.Transfer.Steps.{attempt-close, open_io_lem, parse_hash_lem, read_hash, pull_event}

module _ {Hash : Type 0} ⦃hash_eq : Eq Hash⦄ (b3 : Blake3 Hash) where
  open b3 use {hash as digest, as_slice, from_slice, to_hex}

  pub pull-request :
      (peer : ℕ) (h : Hash) (max_len : ℕ) (s : Link (TransferEvent Hash))
      → s.reachable ≡ true
      → 36 ≤ s.room
      → pull b3 peer h max_len s
        ≡ await_blob b3 peer h max_len
            (record s { output = s.output ++ frame (as_slice h); room = s.room - 36 })
  unfolding pull
  pull-request peer h max_len s ho hr =
      >>=_done open_io _ s (open_io_lem s ho)
      ∙ >>=_done (write_frame (as_slice h)) _ _ (
          write_frame_fits (as_slice h) s (omega (arith, b3.length-as_slice h))
            (omega (arith, b3.length-as_slice h)))
      ∙ ground (arith, b3.length-as_slice h)

  pub await_blob_missing :
      (peer : ℕ) (h : Hash) (max_len : ℕ) (rest : List ℕ) (s : Link (TransferEvent Hash))
      → s.input ≡ 0 ∷ rest
      → await_blob b3 peer h max_len s
        ≡ done none (record s {
          input = rest;
          closed = true;
          sent = s.sent ++ pull_event peer h 0 false ∷ [];
        })
  unfolding await_blob pull_result send
  await_blob_missing peer h max_len rest s hs =
      >>=_done (read_exact 1) _ s (read_exact-append (0 ∷ []) rest 1 s refl hs)
      ∙ >>=_done (attempt close) _ _ (attempt-close _)

  pull_result_found :
      (h : Hash) (max_len : ℕ) (payload : List ℕ) (s : Link (TransferEvent Hash))
      → length payload < 2 ^ 32
      → length payload ≤ max_len
      → s.input ≡ frame payload
      → digest payload ≡ h
      → pull_result b3 h max_len (1 ∷ []) s ≡ done (ok (some payload)) (record s { input = [] })
  unfolding pull_result
  pull_result_found h max_len payload s hl hm hs hd =
      >>=_done (read_frame max_len) _ s
        (read_frame-frame payload [] max_len s hl hm (hs ∙ sym (append-nil (frame payload))))
      ∙ rw ((hash_eq.beq_iff (digest payload) h).1 hd)

  pub await_blob_found :
      (peer : ℕ) (h : Hash) (max_len : ℕ) (payload : List ℕ) (s : Link (TransferEvent Hash))
      → length payload < 2 ^ 32
      → length payload ≤ max_len
      → s.input ≡ 1 ∷ frame payload
      → digest payload ≡ h
      → await_blob b3 peer h max_len s
        ≡ done (some payload) (record s {
          input = [];
          closed = true;
          sent = s.sent ++ pull_event peer h (length payload) true ∷ [];
        })
  unfolding await_blob send
  await_blob_found peer h max_len payload s hl hm hs hd =
      >>=_done (read_exact 1) _ s (read_exact-append (1 ∷ []) (frame payload) 1 s refl hs)
      ∙ >>=_done (pull_result b3 h max_len (1 ∷ [])) _ _
          (pull_result_found h max_len payload _ hl hm refl hd)
      ∙ >>=_done (attempt close) _ _ (attempt-close _)

  pub handle_incoming_pull-request :
      (peer : ℕ) (reply : IncomingPull Hash → Option (Option (List ℕ))) (h : Hash)
      (s : Link (IncomingPull Hash))
      → s.input ≡ frame (as_slice h)
      → handle_incoming_pull b3 peer reply s
        ≡ (answer_pull b3 (reply_or_none (reply (record { peer = peer; hash = h }))) >> close)
            (record s { input = []; sent = s.sent ++ record { peer = peer; hash = h } ∷ [] })
  unfolding handle_incoming_pull send
  handle_incoming_pull-request peer reply h s hs =
      >>=_done (read_frame 32) _ s
        (read_hash b3 h [] s (hs ∙ sym (append-nil (frame (as_slice h)))))
      ∙ >>=_done (parse_hash b3 (as_slice h)) _ _ (parse_hash_lem b3 h _)
