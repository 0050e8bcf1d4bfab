-- ===== src/Peyk/Transfer/PullSession.antt =====
-- crates/peyk/src/blob_transfer.rs: whole pulls, each end reading what the other has written.
use gozara.Base.{
  ℕ, ◌+◌, ◌-◌, ◌≤◌, ◌<◌, ◌^◌, ◌≡◌, ap, ◌∙◌, List, [], ◌∷◌, ◌++◌, Bool, true, false, Bool-cases, inl,
  inr, nat_eq, refl, Option, none, some, length, arith, Eq, ok, append_assoc,
}
use gozara.Peyk.Link.{Link, Outcome, done, link_of, result_of, write_all, close, ◌>>◌}
use gozara.Peyk.Link.Bind.{>>=_done}
use gozara.Peyk.Frame.RoundTrip.{frame, length-frame, write_all_fits, write_frame_fits}
use gozara.Peyk.Blake3.{Blake3}
use gozara.Peyk.Events.{TransferEvent, IncomingPull}
use gozara.Peyk.Transfer.{answer_pull, reply_or_none, handle_incoming_pull, pull}
use gozara.Peyk.Transfer.Steps.{open_link, pull_event}
use gozara.Peyk.Transfer.PullSteps.{
  pull-request, await_blob_missing, await_blob_found, handle_incoming_pull-request,
}

module _ {Hash : Type 0} ⦃hash_eq : Eq Hash⦄ (b3 : Blake3 Hash) where
  open b3 use {hash as digest, as_slice}

  -- A server of pulls that reads a request for `h`; `reply` is what its consumer answers.
  abbrev pub pull_server :
      ℕ
      → (IncomingPull Hash → Option (Option (List ℕ)))
      → ℕ
      → Bool
      → Hash
      → Outcome (IncomingPull Hash) (Unit {0})
  pull_server peer reply room closes h =
      handle_incoming_pull b3 peer reply (open_link room closes (frame (as_slice h)))

  abbrev pub pull_client :
      ℕ
      → ℕ
      → ℕ
      → Bool
      → Hash
      → Link (IncomingPull Hash)
      → Outcome (TransferEvent Hash) (Option (List ℕ))
  pull_client peer max_len room closes h server =
      pull b3 peer h max_len (open_link room closes server.output)

  -- What a server writes for its consumer's answer.
  abbrev pub pull_answer : Option (List ℕ) → List ℕ
  pull_answer none = 0 ∷ []
  pull_answer (some payload) = 1 ∷ frame payload

  -- A payload whose length fits the header of its frame.
  abbrev pub FitsFrame : Option (List ℕ) → Type 0
  FitsFrame none = Unit {0}
  FitsFrame (some payload) = length payload < 2 ^ 32

  answer_pull_fits :
      (data? : Option (List ℕ)) (s : Link (IncomingPull Hash))
      → length (pull_answer data?) ≤ s.room
      → FitsFrame data?
      → answer_pull b3 data? s
        ≡ done tt (record s {
          output = s.output ++ pull_answer data?;
          room = s.room - length (pull_answer data?);
        })
  unfolding answer_pull
  answer_pull_fits none s hr hl = write_all_fits (0 ∷ []) s hr
  answer_pull_fits (some payload) s hr hl =
      >>=_done (write_all (1 ∷ [])) _ s (write_all_fits (1 ∷ []) s (omega arith))
      ∙ write_frame_fits payload _ hl (omega (arith, length-frame payload))
      ∙ ground (arith, append_assoc s.output (1 ∷ []) (frame payload), length-frame payload)

  close-keeps :
      (s : Link (IncomingPull Hash))
      → ((link_of (close s)).output ≡ s.output) × ((link_of (close s)).sent ≡ s.sent)
  unfolding close
  close-keeps s = elim (Bool-cases s.closes) [
    | inl clean ↦ rw clean (refl, refl)
    | inr unclean ↦ rw unclean (refl, refl)
  ]

  pull_server_answers :
      (peer room : ℕ) (closes : Bool) (reply : IncomingPull Hash → Option (Option (List ℕ)))
      (h : Hash) (data? : Option (List ℕ))
      → reply_or_none (reply (record { peer = peer; hash = h })) ≡ data?
      → length (pull_answer data?) ≤ room
      → FitsFrame data?
      → ((link_of (pull_server peer reply room closes h)).output ≡ pull_answer data?)
        × ((link_of (pull_server peer reply room closes h)).sent
            ≡ record { peer = peer; hash = h } ∷ [])
  pull_server_answers peer room closes reply h data? hd hr hl =
      let request : IncomingPull Hash = record { peer = peer; hash = h } in
      let asked : Link (IncomingPull Hash) = record (open_link room closes []) {
        sent = request ∷ [];
      } in
      let path =
        handle_incoming_pull-request b3 peer reply h (open_link room closes (frame (as_slice h)))
          refl
        ∙ ap (λ d. (answer_pull b3 d >> close) asked) hd
        ∙ >>=_done (answer_pull b3 data?) (λ _. close) asked (answer_pull_fits data? asked hr hl) in
      rw path (close-keeps _)

  -- A pull between `pull` and `handle_incoming_pull`, where the consumer answers with the
  -- payload behind the hash, whose length fits 32 bits and the client's limit, and the
  -- transport takes the request and the answer: the server has asked its consumer once, the
  -- client has sent the hash and nothing else, returns the payload and reports one successful
  -- event with its length.
  pub pull_session :
      (client server max_len room_c room_s : ℕ) (closes_c closes_s : Bool)
      (reply : IncomingPull Hash → Option (Option (List ℕ))) (payload : List ℕ)
      → let h = digest payload in
        reply (record { peer = client; hash = h }) ≡ some (some payload)
        → length payload < 2 ^ 32
        → length payload ≤ max_len
        → 36 ≤ room_c
        → 5 + length payload ≤ room_s
        → let at_server = pull_server client reply room_s closes_s h in
          let at_client = pull_client server max_len room_c closes_c h (link_of at_server) in
          ((link_of at_server).sent ≡ record { peer = client; hash = h } ∷ [])
          × (result_of at_client ≡ ok (some payload))
          × ((link_of at_client).output ≡ frame (as_slice h))
          × ((link_of at_client).sent ≡ pull_event server h (length payload) true ∷ [])
  pull_session client server max_len room_c room_s closes_c closes_s reply payload hd hl hm hc hs =
      let h = digest payload in
      let served =
        pull_server_answers client room_s closes_s reply h (some payload) (ap reply_or_none hd)
          (omega (arith, length-frame payload)) hl in
      let answered =
        pull-request b3 server h max_len
          (open_link room_c closes_c (link_of (pull_server client reply room_s closes_s h)).output)
          refl hc
        ∙ await_blob_found b3 server h max_len payload _ hl hm served.0 refl in
      (served.1, rw answered refl, rw answered refl, rw answered refl)

  -- A pull whose consumer answers that it has no data, or drops the request, where the
  -- transport takes the request and one byte of answer: the consumer was asked once, and the
  -- client returns no data and reports one failed event of length 0.
  pub pull_session_missing :
      (client server max_len room_c room_s : ℕ) (closes_c closes_s : Bool)
      (reply : IncomingPull Hash → Option (Option (List ℕ))) (h : Hash)
      → reply_or_none (reply (record { peer = client; hash = h })) ≡ none
      → 36 ≤ room_c
      → 1 ≤ room_s
      → let at_server = pull_server client reply room_s closes_s h in
        let at_client = pull_client server max_len room_c closes_c h (link_of at_server) in
        ((link_of at_server).sent ≡ record { peer = client; hash = h } ∷ [])
        × (result_of at_client ≡ ok none)
        × ((link_of at_client).sent ≡ pull_event server h 0 false ∷ [])
  pull_session_missing client server max_len room_c room_s closes_c closes_s reply h hd hc hs =
      let served = pull_server_answers client room_s closes_s reply h none hd hs tt in
      let answered =
        pull-request b3 server h max_len
          (open_link room_c closes_c (link_of (pull_server client reply room_s closes_s h)).output)
          refl hc
        ∙ await_blob_missing b3 server h max_len [] _ served.0 in
      (served.1, rw answered refl, rw answered refl)
