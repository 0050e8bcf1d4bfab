-- ===== src/Peyk/Transfer/Session.antt =====
-- crates/peyk/src/blob_transfer.rs: whole transfers, each end reading what the other has written.
use gozara.Base.{
  ℕ, ◌+◌, ◌≤◌, ◌<◌, ◌^◌, ◌≡◌, ◌≢◌, refl, ap, ◌∙◌, List, [], ◌∷◌, Bool, true, false, length, arith,
  Eq, ok, err, beq_refl, beq_false, ◌-◌,
}
use gozara.Peyk.Link.{Link, Outcome, done, fail, link_of, result_of, refused, hash_mismatch}
use gozara.Peyk.Frame.RoundTrip.{frame}
use gozara.Peyk.Blake3.{Blake3}
use gozara.Peyk.Events.{TransferEvent, IncomingPush}
use gozara.Peyk.Transfer.{push, handle_incoming_push, mismatch_text}
use gozara.Peyk.Transfer.Steps.{open_link, push_request, push_event}
use gozara.Peyk.Transfer.PushSteps.{
  handle_incoming_push-request, accept_push_fits, reject_push_fits, push-request,
  await_ack_accepted, await_ack_refused, length-mismatch_text,
}

module _ {Hash : Type 0} ⦃hash_eq : Eq Hash⦄ (b3 : Blake3 Hash) where
  open b3 use {hash as digest, as_slice}

  -- A server that reads a push of `payload` under `h`, over a stream that takes `room` bytes.
  abbrev pub push_server : ℕ → ℕ → ℕ → Bool → Hash → List ℕ → Outcome (IncomingPush Hash) (Unit {0})
  push_server peer max_len room closes h payload =
      handle_incoming_push b3 peer max_len (open_link room closes (push_request b3 h payload))

  -- The client of that push, which reads what the server has written.
  abbrev pub push_client :
      ℕ
      → ℕ
      → Bool
      → Hash
      → List ℕ
      → Link (IncomingPush Hash)
      → Outcome (TransferEvent Hash) (Unit {0})
  push_client peer room closes h payload server =
      push b3 peer h payload (open_link room closes server.output)

  server_accepts :
      (peer max_len room : ℕ) (closes : Bool) (payload : List ℕ)
      → length payload < 2 ^ 32
      → length payload ≤ max_len
      → 1 ≤ room
      → push_server peer max_len room closes (digest payload) payload
        ≡ done tt (record {
          reachable = true;
          input = [];
          output = 1 ∷ [];
          room = room - 1;
          closes = closes;
          closed = true;
          sent = record { peer = peer; hash = digest payload; payload = payload } ∷ [];
        })
  server_accepts peer max_len room closes payload hl hm hr =
      handle_incoming_push-request b3 peer max_len (digest payload) payload _ hl hm refl
      ∙ rw (beq_refl (digest payload)) (accept_push_fits b3 peer (digest payload) payload _ hr)

  server_rejects :
      (peer max_len room : ℕ) (closes : Bool) (h : Hash) (payload : List ℕ)
      → length payload < 2 ^ 32
      → length payload ≤ max_len
      → 98 ≤ room
      → digest payload ≢ h
      → push_server peer max_len room closes h payload
        ≡ fail (hash_mismatch (as_slice h) (as_slice (digest payload))) (record {
          reachable = true;
          input = [];
          output = 0 ∷ frame (mismatch_text b3 (digest payload));
          room = room - 98;
          closes = closes;
          closed = true;
          sent = [];
        })
  server_rejects peer max_len room closes h payload hl hm hr ne =
      handle_incoming_push-request b3 peer max_len h payload _ hl hm refl
      ∙ rw (beq_false (digest payload) h ne) (reject_push_fits b3 h (digest payload) _ hr)

  client_accepted :
      (peer room : ℕ) (closes : Bool) (h : Hash) (payload : List ℕ)
      (server : Link (IncomingPush Hash))
      → length payload < 2 ^ 32
      → 40 + length payload ≤ room
      → server.output ≡ 1 ∷ []
      → push_client peer room closes h payload server
        ≡ done tt (record {
          reachable = true;
          input = [];
          output = push_request b3 h payload;
          room = room - (40 + length payload);
          closes = closes;
          closed = true;
          sent = push_event peer h payload true ∷ [];
        })
  client_accepted peer room closes h payload server hl hr ho =
      push-request b3 peer h payload _ refl hl hr ∙ await_ack_accepted b3 peer h payload [] _ ho

  client_refused :
      (peer room : ℕ) (closes : Bool) (h : Hash) (payload reason : List ℕ)
      (server : Link (IncomingPush Hash))
      → length payload < 2 ^ 32
      → 40 + length payload ≤ room
      → length reason ≤ 4096
      → server.output ≡ 0 ∷ frame reason
      → push_client peer room closes h payload server
        ≡ fail (refused reason) (record {
          reachable = true;
          input = [];
          output = push_request b3 h payload;
          room = room - (40 + length payload);
          closes = closes;
          closed = true;
          sent = push_event peer h payload false ∷ [];
        })
  client_refused peer room closes h payload reason server hl hr hn ho =
      push-request b3 peer h payload _ refl hl hr
      ∙ await_ack_refused b3 peer h payload reason _ hn ho

  -- A push between `push` and `handle_incoming_push`, where the payload's hash is the one that
  -- is sent, its length fits 32 bits and the server's limit, and the transport takes the
  -- request and one byte of answer: the server delivers the payload under its hash and the
  -- client's id, the client has sent the request and nothing else, returns success and reports
  -- one successful event.
  pub push_session :
      (client server max_len room_c room_s : ℕ) (closes_c closes_s : Bool) (payload : List ℕ)
      → length payload < 2 ^ 32
      → length payload ≤ max_len
      → 40 + length payload ≤ room_c
      → 1 ≤ room_s
      → let h = digest payload in
        let at_server = push_server client max_len room_s closes_s h payload in
        let at_client = push_client server room_c closes_c h payload (link_of at_server) in
        (result_of at_server ≡ ok tt)
        × ((link_of at_server).sent ≡ record { peer = client; hash = h; payload = payload } ∷ [])
        × (result_of at_client ≡ ok tt)
        × ((link_of at_client).output ≡ push_request b3 h payload)
        × ((link_of at_client).sent ≡ push_event server h payload true ∷ [])
  push_session client server max_len room_c room_s closes_c closes_s payload hl hm hc hs =
      let served = server_accepts client max_len room_s closes_s payload hl hm hs in
      let answered =
        client_accepted server room_c closes_c (digest payload) payload
          (link_of (push_server client max_len room_s closes_s (digest payload) payload)) hl hc
          (ap (λ o. (link_of o).output) served) in
      rw (answered, served) (refl, refl, refl, refl, refl)

  -- A push of a payload whose hash is not the one that is sent, where the lengths fit and the
  -- transport takes the request and 98 bytes of answer: the server fails with the mismatch and
  -- delivers nothing, and the client fails with the server's text and reports one failed
  -- event.
  pub push_session_corrupt :
      (client server max_len room_c room_s : ℕ) (closes_c closes_s : Bool) (h : Hash)
      (payload : List ℕ)
      → length payload < 2 ^ 32
      → length payload ≤ max_len
      → 40 + length payload ≤ room_c
      → 98 ≤ room_s
      → digest payload ≢ h
      → let at_server = push_server client max_len room_s closes_s h payload in
        let at_client = push_client server room_c closes_c h payload (link_of at_server) in
        (result_of at_server ≡ err (hash_mismatch (as_slice h) (as_slice (digest payload))))
        × ((link_of at_server).sent ≡ [])
        × (result_of at_client ≡ err (refused (mismatch_text b3 (digest payload))))
        × ((link_of at_client).output ≡ push_request b3 h payload)
        × ((link_of at_client).sent ≡ push_event server h payload false ∷ [])
  push_session_corrupt client server max_len room_c room_s closes_c closes_s h payload hl hm hc hs
        ne =
      let served = server_rejects client max_len room_s closes_s h payload hl hm hs ne in
      let answered =
        client_refused server room_c closes_c h payload (mismatch_text b3 (digest payload))
          (link_of (push_server client max_len room_s closes_s h payload)) hl hc
          (omega (arith, length-mismatch_text b3 (digest payload)))
          (ap (λ o. (link_of o).output) served) in
      rw (answered, served) (refl, refl, refl, refl, refl)
