-- ===== src/Examples/Transfers.antt =====
-- crates/peyk/src/blob_transfer.rs on concrete streams.
use gozara.Base.{
  ℕ, ◌≤◌, ◌≡◌, refl, List, [], ◌∷◌, ◌++◌, true, false, Option, none, some, ok, err, All, length,
  arith, nat_eq,
}
use gozara.Peyk.Link.{
  Link, write_all, read_exact, write_failed, done, link_of, result_of, unexpected_eof, refused,
  hash_mismatch,
}
use gozara.Peyk.Frame.{from_be_bytes, to_be_bytes, read_frame, write_frame}
use gozara.Peyk.Frame.RoundTrip.{frame, read_frame-frame}
use gozara.Peyk.Frame.Bounds.{read_frame-consumes}
use gozara.Peyk.Events.{IncomingPush, IncomingPull, TransferEvent}
use gozara.Peyk.Transfer.{handle_incoming_push, accept_pushes, pull, mismatch_text}
use gozara.Peyk.Transfer.Steps.{open_link, push_request, push_event, pull_event}
use gozara.Peyk.Transfer.Session.{push_server, push_client, push_session, push_session_corrupt}
use gozara.Peyk.Transfer.PullSession.{pull_server, pull_client, pull_session, pull_session_missing}
use gozara.Peyk.Transfer.Guarantees.{
  IsCarried, Delivered, handle_incoming_push-Delivered, accept_pushes-IsIntact,
}
use gozara.Peyk.Transfer.PullGuarantees.{Answered, pull-Answered}
use gozara.Examples.Instances.{toy_blake3}

abbrev framed : Link ℕ
framed = open_link 0 true (frame (7 ∷ 8 ∷ []) ++ 9 ∷ [])

-- A push of [1, 2, 3], whole and with one byte changed.
abbrev good_push : Link (IncomingPush ℕ)
good_push = open_link 100 true (push_request toy_blake3 6 (1 ∷ 2 ∷ 3 ∷ []))

abbrev bad_push : Link (IncomingPush ℕ)
bad_push = open_link 100 true (push_request toy_blake3 6 (1 ∷ 2 ∷ 4 ∷ []))

-- A server that answers with [1, 2, 3], and one that breaks off.
abbrev good_answer : Link (TransferEvent ℕ)
good_answer = open_link 100 true (1 ∷ frame (1 ∷ 2 ∷ 3 ∷ []))

abbrev holds_blob : IncomingPull ℕ → Option (Option (List ℕ))
holds_blob request = some (some (1 ∷ 2 ∷ 3 ∷ []))

abbrev drops_request : IncomingPull ℕ → Option (Option (List ℕ))
drops_request request = none

written : result_of (write_frame (7 ∷ []) (open_link {M = ℕ} 4 true [])) ≡ err write_failed
unfolding write_frame write_all to_be_bytes
written = refl

truncated :
    result_of (read_frame {M = ℕ} 9 (open_link 0 true (0 ∷ 0 ∷ 0 ∷ 2 ∷ 5 ∷ [])))
    ≡ err unexpected_eof
unfolding read_frame read_exact from_be_bytes
truncated = refl

read_frame-frame_example :
    read_frame 2 framed ≡ done (7 ∷ 8 ∷ []) (record framed { input = 9 ∷ [] })
read_frame-frame_example =
    read_frame-frame (7 ∷ 8 ∷ []) (9 ∷ []) 2 framed (omega arith) (omega arith) refl

read_frame-consumes_example :
    (length {A = ℕ} (7 ∷ 8 ∷ []) ≤ 2)
    × ((header : List ℕ) × (length header ≡ 4)
        × (from_be_bytes header ≡ 2)
        × (framed.input ≡ header ++ (7 ∷ 8 ∷ 9 ∷ [])))
    × (record framed { input = 9 ∷ [] } ≡ record framed { input = 9 ∷ [] })
read_frame-consumes_example =
    read_frame-consumes 2 framed (record framed { input = 9 ∷ [] }) (7 ∷ 8 ∷ [])
      read_frame-frame_example

push_session_example :
    let at_server = push_server toy_blake3 1 3 1 false 6 (1 ∷ 2 ∷ 3 ∷ []) in
    let at_client = push_client toy_blake3 2 43 true 6 (1 ∷ 2 ∷ 3 ∷ []) (link_of at_server) in
    (result_of at_server ≡ ok tt)
    × ((link_of at_server).sent ≡ record { peer = 1; hash = 6; payload = 1 ∷ 2 ∷ 3 ∷ [] } ∷ [])
    × (result_of at_client ≡ ok tt)
    × ((link_of at_client).output ≡ push_request toy_blake3 6 (1 ∷ 2 ∷ 3 ∷ []))
    × ((link_of at_client).sent ≡ push_event 2 6 (1 ∷ 2 ∷ 3 ∷ []) true ∷ [])
push_session_example =
    push_session toy_blake3 1 2 3 43 1 true false (1 ∷ 2 ∷ 3 ∷ []) (omega arith) (omega arith)
      (omega arith) (omega arith)

push_session_corrupt_example :
    let at_server = push_server toy_blake3 1 3 98 true 6 (1 ∷ 2 ∷ 4 ∷ []) in
    let at_client = push_client toy_blake3 2 43 true 6 (1 ∷ 2 ∷ 4 ∷ []) (link_of at_server) in
    (result_of at_server ≡ err (hash_mismatch (toy_blake3.as_slice 6) (toy_blake3.as_slice 7)))
    × ((link_of at_server).sent ≡ [])
    × (result_of at_client ≡ err (refused (mismatch_text toy_blake3 7)))
    × ((link_of at_client).output ≡ push_request toy_blake3 6 (1 ∷ 2 ∷ 4 ∷ []))
    × ((link_of at_client).sent ≡ push_event 2 6 (1 ∷ 2 ∷ 4 ∷ []) false ∷ [])
push_session_corrupt_example =
    push_session_corrupt toy_blake3 1 2 3 43 98 true true 6 (1 ∷ 2 ∷ 4 ∷ []) (omega arith)
      (omega arith) (omega arith) (omega arith) (λ e. omega (arith, e))

pull_session_example :
    let at_server = pull_server toy_blake3 1 holds_blob 8 true 6 in
    let at_client = pull_client toy_blake3 2 3 36 true 6 (link_of at_server) in
    ((link_of at_server).sent ≡ record { peer = 1; hash = 6 } ∷ [])
    × (result_of at_client ≡ ok (some (1 ∷ 2 ∷ 3 ∷ [])))
    × ((link_of at_client).output ≡ frame (toy_blake3.as_slice 6))
    × ((link_of at_client).sent ≡ pull_event 2 6 3 true ∷ [])
pull_session_example =
    pull_session toy_blake3 1 2 3 36 8 true true holds_blob (1 ∷ 2 ∷ 3 ∷ []) refl (omega arith)
      (omega arith) (omega arith) (omega arith)

pull_session_missing_example :
    let at_server = pull_server toy_blake3 1 drops_request 1 true 6 in
    let at_client = pull_client toy_blake3 2 3 36 true 6 (link_of at_server) in
    ((link_of at_server).sent ≡ record { peer = 1; hash = 6 } ∷ [])
    × (result_of at_client ≡ ok none)
    × ((link_of at_client).sent ≡ pull_event 2 6 0 false ∷ [])
pull_session_missing_example =
    pull_session_missing toy_blake3 1 2 3 36 1 true true drops_request 6 refl (omega arith)
      (omega arith)

handle_incoming_push-Delivered_example :
    Delivered toy_blake3 1 3 good_push.input (handle_incoming_push toy_blake3 1 3 good_push)
handle_incoming_push-Delivered_example =
    handle_incoming_push-Delivered toy_blake3 1 3 good_push refl

accept_pushes-IsIntact_example :
    All
      (IsCarried toy_blake3 3 ((1, good_push) ∷ (2, bad_push) ∷ []))
      (accept_pushes toy_blake3 3 ((1, good_push) ∷ (2, bad_push) ∷ []))
accept_pushes-IsIntact_example =
    accept_pushes-IsIntact toy_blake3 3 ((1, good_push) ∷ (2, bad_push) ∷ [])

pull-Answered_example : Answered toy_blake3 2 6 3 (pull toy_blake3 2 6 3 good_answer)
pull-Answered_example = pull-Answered toy_blake3 2 6 3 good_answer refl
