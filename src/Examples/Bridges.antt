-- ===== src/Examples/Bridges.antt =====
-- bin/client/src/bridge.rs on concrete requests.
use gozara.Base.{
  ℕ, ◌≡◌, ◌≢◌, refl, String, List, [], ◌∷◌, Option, some, Result, ok, err, arith, string_eq,
}
use gozara.Base.Text.{codes}
use gozara.Client.Messages.{Status, AdmittedBlob, pending, finalized, update_status, ToPipeline}
use gozara.Client.Bridge.{
  BridgeState, StatusCode, ok_200, created_201, bad_request_400, replied, panicked, bridge_new,
  send_admission, admission_drop, admission_new, get_status, handle_message, get_blob,
}
use gozara.Client.Bridge.Upload.{
  Frame, bytes, parse_digits, parse_usize, content_length, check_length, hash_chunk, fill, receive,
  receive_all, flush, assemble, reserve, abandon, settle, upload, new_blob,
}
use gozara.Client.Bridge.Upload.Rejected.{new_blob-rejected}
use gozara.Client.Bridge.Upload.Admitted.{IsAdmitted, new_blob-IsAdmitted}
use gozara.Client.Bridge.Upload.Succeeds.{new_blob-succeeds}
use gozara.Client.Bridge.StatusMap.{HasStatuses, get_status-handle_message, get_status-ne-panicked}
use gozara.Client.Bridge.GetBlob.{Answers, reply_of, get_blob-Answers}
use gozara.Examples.Instances.{toy_services}

-- Six bytes in two frames, so two chunks of four.
abbrev pub six_bytes : List Frame
six_bytes = bytes (1 ∷ 2 ∷ 3 ∷ 4 ∷ 5 ∷ []) ∷ bytes (6 ∷ []) ∷ []

abbrev pub six : Option (List ℕ)
six = some (codes "6")

abbrev empty_bridge : BridgeState ℕ (List ℕ)
empty_bridge = bridge_new

abbrev pub one_pending : BridgeState ℕ (List ℕ)
one_pending = record bridge_new {
  status_map = ("blob", record { at = 9; status = pending } ∷ []) ∷ [];
}

abbrev pub two_chunks : AdmittedBlob ℕ (List ℕ)
two_chunks = record {
  id = "blob";
  root_hash = 21;
  merkle_tree = 10 ∷ 11 ∷ [];
  chunks = (10, 1 ∷ 2 ∷ 3 ∷ 4 ∷ []) ∷ (11, 5 ∷ 6 ∷ []) ∷ [];
  allowance = 2;
}

abbrev pub after_upload : BridgeState ℕ (List ℕ)
after_upload = record one_pending {
  admission_budget = 1534;
  tx_admission = ToPipeline.new_blob two_chunks ∷ [];
}

pub uploaded :
    new_blob toy_services bridge_new "blob" six six_bytes 9
    ≡ (ok (created_201, "blob"), after_upload)
unfolding new_blob check_length content_length parse_usize parse_digits reserve admission_new upload
    settle receive_all receive fill hash_chunk flush assemble abandon send_admission admission_drop
    bridge_new
uploaded = refl

short_upload :
    new_blob toy_services bridge_new "blob" (some (codes "7")) six_bytes 9
    ≡ (err bad_request_400, bridge_new)
unfolding new_blob check_length content_length parse_usize parse_digits reserve admission_new upload
    settle receive_all receive fill hash_chunk flush assemble abandon send_admission admission_drop
    bridge_new
short_upload = refl

new_blob-IsAdmitted_example :
    IsAdmitted toy_services bridge_new after_upload "blob" six six_bytes 9 created_201 "blob"
new_blob-IsAdmitted_example =
    new_blob-IsAdmitted toy_services bridge_new after_upload "blob" six six_bytes 9 created_201
      "blob" (omega arith, (omega arith, tt)) uploaded

new_blob-rejected_example : empty_bridge ≡ bridge_new
new_blob-rejected_example =
    new_blob-rejected toy_services bridge_new empty_bridge "blob" (some (codes "7")) six_bytes 9
      bad_request_400 short_upload

new_blob-succeeds_example :
    (state' : BridgeState ℕ (List ℕ)) × (new_blob toy_services bridge_new "blob" six six_bytes 9
      ≡ (ok (created_201, "blob"), state'))
unfolding content_length parse_usize parse_digits bridge_new
new_blob-succeeds_example =
    new_blob-succeeds toy_services bridge_new "blob" "blob" six six_bytes 9 2 refl refl refl
      (omega arith, omega arith, refl, omega arith) (omega arith) refl
      (omega arith, (omega arith, tt)) (tt, (tt, tt)) (λ c. refl)

get_status-handle_message_example :
    get_status (handle_message one_pending 10 (update_status "blob" finalized)) "blob"
    ≡ replied ok_200 (some finalized)
get_status-handle_message_example = get_status-handle_message one_pending 10 "blob" "blob" finalized

get_status-ne-panicked_example : get_status one_pending "blob" ≢ panicked
get_status-ne-panicked_example = get_status-ne-panicked one_pending "blob" ((λ e. cc), tt)

get_blob-Answers_example :
    (status? : Option Status) × (r : Result StatusCode (StatusCode × String)
      × BridgeState ℕ (List ℕ))
    × (get_status one_pending "blob" ≡ reply_of status?)
    × (get_blob toy_services one_pending "blob" 10 ≡ some r)
    × Answers toy_services one_pending "blob" status? r
    × HasStatuses r.1.status_map
    × (r.1.admission_budget ≡ one_pending.admission_budget)
get_blob-Answers_example =
    get_blob-Answers toy_services one_pending "blob" "blob" 10 ((λ e. cc), tt) refl
