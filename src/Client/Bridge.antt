-- ===== src/Client/Bridge.antt =====
-- bin/client/src/bridge.rs: the state of the HTTP bridge, admissions and status updates.
pub mod Upload
pub mod StatusMap
pub mod GetBlob
pub mod Server
use gozara.Base.{
  ℕ, ◌+◌, ◌-◌, ◌*◌, ◌^◌, ◌/◌, ◌%◌, String, List, [], ◌∷◌, ◌++◌, Bool, true, false, ◌||◌, ◌&&◌,
  Option, none, some, Result, ok, err, ◌>>=◌, ok_or, ltb, leb, ◌==◌, nat_eq, string_eq,
  if◌then◌else◌, last?,
}
use gozara.Base.Maps.{lookup, insert, remove, modify}
use gozara.Client.Messages.{
  Status, pending, finalized, failed, AdmittedBlob, ToPipeline, ToBridge, update_status,
}
use gozara.Client.Services.{Services}

-- 1 GiB, and the permits of 4 MiB each.
abbrev pub max_blob_size : ℕ
max_blob_size = 2 ^ 30

abbrev pub total_chunk_budget : ℕ
total_chunk_budget = 1536

pub record TimestampedStatus : Type 0 where
  pub at : ℕ
  pub status : Status

pub data StatusCode : Type 0 where
  ok_200 created_201 accepted_202 : StatusCode
  bad_request_400 not_found_404 request_timeout_408 conflict_409 : StatusCode
  length_required_411 payload_too_large_413 : StatusCode
  internal_server_error_500 service_unavailable_503 : StatusCode

-- `admission_open` says whether the coordinator still receives, `tx_admission` is what it was sent.
pub record BridgeState (Hash Tree : Type 0) : Type 0 where
  pub admission_budget : ℕ
  pub status_map : List (String × List TimestampedStatus)
  pub admission_open : Bool
  pub tx_admission : List (ToPipeline Hash Tree)

-- A `Reject` as a response: its status code and the value of `Retry-After`.
unfoldable pub into_response : StatusCode → StatusCode × Option String
into_response service_unavailable_503 = (service_unavailable_503, some "5")
into_response code = (code, none)

-- What `get_status` answers; `unwrap` on `None` is a panic.
pub data StatusReply : Type 0 where
  replied : StatusCode → Option Status → StatusReply
  panicked : StatusReply

-- `status_list.last().unwrap().status`
abbrev pub most_recent : List TimestampedStatus → Option Status
most_recent l = elim (last? l) [ none ↦ none | some s ↦ some s.status ]

abbrev pub status_reply : Option (List TimestampedStatus) → StatusReply
status_reply none = replied not_found_404 none
status_reply (some status_list) = elim (most_recent status_list) [
  | some status ↦ replied ok_200 (some status)
  | none ↦ panicked
]

module _ {Hash Tree : Type 0} where
  unfoldable pub bridge_new : BridgeState Hash Tree
  bridge_new = record {
    admission_budget = total_chunk_budget;
    status_map = [];
    admission_open = true;
    tx_admission = [];
  }

  unfoldable pub get_status : BridgeState Hash Tree → String → StatusReply
  get_status state id = status_reply (lookup id state.status_map)

  -- `tx_admission.send(..)`: the message, or an error where the coordinator is gone.
  unfoldable pub send_admission :
      BridgeState Hash Tree → ToPipeline Hash Tree → Result StatusCode (BridgeState Hash Tree)
  send_admission state m =
      if state.admission_open
      then ok (record state { tx_admission = state.tx_admission ++ m ∷ [] })
      else err internal_server_error_500

  -- `Drop for Admission`: an admission that was not committed takes its entry back.
  unfoldable pub admission_drop : Bool → String → BridgeState Hash Tree → BridgeState Hash Tree
  admission_drop committed id state =
      if committed then state else record state { status_map = remove id state.status_map }

  -- A message from the coordinator.
  unfoldable pub handle_message : BridgeState Hash Tree → ℕ → ToBridge → BridgeState Hash Tree
  handle_message state now (update_status id status) = elim (lookup id state.status_map) [
    | some _ ↦ record state {
      status_map = modify id (λ l. l ++ record { at = now; status = status } ∷ []) state.status_map;
    }
    | none ↦ state
  ]

module _ {Hash Tree : Type 0} (services : Services Hash Tree) where
  open services use {parse_id}

  -- `Admission::new`: the validated id, under which the map now has a pending entry.
  unfoldable pub admission_new :
      BridgeState Hash Tree → String → ℕ → Result StatusCode (String × BridgeState Hash Tree)
  admission_new state id now = do
    validated_id ← ok_or (parse_id id) bad_request_400
    elim (lookup validated_id state.status_map) [
      | some _ ↦ err conflict_409
      | none ↦
          let entry : TimestampedStatus = record { at = now; status = pending } in
          ok (
            validated_id,
            record state { status_map = insert validated_id (entry ∷ []) state.status_map },
          )
    ]

  -- `get_blob`, once the status is known.
  unfoldable pub answer_get_blob :
      BridgeState Hash Tree
      → String
      → Status
      → Result StatusCode (StatusCode × String) × BridgeState Hash Tree
  answer_get_blob state validated_id pending =
      elim (send_admission state (ToPipeline.get_blob validated_id)) [
        | ok state' ↦ (ok (accepted_202, validated_id), state')
        | err code ↦ (err code, state)
      ]
  answer_get_blob state validated_id finalized = (ok (ok_200, validated_id), state)
  answer_get_blob state validated_id (failed none) = (ok (ok_200, ""), state)
  answer_get_blob state validated_id (failed (some reason)) = (ok (ok_200, reason), state)

  -- `none` is the panic of `last().unwrap()`.
  unfoldable pub get_blob :
      BridgeState Hash Tree
      → String
      → ℕ
      → Option (Result StatusCode (StatusCode × String) × BridgeState Hash Tree)
  get_blob state id now = elim (parse_id id) [
    | none ↦ some (err bad_request_400, state)
    | some validated_id ↦ elim (lookup validated_id state.status_map) [
      | some status_list ↦ elim (most_recent status_list) [
        | none ↦ none
        | some status ↦ some (answer_get_blob state validated_id status)
      ]
      | none ↦
          let entry : TimestampedStatus = record { at = now; status = pending } in
          some (
            answer_get_blob
              (record state { status_map = insert validated_id (entry ∷ []) state.status_map })
              validated_id pending)
    ]
  ]
