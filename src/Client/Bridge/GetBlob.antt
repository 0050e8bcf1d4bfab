-- ===== src/Client/Bridge/GetBlob.antt =====
-- bin/client/src/bridge.rs, `get_blob`: its answers and its message to the coordinator.
use gozara.Base.{
  ℕ, ◌≡◌, ◌≢◌, refl, sym, ap, ◌∙◌, String, List, [], ◌∷◌, ◌++◌, Option, none, some, Result, ok, err,
  arith, Bool-cases, Option-cases, inl, inr, string_eq, ◌==◌, if◌then◌else◌, beq_refl,
}
use gozara.Base.Maps.{lookup, insert, lookup-insert, All-insert, All-lookup}
use gozara.Client.Messages.{Status, pending, finalized, failed, ToPipeline}
use gozara.Client.Services.{Services}
use gozara.Client.Bridge.{
  BridgeState, TimestampedStatus, StatusReply, replied, StatusCode, ok_200, not_found_404,
  internal_server_error_500, accepted_202, most_recent, get_status, get_blob, answer_get_blob,
  send_admission, status_reply,
}
use gozara.Client.Bridge.StatusMap.{HasStatuses, last?-some}

-- What `get_status` answers where an id has no status, or where this is its last one.
abbrev pub reply_of : Option Status → StatusReply
reply_of none = replied not_found_404 none
reply_of (some status) = replied ok_200 (some status)

module _ {Hash Tree : Type 0} (services : Services Hash Tree) where
  open services use {parse_id}

  -- The coordinator is asked for the blob, which is pending now; no other id's status has changed.
  abbrev pub Asks :
      BridgeState Hash Tree
      → String
      → Result StatusCode (StatusCode × String) × BridgeState Hash Tree
      → Type 0
  Asks state vid (reply, s) =
      (reply
        ≡ (if state.admission_open then ok (accepted_202, vid) else err internal_server_error_500))
      × (s.tx_admission ≡ (
          if state.admission_open
          then state.tx_admission ++ ToPipeline.get_blob vid ∷ []
          else state.tx_admission))
      × (get_status s vid ≡ reply_of (some pending))
      × ((j : String)
          → get_status s j ≡ (if vid == j then get_status s vid else get_status state j))

  -- The answer of `get_blob` and the state behind it, where the id has this status.
  abbrev pub Answers :
      BridgeState Hash Tree
      → String
      → Option Status
      → Result StatusCode (StatusCode × String) × BridgeState Hash Tree
      → Type 0
  Answers state vid none r = Asks state vid r
  Answers state vid (some pending) r = Asks state vid r
  Answers state vid (some finalized) r = r ≡ (ok (ok_200, vid), state)
  Answers state vid (some (failed none)) r = r ≡ (ok (ok_200, ""), state)
  Answers state vid (some (failed (some reason))) r = r ≡ (ok (ok_200, reason), state)

  answer_get_blob-Asks :
      (state s : BridgeState Hash Tree) (vid : String)
      → s.admission_open ≡ state.admission_open
      → s.tx_admission ≡ state.tx_admission
      → get_status s vid ≡ reply_of (some pending)
      → ((j : String)
          → get_status s j ≡ (if vid == j then get_status s vid else get_status state j))
      → Asks state vid (answer_get_blob services s vid pending)
  unfolding answer_get_blob send_admission get_status
  answer_get_blob-Asks state s vid ho ht hg hs = elim (Bool-cases s.admission_open) [
    | inl open' ↦
        rw (open', sym ho ∙ open') (refl, ap (λ l. l ++ ToPipeline.get_blob vid ∷ []) ht, hg, hs)
    | inr closed' ↦ rw (closed', sym ho ∙ closed') (refl, ht, hg, hs)
  ]

  same_status :
      (state : BridgeState Hash Tree) (vid j : String)
      → get_status state j ≡ (if vid == j then get_status state vid else get_status state j)
  same_status state vid j = elim (Bool-cases (vid == j)) [
    | inl same ↦ rw same (ap (get_status state) (sym ((string_eq.beq_iff vid j).0 same)))
    | inr other ↦ rw other refl
  ]

  answer_get_blob-Answers :
      (state : BridgeState Hash Tree) (vid : String) (status : Status)
      → get_status state vid ≡ reply_of (some status)
      → Answers state vid (some status) (answer_get_blob services state vid status)
  unfolding answer_get_blob
  answer_get_blob-Answers state vid pending hg =
      answer_get_blob-Asks state state vid refl refl hg (same_status state vid)
  answer_get_blob-Answers state vid finalized hg = refl
  answer_get_blob-Answers state vid (failed none) hg = refl
  answer_get_blob-Answers state vid (failed (some r)) hg = refl

  answer_get_blob-keeps :
      (s : BridgeState Hash Tree) (vid : String) (status : Status)
      → let s' = (answer_get_blob services s vid status).1 in
        (s'.status_map ≡ s.status_map) × (s'.admission_budget ≡ s.admission_budget)
  unfolding answer_get_blob send_admission
  answer_get_blob-keeps s vid pending = ground arith
  answer_get_blob-keeps s vid finalized = (refl, refl)
  answer_get_blob-keeps s vid (failed none) = (refl, refl)
  answer_get_blob-keeps s vid (failed (some r)) = (refl, refl)

  get_blob_new :
      (state : BridgeState Hash Tree) (id vid : String) (now : ℕ)
      → parse_id id ≡ some vid
      → lookup vid state.status_map ≡ none
      → get_blob services state id now
        ≡ some (
            answer_get_blob services
              (record state {
                status_map =
                    insert vid (record { at = now; status = pending } ∷ []) state.status_map;
              })
              vid
              pending)
  unfolding get_blob
  get_blob_new state id vid now good free = rw (good, get_blob) (rw (free, get_blob) refl)

  get_blob_known :
      (state : BridgeState Hash Tree) (id vid : String) (now : ℕ) (l : List TimestampedStatus)
      (status : Status)
      → parse_id id ≡ some vid
      → lookup vid state.status_map ≡ some l
      → most_recent l ≡ some status
      → get_blob services state id now ≡ some (answer_get_blob services state vid status)
  unfolding get_blob
  get_blob_known state id vid now l status good there last =
      rw (good, get_blob) (rw (there, get_blob) (rw (last, get_blob) refl))

  -- On a map without an empty list of statuses and for a valid id, `get_blob` does not panic.
  -- Where the id has no entry or its last status is pending, its status is pending afterwards
  -- and every other id's is as before; if the coordinator receives, the answer is `202` with
  -- the valid id and exactly one message for it is sent, and otherwise the answer is `500` and
  -- nothing is sent. Where the last status is another one, the bridge is as it was and the
  -- answer is `200`, with the valid id of a finalized blob, and with the reason of a failed
  -- one, which is empty where none is given. In each case no list of statuses is empty after
  -- it, and the permits are as before.
  pub get_blob-Answers :
      (state : BridgeState Hash Tree) (id vid : String) (now : ℕ)
      → HasStatuses state.status_map
      → parse_id id ≡ some vid
      → (status? : Option Status) × (r : Result StatusCode (StatusCode × String)
          × BridgeState Hash Tree)
        × (get_status state vid ≡ reply_of status?)
        × (get_blob services state id now ≡ some r)
        × Answers state vid status? r
        × HasStatuses r.1.status_map
        × (r.1.admission_budget ≡ state.admission_budget)
  unfolding get_status
  get_blob-Answers state id vid now h good = elim (Option-cases (lookup vid state.status_map)) [
    | inl free ↦
        let entry : TimestampedStatus = record { at = now; status = pending } in
        let s : BridgeState Hash Tree = record state {
          status_map = insert vid (entry ∷ []) state.status_map;
        } in
        let there = lookup-insert vid vid (entry ∷ []) state.status_map in
        let others =
          λ (j : String). ap status_reply (lookup-insert j vid (entry ∷ []) state.status_map) in
        let kept = answer_get_blob-keeps s vid pending in
        (
          none,
          answer_get_blob services s vid pending,
          rw free refl,
          get_blob_new state id vid now good free,
          answer_get_blob-Asks state s vid refl refl (rw (there, beq_refl vid) refl)
              (λ j. others j ∙ ground (arith, there, beq_refl vid)),
          rw kept.0 (All-insert (λ l. l ≢ []) vid (entry ∷ []) state.status_map (λ e. cc) h),
          kept.1,
        )
    | inr (l, there) ↦
        let (s, last) = last?-some l (All-lookup (λ l. l ≢ []) vid state.status_map l h there) in
        let recent : most_recent l ≡ some s.status = rw (last, most_recent) refl in
        let kept = answer_get_blob-keeps state vid s.status in
        (
          some s.status,
          answer_get_blob services state vid s.status,
          rw there (rw (last, status_reply) refl),
          get_blob_known state id vid now l s.status good there recent,
          answer_get_blob-Answers state vid s.status (rw there (rw (last, status_reply) refl)),
          rw kept.0 h,
          kept.1,
        )
  ]
