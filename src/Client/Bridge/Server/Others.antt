-- ===== src/Client/Bridge/Server/Others.antt =====
-- bin/client/src/bridge.rs: `get_blob` and the status updates, beside the requests of `new_blob` that run.
use gozara.Base.{
  List, ◌⊎◌, sym, ℕ, ◌≡◌, refl, subst, String, [], ◌∷◌, Option, none, some, Result, inl, inr, arith,
  Option-cases, Result-cases, string_eq,
}
use gozara.Base.Maps.{All-insert, lookup, insert}
use gozara.Client.Messages.{Status, pending, ToPipeline, ToBridge, update_status}
use gozara.Client.Services.{Services}
use gozara.Client.Bridge.{
  BridgeState, TimestampedStatus, StatusCode, get_blob, answer_get_blob, send_admission,
  handle_message, most_recent,
}
use gozara.Client.Bridge.Server.Statuses.{Each, HoldsAtFirst}
use gozara.Client.Bridge.Server.Turns.{bridge_permits, send_admission-kept}
use gozara.Client.Bridge.Server.Blobs.{Sends}
use gozara.Client.Bridge.Server.Entries.{HasEntry, Keeps, insert-HasEntry, modify-HasEntry}

module _ {Hash Tree : Type 0} where
  -- No permit is taken or made, and no entry goes.
  abbrev pub Gentle : BridgeState Hash Tree → BridgeState Hash Tree → Type 0
  Gentle b b' = (bridge_permits b' ≡ bridge_permits b) × Keeps b.status_map b'.status_map

  pub handle_message-Gentle :
      (b : BridgeState Hash Tree) (now : ℕ) (m : ToBridge) → Gentle b (handle_message b now m)
  unfolding handle_message
  handle_message-Gentle b now (update_status id status) =
      elim (Option-cases (lookup id b.status_map)) [
        | inl absent ↦ rw (absent, handle_message) (refl, λ j h. h)
        | inr (l, there) ↦
            rw (there, handle_message) (refl, λ j h. modify-HasEntry b.status_map id j _ h)
      ]

-- The map gets at most one entry more, with a pending status.
abbrev pub Grows :
    List (String × List TimestampedStatus) → List (String × List TimestampedStatus) → Type 0
Grows m m' =
    (m' ≡ m)
    ⊎ ((id : String) × (s : TimestampedStatus) × (s.status ≡ pending) × (m' ≡ insert id (s ∷ []) m))

Grows-Keeps : (m m' : List (String × List TimestampedStatus)) → Grows m m' → Keeps m m'
Grows-Keeps m m' (inl same) j h = subst (λ x. HasEntry x j) (sym same) h
Grows-Keeps m m' (inr (id, s, fresh, more)) j h =
    subst (λ x. HasEntry x j) (sym more) (insert-HasEntry m id j (s ∷ []) h)

pub Grows-Each :
    (P : List TimestampedStatus → Type 0) (m m' : List (String × List TimestampedStatus))
    → HoldsAtFirst P
    → Grows m m'
    → Each P m
    → Each P m'
Grows-Each P m m' first (inl same) h = subst (Each P) (sym same) h
Grows-Each P m m' first (inr (id, s, fresh, more)) h =
    subst (Each P) (sym more) (All-insert P id (s ∷ []) m (first s fresh) h)

module _ {Hash Tree : Type 0} (services : Services Hash Tree) where
  -- The permits stay, and so does the map.
  abbrev Leaves : BridgeState Hash Tree → BridgeState Hash Tree → Type 0
  Leaves b b' =
      (bridge_permits b' ≡ bridge_permits b)
      × (b'.status_map ≡ b.status_map)
      × Sends services [] b b'

  answer-Leaves :
      (b : BridgeState Hash Tree) (id : String) (status : Status)
      → Leaves b (answer_get_blob services b id status).1
  unfolding answer_get_blob
  answer-Leaves b id Status.pending =
      elim (Result-cases (send_admission b (ToPipeline.get_blob id))) [
        | inl (b', e) ↦
            let (same, sent, added) = send_admission-kept b b' (ToPipeline.get_blob id) e in
            rw (e, answer_get_blob)
              (omega (arith, sent), same, inr (ToPipeline.get_blob id, tt, added))
        | inr (code, e) ↦ rw (e, answer_get_blob) (refl, refl, inl refl)
      ]
  answer-Leaves b id Status.finalized = (refl, refl, inl refl)
  answer-Leaves b id (Status.failed none) = (refl, refl, inl refl)
  answer-Leaves b id (Status.failed (some reason)) = (refl, refl, inl refl)

  -- What `get_blob` leaves, where it does not panic.
  abbrev LeavesGently :
      BridgeState Hash Tree
      → Option (Result StatusCode (StatusCode × String) × BridgeState Hash Tree)
      → Type 0
  LeavesGently b none = Unit {0}
  LeavesGently b (some (r, b')) =
      (bridge_permits b' ≡ bridge_permits b)
      × Grows b.status_map b'.status_map
      × Sends services [] b b'

  get_blob-LeavesGently :
      (b : BridgeState Hash Tree) (id : String) (now : ℕ)
      → LeavesGently b (get_blob services b id now)
  unfolding get_blob
  get_blob-LeavesGently b id now = elim (Option-cases (services.parse_id id)) [
    | inl bad ↦ rw (bad, get_blob) (refl, inl refl, inl refl)
    | inr (vid, good) ↦ elim (Option-cases (lookup vid b.status_map)) [
      | inl free ↦
          let entry : TimestampedStatus = record { at = now; status = pending } in
          let b1 = record b { status_map = insert vid (entry ∷ []) b.status_map } in
          let (even, same, sends) = answer-Leaves b1 vid Status.pending in
          rw (good, get_blob) (rw (free, LeavesGently) (even, inr (vid, entry, refl, same), sends))
      | inr (l, there) ↦ elim (Option-cases (most_recent l)) [
        | inl empty ↦ rw (good, get_blob) (rw (there, LeavesGently) (rw (empty, LeavesGently) tt))
        | inr (status, last) ↦
            let (even, same, sends) = answer-Leaves b vid status in
            rw (good, get_blob)
              (rw (there, LeavesGently) (rw (last, LeavesGently) (even, inl same, sends)))
      ]
    ]
  ]

  pub get_blob-Grows :
      (b b' : BridgeState Hash Tree) (id : String) (now : ℕ)
      (r : Result StatusCode (StatusCode × String))
      → get_blob services b id now ≡ some (r, b')
      → Grows b.status_map b'.status_map
  get_blob-Grows b b' id now r h = (subst (LeavesGently b) h (get_blob-LeavesGently b id now)).1

  pub get_blob-Sends :
      (b b' : BridgeState Hash Tree) (id : String) (now : ℕ)
      (r : Result StatusCode (StatusCode × String))
      → get_blob services b id now ≡ some (r, b')
      → Sends services [] b b'
  get_blob-Sends b b' id now r h = (subst (LeavesGently b) h (get_blob-LeavesGently b id now)).2

  pub get_blob-Gentle :
      (b b' : BridgeState Hash Tree) (id : String) (now : ℕ)
      (r : Result StatusCode (StatusCode × String))
      → get_blob services b id now ≡ some (r, b')
      → Gentle b b'
  get_blob-Gentle b b' id now r h = (
    (subst (LeavesGently b) h (get_blob-LeavesGently b id now)).0,
    Grows-Keeps b.status_map b'.status_map (get_blob-Grows b b' id now r h),
  )
