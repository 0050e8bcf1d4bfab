-- ===== src/Client/Bridge/StatusMap.antt =====
-- bin/client/src/bridge.rs: the status map under every operation, and what its readers answer.
use gozara.Base.{
  ℕ, ◌≡◌, ◌≢◌, refl, String, List, [], ◌∷◌, ◌++◌, none, some, Bool-cases, Option-cases, inl, inr,
  ◌==◌, string_eq, last?, All, if◌then◌else◌, subst,
}
use gozara.Base.Maps.{lookup, lookup-modify, All-modify, All-lookup}
use gozara.Client.Messages.{Status, ToBridge, update_status}
use gozara.Client.Bridge.{
  BridgeState, TimestampedStatus, replied, panicked, ok_200, not_found_404, status_reply,
  get_status, handle_message,
}

-- Each blob of the map has a status.
abbrev pub HasStatuses : List (String × List TimestampedStatus) → Type 0
HasStatuses m = All (λ p. p.1 ≢ []) m

pub last?-some {ℓ} : {A : Type ℓ} (l : List A) → l ≢ [] → (a : A) × (last? l ≡ some a)
last?-some [] h = absurd (h refl)
last?-some (x ∷ []) h = (x, refl)
last?-some (x ∷ y ∷ l) h = last?-some (y ∷ l) (λ e. cc)

last?-append {ℓ} : {A : Type ℓ} (l : List A) (a : A) → last? (l ++ a ∷ []) ≡ some a
last?-append [] a = refl
last?-append (x ∷ []) a = refl
last?-append (x ∷ y ∷ l) a = last?-append (y ∷ l) a

append-ne-nil {ℓ} : {A : Type ℓ} (l : List A) (a : A) → l ++ a ∷ [] ≢ []
append-ne-nil [] a e = cc
append-ne-nil (x ∷ l) a e = cc

status_reply_append :
    (l : List TimestampedStatus) (s : TimestampedStatus)
    → status_reply (some (l ++ s ∷ [])) ≡ replied ok_200 (some s.status)
status_reply_append l s = rw (last?-append l s, status_reply)

module _ {Hash Tree : Type 0} where
  pub handle_message-HasStatuses :
      (state : BridgeState Hash Tree) (now : ℕ) (m : ToBridge)
      → HasStatuses state.status_map
      → HasStatuses (handle_message state now m).status_map
  unfolding handle_message
  handle_message-HasStatuses state now (update_status id status) h =
      elim (Option-cases (lookup id state.status_map)) [
        | inl absent ↦ rw (absent, handle_message) h
        | inr (l, there) ↦
            rw (there, handle_message)
              (All-modify (λ l. l ≢ []) id _ state.status_map (λ l _. append-ne-nil l _) h)
      ]

  -- After a status update for an id of the map, `get_status` answers `200` with that status
  -- under this id; after one for an id that is not in the map, `404` under this id; under
  -- every other id it answers as before.
  pub get_status-handle_message :
      (state : BridgeState Hash Tree) (now : ℕ) (id j : String) (status : Status)
      → get_status (handle_message state now (update_status id status)) j ≡ (
          if id == j
          then (elim (lookup id state.status_map) [
            | some _ ↦ replied ok_200 (some status)
            | none ↦ replied not_found_404 none
          ])
          else get_status state j)
  unfolding get_status handle_message
  get_status-handle_message state now id j status =
      let entry : TimestampedStatus = record { at = now; status = status } in
      let changed = lookup-modify j id (λ l. l ++ entry ∷ []) state.status_map in
      elim (Option-cases (lookup id state.status_map)) [
        | inl absent ↦ elim (Bool-cases (id == j)) [
          | inl same ↦
              let at_j =
                subst (λ k. lookup k state.status_map ≡ none) ((string_eq.beq_iff id j).0 same)
                  absent in
              rw (absent, handle_message) (rw (same, at_j) refl)
          | inr other ↦ rw (absent, handle_message) (rw other refl)
        ]
        | inr (l, there) ↦ elim (Bool-cases (id == j)) [
          | inl same ↦
              let at_j =
                subst (λ k. lookup k state.status_map ≡ some l) ((string_eq.beq_iff id j).0 same)
                  there in
              rw (there, handle_message) (rw (changed, same, at_j) (status_reply_append l entry))
          | inr other ↦ rw (there, handle_message) (rw (changed, other) refl)
        ]
      ]

  -- On a map without an empty list of statuses, `get_status` does not panic, whatever the id.
  pub get_status-ne-panicked :
      (state : BridgeState Hash Tree) (id : String)
      → HasStatuses state.status_map
      → get_status state id ≢ panicked
  unfolding get_status
  get_status-ne-panicked state id h = elim (Option-cases (lookup id state.status_map)) [
    | inl absent ↦ rw absent (λ e. cc)
    | inr (l, there) ↦
        let (s, last) = last?-some l (All-lookup (λ l. l ≢ []) id state.status_map l h there) in
        rw there (λ e. cc (last))
  ]
