-- ===== src/Client/Bridge/Upload/Reserve.antt =====
-- bin/client/src/bridge.rs, `new_blob`: the admission and the permits, taken and given back.
use gozara.Base.{
  ℕ, ◌+◌, ◌-◌, ◌%◌, ◌^◌, ◌≤◌, ◌≡◌, refl, ap, String, List, [], ◌∷◌, false, none, some, Result, ok,
  err, arith, leb, leb→le, le→leb, Bool-cases, Option-cases, inl, inr, string_eq,
}
use gozara.Base.Maps.{lookup, insert, remove-insert_new}
use gozara.Client.Messages.{pending}
use gozara.Client.Services.{Services}
use gozara.Client.Bridge.{
  BridgeState, TimestampedStatus, StatusCode, bad_request_400, conflict_409, admission_new,
  admission_drop,
}
use gozara.Client.Bridge.Upload.{Upload, reserve, abandon}

module _ {Hash Tree : Type 0} (services : Services Hash Tree) where
  open services use {parse_id}

  -- The state in which an upload runs: its entry is there, and its permits are gone.
  abbrev pub reserved_state : BridgeState Hash Tree → String → ℕ → ℕ → BridgeState Hash Tree
  reserved_state state validated_id permits now =
      let entry : TimestampedStatus = record { at = now; status = pending } in
      record state {
        admission_budget = state.admission_budget - permits;
        status_map = insert validated_id (entry ∷ []) state.status_map;
      }

  -- The upload that starts.
  abbrev pub new_upload : String → String → ℕ → ℕ → Upload Hash
  new_upload id validated_id declared_blob_len permits = record {
    id = id;
    validated_id = validated_id;
    declared_blob_len = declared_blob_len;
    allowance = permits;
    received = 0;
    buf = [];
    chunks = [];
  }

  -- The state outcomes of `reserve`.
  abbrev pub Reserved :
      BridgeState Hash Tree
      → String
      → ℕ
      → ℕ
      → ℕ
      → Result StatusCode (Upload Hash) × BridgeState Hash Tree
      → Type 0
  Reserved state id declared n now (err code, s) = s ≡ state
  Reserved state id declared n now (ok u, s) =
      (parse_id id ≡ some u.validated_id)
      × (lookup u.validated_id state.status_map ≡ none)
      × (n % 2 ^ 32 ≤ state.admission_budget)
      × (u ≡ new_upload id u.validated_id declared (n % 2 ^ 32))
      × (s ≡ reserved_state state u.validated_id (n % 2 ^ 32) now)

  drop_new :
      (state : BridgeState Hash Tree) (validated_id : String) (entry : TimestampedStatus)
      → lookup validated_id state.status_map ≡ none
      → admission_drop false validated_id
          (record state { status_map = insert validated_id (entry ∷ []) state.status_map })
        ≡ state
  unfolding admission_drop
  drop_new state validated_id entry h =
      ap (λ m. record state { status_map = m })
        (remove-insert_new validated_id (entry ∷ []) state.status_map h)

  admission_new_bad :
      (state : BridgeState Hash Tree) (id : String) (now : ℕ)
      → parse_id id ≡ none
      → admission_new services state id now ≡ err bad_request_400
  unfolding admission_new
  admission_new_bad state id now bad = rw bad

  admission_new_taken :
      (state : BridgeState Hash Tree) (id vid : String) (now : ℕ) (l : List TimestampedStatus)
      → parse_id id ≡ some vid
      → lookup vid state.status_map ≡ some l
      → admission_new services state id now ≡ err conflict_409
  unfolding admission_new
  admission_new_taken state id vid now l good there = ground (arith, good, there)

  pub admission_new_free :
      (state : BridgeState Hash Tree) (id vid : String) (now : ℕ)
      → parse_id id ≡ some vid
      → lookup vid state.status_map ≡ none
      → admission_new services state id now
        ≡ ok (
          vid,
          record state {
            status_map = insert vid (record { at = now; status = pending } ∷ []) state.status_map;
          },
        )
  unfolding admission_new
  admission_new_free state id vid now good free = ground (arith, good, free)

  pub reserve-Reserved :
      (state : BridgeState Hash Tree) (id : String) (declared n now : ℕ)
      → Reserved state id declared n now (reserve services state id declared n now)
  unfolding reserve
  reserve-Reserved state id declared n now = elim (Option-cases (parse_id id)) [
    | inl bad ↦ rw (admission_new_bad state id now bad, reserve) refl
    | inr (vid, good) ↦ elim (Option-cases (lookup vid state.status_map)) [
      | inr (l, there) ↦ rw (admission_new_taken state id vid now l good there, reserve) refl
      | inl free ↦ elim (Bool-cases (leb (n % 2 ^ 32) state.admission_budget)) [
        | inl enough ↦
            rw (admission_new_free state id vid now good free, reserve)
              (rw enough (good, free, leb→le _ _ enough, refl, refl))
        | inr few ↦
            rw (admission_new_free state id vid now good free, reserve)
              (rw few (drop_new state vid (record { at = now; status = pending }) free))
      ]
    ]
  ]

  -- Giving up undoes the reservation.
  pub abandon-reserved :
      (state : BridgeState Hash Tree) (u : Upload Hash) (now : ℕ)
      → lookup u.validated_id state.status_map ≡ none
      → u.allowance ≤ state.admission_budget
      → abandon services u (reserved_state state u.validated_id u.allowance now) ≡ state
  unfolding abandon
  abandon-reserved state u now h k =
      let back : state.admission_budget - u.allowance + u.allowance ≡ state.admission_budget =
        omega arith in
      rw back (drop_new state u.validated_id (record { at = now; status = pending }) h)

  pub reserve_free :
      (state : BridgeState Hash Tree) (id vid : String) (declared n now : ℕ)
      → parse_id id ≡ some vid
      → lookup vid state.status_map ≡ none
      → n % 2 ^ 32 ≤ state.admission_budget
      → reserve services state id declared n now
        ≡ (ok (new_upload id vid declared (n % 2 ^ 32)), reserved_state state vid (n % 2 ^ 32) now)
  unfolding reserve
  reserve_free state id vid declared n now good free enough =
      rw (admission_new_free state id vid now good free, reserve) (rw (le→leb _ _ enough) refl)
