-- ===== src/Client/Bridge/Upload/Rejected.antt =====
-- bin/client/src/bridge.rs, `new_blob`: uploads that fail.
use gozara.Base.{
  ℕ, ◌%◌, ◌^◌, ◌≡◌, refl, ap, String, List, Option, Result, ok, err, arith, Bool-cases,
  Result-cases, inl, inr, subst, ◌>>=◌,
}
use gozara.Client.Messages.{AdmittedBlob}
use gozara.Client.Services.{Services}
use gozara.Client.Bridge.{BridgeState, StatusCode, send_admission}
use gozara.Client.Bridge.Upload.{
  Frame, Upload, check_length, reserve, abandon, settle, upload, new_blob, receive_all, assemble,
}
use gozara.Client.Bridge.Upload.Reserve.{Reserved, reserve-Reserved, abandon-reserved}

module _ {Hash Tree : Type 0} (services : Services Hash Tree) where
  -- An error answer goes with the state `s`.
  abbrev Leaves :
      BridgeState Hash Tree
      → Result StatusCode (StatusCode × String) × BridgeState Hash Tree
      → Type 0
  Leaves s (err code, s') = s' ≡ s
  Leaves s (ok answer, s') = Unit {0}

  settle-Leaves :
      (u : Upload Hash) (s : BridgeState Hash Tree) (r : Result StatusCode (AdmittedBlob Hash Tree))
      → Leaves (abandon services u s) (settle services u s r)
  unfolding settle send_admission
  settle-Leaves u s (err code) = refl
  settle-Leaves u s (ok blob) = elim (Bool-cases s.admission_open) [
    | inl open' ↦ ground (arith, open')
    | inr shut ↦ ground (arith, shut)
  ]

  upload-Leaves :
      (state : BridgeState Hash Tree) (id : String) (declared n now : ℕ) (body : List Frame)
      (r : Result StatusCode (Upload Hash) × BridgeState Hash Tree)
      → Reserved services state id declared n now r
      → Leaves state (upload services body r)
  unfolding upload
  upload-Leaves state id declared n now body (err code, s) h = h
  upload-Leaves state id declared n now body (ok u, s) (_, free, enough, started, reserved) =
      let permits : u.allowance ≡ n % 2 ^ 32 = ap (λ v. v.allowance) started in
      let back : abandon services u s ≡ state =
        rw (reserved, ← permits)
          (abandon-reserved services state u now free (omega (arith, permits))) in
      subst (λ x. Leaves x (upload services body (ok u, s))) back
        (settle-Leaves u s (receive_all services u body >>= assemble services))

  new_blob-Leaves :
      (state : BridgeState Hash Tree) (id : String) (header : Option (List ℕ)) (body : List Frame)
      (now : ℕ)
      → Leaves state (new_blob services state id header body now)
  unfolding new_blob
  new_blob-Leaves state id header body now = elim (Result-cases (check_length services header)) [
    | inl ((declared, n), e) ↦
        rw (e, new_blob)
          (upload-Leaves state id declared n now body (reserve services state id declared n now)
            (reserve-Reserved services state id declared n now))
    | inr (code, e) ↦ rw (e, new_blob) refl
  ]

  -- An upload that `new_blob` answers with an error leaves the bridge as it was: the permits
  -- are back, the entry is gone, and nothing was sent.
  pub new_blob-rejected :
      (state state' : BridgeState Hash Tree) (id : String) (header : Option (List ℕ))
      (body : List Frame) (now : ℕ) (code : StatusCode)
      → new_blob services state id header body now ≡ (err code, state')
      → state' ≡ state
  new_blob-rejected state state' id header body now code h =
      subst (Leaves state) h (new_blob-Leaves state id header body now)
