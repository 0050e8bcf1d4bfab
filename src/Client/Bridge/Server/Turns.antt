-- ===== src/Client/Bridge/Server/Turns.antt =====
-- bin/client/src/bridge.rs, `new_blob`: what one step of a request does to the permits and to the map.
use gozara.Base.{
  ℕ, ◌+◌, ◌%◌, ◌^◌, ◌≡◌, refl, String, List, [], ◌∷◌, ◌++◌, Option, none, some, Result, ok, err,
  ◌⊎◌, inl, inr, arith, leb, Bool-cases, Result-cases, string_eq,
}
use gozara.Base.Maps.{remove}
use gozara.Client.Messages.{ToPipeline, AdmittedBlob}
use gozara.Client.Services.{Services}
use gozara.Client.Bridge.{BridgeState, send_admission, admission_drop}
use gozara.Client.Bridge.Upload.{Frame, bytes, broken, idle, Upload, receive, assemble}
use gozara.Client.Bridge.Server.{
  Stage, admitted, reading, leaving, Turn, acquire, frame, end_of_body, disconnect, clean, Outcome,
  stays, answers, vanishes, give_back, give_up, hand_over, leave, try_acquire, read_frame, turn,
}

module _ {Hash : Type 0} where
  abbrev pub entry_of : Stage Hash → String
  entry_of (admitted id validated_id declared_blob_len num_chunks) = validated_id
  entry_of (reading u) = u.validated_id
  entry_of (leaving validated_id code) = validated_id

  -- The permits that a request holds.
  abbrev pub held : Stage Hash → ℕ
  held (admitted id validated_id declared_blob_len num_chunks) = 0
  held (reading u) = u.allowance
  held (leaving validated_id code) = 0

module _ {Hash Tree : Type 0} where
  abbrev pub carried : ToPipeline Hash Tree → ℕ
  carried (ToPipeline.get_blob id) = 0
  carried (ToPipeline.new_blob blob) = blob.allowance

  -- The permits of the blobs that are on their way to the coordinator.
  abbrev pub in_flight : List (ToPipeline Hash Tree) → ℕ
  in_flight [] = 0
  in_flight (m ∷ rest) = carried m + in_flight rest

  abbrev pub bridge_permits : BridgeState Hash Tree → ℕ
  bridge_permits b = b.admission_budget + in_flight b.tx_admission

  pub in_flight-append :
      (xs : List (ToPipeline Hash Tree)) (m : ToPipeline Hash Tree)
      → in_flight (xs ++ m ∷ []) ≡ in_flight xs + carried m
  in_flight-append [] m = omega arith
  in_flight-append (x ∷ xs) m = omega (arith, in_flight-append xs m)

  -- What a step of a request that stood at `stage` leaves: no permit is lost or made, and no entry goes but
  -- its own, with the request itself.
  abbrev pub Turned : BridgeState Hash Tree → Stage Hash → Outcome Hash Tree → Type 0
  Turned b stage (stays b' stage') =
      (entry_of stage' ≡ entry_of stage)
      × (b'.status_map ≡ b.status_map)
      × (bridge_permits b' + held stage' ≡ bridge_permits b + held stage)
  Turned b stage (answers b' reply) =
      ((b'.status_map ≡ b.status_map) ⊎ (b'.status_map ≡ remove (entry_of stage) b.status_map))
      × (bridge_permits b' ≡ bridge_permits b + held stage)
  Turned b stage (vanishes b') =
      ((b'.status_map ≡ b.status_map) ⊎ (b'.status_map ≡ remove (entry_of stage) b.status_map))
      × (bridge_permits b' ≡ bridge_permits b + held stage)

  give_up-Turned :
      (u : Upload Hash) (code : Option _) (b : BridgeState Hash Tree)
      → Turned b (reading u) (give_up u code b)
  unfolding give_up give_back
  give_up-Turned u code b = (refl, refl, omega arith)

  -- A message that was sent.
  pub send_admission-kept :
      (b b' : BridgeState Hash Tree) (m : ToPipeline Hash Tree)
      → send_admission b m ≡ ok b'
      → (b'.status_map ≡ b.status_map)
        × (bridge_permits b' ≡ bridge_permits b + carried m)
        × (b'.tx_admission ≡ b.tx_admission ++ m ∷ [])
  unfolding send_admission
  send_admission-kept b b' m h =
      (ground arith, ground (arith, in_flight-append b.tx_admission m), ground arith)

  hand_over-Turned :
      (u : Upload Hash) (r : Result _ (AdmittedBlob Hash Tree)) (b : BridgeState Hash Tree)
      → ((blob : AdmittedBlob Hash Tree) → r ≡ ok blob → blob.allowance ≡ u.allowance)
      → Turned b (reading u) (hand_over u r b)
  unfolding hand_over admission_drop
  hand_over-Turned u (err code) b h = give_up-Turned u (some code) b
  hand_over-Turned u (ok blob) b h =
      elim (Result-cases (send_admission b (ToPipeline.new_blob blob))) [
        | inl (b', e) ↦
            let (same, sent, _) = send_admission-kept b b' (ToPipeline.new_blob blob) e in
            rw (e, hand_over) (inl same, omega (arith, sent, h blob refl))
        | inr (code, e) ↦ rw (e, hand_over) (give_up-Turned u (some code) b)
      ]

  leave-Turned :
      (validated_id : String) (code : Option _) (b : BridgeState Hash Tree)
      → Turned b (leaving validated_id code) (leave validated_id code b)
  unfolding leave admission_drop
  leave-Turned validated_id none b = (inr refl, omega arith)
  leave-Turned validated_id (some code) b = (inr refl, omega arith)

module _ {Hash Tree : Type 0} (services : Services Hash Tree) where
  try_acquire-Turned :
      (b : BridgeState Hash Tree) (id validated_id : String) (declared n : ℕ)
      → Turned b
          (admitted id validated_id declared n)
          (try_acquire services b id validated_id declared n)
  unfolding try_acquire
  try_acquire-Turned b id validated_id declared n =
      elim (Bool-cases (leb (n % 2 ^ 32) b.admission_budget)) [
        | inl enough ↦ rw enough (refl, refl, ground (arith, enough))
        | inr few ↦ rw few (refl, refl, refl)
      ]

  receive-kept :
      (u v : Upload Hash) (f : Frame)
      → receive services u f ≡ ok v
      → (v.validated_id ≡ u.validated_id) × (v.allowance ≡ u.allowance)
  unfolding receive
  receive-kept u v idle h = absurd (cc)
  receive-kept u v broken h = absurd (cc)
  receive-kept u v (bytes f) h = ground arith

  assemble-allowance :
      (u : Upload Hash) (blob : AdmittedBlob Hash Tree)
      → assemble services u ≡ ok blob
      → blob.allowance ≡ u.allowance
  unfolding assemble
  assemble-allowance u blob h = ground arith

  read_frame-Turned :
      (b : BridgeState Hash Tree) (u : Upload Hash) (f : Frame)
      → Turned b (reading u) (read_frame services b u f)
  unfolding read_frame
  read_frame-Turned b u f = elim (Result-cases (receive services u f)) [
    | inl (v, e) ↦
        let (same, paid) = receive-kept u v f e in
        rw (e, read_frame) (same, refl, omega (arith, paid))
    | inr (code, e) ↦ rw (e, read_frame) (give_up-Turned u (some code) b)
  ]

  pub turn-Turned :
      (b : BridgeState Hash Tree) (stage : Stage Hash) (t : Turn)
      → Turned b stage (turn services b stage t)
  unfolding turn
  turn-Turned b (admitted id validated_id declared n) acquire =
      try_acquire-Turned b id validated_id declared n
  turn-Turned b (admitted id validated_id declared n) (frame f) = (refl, refl, refl)
  turn-Turned b (admitted id validated_id declared n) end_of_body = (refl, refl, refl)
  turn-Turned b (admitted id validated_id declared n) disconnect = (refl, refl, refl)
  turn-Turned b (admitted id validated_id declared n) clean = (refl, refl, refl)
  turn-Turned b (reading u) acquire = (refl, refl, refl)
  turn-Turned b (reading u) (frame f) = read_frame-Turned b u f
  turn-Turned b (reading u) end_of_body =
      hand_over-Turned u (assemble services u) b (assemble-allowance u)
  turn-Turned b (reading u) disconnect = give_up-Turned u none b
  turn-Turned b (reading u) clean = (refl, refl, refl)
  turn-Turned b (leaving validated_id code) acquire = (refl, refl, refl)
  turn-Turned b (leaving validated_id code) (frame f) = (refl, refl, refl)
  turn-Turned b (leaving validated_id code) end_of_body = (refl, refl, refl)
  turn-Turned b (leaving validated_id code) disconnect = (refl, refl, refl)
  turn-Turned b (leaving validated_id code) clean = leave-Turned validated_id code b
