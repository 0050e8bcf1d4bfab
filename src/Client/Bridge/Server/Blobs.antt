-- ===== src/Client/Bridge/Server/Blobs.antt =====
-- bin/client/src/bridge.rs: what the requests of `new_blob` that run at the same time read and send on.
use mathlib.Core.List.{Mem, mem-cons_self}
use gozara.Base.{
  ℕ, ◌%◌, ◌^◌, ◌≤◌, ◌<◌, ◌≡◌, refl, sym, ap, ◌∙◌, append-nil, String, List, [], ◌∷◌, ◌++◌, map,
  Option, none, some, Result, ok, err, ◌⊎◌, inl, inr, length, arith, leb, Bool-cases, Result-cases,
  string_eq,
}
use gozara.Client.Messages.{AdmittedBlob, ToPipeline}
use gozara.Client.Services.{Services}
use gozara.Client.Bridge.{BridgeState, StatusCode, max_blob_size, send_admission, admission_drop}
use gozara.Client.Bridge.Upload.{Frame, bytes, broken, idle, Upload, receive, assemble, div_ceil}
use gozara.Client.Bridge.Upload.Body.{FitsMemory, HasRead, body_of, Received, receive-Received}
use gozara.Client.Bridge.Upload.Blob.{AreChunks, assemble-IsBlobOf}
use gozara.Client.Bridge.Upload.Admitted.{IsAllowed}
use gozara.Client.Bridge.Server.Turns.{send_admission-kept}
use gozara.Client.Bridge.Server.{
  Stage, admitted, reading, leaving, Turn, acquire, frame, end_of_body, disconnect, clean, Action,
  post, go, Outcome, stays, answers, vanishes, give_back, give_up, hand_over, leave, try_acquire,
  read_frame, turn,
}

-- A frame that a turn brings is in memory.
abbrev pub TurnFits : Turn → Type 0
TurnFits acquire = Unit {0}
TurnFits (frame f) = FitsMemory f
TurnFits end_of_body = Unit {0}
TurnFits disconnect = Unit {0}
TurnFits clean = Unit {0}

abbrev pub ActionFits : Action → Type 0
ActionFits (post id header now) = Unit {0}
ActionFits (go i t) = TurnFits t

-- What has come in of a request's body, with its next turn: an upload that reads takes a frame's bytes.
abbrev pub came_in : {Hash : Type 0} → Stage Hash → Turn → List ℕ → List ℕ
came_in (reading u) (frame f) body = body ++ body_of (f ∷ [])
came_in stage t body = body

module _ {Hash Tree : Type 0} (services : Services Hash Tree) where
  open services use {parse_id, from_leaves, root, chunk_size}

  -- A blob under a valid id that is one of the `bodies`, within the limits, cut into chunks that are paid for
  -- one by one.
  abbrev pub IsWhole : List (List ℕ) → AdmittedBlob Hash Tree → Type 0
  IsWhole bodies blob =
      (validated_id : String) × (body : List ℕ) × Mem body bodies
      × (parse_id blob.id ≡ some validated_id)
      × AreChunks services blob.chunks body
      × (blob.merkle_tree ≡ from_leaves (map (λ p. p.0) blob.chunks))
      × (root blob.merkle_tree ≡ some blob.root_hash)
      × (blob.allowance ≡ length blob.chunks)
      × (0 < length body)
      × (length body ≤ max_blob_size)

  abbrev pub CarriesWhole : List (List ℕ) → ToPipeline Hash Tree → Type 0
  CarriesWhole bodies (ToPipeline.get_blob id) = Unit {0}
  CarriesWhole bodies (ToPipeline.new_blob blob) = IsWhole bodies blob

  pub CarriesWhole-more :
      (bodies more : List (List ℕ)) (m : ToPipeline Hash Tree)
      → ((body : List ℕ) → Mem body bodies → Mem body more)
      → CarriesWhole bodies m
      → CarriesWhole more m
  CarriesWhole-more bodies more (ToPipeline.get_blob id) g h = tt
  CarriesWhole-more bodies more (ToPipeline.new_blob blob) g
        (vid, body, among, a, b, c, d, e, f, k) =
      (vid, body, g body among, a, b, c, d, e, f, k)

  -- Where a request stands and `body` has come in, it has read this body under a valid id and holds its
  -- permits.
  abbrev pub Reads : Stage Hash → List ℕ → Type 0
  Reads (admitted id validated_id declared n) body =
      (parse_id id ≡ some validated_id) × IsAllowed services declared n × (body ≡ [])
  Reads (reading u) body =
      (parse_id u.id ≡ some u.validated_id)
      × HasRead services u body
      × (u.allowance ≡ div_ceil u.declared_blob_len chunk_size)
      × (0 < u.declared_blob_len)
  Reads (leaving validated_id code) body = Unit {0}

  -- What a step sends on.
  abbrev pub Sends : List (List ℕ) → BridgeState Hash Tree → BridgeState Hash Tree → Type 0
  Sends bodies b b' =
      (b'.tx_admission ≡ b.tx_admission)
      ⊎ ((m : ToPipeline Hash Tree) × CarriesWhole bodies m
          × (b'.tx_admission ≡ b.tx_admission ++ m ∷ []))

  -- What a step does for a request of which `body` has come in; `whole` are the bodies of those that have
  -- been answered.
  abbrev pub Sound : List (List ℕ) → BridgeState Hash Tree → List ℕ → Outcome Hash Tree → Type 0
  Sound whole b body (stays b' stage') = Reads stage' body × Sends whole b b'
  Sound whole b body (answers b' reply) = Sends (body ∷ whole) b b'
  Sound whole b body (vanishes b') = Sends whole b b'

  module _ (whole : List (List ℕ)) where
    give_up-Sound :
        (u : Upload Hash) (code : Option StatusCode) (b : BridgeState Hash Tree) (body : List ℕ)
        → Sound whole b body (give_up u code b)
    unfolding give_up give_back
    give_up-Sound u code b body = (tt, inl refl)

    hand_over-Sound :
        (u : Upload Hash) (r : Result StatusCode (AdmittedBlob Hash Tree))
        (b : BridgeState Hash Tree) (body : List ℕ)
        → ((blob : AdmittedBlob Hash Tree) → r ≡ ok blob → IsWhole (body ∷ whole) blob)
        → Sound whole b body (hand_over u r b)
    unfolding hand_over admission_drop
    hand_over-Sound u (err code) b body h = give_up-Sound u (some code) b body
    hand_over-Sound u (ok blob) b body h =
        elim (Result-cases (send_admission b (ToPipeline.new_blob blob))) [
          | inl (b', e) ↦
              rw (e, hand_over)
                (inr (
                  ToPipeline.new_blob blob,
                  h blob refl,
                  (send_admission-kept b b' (ToPipeline.new_blob blob) e).2,
                ))
          | inr (code, e) ↦ rw (e, hand_over) (give_up-Sound u (some code) b body)
        ]

    assembled :
        (u : Upload Hash) (body : List ℕ)
        → Reads (reading u) body
        → (blob : AdmittedBlob Hash Tree) → assemble services u ≡ ok blob
        → IsWhole (body ∷ whole) blob
    assembled u body (valid, read, paid, some_bytes) blob e =
        let (cut, tree, rooted, named, allowance, len) =
          assemble-IsBlobOf services u body blob read e in
        (
          u.validated_id,
          body,
          mem-cons_self,
          ap parse_id named ∙ valid,
          cut,
          tree,
          rooted,
          allowance ∙ paid ∙ ap (λ n. div_ceil n chunk_size) (sym len) ∙ sym cut.2,
          omega (arith, some_bytes, len),
          omega (arith, read.3, len),
        )

    try_acquire-Sound :
        (b : BridgeState Hash Tree) (id validated_id : String) (declared n : ℕ) (body : List ℕ)
        → Reads (admitted id validated_id declared n) body
        → Sound whole b body (try_acquire services b id validated_id declared n)
    unfolding try_acquire
    try_acquire-Sound b id validated_id declared n body (valid, allowed, empty) =
        elim (Bool-cases (leb (n % 2 ^ 32) b.admission_budget)) [
          | inl enough ↦
              let permits : n % 2 ^ 32 ≡ n = omega (arith, allowed.3) in
              rw (enough, empty)
                (
                  (
                    valid,
                    ((services.chunk_size_pos, tt, refl), refl, omega arith, allowed.1),
                    permits ∙ allowed.2,
                    allowed.0,
                  ),
                  inl refl,
                )
          | inr few ↦ rw few (tt, inl refl)
        ]

    frame-Sound :
        (b : BridgeState Hash Tree) (u : Upload Hash) (f : List ℕ) (body : List ℕ)
        (r : Result StatusCode (Upload Hash))
        → Reads (reading u) body
        → receive services u (bytes f) ≡ r
        → Received services u body f r
        → Sound whole b
            (body ++ f)
            (elim r [ ok u' ↦ stays b (reading u') | err code ↦ give_up u (some code) b ])
    frame-Sound b u f body (err code) reads e h = give_up-Sound u (some code) b (body ++ f)
    frame-Sound b u f body (ok v) (valid, _, paid, some_bytes) e
          ((id, vid, declared, allowance), read) =
        (
          (
            ap parse_id id ∙ valid ∙ ap some (sym vid),
            read,
            allowance ∙ paid ∙ ap (λ n. div_ceil n chunk_size) (sym declared),
            omega (arith, declared, some_bytes),
          ),
          inl refl,
        )

    read_frame-Sound :
        (b : BridgeState Hash Tree) (u : Upload Hash) (f : Frame) (body : List ℕ)
        → FitsMemory f
        → Reads (reading u) body
        → Sound whole b (body ++ body_of (f ∷ [])) (read_frame services b u f)
    unfolding read_frame
    read_frame-Sound b u (bytes f) body fits reads = rw (append-nil f) (
        frame-Sound b u f body (receive services u (bytes f)) reads refl
          (receive-Received services u body f fits reads.1))
    read_frame-Sound b u broken body fits reads = unfold receive in (give_up-Sound u _ b _)
    read_frame-Sound b u idle body fits reads = unfold receive in (give_up-Sound u _ b _)

    pub turn-Sound :
        (b : BridgeState Hash Tree) (stage : Stage Hash) (t : Turn) (body : List ℕ)
        → TurnFits t
        → Reads stage body
        → Sound whole b (came_in stage t body) (turn services b stage t)
    unfolding turn leave admission_drop
    turn-Sound b (admitted id validated_id declared n) acquire body fits reads =
        try_acquire-Sound b id validated_id declared n body reads
    turn-Sound b (admitted id validated_id declared n) (frame f) body fits reads = (reads, inl refl)
    turn-Sound b (admitted id validated_id declared n) end_of_body body fits reads =
        (reads, inl refl)
    turn-Sound b (admitted id validated_id declared n) disconnect body fits reads =
        (reads, inl refl)
    turn-Sound b (admitted id validated_id declared n) clean body fits reads = (reads, inl refl)
    turn-Sound b (reading u) acquire body fits reads = (reads, inl refl)
    turn-Sound b (reading u) (frame f) body fits reads = read_frame-Sound b u f body fits reads
    turn-Sound b (reading u) end_of_body body fits reads =
        hand_over-Sound u (assemble services u) b body (assembled u body reads)
    turn-Sound b (reading u) disconnect body fits reads = give_up-Sound u none b body
    turn-Sound b (reading u) clean body fits reads = (reads, inl refl)
    turn-Sound b (leaving validated_id code) acquire body fits reads = (tt, inl refl)
    turn-Sound b (leaving validated_id code) (frame f) body fits reads = (tt, inl refl)
    turn-Sound b (leaving validated_id code) end_of_body body fits reads = (tt, inl refl)
    turn-Sound b (leaving validated_id code) disconnect body fits reads = (tt, inl refl)
    turn-Sound b (leaving validated_id none) clean body fits reads = inl refl
    turn-Sound b (leaving validated_id (some code)) clean body fits reads = inl refl
