-- ===== src/Client/Bridge/Upload/Body.antt =====
-- bin/client/src/bridge.rs, `new_blob`: reading the body frame by frame.
use gozara.Base.{
  ℕ, ◌+◌, ◌^◌, ◌%◌, ◌≤◌, ◌<◌, ◌≡◌, refl, sym, ◌∙◌, List, [], ◌∷◌, ◌++◌, true, false, Option, none,
  some, Result, ok, err, ◌>>=◌, length, All, arith, append_assoc, append-nil, length-append, ltb,
  Bool-cases, inl, inr, ◌⊎◌, subst,
}
use gozara.Client.Services.{Services}
use gozara.Client.Bridge.{StatusCode, bad_request_400, internal_server_error_500, max_blob_size}
use gozara.Client.Bridge.Upload.{Frame, bytes, broken, idle, Upload, fill, receive, receive_all}
use gozara.Client.Bridge.Upload.Chunks.{Holds, Filled, fill-Filled}

-- The bytes of the frames.
abbrev pub body_of : List Frame → List ℕ
body_of [] = []
body_of (bytes f ∷ fs) = f ++ body_of fs
body_of (broken ∷ fs) = body_of fs
body_of (idle ∷ fs) = body_of fs

-- A buffer of the language holds less than 2 ^ 63 bytes.
abbrev pub FitsMemory : Frame → Type 0
FitsMemory (bytes f) = length f < 2 ^ 63
FitsMemory broken = Unit {0}
FitsMemory idle = Unit {0}

abbrev pub IsData : Frame → Type 0
IsData (bytes f) = Unit {0}
IsData broken = ⊥
IsData idle = ⊥

-- What an upload keeps while it reads.
abbrev pub SameUpload : {Hash : Type 0} → Upload Hash → Upload Hash → Type 0
SameUpload u v =
    (v.id ≡ u.id)
    × (v.validated_id ≡ u.validated_id)
    × (v.declared_blob_len ≡ u.declared_blob_len)
    × (v.allowance ≡ u.allowance)

SameUpload-trans :
    {Hash : Type 0} (u v w : Upload Hash) → SameUpload u v → SameUpload v w → SameUpload u w
SameUpload-trans u v w (a, b, c, d) (a', b', c', d') = (a' ∙ a, b' ∙ b, c' ∙ c, d' ∙ d)

module _ {Hash Tree : Type 0} (services : Services Hash Tree) where
  open services use {runs, chunk_size}

  -- The upload has read `body`.
  abbrev pub HasRead : Upload Hash → List ℕ → Type 0
  HasRead u body =
      Holds services u.buf u.chunks body
      × (u.received ≡ length body)
      × (u.received ≤ u.declared_blob_len)
      × (u.declared_blob_len ≤ max_blob_size)

  -- What one frame of data does to an upload that has read `body`.
  abbrev pub Received : Upload Hash → List ℕ → List ℕ → Result StatusCode (Upload Hash) → Type 0
  Received u body frame (ok v) = SameUpload u v × HasRead v (body ++ frame)
  Received u body frame (err code) =
      ((code ≡ bad_request_400) × (u.declared_blob_len < length body + length frame))
      ⊎ ((code ≡ internal_server_error_500) × ((c : List ℕ) × (runs c ≡ false)))

  take-Filled :
      (u : Upload Hash) (body frame : List ℕ) (n : ℕ)
      (r : Option (Result StatusCode (List ℕ × List (Hash × List ℕ))))
      → n ≡ length body + length frame
      → n ≤ u.declared_blob_len
      → u.declared_blob_len ≤ max_blob_size
      → Filled services (body ++ frame) r
      → Received u body frame (elim r [
        | none ↦ err internal_server_error_500
        | some (err code) ↦ err code
        | some (ok (buf, chunks)) ↦ ok (record u { received = n; buf = buf; chunks = chunks })
      ])
  take-Filled u body frame n none hn hd hm f = absurd f
  take-Filled u body frame n (some (err code)) hn hd hm f = inr f
  take-Filled u body frame n (some (ok (buf, chunks))) hn hd hm f =
      ((refl, refl, refl, refl), (f, hn ∙ sym (length-append body frame), hd, hm))

  pub receive-Received :
      (u : Upload Hash) (body frame : List ℕ)
      → length frame < 2 ^ 63
      → HasRead u body
      → Received u body frame (receive services u (bytes frame))
  unfolding receive
  receive-Received u body frame hf (holds, hr, hd, hm) =
      let total : (u.received + length frame) % 2 ^ 64 ≡ length body + length frame = omega arith in
      elim (Bool-cases (ltb u.declared_blob_len ((u.received + length frame) % 2 ^ 64))) [
        | inl over ↦ rw over (inl (refl, ground (arith, total)))
        | inr within ↦ rw within (
            take-Filled u body frame _ (fill services (length frame) u.buf u.chunks frame) total
              (ground arith) hm
              (fill-Filled services (length frame) u.buf u.chunks frame body (omega arith) holds))
      ]

  abbrev pub ReadAll : Upload Hash → List ℕ → List Frame → Result StatusCode (Upload Hash) → Type 0
  ReadAll u body fs (ok v) = SameUpload u v × HasRead v (body ++ body_of fs) × All IsData fs
  ReadAll u body fs (err code) = Unit {0}

  pub receive_all-ReadAll :
      (u : Upload Hash) (body : List ℕ) (fs : List Frame)
      → All FitsMemory fs
      → HasRead u body
      → ReadAll u body fs (receive_all services u fs)
  unfolding receive_all
  receive_all-ReadAll u body [] hf h =
      ((refl, refl, refl, refl), subst (HasRead u) (sym (append-nil body)) h, tt)
  receive_all-ReadAll u body (broken ∷ fs) hf h = unfold receive in tt
  receive_all-ReadAll u body (idle ∷ fs) hf h = unfold receive in tt
  receive_all-ReadAll u body (bytes f ∷ fs) hf h =
      next (receive services u (bytes f)) (receive-Received u body f hf.0 h)
        (λ v hv. receive_all-ReadAll v (body ++ f) fs hf.1 hv)
    where
      next :
          (r : Result StatusCode (Upload Hash))
          → Received u body f r
          → ((v : Upload Hash)
              → HasRead v (body ++ f)
              → ReadAll v (body ++ f) fs (receive_all services v fs))
          → ReadAll u body (bytes f ∷ fs) (r >>= λ v. receive_all services v fs)
      next (err code) k rec = tt
      next (ok v) (same, hv) rec = last (receive_all services v fs) (rec v hv)
        where
          last :
              (r : Result StatusCode (Upload Hash))
              → ReadAll v (body ++ f) fs r
              → ReadAll u body (bytes f ∷ fs) r
          last (err code) k = tt
          last (ok w) (same', hw, hd) = (
            SameUpload-trans u v w same same',
            subst (HasRead w) (append_assoc body f (body_of fs)) hw,
            (tt, hd),
          )

  pub receive_all-succeeds :
      (u : Upload Hash) (body : List ℕ) (fs : List Frame)
      → All FitsMemory fs
      → All IsData fs
      → ((c : List ℕ) → runs c ≡ true)
      → HasRead u body
      → length body + length (body_of fs) ≤ u.declared_blob_len
      → (v : Upload Hash) × (receive_all services u fs ≡ ok v)
  unfolding receive_all
  receive_all-succeeds u body [] hf hd hr h hl = (u, refl)
  receive_all-succeeds u body (broken ∷ fs) hf hd hr h hl = absurd hd.0
  receive_all-succeeds u body (idle ∷ fs) hf hd hr h hl = absurd hd.0
  receive_all-succeeds u body (bytes f ∷ fs) hf hd hr h hl =
      next (receive services u (bytes f)) (receive-Received u body f hf.0 h)
        (λ v hv hl'. receive_all-succeeds v (body ++ f) fs hf.1 hd.1 hr hv hl')
    where
      sizes : length (f ++ body_of fs) ≡ length f + length (body_of fs)
      sizes = length-append f (body_of fs)

      next :
          (r : Result StatusCode (Upload Hash))
          → Received u body f r
          → ((v : Upload Hash)
              → HasRead v (body ++ f)
              → length (body ++ f) + length (body_of fs) ≤ v.declared_blob_len
              → (w : Upload Hash) × (receive_all services v fs ≡ ok w))
          → (w : Upload Hash) × ((r >>= λ v. receive_all services v fs) ≡ ok w)
      next (err code) (inl (e, over)) rec = absurd (omega (arith, sizes))
      next (err code) (inr (e, (c, lost))) rec = absurd (cc (hr c))
      next (ok v) (same, hv) rec = rec v hv (ground (arith, sizes, length-append body f))
