-- ===== src/Client/Bridge/Server/Reading.antt =====
-- bin/client/src/bridge.rs: a request of `new_blob` that runs alone, while it reads its body.
use gozara.Base.{
  ℕ, ◌≡◌, refl, sym, ap, ◌∙◌, String, List, [], ◌∷◌, ◌++◌, false, Option, some, Result, ok, err,
  ◌>>=◌, inl, inr, arith, Result-cases,
}
use gozara.Client.Messages.{ToPipeline, AdmittedBlob}
use gozara.Client.Services.{Services}
use gozara.Client.Bridge.{BridgeState, StatusCode, send_admission, admission_drop}
use gozara.Client.Bridge.Upload.{
  Frame, bytes, broken, idle, Upload, receive, receive_all, assemble, abandon, settle,
}
use gozara.Client.Bridge.Server.{
  Server, Stage, reading, leaving, acquire, frame, end_of_body, clean, Action, post, go, give_back,
  give_up, hand_over, leave, land, read_frame, turn, serve, serve_all,
}

-- The steps of the first request from its frames on, and all of them.
abbrev pub frames_of : List Frame → List Action
frames_of [] = go 0 end_of_body ∷ go 0 clean ∷ []
frames_of (f ∷ fs) = go 0 (frame f) ∷ frames_of fs

abbrev pub steps_of : String → Option (List ℕ) → ℕ → List Frame → List Action
steps_of id header now body = post id header now ∷ go 0 acquire ∷ frames_of body

module _ {Hash Tree : Type 0} where
  abbrev pub one :
      BridgeState Hash Tree
      → List (Stage Hash)
      → List (Result StatusCode (StatusCode × String))
      → Server Hash Tree
  one b requests replies = record { bridge = b; requests = requests; replies = replies }

  -- The server after a request that was answered.
  abbrev pub answered :
      List (Result StatusCode (StatusCode × String))
      → Result StatusCode (StatusCode × String) × BridgeState Hash Tree
      → Server Hash Tree
  answered replies (reply, b) = one b [] (replies ++ reply ∷ [])

module _ {Hash Tree : Type 0} (services : Services Hash Tree) where
  pub gone :
      (b : BridgeState Hash Tree) (replies : List (Result StatusCode (StatusCode × String)))
      (body : List Frame)
      → serve_all services (one b [] replies) (frames_of body) ≡ one b [] replies
  unfolding serve_all serve
  gone b replies [] = refl
  gone b replies (f ∷ fs) = gone b replies fs

  pub left :
      (b : BridgeState Hash Tree) (vid : String) (code : StatusCode)
      (replies : List (Result StatusCode (StatusCode × String))) (body : List Frame)
      → serve_all services (one b (leaving vid (some code) ∷ []) replies) (frames_of body)
        ≡ answered replies (err code, admission_drop false vid b)
  unfolding serve_all serve turn land leave
  left b vid code replies [] = refl
  left b vid code replies (f ∷ fs) = left b vid code replies fs

  settle-kept :
      (u v : Upload Hash) (b : BridgeState Hash Tree)
      (r : Result StatusCode (AdmittedBlob Hash Tree))
      → v.id ≡ u.id
      → v.validated_id ≡ u.validated_id
      → v.allowance ≡ u.allowance
      → settle services v b r ≡ settle services u b r
  unfolding settle abandon
  settle-kept u v b (err code) same_id same_vid same_allowance = rw (same_vid, same_allowance) refl
  settle-kept u v b (ok blob) same_id same_vid same_allowance =
      elim (Result-cases (send_admission b (ToPipeline.new_blob blob))) [
        | inl (b', e) ↦ rw (e, settle) (rw (same_id, same_vid) refl)
        | inr (code, e) ↦ rw (e, settle) (rw (same_vid, same_allowance) refl)
      ]

  receive-same :
      (u v : Upload Hash) (f : Frame)
      → receive services u f ≡ ok v
      → (v.id ≡ u.id) × (v.validated_id ≡ u.validated_id) × (v.allowance ≡ u.allowance)
  unfolding receive
  receive-same u v idle h = absurd (cc)
  receive-same u v broken h = absurd (cc)
  receive-same u v (bytes f) h = ground arith

  handed_over :
      (b : BridgeState Hash Tree) (u : Upload Hash)
      (replies : List (Result StatusCode (StatusCode × String)))
      (r : Result StatusCode (AdmittedBlob Hash Tree))
      → serve_all services
          (land 0 (one b (reading u ∷ []) replies) (hand_over u r b))
          (go 0 clean ∷ [])
        ≡ answered replies (settle services u b r)
  unfolding serve_all serve turn land hand_over give_up give_back leave settle abandon
  handed_over b u replies (err code) = refl
  handed_over b u replies (ok blob) =
      elim (Result-cases (send_admission b (ToPipeline.new_blob blob))) [
        | inl (b', e) ↦ rw (e, hand_over, settle) refl
        | inr (code, e) ↦ rw (e, hand_over, settle) refl
      ]

  after_frame_ok :
      (b : BridgeState Hash Tree) (u v : Upload Hash)
      (replies : List (Result StatusCode (StatusCode × String))) (f : Frame)
      → receive services u f ≡ ok v
      → land 0 (one b (reading u ∷ []) replies) (read_frame services b u f)
        ≡ one b (reading v ∷ []) replies
  unfolding read_frame land
  after_frame_ok b u v replies f e = rw (e, read_frame) refl

  after_frame_err :
      (b : BridgeState Hash Tree) (u : Upload Hash)
      (replies : List (Result StatusCode (StatusCode × String))) (f : Frame) (code : StatusCode)
      → receive services u f ≡ err code
      → land 0 (one b (reading u ∷ []) replies) (read_frame services b u f)
        ≡ one (give_back u.allowance b) (leaving u.validated_id (some code) ∷ []) replies
  unfolding read_frame land give_up
  after_frame_err b u replies f code e = rw (e, read_frame) refl

  pub read_alone :
      (b : BridgeState Hash Tree) (u : Upload Hash)
      (replies : List (Result StatusCode (StatusCode × String))) (body : List Frame)
      → serve_all services (one b (reading u ∷ []) replies) (frames_of body)
        ≡ answered replies (settle services u b (receive_all services u body >>= assemble services))
  unfolding serve_all serve turn receive_all settle abandon give_back
  read_alone b u replies [] = handed_over b u replies (assemble services u)
  read_alone b u replies (f ∷ fs) = elim (Result-cases (receive services u f)) [
    | inl (v, e) ↦
        let (same_id, same_vid, same_allowance) = receive-same u v f e in
        ap (λ s. serve_all services s (frames_of fs)) (after_frame_ok b u v replies f e)
        ∙ read_alone b v replies fs
        ∙ ap (answered replies) (settle-kept u v b _ same_id same_vid same_allowance)
        ∙ ap
            (λ r.
              answered replies (
                settle services u b (r >>= (λ w. receive_all services w fs) >>= assemble services)))
            (sym e)
    | inr (code, e) ↦
        ap (λ s. serve_all services s (frames_of fs)) (after_frame_err b u replies f code e)
        ∙ left (give_back u.allowance b) u.validated_id code replies fs
        ∙ ap
            (λ r.
              answered replies (
                settle services u b (r >>= (λ w. receive_all services w fs) >>= assemble services)))
            (sym e)
  ]
