-- ===== src/Client/Bridge/Server/Alone.antt =====
-- bin/client/src/bridge.rs: a request of `new_blob` that runs alone, against the handler taken as one
-- operation.
use gozara.Base.{
  ℕ, ◌%◌, ◌^◌, ◌≡◌, refl, sym, ap, ◌∙◌, String, List, [], ◌∷◌, ◌++◌, Option, Result, ok, err, inl,
  inr, leb, Bool-cases, Result-cases,
}
use gozara.Client.Services.{Services}
use gozara.Client.Bridge.{BridgeState, StatusCode, admission_new}
use gozara.Client.Bridge.Upload.{Frame, check_length, reserve, upload, new_blob}
use gozara.Client.Bridge.Server.{
  Server, admitted, acquire, go, land, try_acquire, turn, post_blob, serve, serve_all,
}
use gozara.Client.Bridge.Server.Reading.{frames_of, steps_of, one, answered, gone, left, read_alone}

module _ {Hash Tree : Type 0} (services : Services Hash Tree) where
  acquired :
      (b : BridgeState Hash Tree) (id vid : String) (declared n : ℕ)
      (replies : List (Result StatusCode (StatusCode × String))) (body : List Frame) (now : ℕ)
      (before : BridgeState Hash Tree)
      → admission_new services before id now ≡ ok (vid, b)
      → serve_all services
          (land 0
            (one b (admitted id vid declared n ∷ []) replies)
            (try_acquire services b id vid declared n))
          (frames_of body)
        ≡ answered replies (upload services body (reserve services before id declared n now))
  unfolding try_acquire land reserve upload
  acquired b id vid declared n replies body now before e =
      elim (Bool-cases (leb (n % 2 ^ 32) b.admission_budget)) [
        | inl enough ↦ rw (e, reserve) (rw enough (read_alone services _ _ replies body))
        | inr few ↦ rw (e, reserve) (rw few (left services b vid _ replies body))
      ]

  post_blob_err :
      (b : BridgeState Hash Tree) (id : String) (header : Option (List ℕ)) (now : ℕ)
      (replies : List (Result StatusCode (StatusCode × String))) (code : StatusCode)
      → check_length services header ≡ err code
      → post_blob services (one b [] replies) id header now ≡ one b [] (replies ++ err code ∷ [])
  unfolding post_blob
  post_blob_err b id header now replies code e = rw (e, post_blob) refl

  post_blob_taken :
      (b : BridgeState Hash Tree) (id : String) (header : Option (List ℕ)) (declared n now : ℕ)
      (replies : List (Result StatusCode (StatusCode × String))) (code : StatusCode)
      → check_length services header ≡ ok (declared, n)
      → admission_new services b id now ≡ err code
      → post_blob services (one b [] replies) id header now ≡ one b [] (replies ++ err code ∷ [])
  unfolding post_blob
  post_blob_taken b id header declared n now replies code e e' = rw (e, post_blob) (rw e' refl)

  post_blob_ok :
      (b b' : BridgeState Hash Tree) (id vid : String) (header : Option (List ℕ))
      (declared n now : ℕ) (replies : List (Result StatusCode (StatusCode × String)))
      → check_length services header ≡ ok (declared, n)
      → admission_new services b id now ≡ ok (vid, b')
      → post_blob services (one b [] replies) id header now
        ≡ one b' (admitted id vid declared n ∷ []) replies
  unfolding post_blob
  post_blob_ok b b' id vid header declared n now replies e e' = rw (e, post_blob) (rw e' refl)

  new_blob_taken :
      (b : BridgeState Hash Tree) (id : String) (header : Option (List ℕ)) (declared n now : ℕ)
      (body : List Frame) (code : StatusCode)
      → check_length services header ≡ ok (declared, n)
      → admission_new services b id now ≡ err code
      → new_blob services b id header body now ≡ (err code, b)
  unfolding new_blob reserve upload
  new_blob_taken b id header declared n now body code e e' =
      rw (e, new_blob) (rw (e', reserve) refl)

  new_blob_long :
      (b : BridgeState Hash Tree) (id : String) (header : Option (List ℕ)) (now : ℕ)
      (body : List Frame) (code : StatusCode)
      → check_length services header ≡ err code
      → new_blob services b id header body now ≡ (err code, b)
  unfolding new_blob
  new_blob_long b id header now body code e = rw (e, new_blob) refl

  new_blob_fits :
      (b : BridgeState Hash Tree) (id : String) (header : Option (List ℕ)) (declared n now : ℕ)
      (body : List Frame)
      → check_length services header ≡ ok (declared, n)
      → new_blob services b id header body now
        ≡ upload services body (reserve services b id declared n now)
  unfolding new_blob
  new_blob_fits b id header declared n now body e = rw (e, new_blob) refl

  -- The steps of one upload with no other beside it, from the request over the permits, each
  -- frame and the end of the body to the drop of the admission, end with the one answer and
  -- the bridge of `new_blob` taken as one operation, whatever the request and the bridge.
  pub serve_all-new_blob :
      (b : BridgeState Hash Tree) (id : String) (header : Option (List ℕ)) (now : ℕ)
      (body : List Frame) (replies : List (Result StatusCode (StatusCode × String)))
      → serve_all services (one b [] replies) (steps_of id header now body)
        ≡ answered replies (new_blob services b id header body now)
  unfolding serve_all serve turn
  serve_all-new_blob b id header now body replies =
      elim (Result-cases (check_length services header)) [
        | inr (code, e) ↦
            from_there (post_blob_err b id header now replies code e)
            ∙ gone services b (replies ++ err code ∷ []) body
            ∙ ap (answered replies) (sym (new_blob_long b id header now body code e))
        | inl ((declared, n), e) ↦ elim (Result-cases (admission_new services b id now)) [
          | inr (code, e') ↦
              from_there (post_blob_taken b id header declared n now replies code e e')
              ∙ gone services b (replies ++ err code ∷ []) body
              ∙ ap (answered replies)
                  (sym (new_blob_taken b id header declared n now body code e e'))
          | inl ((vid, b'), e') ↦
              from_there (post_blob_ok b b' id vid header declared n now replies e e')
              ∙ acquired b' id vid declared n replies body now b e'
              ∙ ap (answered replies) (sym (new_blob_fits b id header declared n now body e))
        ]
      ]
    where
      from_there :
          {s t : Server Hash Tree}
          → s ≡ t
          → serve_all services s (go 0 acquire ∷ frames_of body)
            ≡ serve_all services t (go 0 acquire ∷ frames_of body)
      from_there e = ap (λ s. serve_all services s (go 0 acquire ∷ frames_of body)) e
