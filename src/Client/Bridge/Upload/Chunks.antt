-- ===== src/Client/Bridge/Upload/Chunks.antt =====
-- bin/client/src/bridge.rs, the inner loop of `new_blob`: cutting the body into chunks.
use gozara.Base.{
  ℕ, zero, suc, min, ◌-◌, ◌≤◌, ◌<◌, ◌≡◌, refl, sym, ap, subst, ◌∙◌, List, [], ◌∷◌, ◌++◌, map, false,
  Option, none, some, Result, ok, err, length, take, drop, concat, All, All-append, arith,
  append_assoc, append-nil, length-append, length-take, length-drop, take-append-drop, Bool-cases,
  inl, inr, ◌==◌, nat_eq, nat_beq_iff,
}
use gozara.Client.Services.{Services}
use gozara.Client.Bridge.{StatusCode, internal_server_error_500}
use gozara.Client.Bridge.Upload.{fill, hash_chunk}

module _ {Hash Tree : Type 0} (services : Services Hash Tree) where
  open services use {b3, runs, chunk_size}

  -- The bytes of the chunks, in order.
  abbrev pub payloads : List (Hash × List ℕ) → List ℕ
  payloads chunks = concat (map (λ p. p.1) chunks)

  -- A chunk of full size under its own hash.
  abbrev pub IsFull : Hash × List ℕ → Type 0
  IsFull p = (p.0 ≡ b3.hash p.1) × (length p.1 ≡ chunk_size)

  -- `body` is what came in so far: full chunks, and less than a chunk in the buffer.
  abbrev pub Holds : List ℕ → List (Hash × List ℕ) → List ℕ → Type 0
  Holds buf chunks body =
      (length buf < chunk_size) × All IsFull chunks × (payloads chunks ++ buf ≡ body)

  -- The loop fails only where a hashing task does.
  abbrev pub Filled : List ℕ → Option (Result StatusCode (List ℕ × List (Hash × List ℕ))) → Type 0
  Filled body none = ⊥
  Filled body (some (err code)) =
      (code ≡ internal_server_error_500) × ((c : List ℕ) × (runs c ≡ false))
  Filled body (some (ok (buf, chunks))) = Holds buf chunks body

  pub payloads-append :
      (xs ys : List (Hash × List ℕ)) → payloads (xs ++ ys) ≡ payloads xs ++ payloads ys
  payloads-append [] ys = refl
  payloads-append (x ∷ xs) ys =
      ap (λ l. x.1 ++ l) (payloads-append xs ys)
      ∙ sym (append_assoc x.1 (payloads xs) (payloads ys))

  -- A round that completes a chunk.
  Holds-push :
      (buf : List ℕ) (chunks : List (Hash × List ℕ)) (body more : List ℕ)
      → Holds buf chunks body
      → length (buf ++ more) ≡ chunk_size
      → Holds [] (chunks ++ (b3.hash (buf ++ more), buf ++ more) ∷ []) (body ++ more)
  Holds-push buf chunks body more (short, full, whole) h = (
    services.chunk_size_pos,
    All-append IsFull chunks _ full ((refl, h), tt),
    append-nil _
        ∙ payloads-append chunks _
        ∙ ap (λ l. payloads chunks ++ l) (append-nil (buf ++ more))
        ∙ sym (append_assoc (payloads chunks) buf more)
        ∙ ap (λ l. l ++ more) whole,
  )

  Holds-extend :
      (buf : List ℕ) (chunks : List (Hash × List ℕ)) (body more : List ℕ)
      → Holds buf chunks body
      → length (buf ++ more) < chunk_size
      → Holds (buf ++ more) chunks (body ++ more)
  Holds-extend buf chunks body more (short, full, whole) h =
      (h, full, sym (append_assoc (payloads chunks) buf more) ∙ ap (λ l. l ++ more) whole)

  pub fill-Filled :
      (fuel : ℕ) (buf : List ℕ) (chunks : List (Hash × List ℕ)) (data' body : List ℕ)
      → length data' ≤ fuel
      → Holds buf chunks body
      → Filled (body ++ data') (fill services fuel buf chunks data')
  unfolding fill hash_chunk
  fill-Filled fuel buf chunks [] body hf h = (h.0, h.1, h.2 ∙ sym (append-nil body))
  fill-Filled zero buf chunks (b ∷ bs) body hf h = absurd (omega arith)
  fill-Filled (suc fuel) buf chunks (b ∷ bs) body hf h =
      let taken = min (chunk_size - length buf) (length (b ∷ bs)) in
      let more = take taken (b ∷ bs) in
      let rest = drop taken (b ∷ bs) in
      let joined : (body ++ more) ++ rest ≡ body ++ b ∷ bs =
        append_assoc body more rest ∙ ap (λ l. body ++ l) (take-append-drop taken (b ∷ bs)) in
      let size = length-append buf more in
      let part = length-take taken (b ∷ bs) in
      let fewer : length rest ≤ fuel = omega (arith, length-drop taken (b ∷ bs), h.0) in
      subst (λ x. Filled x (fill services (suc fuel) buf chunks (b ∷ bs))) joined
        (elim (Bool-cases (length (buf ++ more) == chunk_size)) [
          | inl complete ↦ elim (Bool-cases (runs (buf ++ more))) [
            | inl fine ↦
                rw (complete, fine)
                  (fill-Filled fuel [] _ rest (body ++ more) fewer (
                    Holds-push buf chunks body more h
                      ((nat_beq_iff (length (buf ++ more)) chunk_size).0 complete)))
            | inr lost ↦ rw (complete, lost) (refl, (buf ++ more, lost))
          ]
          | inr partial ↦ rw partial (
              fill-Filled fuel (buf ++ more) chunks rest (body ++ more) fewer
                (Holds-extend buf chunks body more h (ground (arith, size, part))))
        ])
