-- ===== src/Client/Bridge/Upload/Blob.antt =====
-- bin/client/src/bridge.rs, the end of `new_blob`: the last chunk, the tree and the admitted blob.
use native.Mathlib.Nat.{
  mul-div_cancel, mul-mod_left, mul-add-div_right, mul-add-mod_self_right, div-eq_of_lt,
  mod-eq_of_lt, le_trans,
}
use gozara.Base.{
  ℕ, ◌+◌, ◌*◌, ◌/◌, ◌%◌, ◌≤◌, ◌<◌, ◌≡◌, refl, sym, ap, ◌∙◌, List, [], ◌∷◌, ◌++◌, map, true, some,
  ok, length, All, arith, append-nil, length-append, is_empty, Bool-cases, Option-cases,
  Result-cases, inl, inr, nat_eq, subst,
}
use gozara.Client.Messages.{AdmittedBlob}
use gozara.Client.Services.{Services}
use gozara.Client.Bridge.Upload.{Upload, hash_chunk, flush, assemble, div_ceil}
use gozara.Client.Bridge.Upload.Chunks.{payloads, payloads-append, IsFull, Holds}
use gozara.Client.Bridge.Upload.Body.{HasRead}

div_ceil_full : (n c : ℕ) → 0 < c → div_ceil (n * c) c ≡ n
div_ceil_full n c h = ground (arith, mul-div_cancel n h, mul-mod_left n c)

div_ceil_part : (n c r : ℕ) → 0 < r → r < c → div_ceil (n * c + r) c ≡ n + 1
div_ceil_part n c r h k =
    let whole : (n * c + r) / c ≡ n + r / c = mul-add-div_right (le_trans (omega arith) k) n r in
    let part : (n * c + r) % c ≡ r % c = mul-add-mod_self_right n c r in
    ground (arith, whole, part, div-eq_of_lt k, mod-eq_of_lt k)

module _ {Hash Tree : Type 0} (services : Services Hash Tree) where
  open services use {b3, from_leaves, root, runs, chunk_size}

  -- Every chunk but the last is full, and the last is not empty.
  abbrev pub Size : Hash × List ℕ → List (Hash × List ℕ) → Type 0
  Size p [] = (0 < length p.1) × (length p.1 ≤ chunk_size)
  Size p (q ∷ rest) = length p.1 ≡ chunk_size

  -- Each chunk stands under its own hash and has the size of its place.
  abbrev pub IsCut : List (Hash × List ℕ) → Type 0
  IsCut [] = Unit {0}
  IsCut (p ∷ rest) = (p.0 ≡ b3.hash p.1) × Size p rest × IsCut rest

  -- The chunks of a body.
  abbrev pub AreChunks : List (Hash × List ℕ) → List ℕ → Type 0
  AreChunks chunks body =
      (payloads services chunks ≡ body)
      × IsCut chunks
      × (length chunks ≡ div_ceil (length body) chunk_size)

  full-IsCut : (chunks : List (Hash × List ℕ)) → All (IsFull services) chunks → IsCut chunks
  full-IsCut [] h = tt
  full-IsCut (p ∷ []) h = (h.0.0, (omega (arith, services.chunk_size_pos), omega arith), tt)
  full-IsCut (p ∷ q ∷ rest) h = (h.0.0, h.0.1, full-IsCut (q ∷ rest) h.1)

  full-last-IsCut :
      (chunks : List (Hash × List ℕ)) (p : Hash × List ℕ)
      → All (IsFull services) chunks
      → p.0 ≡ b3.hash p.1
      → 0 < length p.1
      → length p.1 ≤ chunk_size
      → IsCut (chunks ++ p ∷ [])
  full-last-IsCut [] p h hh hp hl = (hh, (hp, hl), tt)
  full-last-IsCut (q ∷ []) p h hh hp hl = (h.0.0, h.0.1, full-last-IsCut [] p tt hh hp hl)
  full-last-IsCut (q ∷ r ∷ rest) p h hh hp hl =
      (h.0.0, h.0.1, full-last-IsCut (r ∷ rest) p h.1 hh hp hl)

  length-payloads_full :
      (chunks : List (Hash × List ℕ))
      → All (IsFull services) chunks
      → length (payloads services chunks) ≡ length chunks * chunk_size
  length-payloads_full [] h = omega arith
  length-payloads_full (p ∷ rest) h =
      omega (arith, length-append p.1 (payloads services rest), length-payloads_full rest h.1)

  full-AreChunks :
      (chunks : List (Hash × List ℕ)) (body : List ℕ)
      → Holds services [] chunks body
      → AreChunks chunks body
  full-AreChunks chunks body (short, full, whole) =
      let same = sym (append-nil (payloads services chunks)) ∙ whole in
      let count = ap length (sym same) ∙ length-payloads_full chunks full in
      (
        same,
        full-IsCut chunks full,
        rw count (sym (div_ceil_full (length chunks) chunk_size services.chunk_size_pos)),
      )

  part-AreChunks :
      (buf : List ℕ) (chunks : List (Hash × List ℕ)) (body : List ℕ)
      → 0 < length buf
      → Holds services buf chunks body
      → AreChunks (chunks ++ (b3.hash buf, buf) ∷ []) body
  part-AreChunks buf chunks body hb (short, full, whole) =
      let last : List (Hash × List ℕ) = (b3.hash buf, buf) ∷ [] in
      let count : length body ≡ length chunks * chunk_size + length buf =
        ap length (sym whole)
        ∙ length-append (payloads services chunks) buf
        ∙ ap (λ n. n + length buf) (length-payloads_full chunks full) in
      (
        payloads-append services chunks last
            ∙ ap (λ l. payloads services chunks ++ l) (append-nil buf)
            ∙ whole,
        full-last-IsCut chunks (b3.hash buf, buf) full refl hb (omega arith),
        length-append chunks last
            ∙ sym (div_ceil_part (length chunks) chunk_size (length buf) hb short)
            ∙ ap (λ n. div_ceil n chunk_size) (sym count),
      )

  flush-AreChunks :
      (u : Upload Hash) (buf body : List ℕ) {chunks : List (Hash × List ℕ)}
      → u.buf ≡ buf
      → Holds services buf u.chunks body
      → flush services u ≡ ok chunks
      → AreChunks chunks body
  unfolding flush hash_chunk
  flush-AreChunks u [] body e h k =
      subst (λ c. AreChunks c body) (ground (arith, e)) (full-AreChunks u.chunks body h)
  flush-AreChunks u (b ∷ bs) body e h k =
      subst (λ c. AreChunks c body) (ground (arith, e))
        (part-AreChunks (b ∷ bs) u.chunks body (omega arith) h)

  flush-succeeds :
      (u : Upload Hash)
      → ((c : List ℕ) → runs c ≡ true)
      → (chunks : List (Hash × List ℕ)) × (flush services u ≡ ok chunks)
  unfolding flush hash_chunk
  flush-succeeds u hr = elim (Bool-cases (is_empty u.buf)) [
    | inl none_left ↦ (u.chunks, rw none_left)
    | inr some_left ↦ (u.chunks ++ (b3.hash u.buf, u.buf) ∷ [], rw (some_left, hr u.buf))
  ]

  -- An admitted blob over the body that the upload has read.
  abbrev pub IsBlobOf : Upload Hash → List ℕ → AdmittedBlob Hash Tree → Type 0
  IsBlobOf u body blob =
      AreChunks blob.chunks body
      × (blob.merkle_tree ≡ from_leaves (map (λ p. p.0) blob.chunks))
      × (root blob.merkle_tree ≡ some blob.root_hash)
      × (blob.id ≡ u.id)
      × (blob.allowance ≡ u.allowance)
      × (length body ≡ u.declared_blob_len)

  pub assemble-IsBlobOf :
      (u : Upload Hash) (body : List ℕ) (blob : AdmittedBlob Hash Tree)
      → HasRead services u body
      → assemble services u ≡ ok blob
      → IsBlobOf u body blob
  unfolding assemble
  assemble-IsBlobOf u body blob h k = elim (Result-cases (flush services u)) [
    | inl (chunks, e) ↦
        let same : blob.chunks ≡ chunks = ground (arith, e) in
        let cut = flush-AreChunks u u.buf body refl h.0 e in
        (
          subst (λ c. AreChunks c body) (sym same) cut,
          ground (arith, e),
          ground (arith, e),
          ground (arith, e),
          ground (arith, e),
          ground (arith, h.1),
        )
    | inr (code, e) ↦ absurd (ground (arith, e))
  ]

  pub assemble-succeeds :
      (u : Upload Hash) (body : List ℕ)
      → ((c : List ℕ) → runs c ≡ true)
      → HasRead services u body
      → length body ≡ u.declared_blob_len
      → 0 < length body
      → (blob : AdmittedBlob Hash Tree) × (assemble services u ≡ ok blob)
  unfolding assemble
  assemble-succeeds u body hr h hl hp =
      let (chunks, e) = flush-succeeds u hr in
      let (root_hash, r) = root_of chunks (flush-AreChunks u u.buf body refl h.0 e).0 in
      (
        record {
          id = u.id;
          root_hash = root_hash;
          merkle_tree = from_leaves (map (λ p. p.0) chunks);
          chunks = chunks;
          allowance = u.allowance;
        },
        ground (arith, e, r, h.1),
      )
    where
      root_of :
          (chunks : List (Hash × List ℕ))
          → payloads services chunks ≡ body
          → (h : Hash) × (root (from_leaves (map (λ p. p.0) chunks)) ≡ some h)
      root_of [] whole = absurd (omega (arith, ap length whole))
      root_of (p ∷ rest) whole =
          elim (Option-cases (root (from_leaves (p.0 ∷ map (λ q. q.0) rest)))) [
            | inl missing ↦ absurd (services.root-from_leaves p.0 _ missing)
            | inr found ↦ found
          ]
