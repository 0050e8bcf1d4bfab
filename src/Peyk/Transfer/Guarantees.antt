-- ===== src/Peyk/Transfer/Guarantees.antt =====
-- crates/peyk/src/blob_transfer.rs: what each end may rely on, whatever the other end sends.
use gozara.Base.{
  ℕ, ◌≤◌, ◌≡◌, inl, inr, ◌⊎◌, refl, ap, ◌∙◌, subst, List, [], ◌∷◌, ◌++◌, length, arith, Eq, ◌==◌,
  All, All-append, Bool-cases, some, if◌then◌else◌,
}
use gozara.Peyk.Link.{Link, Outcome, done, fail, link_of, write_all, close, send, attempt}
use gozara.Peyk.Link.Triple.{Ends, Triple, Triple-bind, attempt-close-Triple, write_all-Triple}
use gozara.Peyk.Frame.Triples.{read_frame-Triple, write_frame-Triple}
use gozara.Peyk.Blake3.{Blake3}
use gozara.Peyk.Events.{IncomingPush}
use gozara.Peyk.Frame.{read_frame, write_frame, from_be_bytes}
use gozara.Peyk.Frame.Bounds.{read_frame-consumes}
use gozara.Peyk.Link.Bind.{Outcome-cases, >>=-eq-done}
use gozara.Peyk.Transfer.{
  handle_incoming_push, accept_push, reject_push, accept_pushes, mismatch_text, parse_hash,
}

module _ {Hash : Type 0} ⦃hash_eq : Eq Hash⦄ (b3 : Blake3 Hash) where
  open b3 use {hash as digest, as_slice, from_slice}

  -- The input begins with a frame of `bytes`, and `rest` is behind it.
  abbrev pub BeginsWith : List ℕ → List ℕ → List ℕ → Type 0
  BeginsWith input bytes rest =
      (header : List ℕ) × (length header ≡ 4)
      × (from_be_bytes header ≡ length bytes)
      × (input ≡ header ++ (bytes ++ rest))

  -- The input carries the push: a frame with the hash that it announces, and one with the payload.
  abbrev pub Announces : List ℕ → IncomingPush Hash → Type 0
  Announces input p =
      (hash_bytes behind rest : List ℕ) × BeginsWith input hash_bytes behind
      × (from_slice hash_bytes ≡ some p.hash)
      × BeginsWith behind p.payload rest

  -- A push that may be delivered for this input: the payload has the hash that it was announced with.
  abbrev pub IsIntact : ℕ → List ℕ → IncomingPush Hash → Type 0
  IsIntact max_len input p =
      (digest p.payload ≡ p.hash) × (length p.payload ≤ max_len) × Announces input p

  parse_hash-Triple :
      {M : Type 0} (pre : List M → Type 0) (bytes : List ℕ)
      → Triple pre (parse_hash b3 bytes) (λ _. pre) pre
  parse_hash-Triple pre bytes s h = ground arith

  abbrev Delivers : ℕ → ℕ → List ℕ → List (IncomingPush Hash) → Type 0
  Delivers peer max_len input l =
      (p : IncomingPush Hash) × (l ≡ p ∷ []) × (p.peer ≡ peer) × IsIntact max_len input p

  abbrev Quiet : List (IncomingPush Hash) → Type 0
  Quiet l = l ≡ []

  reject_push-Triple :
      (expected actual : Hash) → Triple Quiet (reject_push b3 expected actual) (λ _ _. ⊥) Quiet
  unfolding reject_push
  reject_push-Triple expected actual =
      let last = λ (r : Unit {0}) (l : List (IncomingPush Hash)). ⊥ in
      Triple-bind Quiet (λ _. Quiet) last Quiet (write_all (0 ∷ [])) _ (write_all-Triple Quiet _)
        λ _.
          Triple-bind Quiet (λ _. Quiet) last Quiet (write_frame (mismatch_text b3 actual)) _
            (write_frame-Triple Quiet _)
            λ _.
              Triple-bind Quiet (λ _. Quiet) last Quiet (attempt close) _
                (attempt-close-Triple Quiet Quiet) λ r s h. h

  accept_push-Triple :
      (peer : ℕ) (h : Hash) (payload : List ℕ)
      → let p : IncomingPush Hash = record { peer = peer; hash = h; payload = payload } in
        Triple Quiet (accept_push b3 peer h payload) (λ _ l. l ≡ p ∷ []) Quiet
  unfolding accept_push send
  accept_push-Triple peer h payload =
      let p : IncomingPush Hash = record { peer = peer; hash = h; payload = payload } in
      let last = λ (r : Unit {0}) (l : List (IncomingPush Hash)). l ≡ p ∷ [] in
      Triple-bind Quiet (λ _. Quiet) last Quiet (write_all (1 ∷ [])) _ (write_all-Triple Quiet _)
        λ _.
          Triple-bind Quiet (λ _. Quiet) last Quiet (attempt close) _
            (attempt-close-Triple Quiet Quiet) λ r s k. ap (λ l. l ++ p ∷ []) k

  -- What a push answers once its payload is read: it is accepted only under the hash of the payload.
  settles_push :
      (peer : ℕ) (expected : Hash) (payload : List ℕ)
      → let p : IncomingPush Hash = record { peer = peer; hash = expected; payload = payload } in
        Triple Quiet
          (if digest payload == expected
            then accept_push b3 peer expected payload
            else reject_push b3 expected (digest payload))
          (λ _ l. (digest payload ≡ expected) × (l ≡ p ∷ []))
          Quiet
  settles_push peer expected payload s k = elim (Bool-cases (digest payload == expected)) [
    | inl same ↦ rw same (
        go _ (accept_push b3 peer expected payload s) (accept_push-Triple peer expected payload s k)
          ((hash_eq.beq_iff (digest payload) expected).0 same))
    | inr other ↦ rw other (
        never _ (reject_push b3 expected (digest payload) s)
          (reject_push-Triple expected (digest payload) s k))
  ]
    where
      go :
          (P : List (IncomingPush Hash) → Type 0) (o : Outcome (IncomingPush Hash) (Unit {0}))
          → Ends (λ _. P) Quiet o
          → digest payload ≡ expected
          → Ends (λ _ l. (digest payload ≡ expected) × P l) Quiet o
      go P (done a t) h e = (e, h)
      go P (fail e t) h _ = h

      never :
          (P : List (IncomingPush Hash) → Type 0) (o : Outcome (IncomingPush Hash) (Unit {0}))
          → Ends (λ _ _. ⊥) Quiet o
          → Ends (λ _. P) Quiet o
      never P (done a t) h = absurd h
      never P (fail e t) h = h

  handle_incoming_push-Triple :
      (peer max_len : ℕ)
      → Triple Quiet (handle_incoming_push b3 peer max_len) (λ _ _. Unit {0}) Quiet
  unfolding handle_incoming_push
  handle_incoming_push-Triple peer max_len =
      let last = λ (r : Unit {0}) (l : List (IncomingPush Hash)). Unit {0} in
      Triple-bind Quiet _ last Quiet (read_frame 32) _ (read_frame-Triple Quiet 32) λ bytes s h.
        Triple-bind Quiet (λ _. Quiet) last Quiet (parse_hash b3 bytes) _
          (parse_hash-Triple Quiet bytes)
          (λ expected.
            Triple-bind Quiet _ last Quiet (read_frame max_len) _ (read_frame-Triple Quiet max_len)
              λ payload t k. forget _ _ (settles_push peer expected payload t k.1))
          s h.1
    where
      forget :
          (P : List (IncomingPush Hash) → Type 0) (o : Outcome (IncomingPush Hash) (Unit {0}))
          → Ends (λ _. P) Quiet o
          → Ends (λ _ _. Unit {0}) Quiet o
      forget P (done a t) h = tt
      forget P (fail e t) h = h

  parse_hash_done :
      (bytes : List ℕ) (h : Hash) (s t : Link (IncomingPush Hash))
      → parse_hash b3 bytes s ≡ done h t
      → (from_slice bytes ≡ some h) × (t ≡ s)
  parse_hash_done bytes h s t e = ground arith

  -- A push that succeeds has delivered the payload that its input announces.
  handle_incoming_push_done :
      (peer max_len : ℕ) (s t : Link (IncomingPush Hash)) (u : Unit {0})
      → s.sent ≡ []
      → handle_incoming_push b3 peer max_len s ≡ done u t
      → Delivers peer max_len s.input t.sent
  unfolding handle_incoming_push
  handle_incoming_push_done peer max_len s t u quiet e =
      let (hash_bytes, v, read_hash, e1) = >>=-eq-done (read_frame 32) _ s e in
      let (expected, w, parsed, e2) = >>=-eq-done (parse_hash b3 hash_bytes) _ v e1 in
      let (payload, x, read_payload, e3) = >>=-eq-done (read_frame max_len) _ w e2 in
      let (_, first, kept) = read_frame-consumes 32 s v hash_bytes read_hash in
      let (named, same) = parse_hash_done hash_bytes expected v w parsed in
      let (within, second, kept') = read_frame-consumes max_len w x payload read_payload in
      let still_quiet : x.sent ≡ [] =
        ap (λ l. l.sent) kept' ∙ ap (λ l. l.sent) same ∙ ap (λ l. l.sent) kept ∙ quiet in
      let (honest, sent) =
        subst (Ends _ Quiet) e3 (settles_push peer expected payload x still_quiet) in
      (
        record { peer = peer; hash = expected; payload = payload },
        sent,
        refl,
        (
          honest,
          within,
          (
            hash_bytes,
            v.input,
            x.input,
            first,
            named,
            subst (λ l. BeginsWith l.input payload x.input) same second,
          ),
        ),
      )

  -- An outcome of `handle_incoming_push`: success goes with exactly one delivery, intact and of this
  -- peer, and an error with none.
  abbrev pub Delivered : ℕ → ℕ → List ℕ → Outcome (IncomingPush Hash) (Unit {0}) → Type 0
  Delivered peer max_len input (done a t) = Delivers peer max_len input t.sent
  Delivered peer max_len input (fail e t) = t.sent ≡ []

  -- Whatever bytes come in, `handle_incoming_push` on a quiet channel either succeeds and
  -- delivers exactly one payload, of this peer and within the limit, which stands in the input
  -- in a frame behind one that announces its hash, and which has this hash and is delivered
  -- under it; or it fails and delivers nothing.
  pub handle_incoming_push-Delivered :
      (peer max_len : ℕ) (s : Link (IncomingPush Hash))
      → s.sent ≡ []
      → Delivered peer max_len s.input (handle_incoming_push b3 peer max_len s)
  handle_incoming_push-Delivered peer max_len s quiet =
      elim (Outcome-cases (handle_incoming_push b3 peer max_len s)) [
        | inl (u, t, e) ↦ rw e (handle_incoming_push_done peer max_len s t u quiet e)
        | inr (x, t, e) ↦ rw e (
            subst (Ends (λ _ _. Unit {0}) Quiet) e
              (handle_incoming_push-Triple peer max_len s quiet))
      ]

  -- A push that came from one of the streams.
  abbrev pub IsCarried : ℕ → List (ℕ × Link (IncomingPush Hash)) → IncomingPush Hash → Type 0
  IsCarried max_len [] p = ⊥
  IsCarried max_len ((peer, stream) ∷ rest) p =
      ((p.peer ≡ peer) × IsIntact max_len stream.input p) ⊎ IsCarried max_len rest p

  Delivered-All :
      (peer max_len : ℕ) (stream : Link (IncomingPush Hash))
      (rest : List (ℕ × Link (IncomingPush Hash))) (o : Outcome (IncomingPush Hash) (Unit {0}))
      → Delivered peer max_len stream.input o
      → All (IsCarried max_len ((peer, stream) ∷ rest)) (link_of o).sent
  Delivered-All peer max_len stream rest (done a t) (p, e, mine, intact) =
      rw e (inl (mine, intact), tt)
  Delivered-All peer max_len stream rest (fail e t) h = rw h tt

  later_streams :
      (max_len peer : ℕ) (stream : Link (IncomingPush Hash))
      (rest : List (ℕ × Link (IncomingPush Hash))) (l : List (IncomingPush Hash))
      → All (IsCarried max_len rest) l
      → All (IsCarried max_len ((peer, stream) ∷ rest)) l
  later_streams max_len peer stream rest [] h = tt
  later_streams max_len peer stream rest (p ∷ l) h =
      (inr h.0, later_streams max_len peer stream rest l h.1)

  -- Whatever the incoming streams carry, each push that `accept_pushes` delivers is of the
  -- peer of one of them, whose input carries its payload in a frame behind one that announces
  -- its hash; the payload has this hash, is delivered under it, and is within the limit.
  pub accept_pushes-IsIntact :
      (max_len : ℕ) (streams : List (ℕ × Link (IncomingPush Hash)))
      → All (IsCarried max_len streams) (accept_pushes b3 max_len streams)
  unfolding accept_pushes
  accept_pushes-IsIntact max_len [] = tt
  accept_pushes-IsIntact max_len ((peer, stream) ∷ rest) =
      All-append (IsCarried max_len ((peer, stream) ∷ rest)) _ _
        (Delivered-All peer max_len stream rest _
          (handle_incoming_push-Delivered peer max_len (record stream { sent = [] }) refl))
        (later_streams max_len peer stream rest _ (accept_pushes-IsIntact max_len rest))
