-- ===== src/Peyk/Link/Triple.antt =====
-- Triples: what an action leaves on the report channel, whatever the peer sends and however the
-- transport behaves.
use gozara.Base.{ℕ, ◌≡◌, List, [], ◌∷◌, ◌++◌, Bool-cases, inl, inr, length, arith, length-take}
use gozara.Peyk.Link.{
  Link, Outcome, done, fail, Io, ◌>>=◌, attempt, read_exact, write_all, close, send, open_io,
}

module _ {M : Type 0} where
  -- `post` holds of a value and what has been reported when the action ends well, `broken` of what
  -- has been reported when it ends with an error.
  abbrev pub Ends : {A : Type 0} → (A → List M → Type 0) → (List M → Type 0) → Outcome M A → Type 0
  Ends post broken (done a t) = post a t.sent
  Ends post broken (fail e t) = broken t.sent

  abbrev pub Triple :
      {A : Type 0} → (List M → Type 0) → Io M A → (A → List M → Type 0) → (List M → Type 0) → Type 0
  Triple pre m post broken = (s : Link M) → pre s.sent → Ends post broken (m s)

  pub Triple-bind :
      {A B : Type 0} (pre : List M → Type 0) (post : A → List M → Type 0)
      (last : B → List M → Type 0) (broken : List M → Type 0) (m : Io M A) (f : A → Io M B)
      → Triple pre m post broken
      → ((a : A) → Triple (post a) (f a) last broken)
      → Triple pre (m >>= f) last broken
  Triple-bind {A} pre post last broken m f hm hf s h = go (m s) (hm s h)
    where
      go :
          (o : Outcome M A)
          → Ends post broken o
          → Ends last broken (elim o [ done a t ↦ f a t | fail e t ↦ fail e t ])
      go (done a t) k = hf a t k
      go (fail e t) k = k

  pub Triple-weaken :
      {A : Type 0} (pre : List M → Type 0) (post : A → List M → Type 0)
      (broken broken' : List M → Type 0) (m : Io M A)
      → ((l : List M) → broken l → broken' l)
      → Triple pre m post broken
      → Triple pre m post broken'
  Triple-weaken {A} pre post broken broken' m w hm s h = go (m s) (hm s h)
    where
      go : (o : Outcome M A) → Ends post broken o → Ends post broken' o
      go (done a t) k = k
      go (fail e t) k = w t.sent k

  -- The actions on the stream report nothing.
  module _ (pre : List M → Type 0) where
    pub open_io-Triple : Triple pre open_io (λ _. pre) pre
    unfolding open_io
    open_io-Triple s h = ground arith

    pub write_all-Triple : (bytes : List ℕ) → Triple pre (write_all bytes) (λ _. pre) pre
    unfolding write_all
    write_all-Triple bytes s h = ground arith

    pub close-Triple : Triple pre close (λ _. pre) pre
    unfolding close
    close-Triple s h = ground arith

    -- A close whose result is only logged.
    pub attempt-close-Triple :
        (broken : List M → Type 0) → Triple pre (attempt close) (λ _. pre) broken
    unfolding close
    attempt-close-Triple broken s h = elim (Bool-cases s.closes) [
      | inl clean ↦ rw clean h
      | inr unclean ↦ rw unclean h
    ]

    pub read_exact-Triple :
        (n : ℕ) → Triple pre (read_exact n) (λ bytes l. (length bytes ≡ n) × pre l) pre
    unfolding read_exact
    read_exact-Triple n s h = ground (arith, length-take n s.input)

  pub send-Triple :
      (pre : List M → Type 0) (m : M) (broken : List M → Type 0)
      → Triple (λ l. pre (l ++ m ∷ [])) (send m) (λ _. pre) broken
  unfolding send
  send-Triple pre m broken s h = h
