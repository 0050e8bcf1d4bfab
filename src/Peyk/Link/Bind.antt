-- ===== src/Peyk/Link/Bind.antt =====
-- One step of a handler at a time, forwards and backwards.
use gozara.Base.{◌≡◌, refl, arith, ◌⊎◌, inl, inr}
use gozara.Peyk.Link.{Link, Outcome, done, fail, Error, Io, ◌>>=◌}

pub Outcome-cases :
    {M A : Type 0} (o : Outcome M A)
    → ((a : A) × (t : Link M) × (o ≡ done a t)) ⊎ ((e : Error) × (t : Link M) × (o ≡ fail e t))
Outcome-cases (done a t) = inl (a, t, refl)
Outcome-cases (fail e t) = inr (e, t, refl)

module _ {M A B : Type 0} (m : Io M A) (f : A → Io M B) (s : Link M) where
  pub >>=_done : {a : A} {t : Link M} → m s ≡ done a t → (m >>= f) s ≡ f a t
  >>=_done e = ground (arith, e)

  pub >>=_fail : {x : Error} {t : Link M} → m s ≡ fail x t → (m >>= f) s ≡ fail x t
  >>=_fail e = ground (arith, e)

  pub >>=-eq-done :
      {b : B} {u : Link M}
      → (m >>= f) s ≡ done b u
      → (a : A) × (t : Link M) × (m s ≡ done a t) × (f a t ≡ done b u)
  >>=-eq-done h = elim (Outcome-cases (m s)) [
    | inl (a, t, e) ↦ (a, t, e, ground (arith, e))
    | inr (x, t, e) ↦ absurd (ground (arith, e))
  ]
