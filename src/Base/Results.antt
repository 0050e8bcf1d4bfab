-- ===== src/Base/Results.antt =====
-- Rust's `Result`, with `?` as bind.
use mathlib.Core.Path.{◌≡◌, refl, sym, subst}
use mathlib.Core.Logic.{◌⊎◌, inl, inr}
use mathlib.Core.Option.{Option, none, some}
use mathlib.Core.Bool.{Bool, true, false}

pub data Result {ℓ κ} (E : Type ℓ) (A : Type κ) : Type (ℓ ⊔ κ) where
  ok : A → Result E A
  err : E → Result E A

infixl 5 ◌>>=◌
abbrev pub ◌>>=◌ {ℓ κ μ} :
    {E : Type ℓ} {A : Type κ} {B : Type μ} → Result E A → (A → Result E B) → Result E B
ok a >>= f = f a
err e >>= f = err e

abbrev pub ok_or {ℓ κ} : {E : Type ℓ} {A : Type κ} → Option A → E → Result E A
ok_or none e = err e
ok_or (some a) e = ok a

abbrev pub is_ok {ℓ κ} : {E : Type ℓ} {A : Type κ} → Result E A → Bool
is_ok (ok a) = true
is_ok (err e) = false

pub Result-cases {ℓ κ} :
    {E : Type ℓ} {A : Type κ} (r : Result E A) → ((a : A) × (r ≡ ok a)) ⊎ ((e : E) × (r ≡ err e))
Result-cases (ok a) = inl (a, refl)
Result-cases (err e) = inr (e, refl)

-- What holds of a result that is no error.
unfoldable pub IfOk {ℓ κ μ} : {E : Type ℓ} {A : Type κ} → (A → Type μ) → Result E A → Type μ
IfOk P (ok a) = P a
IfOk P (err e) = Unit

module _ {ℓ κ μ} {E : Type ℓ} {B : Type κ} (P : B → Type μ) where
  pub IfOk-ok : (r : Result E B) (b : B) → r ≡ ok b → P b → IfOk P r
  unfolding IfOk
  IfOk-ok r b e h = subst (λ x. IfOk P x) (sym e) h

  -- One step of a chain and what follows it.
  pub IfOk-bind {ν} :
      {A : Type ν} (r : Result E A) (f : A → Result E B)
      → ((a : A) → r ≡ ok a → IfOk P (f a))
      → IfOk P (r >>= f)
  unfolding IfOk
  IfOk-bind (ok a) f h = h a refl
  IfOk-bind (err e) f h = tt

  pub IfOk-holds : (r : Result E B) (b : B) → r ≡ ok b → IfOk P r → P b
  unfolding IfOk
  IfOk-holds r b h k = subst (λ x. IfOk P x) h k

-- A result that is no error is one value.
pub same_result {ℓ κ} :
    {E : Type ℓ} {A : Type κ} (r : Result E A) (a b : A) → r ≡ ok a → r ≡ ok b → a ≡ b
same_result r a b h k = IfOk-holds (λ x. x ≡ b) r a h (IfOk-ok (λ x. x ≡ b) r b k refl)
