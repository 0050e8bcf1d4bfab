-- ===== src/Base/Positions.antt =====
-- An element of a list at its position: replaced, taken out, and what stays the same.
use Prim.Native.Nat.{ℕ, zero, suc, ◌+◌}
use mathlib.Core.Path.{◌≡◌, refl, ap, sym, subst}
use mathlib.Core.Logic.{◌≢◌}
use mathlib.Core.List.{List, [], ◌∷◌, ◌++◌, map}
use mathlib.Core.Option.{some, some-injective}
use native.Mathlib.Omega.{arith}
use gozara.Base.Lists.{get_elem?, All, sum}

module _ {ℓ} {A : Type ℓ} where
  abbrev pub set_at : ℕ → A → List A → List A
  set_at i a [] = []
  set_at zero a (x ∷ xs) = a ∷ xs
  set_at (suc i) a (x ∷ xs) = x ∷ set_at i a xs

  abbrev pub remove_at : ℕ → List A → List A
  remove_at i [] = []
  remove_at zero (x ∷ xs) = xs
  remove_at (suc i) (x ∷ xs) = x ∷ remove_at i xs

  -- No element stands at two positions.
  abbrev pub Distinct : List A → Type ℓ
  Distinct [] = Unit {ℓ}
  Distinct (x ∷ xs) = All (λ y. y ≢ x) xs × Distinct xs

module _ {ℓ κ} {A : Type ℓ} {B : Type κ} (f : A → B) where
  pub map-set_at :
      (i : ℕ) (a b : A) (xs : List A)
      → get_elem? xs i ≡ some a
      → f b ≡ f a
      → map f (set_at i b xs) ≡ map f xs
  map-set_at i a b [] h e = refl
  map-set_at zero a b (x ∷ xs) h e = ground (arith, e)
  map-set_at (suc i) a b (x ∷ xs) h e = ap (◌∷◌ (f x)) (map-set_at i a b xs h e)

  pub map-remove_at : (i : ℕ) (xs : List A) → map f (remove_at i xs) ≡ remove_at i (map f xs)
  map-remove_at i [] = refl
  map-remove_at zero (x ∷ xs) = refl
  map-remove_at (suc i) (x ∷ xs) = ap (◌∷◌ (f x)) (map-remove_at i xs)

  pub get_elem?-map :
      (i : ℕ) (a : A) (xs : List A) → get_elem? xs i ≡ some a → get_elem? (map f xs) i ≡ some (f a)
  get_elem?-map i a [] h = absurd (cc)
  get_elem?-map zero a (x ∷ xs) h = ground arith
  get_elem?-map (suc i) a (x ∷ xs) h = get_elem?-map i a xs h

module _ {ℓ} {A : Type ℓ} where
  pub All-get_elem? {κ} :
      (P : A → Type κ) (i : ℕ) (a : A) (xs : List A) → All P xs → get_elem? xs i ≡ some a → P a
  All-get_elem? P i a [] h e = absurd (cc)
  All-get_elem? P zero a (x ∷ xs) h e = ground arith
  All-get_elem? P (suc i) a (x ∷ xs) h e = All-get_elem? P i a xs h.1 e

  pub All-remove_at {κ} : (P : A → Type κ) (i : ℕ) (xs : List A) → All P xs → All P (remove_at i xs)
  All-remove_at P i [] h = h
  All-remove_at P zero (x ∷ xs) h = h.1
  All-remove_at P (suc i) (x ∷ xs) h = (h.0, All-remove_at P i xs h.1)

  pub All-set_at {κ} :
      (P : A → Type κ) (i : ℕ) (a : A) (xs : List A) → P a → All P xs → All P (set_at i a xs)
  All-set_at P i a [] ha h = h
  All-set_at P zero a (x ∷ xs) ha h = (ha, h.1)
  All-set_at P (suc i) a (x ∷ xs) ha h = (h.0, All-set_at P i a xs ha h.1)

  pub All-map_to {κ μ} :
      (P : A → Type κ) (Q : A → Type μ) (xs : List A) → ((a : A) → P a → Q a) → All P xs → All Q xs
  All-map_to P Q [] g h = tt
  All-map_to P Q (x ∷ xs) g h = (g x h.0, All-map_to P Q xs g h.1)

  pub All-both {κ μ} :
      (P : A → Type κ) (Q : A → Type μ) (xs : List A)
      → All P xs
      → All Q xs
      → All (λ a. P a × Q a) xs
  All-both P Q [] h k = tt
  All-both P Q (x ∷ xs) h k = ((h.0, k.0), All-both P Q xs h.1 k.1)

  pub remove_at-Distinct : (i : ℕ) (xs : List A) → Distinct xs → Distinct (remove_at i xs)
  remove_at-Distinct i [] h = h
  remove_at-Distinct zero (x ∷ xs) h = h.1
  remove_at-Distinct (suc i) (x ∷ xs) h =
      (All-remove_at (λ y. y ≢ x) i xs h.0, remove_at-Distinct i xs h.1)

  -- The other elements of a list without duplicates.
  pub remove_at-ne :
      (i : ℕ) (a : A) (xs : List A)
      → Distinct xs
      → get_elem? xs i ≡ some a
      → All (λ y. y ≢ a) (remove_at i xs)
  remove_at-ne i a [] h e = tt
  remove_at-ne zero a (x ∷ xs) h e = ground arith
  remove_at-ne (suc i) a (x ∷ xs) h e =
      (λ same. All-get_elem? (λ y. y ≢ x) i a xs h.0 e (sym same), remove_at-ne i a xs h.1 e)

  pub append-Distinct :
      (a : A) (xs : List A) → All (λ y. y ≢ a) xs → Distinct xs → Distinct (xs ++ a ∷ [])
  append-Distinct a [] new h = (tt, tt)
  append-Distinct a (x ∷ xs) new h =
      (ends x xs (λ e. new.0 (sym e)) h.0, append-Distinct a xs new.1 h.1)
    where
      ends : (x : A) (xs : List A) → a ≢ x → All (λ y. y ≢ x) xs → All (λ y. y ≢ x) (xs ++ a ∷ [])
      ends x [] other h = (other, tt)
      ends x (y ∷ xs) other h = (h.0, ends x xs other h.1)

module _ {ℓ} {A : Type ℓ} (f : A → ℕ) where
  pub sum-set_at :
      (i : ℕ) (a b : A) (xs : List A)
      → get_elem? xs i ≡ some a
      → sum (map f (set_at i b xs)) + f a ≡ sum (map f xs) + f b
  sum-set_at i a b [] h = absurd (cc)
  sum-set_at zero a b (x ∷ xs) h = ground arith
  sum-set_at (suc i) a b (x ∷ xs) h = omega (arith, sum-set_at i a b xs h)

  pub sum-remove_at :
      (i : ℕ) (a : A) (xs : List A)
      → get_elem? xs i ≡ some a
      → sum (map f (remove_at i xs)) + f a ≡ sum (map f xs)
  sum-remove_at i a [] h = absurd (cc)
  sum-remove_at zero a (x ∷ xs) h = ground arith
  sum-remove_at (suc i) a (x ∷ xs) h = omega (arith, sum-remove_at i a xs h)

module _ {ℓ κ} {A : Type ℓ} {B : Type κ} (P : A → B → Type 0) where
  -- The elements of two lists at the same positions.
  abbrev pub Pairwise : List A → List B → Type 0
  Pairwise [] [] = Unit {0}
  Pairwise [] (y ∷ ys) = ⊥
  Pairwise (x ∷ xs) [] = ⊥
  Pairwise (x ∷ xs) (y ∷ ys) = P x y × Pairwise xs ys

  pub Pairwise-get_elem? :
      (i : ℕ) (a : A) (xs : List A) (ys : List B)
      → Pairwise xs ys
      → get_elem? xs i ≡ some a
      → (b : B) × (get_elem? ys i ≡ some b) × P a b
  Pairwise-get_elem? i a [] ys h e = absurd (cc)
  Pairwise-get_elem? i a (x ∷ xs) [] h e = absurd h
  Pairwise-get_elem? zero a (x ∷ xs) (y ∷ ys) h e =
      (y, refl, subst (λ z. P z y) (some-injective x a e) h.0)
  Pairwise-get_elem? (suc i) a (x ∷ xs) (y ∷ ys) h e = Pairwise-get_elem? i a xs ys h.1 e

  pub Pairwise-set_at :
      (i : ℕ) (a : A) (b : B) (xs : List A) (ys : List B)
      → P a b
      → Pairwise xs ys
      → Pairwise (set_at i a xs) (set_at i b ys)
  Pairwise-set_at i a b [] [] p h = h
  Pairwise-set_at i a b [] (y ∷ ys) p h = absurd h
  Pairwise-set_at i a b (x ∷ xs) [] p h = absurd h
  Pairwise-set_at zero a b (x ∷ xs) (y ∷ ys) p h = (p, h.1)
  Pairwise-set_at (suc i) a b (x ∷ xs) (y ∷ ys) p h = (h.0, Pairwise-set_at i a b xs ys p h.1)

  pub Pairwise-remove_at :
      (i : ℕ) (xs : List A) (ys : List B)
      → Pairwise xs ys
      → Pairwise (remove_at i xs) (remove_at i ys)
  Pairwise-remove_at i [] [] h = h
  Pairwise-remove_at i [] (y ∷ ys) h = absurd h
  Pairwise-remove_at i (x ∷ xs) [] h = absurd h
  Pairwise-remove_at zero (x ∷ xs) (y ∷ ys) h = h.1
  Pairwise-remove_at (suc i) (x ∷ xs) (y ∷ ys) h = (h.0, Pairwise-remove_at i xs ys h.1)

  pub Pairwise-snoc :
      (a : A) (b : B) (xs : List A) (ys : List B)
      → P a b
      → Pairwise xs ys
      → Pairwise (xs ++ a ∷ []) (ys ++ b ∷ [])
  Pairwise-snoc a b [] [] p h = (p, h)
  Pairwise-snoc a b [] (y ∷ ys) p h = absurd h
  Pairwise-snoc a b (x ∷ xs) [] p h = absurd h
  Pairwise-snoc a b (x ∷ xs) (y ∷ ys) p h = (h.0, Pairwise-snoc a b xs ys p h.1)
