-- ===== src/Base/Maps.antt =====
-- `HashMap` and `DashMap` as association lists, in the order in which the map is iterated.
use mathlib.Core.Path.{◌≡◌, refl}
use mathlib.Core.List.{List, [], ◌∷◌}
use mathlib.Core.Option
use mathlib.Core.Option.{Option, none, some}
use native.Mathlib.Omega.{arith}
use gozara.Base.Tests.{if◌then◌else◌, Eq, ◌==◌}
use gozara.Base.Lists.{All}

module _ {ℓ κ} {K : Type ℓ} {V : Type κ} ⦃e : Eq K⦄ where
  abbrev pub lookup : K → List (K × V) → Option V
  lookup k [] = none
  lookup k ((j, v) ∷ m) = if j == k then some v else lookup k m

  -- The key keeps its place, as an entry that is replaced does.
  abbrev pub insert : K → V → List (K × V) → List (K × V)
  insert k v [] = (k, v) ∷ []
  insert k v ((j, w) ∷ m) = if j == k then (j, v) ∷ m else (j, w) ∷ insert k v m

  abbrev pub remove : K → List (K × V) → List (K × V)
  remove k [] = []
  remove k ((j, w) ∷ m) = let rest = remove k m in if j == k then rest else (j, w) ∷ rest

  -- `get_mut`: the value of the key is changed in place.
  abbrev pub modify : K → (V → V) → List (K × V) → List (K × V)
  modify k f [] = []
  modify k f ((j, w) ∷ m) = if j == k then (j, f w) ∷ m else (j, w) ∷ modify k f m

module _ {ℓ κ} {K : Type ℓ} {V : Type κ} ⦃e : Eq K⦄ where
  pub lookup-insert :
      (j k : K) (v : V) (m : List (K × V))
      → lookup j (insert k v m) ≡ (if k == j then some v else lookup j m)
  lookup-insert j k v [] = refl
  lookup-insert j k v ((i, w) ∷ m) =
      ground (arith, e.beq_iff k j, e.beq_iff i k, e.beq_iff i j, lookup-insert j k v m)

  pub lookup-remove :
      (j k : K) (m : List (K × V)) → lookup j (remove k m) ≡ (if k == j then none else lookup j m)
  lookup-remove j k [] = ground arith
  lookup-remove j k ((i, w) ∷ m) =
      ground (arith, e.beq_iff k j, e.beq_iff i k, e.beq_iff i j, lookup-remove j k m)

  pub lookup-modify :
      (j k : K) (f : V → V) (m : List (K × V))
      → lookup j (modify k f m) ≡ (if k == j then Option.map f (lookup j m) else lookup j m)
  lookup-modify j k f [] = ground arith
  lookup-modify j k f ((i, w) ∷ m) =
      ground (arith, e.beq_iff k j, e.beq_iff i k, e.beq_iff i j, lookup-modify j k f m)

  -- The removal of a new key.
  pub remove-insert_new :
      (k : K) (v : V) (m : List (K × V)) → lookup k m ≡ none → remove k (insert k v m) ≡ m
  remove-insert_new k v [] h = ground (arith, e.beq_iff k k)
  remove-insert_new k v ((i, w) ∷ m) h = ground (arith, remove-insert_new k v m)

  pub All-insert {μ} :
      (P : V → Type μ) (k : K) (v : V) (m : List (K × V))
      → P v
      → All (λ p. P p.1) m
      → All (λ p. P p.1) (insert k v m)
  All-insert P k v [] hv h = (hv, tt)
  All-insert P k v ((i, w) ∷ m) hv h = ground (arith, All-insert P k v m)

  pub All-remove {μ} :
      (P : V → Type μ) (k : K) (m : List (K × V))
      → All (λ p. P p.1) m
      → All (λ p. P p.1) (remove k m)
  All-remove P k [] h = tt
  All-remove P k ((i, w) ∷ m) h = ground (arith, All-remove P k m)

  pub All-modify {μ} :
      (P : V → Type μ) (k : K) (f : V → V) (m : List (K × V))
      → ((v : V) → P v → P (f v))
      → All (λ p. P p.1) m
      → All (λ p. P p.1) (modify k f m)
  All-modify P k f [] hf h = tt
  All-modify P k f ((i, w) ∷ m) hf h = ground (arith, hf w, All-modify P k f m hf)

  pub All-lookup {μ} :
      (P : V → Type μ) (k : K) (m : List (K × V)) (v : V)
      → All (λ p. P p.1) m
      → lookup k m ≡ some v
      → P v
  All-lookup P k [] v h hv = absurd (cc)
  All-lookup P k ((i, w) ∷ m) v h hv = ground (arith, All-lookup P k m v h.1)
