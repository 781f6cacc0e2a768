-- ===== src/Prelude/Maps.antt =====
-- Maps (`BTreeMap<K, V>`, `HashMap<K, V>`) as lists of entries, over a test of keys.
use Prim.Native.Nat.{ℕ, ◌+◌, ◌≤◌}
use mathlib.Core.Path.{◌≡◌, refl}
use mathlib.Core.Logic.{inl, inr}
use mathlib.Core.Option
use mathlib.Core.Option.{Option, none, some}
use mathlib.Core.Bool.{Bool, true, false}
use mathlib.Core.List.{List, [], ◌∷◌}
use native.Mathlib.Omega.{arith}
use otel_logger.Prelude.Tests.{if◌then◌else◌, Bool-cases}
use otel_logger.Prelude.Lists.{total}

abbrev pub Entries {κ ℓ} : Type κ → Type ℓ → Type (κ ⊔ ℓ)
Entries K V = List (K × V)

module _ {κ ℓ} {K : Type κ} {V : Type ℓ} (same : K → K → Bool) where
  unfoldable pub lookup : K → Entries K V → Option V
  lookup k [] = none
  lookup k ((j, v) ∷ m) = if same j k then some v else lookup k m

  unfoldable pub remove : K → Entries K V → Entries K V
  remove k [] = []
  remove k ((j, v) ∷ m) = let rest = remove k m in if same j k then m else (j, v) ∷ rest

  -- `entry(k).or_insert(d)`, and then the change `f` of what stands there.
  unfoldable pub upsert : K → V → (V → V) → Entries K V → Entries K V
  upsert k d f [] = (k, f d) ∷ []
  upsert k d f ((j, v) ∷ m) =
      let rest = upsert k d f m in if same j k then (j, f v) ∷ m else (j, v) ∷ rest

  -- `insert(k, v)`
  unfoldable pub insert : K → V → Entries K V → Entries K V
  unfolding upsert
  insert k v m = upsert k v (λ _. v) m

  -- `get_mut(k)`, and a change of what stands there, if anything does.
  unfoldable pub modify : K → (V → V) → Entries K V → Entries K V
  modify k f [] = []
  modify k f ((j, v) ∷ m) =
      let rest = modify k f m in if same j k then (j, f v) ∷ m else (j, v) ∷ rest

-- The sum of a measure of the values.
abbrev pub sum_of {κ ℓ} : {K : Type κ} {V : Type ℓ} → (V → ℕ) → Entries K V → ℕ
sum_of g m = total (λ e. g e.1) m

module _ {κ ℓ} {K : Type κ} {V : Type ℓ} (same : K → K → Bool) (g : V → ℕ) (k : K) where
  pub le-sum_of : (m : Entries K V) (v : V) → lookup same k m ≡ some v → g v ≤ sum_of g m
  unfolding lookup
  le-sum_of [] v e = ground arith
  le-sum_of ((j, w) ∷ m) v e = ground (arith, le-sum_of m v)

  -- A change that adds x, to what stands at the key or to a default that measures 0.
  pub sum_of-upsert :
      (d : V) (f : V → V) (x : ℕ) (m : Entries K V)
      → g d ≡ 0
      → ((v : V) → g v ≤ sum_of g m → g (f v) ≡ g v + x)
      → sum_of g (upsert same k d f m) ≡ sum_of g m + x
  unfolding upsert
  sum_of-upsert d f x [] z h = omega (arith, h d (omega (arith, z)), z)
  sum_of-upsert d f x ((j, v) ∷ m) z h = elim (Bool-cases (same j k)) [
    | inl same ↦ rw same (omega (arith, h v (omega arith)))
    | inr other ↦ rw other (omega (arith, sum_of-upsert d f x m z (λ w b. h w (omega (arith, b)))))
  ]

  pub sum_of-remove :
      (m : Entries K V) (v : V)
      → lookup same k m ≡ some v
      → sum_of g (remove same k m) + g v ≡ sum_of g m
  unfolding lookup remove
  sum_of-remove [] v e = ground arith
  sum_of-remove ((j, w) ∷ m) v e = ground (arith, sum_of-remove m v)

  pub sum_of-modify :
      (f : V → V) (m : Entries K V) (v : V)
      → lookup same k m ≡ some v
      → sum_of g (modify same k f m) + g v ≡ sum_of g m + g (f v)
  unfolding lookup modify
  sum_of-modify f [] v e = ground arith
  sum_of-modify f ((j, w) ∷ m) v e = ground (arith, sum_of-modify f m v)

-- A test of keys that tells them apart.
pub record IsKeyTest {κ} {K : Type κ} (same : K → K → Bool) : Type κ where
  pub reflexive : (k : K) → same k k ≡ true
  pub sound : (j k : K) → same j k ≡ true → j ≡ k

module _ {κ} {K : Type κ} (same : K → K → Bool) (t : IsKeyTest same) where
  pub apart : (i j k : K) → same i k ≡ false → same i j ≡ true → same k j ≡ false
  apart i j k h e = elim (Bool-cases (same k j)) [
    | inl e' ↦ absurd (ground (arith, t.sound i j e, t.sound k j e', t.reflexive k))
    | inr e' ↦ e'
  ]

abbrev pub or_default {ℓ} : {V : Type ℓ} → V → Option V → V
or_default d none = d
or_default d (some v) = v

module _ {κ ℓ} {K : Type κ} {V : Type ℓ} where
  module _ (same : K → K → Bool) (t : IsKeyTest same) where
    pub lookup-upsert_same :
        (k : K) (d : V) (f : V → V) (m : Entries K V)
        → lookup same k (upsert same k d f m) ≡ some (f (or_default d (lookup same k m)))
    unfolding lookup upsert
    lookup-upsert_same k d f [] = rw (t.reflexive k) refl
    lookup-upsert_same k d f ((i, v) ∷ m) = ground (arith, lookup-upsert_same k d f m)

    pub lookup-upsert_other :
        (j k : K) (d : V) (f : V → V) (m : Entries K V)
        → same k j ≡ false
        → lookup same j (upsert same k d f m) ≡ lookup same j m
    unfolding lookup upsert
    lookup-upsert_other j k d f [] h = rw h refl
    lookup-upsert_other j k d f ((i, v) ∷ m) h = elim (Bool-cases (same i k)) [
      | inl e ↦ rw e (let e' = t.sound i k e in rw (e', h) refl)
      | inr e ↦ rw (e, lookup-upsert_other j k d f m h) refl
    ]

    pub lookup-remove_other :
        (j k : K) (m : Entries K V)
        → same k j ≡ false
        → lookup same j (remove same k m) ≡ lookup same j m
    unfolding lookup remove
    lookup-remove_other j k [] h = refl
    lookup-remove_other j k ((i, v) ∷ m) h = elim (Bool-cases (same i k)) [
      | inl e ↦ rw e (let e' = t.sound i k e in rw (e', h) refl)
      | inr e ↦ rw (e, lookup-remove_other j k m h) refl
    ]

  pub lookup-modify_same :
      (same : K → K → Bool) (k : K) (f : V → V) (m : Entries K V)
      → lookup same k (modify same k f m) ≡ Option.map f (lookup same k m)
  unfolding lookup modify
  lookup-modify_same same k f [] = refl
  lookup-modify_same same k f ((i, v) ∷ m) = ground (arith, lookup-modify_same same k f m)

  pub lookup-modify_other :
      (same : K → K → Bool)
      → IsKeyTest same
      → (j k : K) (f : V → V) (m : Entries K V) → same k j ≡ false
      → lookup same j (modify same k f m) ≡ lookup same j m
  unfolding lookup modify
  lookup-modify_other same t j k f [] h = refl
  lookup-modify_other same t j k f ((i, v) ∷ m) h = elim (Bool-cases (same i k)) [
    | inl e ↦ rw e (let e' = t.sound i k e in rw (e', h) refl)
    | inr e ↦ rw (e, lookup-modify_other same t j k f m h) refl
  ]

  -- The sum after a change that adds at most x, also where the map was to hold nothing.
  pub sum_of-upsert-le :
      (same : K → K → Bool) (g : V → ℕ) (k : K) (d : V) (f : V → V) (x : ℕ) (m : Entries K V)
      → g (f d) ≤ x
      → ((v : V) → g (f v) ≤ g v + x)
      → sum_of g (upsert same k d f m) ≤ sum_of g m + x
  unfolding upsert
  sum_of-upsert-le same g k d f x [] z h = omega (arith, z)
  sum_of-upsert-le same g k d f x ((j, v) ∷ m) z h =
      let ih = sum_of-upsert-le same g k d f x m z h in
      let here = h v in
      elim (Bool-cases (same j k)) [
        | inl e ↦ rw e (omega (arith, here))
        | inr e ↦ rw e (omega (arith, ih))
      ]

  pub sum_of-remove-le :
      (same : K → K → Bool) (g : V → ℕ) (k : K) (m : Entries K V)
      → sum_of g (remove same k m) ≤ sum_of g m
  unfolding remove
  sum_of-remove-le same g k [] = omega arith
  sum_of-remove-le same g k ((j, v) ∷ m) =
      let ih = sum_of-remove-le same g k m in
      elim (Bool-cases (same j k)) [ inl e ↦ rw e (omega arith) | inr e ↦ rw e (omega (arith, ih)) ]
