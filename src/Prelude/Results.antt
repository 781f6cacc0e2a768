-- ===== src/Prelude/Results.antt =====
-- `Result<T, E>`, and computations that read and write a state and may return an error early.
use mathlib.Core.Path.{◌≡◌, refl}
use mathlib.Core.Logic.{◌⊎◌, inl, inr}

pub data Result {ℓ} (E A : Type ℓ) : Type ℓ where
  ok : A → Result E A
  err : E → Result E A

pub Result-cases {ℓ} :
    {E A : Type ℓ} (r : Result E A) → ((a : A) × (r ≡ ok a)) ⊎ ((e : E) × (r ≡ err e))
Result-cases (ok a) = inl (a, refl)
Result-cases (err e) = inr (e, refl)

pub err_ok {ℓ} : {E A : Type ℓ} {e : E} {a : A} → ◌≡◌ {A = Result E A} (err e) (ok a) → ⊥
err_ok h = cc

pub of_ok {ℓ} : {E A : Type ℓ} {a b : A} → ◌≡◌ {A = Result E A} (ok a) (ok b) → a ≡ b
of_ok h = cc

-- A call that changes a state and may fail. What it wrote before an error stays written.
abbrev pub Action {ℓ} : Type ℓ → Type ℓ → Type ℓ → Type ℓ
Action S E A = S → Result E A × S

module _ {ℓ} {S E A B : Type ℓ} where
  abbrev and_then : Result E A → (A → Action S E B) → Action S E B
  and_then (ok a) f s = f a s
  and_then (err e) f s = (err e, s)

  -- The `?` operator: an error returns at once.
  infixl 10 ◌>>=◌ ◌>>◌
  abbrev pub ◌>>=◌ : Action S E A → (A → Action S E B) → Action S E B
  ◌>>=◌ m f s = and_then (m s).0 f (m s).1

  abbrev pub ◌>>◌ : Action S E A → Action S E B → Action S E B
  m >> k = m >>= λ _. k

abbrev pub pure {ℓ} : {S E A : Type ℓ} → A → Action S E A
pure a s = (ok a, s)

-- What the state satisfies after a step and its continuation, by the outcome of the step.
module _ {ℓ κ} {S E A B : Type ℓ} where
  and_then_rule :
      (Q : S → Type κ) (r : Result E A) (f : A → Action S E B) (s : S)
      → ((e : E) → r ≡ err e → Q s)
      → ((a : A) → r ≡ ok a → Q (f a s).1)
      → Q (and_then r f s).1
  and_then_rule Q (ok a) f s he ha = ha a refl
  and_then_rule Q (err e) f s he ha = he e refl

  pub bind_rule :
      (Q : S → Type κ) (m : Action S E A) (f : A → Action S E B) (s : S)
      → ((e : E) → (m s).0 ≡ err e → Q (m s).1)
      → ((a : A) → (m s).0 ≡ ok a → Q (f a (m s).1).1)
      → Q ((m >>= f) s).1
  bind_rule Q m f s he ha = and_then_rule Q (m s).0 f (m s).1 he ha
