-- ===== src/Aggregator/Bucket/Keys.antt =====
-- Two buckets never share a key.
use otel_logger.Prelude.{ℕ, [], ◌∷◌, ◌++◌, ◌==◌, ◌≡◌, refl, false, Bool-cases, inl, inr, arith}
use otel_logger.Otlp.{Text}
use otel_logger.Aggregator.Bucket.{Bucket, escape_char, escape_bucket_component, key}

abbrev pub NoSlash : Text → Type 0
NoSlash [] = Unit
NoSlash (c ∷ s) = ((c == b'/') ≡ false) × NoSlash s

NoSlash-escape_char : (c : ℕ) (s : Text) → NoSlash s → NoSlash (escape_char c ++ s)
unfolding escape_char
NoSlash-escape_char c s h = elim (Bool-cases (c == b'%')) [
  | inl percent ↦ rw percent (refl, (refl, (refl, h)))
  | inr other ↦ elim (Bool-cases (c == b'/')) [
    | inl slash ↦ rw (other, slash) (refl, (refl, (refl, h)))
    | inr plain ↦ rw (other, plain) (plain, h)
  ]
]

pub NoSlash-escape : (s : Text) → NoSlash (escape_bucket_component s)
unfolding escape_bucket_component
NoSlash-escape [] = tt
NoSlash-escape (c ∷ s) = NoSlash-escape_char c (escape_bucket_component s) (NoSlash-escape s)

-- A text is read back up to the first slash.
pub split_slash :
    (a b r s : Text) → NoSlash a → NoSlash b → a ++ (b'/' ∷ r) ≡ b ++ (b'/' ∷ s) → (a ≡ b) × (r ≡ s)
split_slash [] [] r s ha hb e = ground arith
split_slash [] (y ∷ b) r s ha hb e = ground arith
split_slash (x ∷ a) [] r s ha hb e = ground arith
split_slash (x ∷ a) (y ∷ b) r s ha hb e = ground (arith, split_slash a b r s)

pub escape-injective : (a b : Text) → escape_bucket_component a ≡ escape_bucket_component b → a ≡ b
unfolding escape_bucket_component
escape-injective [] [] e = refl
escape-injective [] (y ∷ b) e = ground arith
escape-injective (x ∷ a) [] e = ground arith
escape-injective (x ∷ a) (y ∷ b) e = ground (arith, escape-injective a b)

-- Buckets with one key are one bucket, whatever characters their parts hold.
pub key-injective : (a b : Bucket) → key a ≡ key b → a ≡ b
unfolding key
key-injective a b e =
    let (p, rest) =
      split_slash (escape_bucket_component a.provider) (escape_bucket_component b.provider)
        (escape_bucket_component a.model ++ (b'/' ∷ escape_bucket_component a.effort))
        (escape_bucket_component b.model ++ (b'/' ∷ escape_bucket_component b.effort))
        (NoSlash-escape a.provider) (NoSlash-escape b.provider) e in
    let (m, f) =
      split_slash (escape_bucket_component a.model) (escape_bucket_component b.model)
        (escape_bucket_component a.effort) (escape_bucket_component b.effort)
        (NoSlash-escape a.model) (NoSlash-escape b.model) rest in
    ground (
      arith,
      escape-injective a.provider b.provider p,
      escape-injective a.model b.model m,
      escape-injective a.effort b.effort f,
    )
