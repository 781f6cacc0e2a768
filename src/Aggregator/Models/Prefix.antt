-- ===== src/Aggregator/Models/Prefix.antt =====
-- The keys behind a model's prefix are those of the model's buckets.
use otel_logger.Prelude.{
  ◌≡◌, refl, ◌∙◌, ap, [], ◌∷◌, ◌++◌, true, ◌==◌, append_assoc, arith, Bool-cases, inl, inr,
}
use otel_logger.Otlp.{Text}
use otel_logger.Aggregator.Bucket.{Bucket, key, escape_bucket_component}
use otel_logger.Aggregator.Bucket.Keys.{NoSlash-escape, split_slash, escape-injective}
use otel_logger.Aggregator.Models.{starts_with, bare_prefix, provider_anthropic}

starts_with_rest : (s p : Text) → starts_with s p ≡ true → (r : Text) × (s ≡ p ++ r)
unfolding starts_with
starts_with_rest s [] h = (s, refl)
starts_with_rest [] (p ∷ ps) h = absurd (ground arith)
starts_with_rest (c ∷ s) (p ∷ ps) h = elim (Bool-cases (c == p)) [
  | inl e ↦
      let (r, q) = starts_with_rest s ps (rw e at h) in
      let head : c ≡ p = ground arith in (r, rw (head, q) refl)
  | inr e ↦ absurd (ground arith)
]

pub model_of_prefix :
    (b : Bucket) (bare : Text) → starts_with (key b) (bare_prefix bare) ≡ true → b.model ≡ bare
unfolding key
model_of_prefix b bare h =
    let (r, e) = starts_with_rest (key b) (bare_prefix bare) h in
    let provider = escape_bucket_component provider_anthropic in
    let model = escape_bucket_component bare in
    let regroup : bare_prefix bare ++ r ≡ provider ++ (b'/' ∷ (model ++ (b'/' ∷ r))) =
      append_assoc provider (b'/' ∷ (model ++ (b'/' ∷ []))) r
      ∙ ap (λ x. provider ++ (b'/' ∷ x)) (append_assoc model (b'/' ∷ []) r) in
    let (p, rest) =
      split_slash (escape_bucket_component b.provider) provider
        (escape_bucket_component b.model ++ (b'/' ∷ escape_bucket_component b.effort))
        (model ++ (b'/' ∷ r)) (NoSlash-escape b.provider) (NoSlash-escape provider_anthropic)
        (e ∙ regroup) in
    let (m, effort) =
      split_slash (escape_bucket_component b.model) model (escape_bucket_component b.effort) r
        (NoSlash-escape b.model) (NoSlash-escape bare) rest in
    escape-injective b.model bare m
