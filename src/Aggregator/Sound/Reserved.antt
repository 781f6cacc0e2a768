-- ===== src/Aggregator/Sound/Reserved.antt =====
-- What a map of usage by bucket reserves of a bucket.
use otel_logger.Prelude.{
  ◌+◌, ◌≤◌, ◌≡◌, refl, ◌∙◌, ap, subst, none, [], ◌∷◌, true, false, bytes_eq, bytes_eq_refl,
  eq_of_bytes_eq, Bool-cases, inl, inr, arith,
}
use otel_logger.Prelude.Maps.{Entries, lookup, upsert, or_default, IsKeyTest, lookup-upsert_other}
use otel_logger.Otlp.{Text}
use otel_logger.Aggregator.Stats.{
  Float, Counter, ModelStats, no_stats, add, count, count-add, count-no_stats,
}
use otel_logger.Aggregator.Bucket.{Bucket, key}
use otel_logger.Aggregator.Bucket.Keys.{key-injective}
use otel_logger.Aggregator.State.{same_bucket}
use otel_logger.Aggregator.State.Reserve.{part}
use otel_logger.Aggregator.Sound.{reserved, Distinct}

pub same_bucket-IsKeyTest : IsKeyTest same_bucket
unfolding same_bucket
same_bucket-IsKeyTest = record {
  reflexive =
      λ b. rw (bytes_eq_refl b.provider, bytes_eq_refl b.model, bytes_eq_refl b.effort) refl;
  sound = λ a b h.
      let p = eq_of_bytes_eq a.provider b.provider (ground arith) in
      let m = eq_of_bytes_eq a.model b.model (ground arith) in
      let e = eq_of_bytes_eq a.effort b.effort (ground arith) in
      λ i. record { provider = p i; model = m i; effort = e i };
}

keys_apart : (a b : Bucket) → same_bucket a b ≡ false → bytes_eq (key a) (key b) ≡ false
keys_apart a b h = elim (Bool-cases (bytes_eq (key a) (key b))) [
  | inl e ↦
      let p = key-injective a b (eq_of_bytes_eq (key a) (key b) e) in
      let q : same_bucket a b ≡ true = rw p (same_bucket-IsKeyTest.reflexive b) in
      absurd (ground arith)
  | inr e ↦ e
]

module _ (fl : Float) where
  -- What a map reserves after usage is added to it.
  pub reserved-upsert :
      (c : Counter) (k : Text) (b : Bucket) (s : ModelStats fl) (m : Entries Bucket (ModelStats fl))
      → reserved fl c k (upsert same_bucket b (no_stats fl) (λ t. add fl t s) m)
        ≤ reserved fl c k m + part fl b s c k
  unfolding upsert
  reserved-upsert c k b s [] = elim (Bool-cases (bytes_eq (key b) k)) [
    | inl e ↦ rw e (ground (arith, count-add fl c (no_stats fl) s, count-no_stats fl c))
    | inr e ↦ rw e (omega arith)
  ]
  reserved-upsert c k b s ((j, t) ∷ m) =
      let ih = reserved-upsert c k b s m in
      elim (Bool-cases (same_bucket j b)) [
        | inl same ↦
            let p = ap key (same_bucket-IsKeyTest.sound j b same) in
            rw (same, p)
              (elim (Bool-cases (bytes_eq (key b) k)) [
                | inl e ↦ rw e (ground (arith, count-add fl c t s))
                | inr e ↦ rw e (omega arith)
              ])
        | inr other ↦ rw other (omega (arith, ih))
      ]

  pub Distinct-upsert :
      (b : Bucket) (d : ModelStats fl) (f : ModelStats fl → ModelStats fl)
      (m : Entries Bucket (ModelStats fl))
      → Distinct fl m
      → Distinct fl (upsert same_bucket b d f m)
  unfolding upsert lookup
  Distinct-upsert b d f [] h = (refl, tt)
  Distinct-upsert b d f ((j, t) ∷ m) h = elim (Bool-cases (same_bucket j b)) [
    | inl same ↦ rw same h
    | inr other ↦
        let back : same_bucket b j ≡ false = elim (Bool-cases (same_bucket b j)) [
          | inl e ↦
              let p = same_bucket-IsKeyTest.sound b j e in
              let q : same_bucket j b ≡ true = rw p (same_bucket-IsKeyTest.reflexive j) in
              absurd (ground arith)
          | inr e ↦ e
        ] in
        rw other (
          lookup-upsert_other same_bucket same_bucket-IsKeyTest j b d f m back ∙ h.0,
          Distinct-upsert b d f m h.1,
        )
  ]

  -- What no entry stands of is not reserved, and what one does, as much as it says.
  reserved_absent :
      (c : Counter) (b : Bucket) (m : Entries Bucket (ModelStats fl))
      → lookup same_bucket b m ≡ none
      → reserved fl c (key b) m ≡ 0
  unfolding lookup
  reserved_absent c b [] e = refl
  reserved_absent c b ((j, t) ∷ m) e = elim (Bool-cases (same_bucket j b)) [
    | inl same ↦ absurd (ground arith)
    | inr other ↦
        let away : bytes_eq (key j) (key b) ≡ false = keys_apart j b other in
        rw away (omega (arith, reserved_absent c b m (rw other at e)))
  ]

  pub reserved-lookup :
      (c : Counter) (b : Bucket) (m : Entries Bucket (ModelStats fl))
      → Distinct fl m
      → reserved fl c (key b) m ≤ count fl c (or_default (no_stats fl) (lookup same_bucket b m))
  unfolding lookup
  reserved-lookup c b [] h = omega arith
  reserved-lookup c b ((j, t) ∷ m) h = elim (Bool-cases (same_bucket j b)) [
    | inl same ↦
        let p = same_bucket-IsKeyTest.sound j b same in
        let absent : lookup same_bucket b m ≡ none =
          subst (λ x. lookup same_bucket x m ≡ none) p h.0 in
        let rest = reserved_absent c b m absent in
        rw (same, p, bytes_eq_refl (key b)) (omega (arith, rest))
    | inr other ↦
        let away : bytes_eq (key j) (key b) ≡ false = keys_apart j b other in
        rw (other, away) (omega (arith, reserved-lookup c b m h.1))
  ]
