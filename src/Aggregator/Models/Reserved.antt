-- ===== src/Aggregator/Models/Reserved.antt =====
-- A merge of a bare model's buckets leaves alone what is reserved of others.
use otel_logger.Prelude.{
  ◌≤◌, ◌≡◌, refl, ap, Option, none, some, List, [], ◌∷◌, true, false, bytes_eq, eq_of_bytes_eq,
  Bool-cases, inl, inr, arith, u64_max,
}
use otel_logger.Prelude.Maps.{Entries, lookup, remove, sum_of-remove, lookup-remove_other}
use otel_logger.Otlp.{Text}
use otel_logger.Aggregator.Stats.{Float, Counter}
use otel_logger.Aggregator.Bucket.{from_parts}
use otel_logger.Aggregator.State.{BucketStats, AgentStats}
use otel_logger.Aggregator.State.Balance.{bucket_count, bucket_sum}
use otel_logger.Aggregator.State.Reserve.{
  bytes-IsKeyTest, Reserve, count_at, count_at-upsert, Holds,
}
use otel_logger.Aggregator.Models.{
  starts_with, bare_keys, bare_prefix, merge_bucket, merge_keys, merge_bare_into_full,
}
use otel_logger.Aggregator.Models.Merge.{sum-merge_bucket, merge_bare_into_full-IsBalanced}

abbrev AllPrefixed : Text → List Text → Type 0
AllPrefixed p [] = Unit
AllPrefixed p (k ∷ ks) = (starts_with k p ≡ true) × AllPrefixed p ks

module _ (fl : Float) where
  bare_keys-AllPrefixed :
      (p : Text) (m : Entries Text (BucketStats fl)) → AllPrefixed p (bare_keys fl p m)
  unfolding bare_keys
  bare_keys-AllPrefixed p [] = tt
  bare_keys-AllPrefixed p ((k, v) ∷ m) = elim (Bool-cases (starts_with k p)) [
    | inl e ↦ rw e (e, bare_keys-AllPrefixed p m)
    | inr e ↦ rw e (bare_keys-AllPrefixed p m)
  ]

  count_at-merge_bucket :
      (c : Counter) (full k j : Text) (o : Option (BucketStats fl))
      (m : Entries Text (BucketStats fl))
      → lookup bytes_eq k m ≡ o
      → bucket_sum fl c m ≤ u64_max
      → bytes_eq k j ≡ false
      → count_at fl c j m ≤ count_at fl c j (merge_bucket fl full k o m)
  unfolding merge_bucket
  count_at-merge_bucket c full k j none m e fits o = omega arith
  count_at-merge_bucket c full k j (some b) m e fits o =
      let to = from_parts b.provider full b.effort in
      let out = sum_of-remove bytes_eq (bucket_count fl c) k m b e in
      let kept : count_at fl c j (remove bytes_eq k m) ≡ count_at fl c j m =
        rw (lookup-remove_other bytes_eq bytes-IsKeyTest j k m o) refl in
      omega (
        arith,
        kept,
        count_at-upsert fl c j to b.stats (remove bytes_eq k m) (omega (arith, out, fits)),
      )

  count_at-merge_keys :
      (c : Counter) (full p j : Text) (ks : List Text) (m : Entries Text (BucketStats fl))
      → AllPrefixed p ks
      → bucket_sum fl c m ≤ u64_max
      → starts_with j p ≡ false
      → count_at fl c j m ≤ count_at fl c j (merge_keys fl full ks m)
  unfolding merge_keys
  count_at-merge_keys c full p j [] m all fits o = omega arith
  count_at-merge_keys c full p j (k ∷ ks) m all fits o =
      let one = sum-merge_bucket fl c full k (lookup bytes_eq k m) m refl fits in
      let apart : bytes_eq k j ≡ false = elim (Bool-cases (bytes_eq k j)) [
        | inl e ↦
            let q = eq_of_bytes_eq k j e in
            absurd (ground (arith, all.0, ap (λ t. starts_with t p) q))
        | inr e ↦ e
      ] in
      let here = count_at-merge_bucket c full k j (lookup bytes_eq k m) m refl fits apart in
      let next =
        count_at-merge_keys c full p j ks (merge_bucket fl full k (lookup bytes_eq k m) m) all.1
          (omega (arith, one, fits)) o in
      omega (arith, here, next)

  pub merge_bare_into_full-Holds :
      (bare full : Text) (r : Reserve fl) (a : AgentStats fl)
      → ((c : Counter) (k : Text) → starts_with k (bare_prefix bare) ≡ true → r c k ≡ 0)
      → Holds fl r a
      → Holds fl r (merge_bare_into_full fl bare full a)
  unfolding merge_bare_into_full
  merge_bare_into_full-Holds bare full r a free h = record {
    balanced =
        unfold merge_bare_into_full in
        merge_bare_into_full-IsBalanced fl bare full a h.is_u64 h.balanced;
    is_u64 = h.is_u64;
    covers = λ c k. elim (Bool-cases (starts_with k (bare_prefix bare))) [
      | inl e ↦ omega (arith, free c k e)
      | inr e ↦
          let grows =
            count_at-merge_keys c full (bare_prefix bare) k
              (bare_keys fl (bare_prefix bare) a.buckets) a.buckets
              (bare_keys-AllPrefixed (bare_prefix bare) a.buckets)
              (omega (arith, h.balanced.equal c, h.is_u64 c)) e in
          omega (arith, h.covers c k, grows)
    ];
  }
