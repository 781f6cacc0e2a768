-- ===== src/Aggregator/State/Balance.antt =====
-- An agent's total is the sum of its buckets, counter by counter.
use otel_logger.Prelude.{ℕ, ◌+◌, ◌≤◌, ◌≡◌, some, bytes_eq, u64_max, Bool-cases, inl, inr, arith}
use otel_logger.Prelude.Maps.{
  Entries, lookup, upsert, sum_of, sum_of-upsert, sum_of-remove, sum_of-modify,
}
use otel_logger.Otlp.{Text}
use otel_logger.Aggregator.Stats.{
  Float, Counter, ModelStats, add, subtract, has_any_value, count, count-add, count-subtract,
  count-no_stats, count_nothing,
}
use otel_logger.Aggregator.Bucket.{Bucket, key}
use otel_logger.Aggregator.State.{
  BucketStats, AgentStats, from_bucket, add_stats, subtract_stats, record_agent, subtract_bucket,
}

module _ (fl : Float) where
  abbrev pub bucket_count : Counter → BucketStats fl → ℕ
  bucket_count c b = count fl c b.stats

  abbrev pub bucket_sum : Counter → Entries Text (BucketStats fl) → ℕ
  bucket_sum c m = sum_of (bucket_count c) m

  -- `total == Σ buckets`
  pub record IsBalanced (a : AgentStats fl) : Type 0 where
    pub equal : (c : Counter) → count fl c a.total ≡ bucket_sum c a.buckets

  -- A sum that a `u64` holds.
  abbrev pub Fits : ModelStats fl → ModelStats fl → Type 0
  Fits s t = (c : Counter) → count fl c s + count fl c t ≤ u64_max

  sum-add_stats :
      (c : Counter) (k : Text) (b : Bucket) (s : ModelStats fl) (m : Entries Text (BucketStats fl))
      → bucket_sum c m + count fl c s ≤ u64_max
      → bucket_sum c (upsert bytes_eq k (from_bucket fl b) (add_stats fl s) m)
        ≡ bucket_sum c m + count fl c s
  sum-add_stats c k b s m h =
      sum_of-upsert bytes_eq (bucket_count c) k (from_bucket fl b) (add_stats fl s) (count fl c s) m
        (count-no_stats fl c) (λ v le. rw (count-add fl c v.stats s) (ground arith))

  -- What is recorded is added to the total and to one bucket alike, while the sum fits a `u64`.
  pub record_agent-IsBalanced :
      (b : Bucket) (s : ModelStats fl) (a : AgentStats fl)
      → Fits a.total s
      → IsBalanced a
      → IsBalanced (record_agent fl b s a)
  unfolding record_agent
  record_agent-IsBalanced b s a fits h = record {
    equal = λ c.
        let no_carry : count fl c (add fl a.total s) ≡ count fl c a.total + count fl c s =
          rw (count-add fl c a.total s) (ground (arith, fits c)) in
        omega (arith, no_carry, h.equal c, fits c, sum-add_stats c (key b) b s a.buckets);
  }

  pub sum-subtract_bucket :
      (c : Counter) (k : Text) (s : ModelStats fl) (v : BucketStats fl)
      (m : Entries Text (BucketStats fl))
      → lookup bytes_eq k m ≡ some v
      → count fl c s ≤ bucket_count c v
      → bucket_sum c (subtract_bucket fl k s (some v) m) + count fl c s ≡ bucket_sum c m
  unfolding subtract_bucket
  sum-subtract_bucket c k s v m e h =
      let left = count-subtract fl c v.stats s in
      elim (Bool-cases (has_any_value fl (subtract_stats fl s v).stats)) [
        | inl kept ↦ rw kept (
            omega
              (arith, left, sum_of-modify bytes_eq (bucket_count c) k (subtract_stats fl s) m v e))
        | inr gone ↦ rw gone (
            omega (
              arith,
              left,
              count_nothing fl c (subtract fl v.stats s) gone,
              sum_of-remove bytes_eq (bucket_count c) k m v e,
            ))
      ]
