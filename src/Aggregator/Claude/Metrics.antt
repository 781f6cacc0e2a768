-- ===== src/Aggregator/Claude/Metrics.antt =====
-- A metric with usage: it counts unless the logs count.
use otel_logger.Prelude.{
  ℕ, ◌+◌, ◌≤◌, ◌≡◌, refl, ◌∙◌, ap, subst, some, List, [], ◌∷◌, true, false, u64_max, if◌then◌else◌,
  Bool-cases, inl, inr, arith, total, total-le,
}
use otel_logger.Prelude.Maps.{
  Entries, lookup, upsert, insert, sum_of, sum_of-upsert, or_default, lookup-upsert_same,
  lookup-upsert_other,
}
use otel_logger.Aggregator.Stats.{
  Float, Counter, ModelStats, no_stats, add, has_usage, count, count-add, count-no_stats,
}
use otel_logger.Aggregator.Bucket.{Bucket}
use otel_logger.Aggregator.State.{
  AggregatorInner, agent_claude, ClaudeUsageKey, ClaudeUsageSource, same_usage_key, same_bucket,
  record_into,
}
use otel_logger.Aggregator.Claude.{
  usage_key, set_source, note_metric, record_metric, record_claude_metric_usage, Usage,
}
use otel_logger.Aggregator.Claude.Counts.{
  usage_key-IsKeyTest, size, logged, pending_of, counts-le, counts-same, total-record_into,
}
use otel_logger.Aggregator.Claude.Standing.{Standing, IsTallied}

module _ (fl : Float) where
  module _ (c : Counter) where
    module _ (now : ℕ) (b : Bucket) (s : ModelStats fl) (us : List (Usage fl))
        (g : AggregatorInner fl) (usage : has_usage fl s ≡ true) where
      abbrev metric : Usage fl
      metric = record { source = ClaudeUsageSource.metrics; at = now; bucket = b; stats = s }

      logged-metric : (j : ClaudeUsageKey) → logged fl c (metric ∷ us) j ≡ logged fl c us j
      logged-metric j = ground arith

      pending-metric :
          (j : ClaudeUsageKey)
          → total (pending_of fl c j) (metric ∷ us)
            ≡ (if same_usage_key (usage_key b) j then count fl c s else 0)
              + total (pending_of fl c j) us
      pending-metric j = rw usage refl

      pending-other :
          (j : ClaudeUsageKey)
          → same_usage_key (usage_key b) j ≡ false
          → total (pending_of fl c j) (metric ∷ us) ≡ total (pending_of fl c j) us
      pending-other j o = ground (arith, pending-metric j)

      abbrev noted : AggregatorInner fl
      noted = note_metric fl (usage_key b) b s (
          set_source fl (usage_key b) ClaudeUsageSource.metrics
            (record_into fl now agent_claude b s g))

      -- A metric that counts.
      noted-IsTallied :
          (pb : Entries Bucket (ModelStats fl))
          → total (size fl c) us + count fl c s ≤ u64_max
          → logged fl c us (usage_key b) ≡ false
          → or_default [] (lookup same_usage_key (usage_key b) g.claude_metric_usage) ≡ pb
          → sum_of (count fl c) pb ≡ total (pending_of fl c (usage_key b)) us
          → total (pending_of fl c (usage_key b)) us ≤ total (size fl c) us
          → IsTallied fl c us g
          → IsTallied fl c (metric ∷ us) noted
      unfolding note_metric set_source record_into insert
      noted-IsTallied pb fits l at sum less h =
          let k = usage_key b in
          let t = total-record_into fl c now b s g in
          let same =
            counts-same fl c (logged fl c us) (logged fl c (metric ∷ us)) us logged-metric in
          record {
            tally =
                t
                ∙ ground
                    (arith, h.tally, same, logged-metric k, counts-le fl c (logged fl c us) us);
            standing = λ j. elim (Bool-cases (same_usage_key (usage_key b) j)) [
              | inl e ↦
                  let p = usage_key-IsKeyTest.sound k j e in
                  subst (λ i. Standing fl c (metric ∷ us) noted i) p
                    (inr (
                      logged-metric k ∙ l,
                      inr (
                        upsert same_bucket b (no_stats fl) (λ x. add fl x s) pb,
                        lookup-upsert_same same_usage_key usage_key-IsKeyTest k
                            ClaudeUsageSource.metrics (λ v. ClaudeUsageSource.metrics)
                            g.claude_usage_sources,
                        lookup-upsert_same same_usage_key usage_key-IsKeyTest k []
                              (upsert same_bucket b (no_stats fl) (λ x. add fl x s))
                              g.claude_metric_usage
                            ∙ ap
                                (λ m. some (upsert same_bucket b (no_stats fl) (λ x. add fl x s) m))
                                at,
                        sum_of-upsert same_bucket (count fl c) b (no_stats fl) (λ x. add fl x s)
                              (count fl c s) pb (count-no_stats fl c)
                              (λ v le. rw (count-add fl c v s) (ground (arith, sum, less)))
                            ∙ ground
                                (arith, sum, pending-metric k, usage_key-IsKeyTest.reflexive k),
                      ),
                    ))
              | inr o ↦
                  rw
                    (
                      logged-metric j,
                      lookup-upsert_other same_usage_key usage_key-IsKeyTest j k
                          ClaudeUsageSource.metrics (λ v. ClaudeUsageSource.metrics)
                          g.claude_usage_sources o,
                      lookup-upsert_other same_usage_key usage_key-IsKeyTest j k []
                          (upsert same_bucket b (no_stats fl) (λ x. add fl x s))
                          g.claude_metric_usage o,
                      pending-other j o,
                    )
                    (h.standing j)
            ];
          }

      -- A metric of a key that the logs count.
      ignored-IsTallied :
          logged fl c us (usage_key b) ≡ true → IsTallied fl c us g → IsTallied fl c (metric ∷ us) g
      ignored-IsTallied l h =
          let same =
            counts-same fl c (logged fl c us) (logged fl c (metric ∷ us)) us logged-metric in
          record {
            tally = ground (arith, h.tally, same, logged-metric (usage_key b));
            standing = λ j. elim (Bool-cases (same_usage_key (usage_key b) j)) [
              | inl e ↦
                  let p = usage_key-IsKeyTest.sound (usage_key b) j e in
                  elim (h.standing j) [
                    | inl (l', src) ↦ inl (logged-metric j ∙ l', src)
                    | inr (l', rest) ↦ absurd (ground (arith, ap (logged fl c us) p))
                  ]
              | inr o ↦ rw (logged-metric j, pending-other j o) (h.standing j)
            ];
          }

      pub metric-IsTallied :
          total (size fl c) us + count fl c s ≤ u64_max
          → Standing fl c us g (usage_key b)
          → IsTallied fl c us g
          → IsTallied fl c (metric ∷ us) (record_claude_metric_usage fl now b s g).1
      unfolding record_claude_metric_usage record_metric
      metric-IsTallied fits (inl (l, src)) h = rw (usage, src) (ignored-IsTallied l h)
      metric-IsTallied fits (inr (l, inl (src, mu, p))) h =
          rw (usage, src)
            (noted-IsTallied [] fits l (rw mu refl) (omega (arith, p)) (omega (arith, p)) h)
      metric-IsTallied fits (inr (l, inr (pb, src, mu, p))) h =
          rw (usage, src)
            (noted-IsTallied pb fits l (rw mu refl) p
              (total-le (pending_of fl c (usage_key b)) (size fl c) (λ u. ground arith) us) h)
