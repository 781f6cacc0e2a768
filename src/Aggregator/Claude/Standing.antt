-- ===== src/Aggregator/Claude/Standing.antt =====
-- What the state knows of each model and effort, after a run of reports.
use otel_logger.Prelude.{◌≡◌, none, some, List, true, false, ◌⊎◌, total}
use otel_logger.Prelude.Maps.{Entries, lookup, sum_of}
use otel_logger.Aggregator.Stats.{Float, Counter, ModelStats, count}
use otel_logger.Aggregator.Bucket.{Bucket}
use otel_logger.Aggregator.State.{
  AggregatorInner, ClaudeUsageKey, ClaudeUsageSource, same_usage_key,
}
use otel_logger.Aggregator.Claude.{Usage}
use otel_logger.Aggregator.Claude.Counts.{logged, counts, pending_of, claude_total}

module _ (fl : Float) (c : Counter) where
  -- A key with no report yet; a key that the metrics count, with what they have counted; and a
  -- key that the logs count.
  abbrev pub Unseen : List (Usage fl) → AggregatorInner fl → ClaudeUsageKey → Type 0
  Unseen us g k =
      (lookup same_usage_key k g.claude_usage_sources ≡ none)
      × (lookup same_usage_key k g.claude_metric_usage ≡ none)
      × (total (pending_of fl c k) us ≡ 0)

  abbrev pub ByMetrics : List (Usage fl) → AggregatorInner fl → ClaudeUsageKey → Type 0
  ByMetrics us g k =
      (pb : Entries Bucket (ModelStats fl)) × (lookup same_usage_key k g.claude_usage_sources
        ≡ some ClaudeUsageSource.metrics)
      × (lookup same_usage_key k g.claude_metric_usage ≡ some pb)
      × (sum_of (count fl c) pb ≡ total (pending_of fl c k) us)

  abbrev pub Standing : List (Usage fl) → AggregatorInner fl → ClaudeUsageKey → Type 0
  Standing us g k =
      ((logged fl c us k ≡ true)
        × (lookup same_usage_key k g.claude_usage_sources ≡ some ClaudeUsageSource.logs))
      ⊎ ((logged fl c us k ≡ false) × (Unseen us g k ⊎ ByMetrics us g k))

  -- The state after a run.
  pub record IsTallied (us : List (Usage fl)) (g : AggregatorInner fl) : Type 0 where
    pub tally : claude_total fl c g ≡ total (counts fl c (logged fl c us)) us
    pub standing : (k : ClaudeUsageKey) → Standing us g k
