-- ===== src/Aggregator/Claude.antt =====
-- Claude Code's usage, in src/aggregator.rs: it is reported by logs and by metrics, and one of them
-- counts for each model and effort.
pub mod Counts
pub mod Standing
pub mod Logs
pub mod Metrics
pub mod Totals
use otel_logger.Prelude.{
  ℕ, Option, none, some, List, [], ◌∷◌, Bool, true, false, ◌==◌, if◌then◌else◌,
}
use otel_logger.Prelude.Maps.{Entries, lookup, remove, upsert, insert}
use otel_logger.Otlp.{Text}
use otel_logger.Aggregator.Stats.{Float, ModelStats, no_stats, add, has_usage}
use otel_logger.Aggregator.Bucket.{Bucket, non_empty}
use otel_logger.Aggregator.State.{
  AggregatorInner, agent_claude, ClaudeUsageKey, ClaudeUsageSource, same_usage_key, same_bucket,
  record_into, subtract_from, empty_aggregator,
}

-- `model.split_once('[')`, the part before the bracket or all of it.
unfoldable pub bare_model : Text → Text
bare_model [] = []
bare_model (c ∷ s) = let rest = bare_model s in if c == b'[' then [] else c ∷ rest

unfoldable pub claude_usage_source_key : Text → Text → ClaudeUsageKey
claude_usage_source_key model effort = record {
  model = non_empty (bare_model model);
  effort = non_empty effort;
}

abbrev pub usage_key : Bucket → ClaudeUsageKey
usage_key b = claude_usage_source_key b.model b.effort

module _ (fl : Float) where
  -- `for (metric_bucket, metric_stats) in per_bucket`
  unfoldable pub subtract_all :
      Entries Bucket (ModelStats fl) → AggregatorInner fl → AggregatorInner fl
  subtract_all [] g = g
  subtract_all ((b, s) ∷ rest) g = subtract_all rest (subtract_from fl agent_claude b s g)

  -- What the metrics have counted is taken back, with their source and what they counted as the
  -- state has them.
  unfoldable pub withdraw :
      ClaudeUsageKey
      → Option ClaudeUsageSource
      → Option (Entries Bucket (ModelStats fl))
      → AggregatorInner fl
      → AggregatorInner fl
  withdraw k (some ClaudeUsageSource.metrics) (some per_bucket) g =
      subtract_all per_bucket
        (record g { claude_metric_usage = remove same_usage_key k g.claude_metric_usage })
  withdraw k source usage g = g

  unfoldable pub set_source :
      ClaudeUsageKey → ClaudeUsageSource → AggregatorInner fl → AggregatorInner fl
  set_source k source g = record g {
    claude_usage_sources = insert same_usage_key k source g.claude_usage_sources;
  }

  unfoldable pub record_claude_log_usage :
      ℕ → Bucket → ModelStats fl → AggregatorInner fl → AggregatorInner fl
  record_claude_log_usage now b s g =
      let k = usage_key b in
      let withdrawn =
        withdraw k (lookup same_usage_key k g.claude_usage_sources)
          (lookup same_usage_key k g.claude_metric_usage) g in
      if has_usage fl s
      then set_source k ClaudeUsageSource.logs (record_into fl now agent_claude b s withdrawn)
      else g

  -- `claude_metric_usage.entry(source_key).or_default().entry(bucket).or_default().add(stats)`
  unfoldable pub note_metric :
      ClaudeUsageKey → Bucket → ModelStats fl → AggregatorInner fl → AggregatorInner fl
  note_metric k b s g = record g {
    claude_metric_usage =
        upsert same_usage_key k [] (upsert same_bucket b (no_stats fl) (λ t. add fl t s))
          g.claude_metric_usage;
  }

  -- The rest of `record_claude_metric_usage`, behind its first test, for a source that is set.
  unfoldable pub record_metric :
      Option ClaudeUsageSource
      → ℕ
      → Bucket
      → ModelStats fl
      → AggregatorInner fl
      → Bool × AggregatorInner fl
  record_metric (some ClaudeUsageSource.logs) now b s g = (false, g)
  record_metric source now b s g = (
    true,
    note_metric (usage_key b) b s (
        set_source (usage_key b) ClaudeUsageSource.metrics (record_into fl now agent_claude b s g)),
  )

  unfoldable pub record_claude_metric_usage :
      ℕ → Bucket → ModelStats fl → AggregatorInner fl → Bool × AggregatorInner fl
  record_claude_metric_usage now b s g =
      if has_usage fl s
      then record_metric (lookup same_usage_key (usage_key b) g.claude_usage_sources) now b s g
      else (false, g)

  -- A report of usage, and a run of reports, the latest first.
  pub record Usage : Type 0 where
    pub source : ClaudeUsageSource
    pub at : ℕ
    pub bucket : Bucket
    pub stats : ModelStats fl

  unfoldable pub record_usage :
      ClaudeUsageSource → ℕ → Bucket → ModelStats fl → AggregatorInner fl → AggregatorInner fl
  record_usage ClaudeUsageSource.logs now b s g = record_claude_log_usage now b s g
  record_usage ClaudeUsageSource.metrics now b s g = (record_claude_metric_usage now b s g).1

  unfoldable pub claude_run : List Usage → AggregatorInner fl
  claude_run [] = empty_aggregator fl
  claude_run (u ∷ past) = record_usage u.source u.at u.bucket u.stats (claude_run past)
