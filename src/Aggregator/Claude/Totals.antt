-- ===== src/Aggregator/Claude/Totals.antt =====
-- What Claude Code's total counts after any run of reports.
use native.Mathlib.Nat.{zero-add}
use otel_logger.Prelude.{
  ℕ, ◌+◌, ◌≤◌, ◌≡◌, refl, ◌∙◌, ap, List, [], ◌∷◌, false, u64_max, Bool-cases, inl, inr, arith,
  total,
}
use otel_logger.Prelude.Maps.{lookup}
use otel_logger.Aggregator.Stats.{Float, Counter, ModelStats, has_usage, count}
use otel_logger.Aggregator.Bucket.{Bucket}
use otel_logger.Aggregator.State.{AggregatorInner, ClaudeUsageSource}
use otel_logger.Aggregator.Claude.{
  usage_key, record_claude_log_usage, record_claude_metric_usage, Usage, record_usage, claude_run,
}
use otel_logger.Aggregator.Claude.Counts.{size, logged, counts, claude_total, counts-same}
use otel_logger.Aggregator.Claude.Standing.{IsTallied}
use otel_logger.Aggregator.Claude.Logs.{log-IsTallied}
use otel_logger.Aggregator.Claude.Metrics.{metric-IsTallied}

module _ (fl : Float) where
  module _ (c : Counter) where
    module _ (now : ℕ) (b : Bucket) (s : ModelStats fl) (us : List (Usage fl))
        (g : AggregatorInner fl) where
      abbrev report : ClaudeUsageSource → Usage fl
      report source = record { source = source; at = now; bucket = b; stats = s }

      -- A report with no usage changes nothing.
      unchanged :
          (source : ClaudeUsageSource)
          → has_usage fl s ≡ false
          → IsTallied fl c us g
          → IsTallied fl c (report source ∷ us) g
      unchanged source e h = record {
        tally =
            h.tally
            ∙ ground (
              arith,
              counts-same fl c (logged fl c us) (logged fl c (report source ∷ us)) us
                  (λ k. rw e refl),
              e,
            );
        standing = λ k. rw e (rw zero-add (h.standing k));
      }

      record_usage_nothing :
          (source : ClaudeUsageSource)
          → has_usage fl s ≡ false
          → record_usage fl source now b s g ≡ g
      unfolding record_usage record_claude_log_usage record_claude_metric_usage
      record_usage_nothing ClaudeUsageSource.logs e = rw e refl
      record_usage_nothing ClaudeUsageSource.metrics e =
          let r : record_claude_metric_usage fl now b s g ≡ (false, g) = rw e refl in
          ap (λ x. x.1) r

      record_usage-IsTallied :
          (source : ClaudeUsageSource)
          → total (size fl c) us + count fl c s ≤ u64_max
          → IsTallied fl c us g
          → IsTallied fl c (report source ∷ us) (record_usage fl source now b s g)
      unfolding record_usage
      record_usage-IsTallied source fits h = elim (Bool-cases (has_usage fl s)) [
        | inl usage ↦
            elim source as (λ x. IsTallied fl c (report x ∷ us) (record_usage fl x now b s g)) [
              | ClaudeUsageSource.logs ↦ log-IsTallied fl c now b s us g usage fits h
              | ClaudeUsageSource.metrics ↦
                  metric-IsTallied fl c now b s us g usage fits (h.standing (usage_key b)) h
            ]
        | inr e ↦ rw (record_usage_nothing source e) (unchanged source e h)
      ]

    claude_run-IsTallied :
        (us : List (Usage fl))
        → total (size fl c) us ≤ u64_max
        → IsTallied fl c us (claude_run fl us)
    unfolding claude_run lookup
    claude_run-IsTallied [] fits = record {
      tally = refl;
      standing = λ k. inr (refl, inl (refl, refl, refl));
    }
    claude_run-IsTallied (u ∷ us) fits =
        record_usage-IsTallied u.at u.bucket u.stats us (claude_run fl us) u.source
          (omega (arith, fits)) (claude_run-IsTallied us (omega (arith, fits)))

  -- After any run of reports, in any order, whose counter adds up to less than 2 ^ 64, the counter
  -- of Claude Code's total is the sum over the reports that have usage and are logs, or are
  -- metrics of a model and effort for which no log with usage stands anywhere in the run.
  pub claude_run_exact :
      (c : Counter) (us : List (Usage fl))
      → total (size fl c) us ≤ u64_max
      → claude_total fl c (claude_run fl us) ≡ total (counts fl c (logged fl c us)) us
  claude_run_exact c us fits = let h = claude_run-IsTallied c us fits in h.tally
