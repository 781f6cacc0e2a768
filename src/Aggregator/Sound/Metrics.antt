-- ===== src/Aggregator/Sound/Metrics.antt =====
-- Claude Code's metrics keep the aggregator sound: their models are named before they are counted.
use otel_logger.Prelude.{
  ℕ, ◌+◌, ◌≤◌, ◌≡◌, refl, sym, subst, none, some, [], true, bytes_eq, eq_of_bytes_eq, u64_max,
  Bool-cases, inl, inr, arith,
}
use otel_logger.Prelude.Maps.{lookup, upsert, sum_of-upsert-le}
use otel_logger.Otlp.{Text}
use otel_logger.Aggregator.Stats.{Float, Counter, ModelStats, no_stats, add, has_usage, count}
use otel_logger.Aggregator.Bucket.{Bucket, key}
use otel_logger.Aggregator.State.{
  AggregatorInner, ClaudeUsageSource, same_usage_key, same_bucket, agent_claude, record_agent,
  record_into,
}
use otel_logger.Aggregator.State.Reserve.{part, Holds, record_agent-Holds}
use otel_logger.Aggregator.Claude.{
  usage_key, set_source, note_metric, record_metric, record_claude_metric_usage,
}
use otel_logger.Aggregator.Models.{starts_with, bare_prefix, is_present}
use otel_logger.Aggregator.Models.Prefix.{model_of_prefix}
use otel_logger.Aggregator.Sound.{Budget, reserved, claude_reserve, agent_of, IsSound, IsSound-more}
use otel_logger.Aggregator.Sound.Reserved.{reserved-upsert}
use otel_logger.Aggregator.Sound.Agents.{agent_of-upsert_same, record_into_claude-IsSound}

module _ (fl : Float) where
  -- A model that some metric named.
  abbrev pub IsKnown : Text → AggregatorInner fl → Type 0
  IsKnown model g = is_present (lookup bytes_eq model g.claude_metric_models) ≡ true

  module _ (n n' : Budget) (now : ℕ) (b : Bucket) (s : ModelStats fl) (g : AggregatorInner fl)
      (more : (c : Counter) → n c + count fl c s ≤ n' c)
      (fits : (c : Counter) → n' c ≤ u64_max) where
    abbrev noted : AggregatorInner fl
    noted = note_metric fl (usage_key b) b s (
        set_source fl (usage_key b) ClaudeUsageSource.metrics
          (record_into fl now agent_claude b s g))

    noted_reserve :
        (c : Counter) (k : Text)
        → claude_reserve fl noted c k ≤ claude_reserve fl g c k + part fl b s c k
    unfolding note_metric set_source record_into
    noted_reserve c k =
        sum_of-upsert-le same_usage_key (reserved fl c k) (usage_key b) []
          (upsert same_bucket b (no_stats fl) (λ t. add fl t s)) (part fl b s c k)
          g.claude_metric_usage (omega (arith, reserved-upsert fl c k b s []))
          (reserved-upsert fl c k b s)

    noted-IsSound : IsKnown b.model g → IsSound fl n g → IsSound fl n' noted
    unfolding note_metric set_source record_into
    noted-IsSound known h =
        let recorded = record_into_claude-IsSound fl n n' now b s g more fits h in
        record {
          claude =
              subst (Holds fl (claude_reserve fl noted))
                (sym (agent_of-upsert_same fl agent_claude (record_agent fl b s) g.agents))
                (record_agent-Holds fl b s (claude_reserve fl g) (claude_reserve fl noted)
                  (agent_of fl agent_claude g) (λ c. omega (arith, more c, fits c, h.claude_le c))
                  noted_reserve h.claude);
          codex = recorded.codex;
          claude_le = recorded.claude_le;
          codex_le = recorded.codex_le;
          is_named = λ bare p c k st. elim (Bool-cases (bytes_eq (key b) k)) [
            | inl e ↦
                let q = eq_of_bytes_eq (key b) k e in
                let m =
                  model_of_prefix b bare
                    (subst (λ x. starts_with x (bare_prefix bare) ≡ true) (sym q) st) in
                let known' =
                  subst (λ x. is_present (lookup bytes_eq x g.claude_metric_models) ≡ true) m
                    known in
                absurd (ground arith)
            | inr e ↦
                let nothing : part fl b s c k ≡ 0 = rw e refl in
                omega (arith, noted_reserve c k, h.is_named bare p c k st, nothing)
          ];
          distinct = h.distinct;
        }

    pub record_claude_metric_usage-IsSound :
        IsKnown b.model g
        → IsSound fl n g
        → IsSound fl n' (record_claude_metric_usage fl now b s g).1
    unfolding record_claude_metric_usage record_metric
    record_claude_metric_usage-IsSound known h =
        let same = IsSound-more fl n n' g (λ c. omega (arith, more c)) h in
        let new = noted-IsSound known h in
        elim (Bool-cases (has_usage fl s)) [
          | inl e ↦
              rw e
                (elim (lookup same_usage_key (usage_key b) g.claude_usage_sources)
                  as (λ o. IsSound fl n' (record_metric fl o now b s g).1) [
                    | some ClaudeUsageSource.logs ↦ same
                    | some ClaudeUsageSource.metrics ↦ new
                    | none ↦ new
                  ])
          | inr e ↦ rw e same
        ]
