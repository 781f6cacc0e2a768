-- ===== src/Aggregator/Claude/Logs.antt =====
-- A log with usage: what the metrics had counted goes, and the log counts.
use otel_logger.Prelude.{
  ℕ, ◌+◌, ◌≤◌, ◌≡◌, refl, sym, ◌∙◌, ap, List, [], ◌∷◌, true, false, ◌||◌, u64_max, Bool-cases, inl,
  inr, arith, total,
}
use otel_logger.Prelude.Maps.{
  Entries, lookup, remove, insert, lookup-upsert_same, lookup-upsert_other, lookup-remove_other,
}
use otel_logger.Aggregator.Stats.{Float, Counter, ModelStats, has_usage, count}
use otel_logger.Aggregator.Bucket.{Bucket}
use otel_logger.Aggregator.State.{
  AggregatorInner, agent_claude, ClaudeUsageKey, ClaudeUsageSource, same_usage_key, record_into,
  subtract_from,
}
use otel_logger.Aggregator.Claude.{
  usage_key, subtract_all, withdraw, set_source, record_claude_log_usage, Usage,
}
use otel_logger.Aggregator.Claude.Counts.{
  usage_key-IsKeyTest, size, logged, counts, pending_of, claude_total, counts-le, counts-same,
  counts-log, total-record_into, total-subtract_all,
}
use otel_logger.Aggregator.Claude.Standing.{Standing, IsTallied}

module _ (fl : Float) where
  sources-subtract_all :
      (pb : Entries Bucket (ModelStats fl)) (g : AggregatorInner fl)
      → ((subtract_all fl pb g).claude_usage_sources ≡ g.claude_usage_sources)
        × ((subtract_all fl pb g).claude_metric_usage ≡ g.claude_metric_usage)
  unfolding subtract_all subtract_from
  sources-subtract_all [] g = (refl, refl)
  sources-subtract_all ((b, s) ∷ pb) g =
      sources-subtract_all pb (subtract_from fl agent_claude b s g)

  module _ (c : Counter) where
    module _ (now : ℕ) (b : Bucket) (s : ModelStats fl) (us : List (Usage fl))
        (g : AggregatorInner fl) (usage : has_usage fl s ≡ true) where
      abbrev log : Usage fl
      log = record { source = ClaudeUsageSource.logs; at = now; bucket = b; stats = s }

      logged-log :
          (j : ClaudeUsageKey)
          → logged fl c (log ∷ us) j ≡ (same_usage_key (usage_key b) j || logged fl c us j)
      logged-log j = rw usage refl

      abbrev withdrawn : AggregatorInner fl
      withdrawn =
          withdraw fl (usage_key b) (lookup same_usage_key (usage_key b) g.claude_usage_sources)
            (lookup same_usage_key (usage_key b) g.claude_metric_usage) g

      abbrev IsWithdrawn : AggregatorInner fl → Type 0
      IsWithdrawn w =
          (claude_total fl c w ≡ total (counts fl c (logged fl c (log ∷ us))) us)
          × (w.claude_usage_sources ≡ g.claude_usage_sources)
          × ((j : ClaudeUsageKey)
              → same_usage_key (usage_key b) j ≡ false
              → lookup same_usage_key j w.claude_metric_usage
                ≡ lookup same_usage_key j g.claude_metric_usage)

      withdraw-IsWithdrawn :
          claude_total fl c g ≡ total (counts fl c (logged fl c us)) us
          → Standing fl c us g (usage_key b)
          → IsWithdrawn withdrawn
      unfolding withdraw
      withdraw-IsWithdrawn t (inl (l, src)) = rw src (
        t ∙ sym (counts-same fl c (logged fl c us) (logged fl c (log ∷ us)) us same_logged),
        refl,
        λ j o. refl,
      )
        where
          same_logged : (j : ClaudeUsageKey) → logged fl c (log ∷ us) j ≡ logged fl c us j
          same_logged j = elim (Bool-cases (same_usage_key (usage_key b) j)) [
            | inl e ↦
                let p = usage_key-IsKeyTest.sound (usage_key b) j e in
                let l' : logged fl c us j ≡ true = ap (logged fl c us) (sym p) ∙ l in
                ground (arith, logged-log j, l', e)
            | inr o ↦ ground (arith, logged-log j, o)
          ]
      withdraw-IsWithdrawn t (inr (l, inl (src, mu, p))) = rw src (
        omega (
          arith,
          t,
          p,
          counts-log fl c (logged fl c us) (logged fl c (log ∷ us)) (usage_key b) us l logged-log,
        ),
        refl,
        λ j o. refl,
      )
      withdraw-IsWithdrawn t (inr (l, inr (pb, src, mu, p))) =
          let k = usage_key b in
          let g' = record g {
            claude_metric_usage = remove same_usage_key k g.claude_metric_usage;
          } in
          let kept = sources-subtract_all pb g' in
          let shift = counts-log fl c (logged fl c us) (logged fl c (log ∷ us)) k us l logged-log in
          rw (src, mu)
            (
              omega (arith, t, p, total-subtract_all fl c pb g', shift),
              kept.0,
              λ j o.
                  ap (lookup same_usage_key j) kept.1
                  ∙ lookup-remove_other same_usage_key usage_key-IsKeyTest j k g.claude_metric_usage
                      o,
            )

      pending-log :
          (j : ClaudeUsageKey) → total (pending_of fl c j) (log ∷ us) ≡ total (pending_of fl c j) us
      pending-log j = ground arith

      pub log-IsTallied :
          total (size fl c) us + count fl c s ≤ u64_max
          → IsTallied fl c us g
          → IsTallied fl c (log ∷ us) (record_claude_log_usage fl now b s g)
      unfolding record_claude_log_usage set_source record_into insert
      log-IsTallied fits h =
          let (t, src, mu) = withdraw-IsWithdrawn h.tally (h.standing (usage_key b)) in
          let at = total-record_into fl c now b s withdrawn in
          rw usage (record {
            tally = at ∙ ground (arith, t, counts-le fl c (logged fl c (log ∷ us)) us);
            standing = λ j. elim (Bool-cases (same_usage_key (usage_key b) j)) [
              | inl e ↦ inl (
                ground (arith, logged-log j),
                let p = usage_key-IsKeyTest.sound (usage_key b) j e in
                    rw (← p) (
                      lookup-upsert_same same_usage_key usage_key-IsKeyTest (usage_key b)
                        ClaudeUsageSource.logs (λ v. ClaudeUsageSource.logs)
                        withdrawn.claude_usage_sources),
              )
              | inr o ↦
                  let kept =
                    lookup-upsert_other same_usage_key usage_key-IsKeyTest j (usage_key b)
                      ClaudeUsageSource.logs (λ v. ClaudeUsageSource.logs)
                      withdrawn.claude_usage_sources o
                    ∙ ap (lookup same_usage_key j) src in
                  rw (logged-log j, o, kept, mu j o, pending-log j) (h.standing j)
            ];
          })
