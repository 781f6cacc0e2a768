-- ===== src/Aggregator/Sound/Claude.antt =====
-- Claude Code's reports keep the aggregator sound: what the metrics counted can be taken back.
use otel_logger.Prelude.{
  ℕ, ◌+◌, ◌≤◌, ◌≡◌, refl, sym, subst, Option, none, some, [], ◌∷◌, u64_max, Bool-cases, inl, inr,
  arith,
}
use otel_logger.Prelude.Maps.{Entries, lookup, remove, or_default, sum_of-remove}
use otel_logger.Otlp.{Text}
use otel_logger.Aggregator.Stats.{Float, Counter, ModelStats, has_usage, count, count-subtract}
use otel_logger.Aggregator.Bucket.{Bucket}
use otel_logger.Aggregator.State.{
  AgentStats, AggregatorInner, ClaudeUsageKey, ClaudeUsageSource, same_usage_key, agent_claude,
  agent_codex, no_agent, subtract_agent, subtract_from, record_into,
}
use otel_logger.Aggregator.State.Reserve.{Reserve, part, Holds, Holds-weaken, subtract_agent-Holds}
use otel_logger.Aggregator.Claude.{
  usage_key, subtract_all, withdraw, set_source, record_claude_log_usage,
}
use otel_logger.Aggregator.Sound.{
  Budget, reserved, claude_reserve, codex_reserve, agent_of, IsSound, IsSound-more,
}
use otel_logger.Aggregator.Sound.Agents.{
  claude_apart, agent_of-modify_same, agent_of-modify_other, record_into_claude-IsSound,
}

module _ (fl : Float) where
  subtract_agent_le :
      (b : Bucket) (s : ModelStats fl) (a : AgentStats fl) (c : Counter) (n : ℕ)
      → count fl c a.total ≤ n
      → count fl c (subtract_agent fl b s a).total ≤ n
  unfolding subtract_agent
  subtract_agent_le b s a c n le = ground (arith, count-subtract fl c a.total s)

  module _ (n : Budget) where
    module _ (b : Bucket) (s : ModelStats fl) (r : Reserve fl) (g : AggregatorInner fl) where
      abbrev agent : AgentStats fl
      agent = agent_of fl agent_claude g

      subtract_from-Holds :
          Holds fl (λ c k. part fl b s c k + r c k) agent
          → Holds fl r (agent_of fl agent_claude (subtract_from fl agent_claude b s g))
      unfolding subtract_from
      subtract_from-Holds h =
          agent_of-modify_same fl agent_claude (subtract_agent fl b s) g.agents (Holds fl r)
            (subtract_agent-Holds fl b s (λ c k. part fl b s c k + r c k) r agent
              (λ c k. omega arith) h)
            (λ e.
              Holds-weaken fl (λ c k. part fl b s c k + r c k) r (no_agent fl) (λ c k. omega arith)
                (subst (λ o. Holds fl (λ c k. part fl b s c k + r c k) (or_default (no_agent fl) o))
                  e h))

      subtract_from-IsSound :
          Holds fl
            (claude_reserve fl g)
            (agent_of fl agent_claude (subtract_from fl agent_claude b s g))
          → IsSound fl n g
          → IsSound fl n (subtract_from fl agent_claude b s g)
      unfolding subtract_from
      subtract_from-IsSound held h = record {
        claude = held;
        codex =
            subst (Holds fl (codex_reserve fl g))
              (sym (
                agent_of-modify_other fl agent_codex agent_claude (subtract_agent fl b s) g.agents
                  claude_apart))
              h.codex;
        claude_le = λ c.
            agent_of-modify_same fl agent_claude (subtract_agent fl b s) g.agents
              (λ a. count fl c a.total ≤ n c) (subtract_agent_le b s agent c (n c) (h.claude_le c))
              (λ e.
                subst (λ o. count fl c (or_default (no_agent fl) o).total ≤ n c) e (h.claude_le c));
        codex_le = λ c.
            rw
              (agent_of-modify_other fl agent_codex agent_claude (subtract_agent fl b s) g.agents
                claude_apart)
              (h.codex_le c);
        is_named = h.is_named;
        distinct = h.distinct;
      }

    -- What is reserved over what the state reserves can be taken back.
    subtract_all-IsSound :
        (pb : Entries Bucket (ModelStats fl)) (g : AggregatorInner fl)
        → Holds fl
            (λ c k. reserved fl c k pb + claude_reserve fl g c k)
            (agent_of fl agent_claude g)
        → IsSound fl n g
        → IsSound fl n (subtract_all fl pb g)
    unfolding subtract_all
    subtract_all-IsSound [] g held h = h
    subtract_all-IsSound ((b, s) ∷ rest) g held h =
        let r : Reserve fl = λ c k. reserved fl c k rest + claude_reserve fl g c k in
        let before =
          Holds-weaken fl (λ c k. reserved fl c k ((b, s) ∷ rest) + claude_reserve fl g c k)
            (λ c k. part fl b s c k + r c k) (agent_of fl agent_claude g) (λ c k. omega arith)
            held in
        let after = subtract_from-Holds b s r g before in
        let g' = subtract_from fl agent_claude b s g in
        let same : claude_reserve fl g' ≡ claude_reserve fl g = unfold subtract_from in refl in
        let sound =
          subtract_from-IsSound b s r g
            (Holds-weaken fl r (claude_reserve fl g) (agent_of fl agent_claude g')
              (λ c k. omega arith) after)
            h in
        subtract_all-IsSound rest g'
          (subst (λ x. Holds fl (λ c k. reserved fl c k rest + x c k) (agent_of fl agent_claude g'))
            (sym same) after)
          sound

    pub withdraw-IsSound :
        (k : ClaudeUsageKey) (source : Option ClaudeUsageSource)
        (usage : Option (Entries Bucket (ModelStats fl))) (g : AggregatorInner fl)
        → lookup same_usage_key k g.claude_metric_usage ≡ usage
        → IsSound fl n g
        → IsSound fl n (withdraw fl k source usage g)
    unfolding withdraw
    withdraw-IsSound k (some ClaudeUsageSource.metrics) (some pb) g e h =
        let g' = record g { claude_metric_usage = remove same_usage_key k g.claude_metric_usage } in
        let out : (c : Counter) (j : Text)
            → claude_reserve fl g' c j + reserved fl c j pb ≡ claude_reserve fl g c j =
          λ c j. sum_of-remove same_usage_key (reserved fl c j) k g.claude_metric_usage pb e in
        subtract_all-IsSound pb g'
          (Holds-weaken fl (claude_reserve fl g)
            (λ c j. reserved fl c j pb + claude_reserve fl g' c j) (agent_of fl agent_claude g)
            (λ c j. omega (arith, out c j)) h.claude)
          (record {
            claude =
                Holds-weaken fl (claude_reserve fl g) (claude_reserve fl g')
                  (agent_of fl agent_claude g) (λ c j. omega (arith, out c j)) h.claude;
            codex = h.codex;
            claude_le = h.claude_le;
            codex_le = h.codex_le;
            is_named = λ bare p c j s. omega (arith, out c j, h.is_named bare p c j s);
            distinct = h.distinct;
          })
    withdraw-IsSound k (some ClaudeUsageSource.metrics) none g e h = h
    withdraw-IsSound k (some ClaudeUsageSource.logs) usage g e h = h
    withdraw-IsSound k none usage g e h = h

    set_source-IsSound :
        (k : ClaudeUsageKey) (source : ClaudeUsageSource) (g : AggregatorInner fl)
        → IsSound fl n g
        → IsSound fl n (set_source fl k source g)
    unfolding set_source
    set_source-IsSound k source g h = record {
      claude = h.claude;
      codex = h.codex;
      claude_le = h.claude_le;
      codex_le = h.codex_le;
      is_named = h.is_named;
      distinct = h.distinct;
    }

  -- A log's usage, within the budget, in the place of what the metrics counted.
  pub record_claude_log_usage-IsSound :
      (n n' : Budget) (now : ℕ) (b : Bucket) (s : ModelStats fl) (g : AggregatorInner fl)
      → ((c : Counter) → n c + count fl c s ≤ n' c)
      → ((c : Counter) → n' c ≤ u64_max)
      → IsSound fl n g
      → IsSound fl n' (record_claude_log_usage fl now b s g)
  unfolding record_claude_log_usage
  record_claude_log_usage-IsSound n n' now b s g more fits h =
      let k = usage_key b in
      let source = lookup same_usage_key k g.claude_usage_sources in
      let usage = lookup same_usage_key k g.claude_metric_usage in
      let withdrawn = withdraw fl k source usage g in
      elim (Bool-cases (has_usage fl s)) [
        | inl e ↦ rw e (
            set_source-IsSound n' k ClaudeUsageSource.logs
              (record_into fl now agent_claude b s withdrawn)
              (record_into_claude-IsSound fl n n' now b s withdrawn more fits
                (withdraw-IsSound n k source usage g refl h)))
        | inr e ↦ rw e (IsSound-more fl n n' g (λ c. omega (arith, more c)) h)
      ]
