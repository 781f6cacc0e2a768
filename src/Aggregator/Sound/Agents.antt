-- ===== src/Aggregator/Sound/Agents.antt =====
-- The agents after usage of one is recorded or changed.
use otel_logger.Prelude.{
  ℕ, ◌+◌, ◌≤◌, ◌≡◌, refl, sym, ap, subst, none, false, bytes_eq, u64_max, Option-cases, inl, inr,
  arith,
}
use otel_logger.Prelude.Maps.{
  Entries, lookup, upsert, modify, or_default, lookup-upsert_same, lookup-upsert_other,
  lookup-modify_same, lookup-modify_other,
}
use otel_logger.Otlp.{Text}
use otel_logger.Aggregator.Stats.{Float, Counter, ModelStats, count, count-add}
use otel_logger.Aggregator.Bucket.{Bucket}
use otel_logger.Aggregator.State.{
  AgentStats, AggregatorInner, agent_claude, agent_codex, no_agent, record_agent, record_into,
}
use otel_logger.Aggregator.State.Reserve.{bytes-IsKeyTest, Holds, record_agent-Holds}
use otel_logger.Aggregator.Sound.{Budget, claude_reserve, codex_reserve, agent_of, IsSound}

pub claude_apart : bytes_eq agent_claude agent_codex ≡ false
unfolding bytes_eq
claude_apart = refl

pub codex_apart : bytes_eq agent_codex agent_claude ≡ false
unfolding bytes_eq
codex_apart = refl

module _ (fl : Float) where
  -- An agent that something is recorded of, and the others.
  pub agent_of-upsert_same :
      (name : Text) (f : AgentStats fl → AgentStats fl) (m : Entries Text (AgentStats fl))
      → or_default (no_agent fl) (lookup bytes_eq name (upsert bytes_eq name (no_agent fl) f m))
        ≡ f (or_default (no_agent fl) (lookup bytes_eq name m))
  agent_of-upsert_same name f m =
      ap (or_default (no_agent fl))
        (lookup-upsert_same bytes_eq bytes-IsKeyTest name (no_agent fl) f m)

  pub agent_of-upsert_other :
      (name other : Text) (f : AgentStats fl → AgentStats fl) (m : Entries Text (AgentStats fl))
      → bytes_eq other name ≡ false
      → or_default (no_agent fl) (lookup bytes_eq name (upsert bytes_eq other (no_agent fl) f m))
        ≡ or_default (no_agent fl) (lookup bytes_eq name m)
  agent_of-upsert_other name other f m h =
      ap (or_default (no_agent fl))
        (lookup-upsert_other bytes_eq bytes-IsKeyTest name other (no_agent fl) f m h)

  pub agent_of-modify_other :
      (name other : Text) (f : AgentStats fl → AgentStats fl) (m : Entries Text (AgentStats fl))
      → bytes_eq other name ≡ false
      → or_default (no_agent fl) (lookup bytes_eq name (modify bytes_eq other f m))
        ≡ or_default (no_agent fl) (lookup bytes_eq name m)
  agent_of-modify_other name other f m h =
      ap (or_default (no_agent fl)) (lookup-modify_other bytes_eq bytes-IsKeyTest name other f m h)

  -- An agent that is there is changed, and one that is not stays away.
  pub agent_of-modify_same :
      (name : Text) (f : AgentStats fl → AgentStats fl) (m : Entries Text (AgentStats fl))
      (P : AgentStats fl → Type 0)
      → P (f (or_default (no_agent fl) (lookup bytes_eq name m)))
      → ((lookup bytes_eq name m ≡ none) → P (no_agent fl))
      → P (or_default (no_agent fl) (lookup bytes_eq name (modify bytes_eq name f m)))
  agent_of-modify_same name f m P there away =
      subst (λ o. P (or_default (no_agent fl) o)) (sym (lookup-modify_same bytes_eq name f m))
        (elim (Option-cases (lookup bytes_eq name m)) [
          | inl e ↦ rw e (away e)
          | inr (a, e) ↦ rw e (subst (λ o. P (f (or_default (no_agent fl) o))) e there)
        ])

  record_agent_le :
      (n n' : Budget) (b : Bucket) (s : ModelStats fl) (a : AgentStats fl) (c : Counter)
      → n c + count fl c s ≤ n' c
      → count fl c a.total ≤ n c
      → count fl c (record_agent fl b s a).total ≤ n' c
  unfolding record_agent
  record_agent_le n n' b s a c more le = ground (arith, count-add fl c a.total s)

  -- Usage that is recorded of either agent, within the budget.
  pub record_into_claude-IsSound :
      (n n' : Budget) (now : ℕ) (b : Bucket) (s : ModelStats fl) (g : AggregatorInner fl)
      → ((c : Counter) → n c + count fl c s ≤ n' c)
      → ((c : Counter) → n' c ≤ u64_max)
      → IsSound fl n g
      → IsSound fl n' (record_into fl now agent_claude b s g)
  unfolding record_into
  record_into_claude-IsSound n n' now b s g more fits h = record {
    claude =
        subst (Holds fl (claude_reserve fl g))
          (sym (agent_of-upsert_same agent_claude (record_agent fl b s) g.agents))
          (record_agent-Holds fl b s (claude_reserve fl g) (claude_reserve fl g)
            (agent_of fl agent_claude g) (λ c. omega (arith, more c, fits c, h.claude_le c))
            (λ c k. omega arith) h.claude);
    codex =
        subst (Holds fl (codex_reserve fl g))
          (sym (
            agent_of-upsert_other agent_codex agent_claude (record_agent fl b s) g.agents
              claude_apart))
          h.codex;
    claude_le = λ c.
        rw (agent_of-upsert_same agent_claude (record_agent fl b s) g.agents)
          (record_agent_le n n' b s (agent_of fl agent_claude g) c (more c) (h.claude_le c));
    codex_le = λ c.
        rw
          (agent_of-upsert_other agent_codex agent_claude (record_agent fl b s) g.agents
            claude_apart)
          (omega (arith, more c, h.codex_le c));
    is_named = h.is_named;
    distinct = h.distinct;
  }

  pub record_into_codex-IsSound :
      (n n' : Budget) (now : ℕ) (b : Bucket) (s : ModelStats fl) (g : AggregatorInner fl)
      → ((c : Counter) → n c + count fl c s ≤ n' c)
      → ((c : Counter) → n' c ≤ u64_max)
      → IsSound fl n g
      → IsSound fl n' (record_into fl now agent_codex b s g)
  unfolding record_into
  record_into_codex-IsSound n n' now b s g more fits h = record {
    codex =
        subst (Holds fl (codex_reserve fl g))
          (sym (agent_of-upsert_same agent_codex (record_agent fl b s) g.agents))
          (record_agent-Holds fl b s (codex_reserve fl g) (codex_reserve fl g)
            (agent_of fl agent_codex g) (λ c. omega (arith, more c, fits c, h.codex_le c))
            (λ c k. omega arith) h.codex);
    claude =
        subst (Holds fl (claude_reserve fl g))
          (sym (
            agent_of-upsert_other agent_claude agent_codex (record_agent fl b s) g.agents
              codex_apart))
          h.claude;
    codex_le = λ c.
        rw (agent_of-upsert_same agent_codex (record_agent fl b s) g.agents)
          (record_agent_le n n' b s (agent_of fl agent_codex g) c (more c) (h.codex_le c));
    claude_le = λ c.
        rw
          (agent_of-upsert_other agent_claude agent_codex (record_agent fl b s) g.agents
            codex_apart)
          (omega (arith, more c, h.claude_le c));
    is_named = h.is_named;
    distinct = h.distinct;
  }
