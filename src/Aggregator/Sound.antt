-- ===== src/Aggregator/Sound.antt =====
-- The invariant of the aggregator that a run of requests keeps: both agents are balanced, and their
-- buckets hold the usage that may be taken back or moved later.
pub mod Reserved
pub mod Reported
pub mod Agents
pub mod Claude
pub mod Metrics
pub mod Names
pub mod Moves
pub mod Conversations
pub mod Sessions
pub mod Handlers
pub mod Logs
pub mod Spans
pub mod Points
pub mod Data
pub mod Ingest
use otel_logger.Prelude.{
  ℕ, ◌+◌, ◌≤◌, ◌≡◌, refl, sym, ◌∙◌, ap, subst, Option, none, some, List, [], ◌∷◌, Bool, true, false,
  ◌&&◌, bytes_eq, bytes_eq_refl, eq_of_bytes_eq, u64_max, if◌then◌else◌, Bool-cases, Option-cases,
  inl, inr, arith, total,
}
use otel_logger.Prelude.Maps.{
  Entries, lookup, upsert, modify, sum_of, or_default, IsKeyTest, lookup-upsert_same,
  lookup-upsert_other, lookup-modify_same, lookup-modify_other,
}
use otel_logger.Otlp.{Text}
use otel_logger.Aggregator.Stats.{
  Float, Counter, ModelStats, no_stats, add, count, count-add, count-no_stats,
}
use otel_logger.Aggregator.Bucket.{Bucket, key}
use otel_logger.Aggregator.Bucket.Keys.{key-injective}
use otel_logger.Aggregator.State.{
  AgentStats, AggregatorInner, same_bucket, agent_claude, agent_codex, no_agent, record_agent,
  record_into, empty_aggregator,
}
use otel_logger.Aggregator.State.Reserve.{
  bytes-IsKeyTest, Reserve, part, Holds, no_agent-Holds, Holds-weaken, record_agent-Holds,
}
use otel_logger.Aggregator.Models.{starts_with, bare_prefix, is_present}

abbrev pub Budget : Type 0
Budget = Counter → ℕ

module _ (fl : Float) where
  -- What a map of usage by bucket reserves.
  abbrev pub reserved : Counter → Text → Entries Bucket (ModelStats fl) → ℕ
  reserved c k m = total (λ e. part fl e.0 e.1 c k) m

  abbrev pub claude_reserve : AggregatorInner fl → Reserve fl
  claude_reserve g c k = sum_of (reserved c k) g.claude_metric_usage

  abbrev pub codex_reserve : AggregatorInner fl → Reserve fl
  codex_reserve g c k = sum_of (reserved c k) g.codex_pending_sse

  abbrev pub agent_of : Text → AggregatorInner fl → AgentStats fl
  agent_of name g = or_default (no_agent fl) (lookup bytes_eq name g.agents)

  -- Each bucket stands once.
  abbrev pub Distinct : Entries Bucket (ModelStats fl) → Type 0
  Distinct [] = Unit
  Distinct ((b, s) ∷ m) = (lookup same_bucket b m ≡ none) × Distinct m

  abbrev pub AllDistinct : Entries Text (Entries Bucket (ModelStats fl)) → Type 0
  AllDistinct [] = Unit
  AllDistinct ((k, m) ∷ ms) = Distinct m × AllDistinct ms

  -- No usage is reserved of a model that no metric named.
  abbrev pub IsNamed : AggregatorInner fl → Type 0
  IsNamed g =
      (bare : Text)
      → is_present (lookup bytes_eq bare g.claude_metric_models) ≡ false
      → (c : Counter) (k : Text) → starts_with k (bare_prefix bare) ≡ true
      → claude_reserve g c k ≡ 0

  pub record IsSound (n : Budget) (g : AggregatorInner fl) : Type 0 where
    pub claude : Holds fl (claude_reserve g) (agent_of agent_claude g)
    pub codex : Holds fl (codex_reserve g) (agent_of agent_codex g)
    pub claude_le : (c : Counter) → count fl c (agent_of agent_claude g).total ≤ n c
    pub codex_le : (c : Counter) → count fl c (agent_of agent_codex g).total ≤ n c
    pub is_named : IsNamed g
    pub distinct : AllDistinct g.codex_pending_sse

  pub empty-IsSound : (n : Budget) → IsSound n (empty_aggregator fl)
  unfolding lookup
  empty-IsSound n = record {
    claude = no_agent-Holds fl _ (λ c k. refl);
    codex = no_agent-Holds fl _ (λ c k. refl);
    claude_le = λ c. omega (arith, count-no_stats fl c);
    codex_le = λ c. omega (arith, count-no_stats fl c);
    is_named = λ bare p c k h. refl;
    distinct = tt;
  }

  pub IsSound-more :
      (n n' : Budget) (g : AggregatorInner fl)
      → ((c : Counter) → n c ≤ n' c)
      → IsSound n g
      → IsSound n' g
  IsSound-more n n' g more h = record {
    claude = h.claude;
    codex = h.codex;
    claude_le = λ c. omega (arith, more c, h.claude_le c);
    codex_le = λ c. omega (arith, more c, h.codex_le c);
    is_named = h.is_named;
    distinct = h.distinct;
  }
