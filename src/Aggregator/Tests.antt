-- ===== src/Aggregator/Tests.antt =====
-- Buckets and totals of a concrete usage.
mod Requests
use otel_logger.Prelude.Int.{pos, max_zero}
use otel_logger.Prelude.{
  none, leb, ltb, ℕ, ◌+◌, ◌-◌, ◌≡◌, refl, List, [], ◌∷◌, true, not, ◌==◌, bytes_of, bytes_eq, total,
  arith, max,
}
use otel_logger.Aggregator.Stats.{Float, ModelStats, no_stats, Counter, count-no_stats, has_usage}
use otel_logger.Aggregator.Bucket.{Bucket, from_parts, non_empty}
use otel_logger.Aggregator.Bucket.Keys.{key-injective}
use otel_logger.Aggregator.State.{no_agent, record_agent, ClaudeUsageSource, same_usage_key}
use otel_logger.Aggregator.State.{AgentStats, AggregatorInner, empty_aggregator, agent_claude}
use otel_logger.Aggregator.Stats.{add}
use otel_logger.Aggregator.Models.{register_canonical_claude_model}
use otel_logger.Prelude.Maps.{lookup}
use otel_logger.Aggregator.Models.Merge.{register-Keeps, Keeps, IsU64}
use otel_logger.Aggregator.State.Balance.{record_agent-IsBalanced, IsBalanced}
use otel_logger.Aggregator.Claude.{Usage, claude_run, claude_usage_source_key, bare_model}
use otel_logger.Aggregator.Claude.Counts.{claude_total, counts, logged}
use otel_logger.Aggregator.Claude.Totals.{claude_run_exact}

-- Whole amounts stand for the floats.
abbrev pub amounts : Float
amounts = record {
  F64 = ℕ;
  zero = 0;
  plus = λ a b. a + b;
  minus = λ a b. a - b;
  greater = max;
  is_positive = λ a. not (a == 0);
  is_finite = λ a. true;
  is_zero = λ a. a == 0;
  max_value = 1000000;
  at_least = λ a b. leb b a;
  below = λ a b. ltb a b;
  of_int = max_zero;
  to_int = pos;
  to_nat = λ a. a;
  parse_int = λ s. none;
  parse_float = λ s. none;
}

abbrev opus : Bucket
opus = from_parts (bytes_of "anthropic") (bytes_of "opus/4%") (bytes_of "high")

key-injective_example : opus ≡ opus
key-injective_example = key-injective opus opus refl

abbrev usage : ModelStats amounts
usage = record (no_stats amounts) { request_count = 1; input_tokens = 40 }

nothing-IsBalanced : IsBalanced amounts (no_agent amounts)
nothing-IsBalanced = record { equal = λ c. count-no_stats amounts c }

record_agent-IsBalanced_example :
    IsBalanced amounts (record_agent amounts opus usage (no_agent amounts))
record_agent-IsBalanced_example =
    record_agent-IsBalanced amounts opus usage (no_agent amounts) (λ c. grind arith)
      nothing-IsBalanced

abbrev report_of : ClaudeUsageSource → ℕ → Usage amounts
report_of source n = record {
  source = source;
  at = n;
  bucket = opus;
  stats = record (no_stats amounts) { input_tokens = n };
}

-- The latest first: a metric, a log and again a metric of one model.
abbrev reports : List (Usage amounts)
reports =
    report_of ClaudeUsageSource.metrics 7
    ∷ report_of ClaudeUsageSource.logs 40
    ∷ report_of ClaudeUsageSource.metrics 30
    ∷ []

claude_run_exact_example :
    claude_total amounts Counter.input (claude_run amounts reports)
    ≡ total (counts amounts Counter.input (logged amounts Counter.input reports)) reports
claude_run_exact_example = claude_run_exact amounts Counter.input reports (omega arith)

-- Only the log counts.
reports_total :
    total (counts amounts Counter.input (logged amounts Counter.input reports)) reports ≡ 40
unfolding has_usage same_usage_key bytes_eq claude_usage_source_key bare_model non_empty from_parts
reports_total = refl

-- Usage of a bare name, before the metrics send the full one.
abbrev bare_opus : Bucket
bare_opus = from_parts (bytes_of "anthropic") (bytes_of "opus") (bytes_of "high")

abbrev counted : AgentStats amounts
counted = record_agent amounts bare_opus usage (no_agent amounts)

abbrev used : AggregatorInner amounts
used = record (empty_aggregator amounts) { agents = (agent_claude, counted) ∷ [] }

counted-IsBalanced : IsBalanced amounts counted
counted-IsBalanced =
    record_agent-IsBalanced amounts bare_opus usage (no_agent amounts) (λ c. grind arith)
      nothing-IsBalanced

counted-IsU64 : IsU64 amounts counted
unfolding record_agent add
counted-IsU64 c = grind arith

register-Keeps_example :
    Keeps amounts counted (register_canonical_claude_model amounts (bytes_of "opus[1m]") used)
unfolding lookup bytes_eq
register-Keeps_example =
    register-Keeps amounts (bytes_of "opus[1m]") counted used refl counted-IsU64 counted-IsBalanced
