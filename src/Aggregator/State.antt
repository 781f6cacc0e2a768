-- ===== src/Aggregator/State.antt =====
-- `AggregatorInner` of src/aggregator.rs: the totals and buckets, and what decides which source of
-- a usage counts. `now` is the time of the call.
pub mod Balance
pub mod Reserve
use otel_logger.Prelude.{
  ℕ, Option, none, some, List, [], ◌∷◌, ◌++◌, Bool, true, false, ◌&&◌, if◌then◌else◌, bytes_of,
  bytes_eq,
}
use otel_logger.Prelude.Maps.{Entries, lookup, remove, upsert, insert, modify}
use otel_logger.Otlp.{Text}
use otel_logger.Aggregator.Stats.{Float, ModelStats, no_stats, add, subtract, has_any_value}
use otel_logger.Aggregator.Bucket.{Bucket, key}

abbrev pub agent_claude : Text
agent_claude = bytes_of "claude-code"

abbrev pub agent_codex : Text
agent_codex = bytes_of "codex"

pub record ClaudeUsageKey : Type 0 where
  pub model : Text
  pub effort : Text

pub data ClaudeUsageSource : Type 0 where
  logs metrics : ClaudeUsageSource

pub data CodexTokenSource : Type 0 where
  logs metrics : CodexTokenSource

pub record CodexSession : Type 0 where
  pub conversation_id : Text
  pub provider : Text
  pub model : Text
  pub effort : Text
  pub provider_confirmed : Bool

unfoldable pub same_usage_key : ClaudeUsageKey → ClaudeUsageKey → Bool
same_usage_key a b = bytes_eq a.model b.model && bytes_eq a.effort b.effort

unfoldable pub same_bucket : Bucket → Bucket → Bool
same_bucket a b =
    bytes_eq a.provider b.provider && (bytes_eq a.model b.model && bytes_eq a.effort b.effort)

module _ (fl : Float) where
  pub record BucketStats : Type 0 where
    pub provider : Text
    pub model : Text
    pub effort : Text
    pub stats : ModelStats fl

  pub record AgentStats : Type 0 where
    pub total : ModelStats fl
    pub buckets : Entries Text BucketStats

  pub record AggregatorInner : Type 0 where
    pub last_updated : Option ℕ
    pub agents : Entries Text AgentStats
    pub claude_canonical_models : Entries Text Text
    pub claude_metric_models : Entries Text (Unit {0})
    pub claude_usage_sources : Entries ClaudeUsageKey ClaudeUsageSource
    pub claude_metric_usage : Entries ClaudeUsageKey (Entries Bucket (ModelStats fl))
    pub codex_last_sessions : Entries Text CodexSession
    pub codex_sessions : Entries Text CodexSession
    pub codex_token_sources : Entries Text CodexTokenSource
    pub codex_pending_sse : Entries Text (Entries Bucket (ModelStats fl))

  -- `Aggregator::new`
  abbrev pub empty_aggregator : AggregatorInner
  empty_aggregator = record {
    last_updated = none;
    agents = [];
    claude_canonical_models = [];
    claude_metric_models = [];
    claude_usage_sources = [];
    claude_metric_usage = [];
    codex_last_sessions = [];
    codex_sessions = [];
    codex_token_sources = [];
    codex_pending_sse = [];
  }

  abbrev pub no_agent : AgentStats
  no_agent = record { total = no_stats fl; buckets = [] }

  -- `BucketStats::from_bucket`
  abbrev pub from_bucket : Bucket → BucketStats
  from_bucket b = record {
    provider = b.provider;
    model = b.model;
    effort = b.effort;
    stats = no_stats fl;
  }

  abbrev pub add_stats : ModelStats fl → BucketStats → BucketStats
  add_stats s b = record b { stats = add fl b.stats s }

  abbrev pub subtract_stats : ModelStats fl → BucketStats → BucketStats
  subtract_stats s b = record b { stats = subtract fl b.stats s }

  -- The agent's part of `record_into`.
  unfoldable pub record_agent : Bucket → ModelStats fl → AgentStats → AgentStats
  record_agent b s a = record {
    total = add fl a.total s;
    buckets = upsert bytes_eq (key b) (from_bucket b) (add_stats s) a.buckets;
  }

  unfoldable pub record_into : ℕ → Text → Bucket → ModelStats fl → AggregatorInner → AggregatorInner
  record_into now agent b s g = record g {
    last_updated = some now;
    agents = upsert bytes_eq agent no_agent (record_agent b s) g.agents;
  }

  -- A bucket that was subtracted from, and goes when nothing is left in it.
  unfoldable pub subtract_bucket :
      Text
      → ModelStats fl
      → Option BucketStats
      → Entries Text BucketStats
      → Entries Text BucketStats
  subtract_bucket k s none m = m
  subtract_bucket k s (some b) m =
      if has_any_value fl (subtract_stats s b).stats
      then modify bytes_eq k (subtract_stats s) m
      else remove bytes_eq k m

  -- The agent's part of `subtract_from`.
  unfoldable pub subtract_agent : Bucket → ModelStats fl → AgentStats → AgentStats
  unfolding subtract_bucket
  subtract_agent b s a = record {
    total = subtract fl a.total s;
    buckets = subtract_bucket (key b) s (lookup bytes_eq (key b) a.buckets) a.buckets;
  }

  unfoldable pub subtract_from : Text → Bucket → ModelStats fl → AggregatorInner → AggregatorInner
  subtract_from agent b s g = record g {
    agents = modify bytes_eq agent (subtract_agent b s) g.agents;
  }

  -- The agent's part of `move_codex_bucket_stats`.
  unfoldable pub move_agent : Bucket → Bucket → ModelStats fl → AgentStats → AgentStats
  unfolding subtract_bucket
  move_agent from to s a =
      let left = subtract_bucket (key from) s (lookup bytes_eq (key from) a.buckets) a.buckets in
      record a { buckets = upsert bytes_eq (key to) (from_bucket to) (add_stats s) left }

  unfoldable pub move_codex_bucket_stats :
      Bucket → Bucket → ModelStats fl → AggregatorInner → AggregatorInner
  move_codex_bucket_stats from to s g = record g {
    agents = modify bytes_eq agent_codex (move_agent from to s) g.agents;
  }
