-- ===== src/Aggregator/Models.antt =====
-- Full and bare names of Claude's models, in src/aggregator.rs: a log drops the suffix in brackets
-- that the metrics send.
pub mod Merge
pub mod Prefix
pub mod Reserved
use otel_logger.Prelude.{
  ℕ, Option, none, some, List, [], ◌∷◌, ◌++◌, Bool, true, false, ◌&&◌, ◌||◌, ◌==◌, bytes_of,
  bytes_eq, if◌then◌else◌,
}
use otel_logger.Prelude.Maps.{Entries, lookup, remove, upsert, insert, modify, or_default}
use otel_logger.Otlp.{Text}
use otel_logger.Aggregator.Stats.{Float, ModelStats}
use otel_logger.Aggregator.Bucket.{Bucket, from_parts, key, escape_bucket_component}
use otel_logger.Aggregator.State.{
  BucketStats, AgentStats, AggregatorInner, from_bucket, add_stats, agent_claude,
}
use otel_logger.Aggregator.Claude.{bare_model}

abbrev pub provider_anthropic : Text
provider_anthropic = bytes_of "anthropic"

unfoldable pub is_empty_text : Text → Bool
is_empty_text [] = true
is_empty_text (c ∷ s) = false

unfoldable pub starts_with : Text → Text → Bool
starts_with s [] = true
starts_with [] (p ∷ ps) = false
starts_with (c ∷ s) (p ∷ ps) = c == p && starts_with s ps

unfoldable pub is_name : Text → Option Text → Bool
is_name full none = false
is_name full (some name) = bytes_eq name full

unfoldable pub is_present : Option (Unit {0}) → Bool
is_present none = false
is_present (some u) = true

abbrev pub bare_prefix : Text → Text
bare_prefix bare =
    escape_bucket_component provider_anthropic
    ++ (b'/' ∷ (escape_bucket_component bare ++ (b'/' ∷ [])))

module _ (fl : Float) where
  -- The keys behind the prefix. The source walks its sorted map from the prefix on, while a key
  -- starts with it; keys that start with a prefix stand together.
  unfoldable pub bare_keys : Text → Entries Text (BucketStats fl) → List Text
  bare_keys prefix [] = []
  bare_keys prefix ((k, v) ∷ m) =
      let rest = bare_keys prefix m in if starts_with k prefix then k ∷ rest else rest

  -- A round of the loop, with what `remove` found.
  unfoldable pub merge_bucket :
      Text
      → Text
      → Option (BucketStats fl)
      → Entries Text (BucketStats fl)
      → Entries Text (BucketStats fl)
  merge_bucket full k none m = m
  merge_bucket full k (some b) m =
      let full_bucket = from_parts b.provider full b.effort in
      upsert bytes_eq (key full_bucket) (from_bucket fl full_bucket) (add_stats fl b.stats)
        (remove bytes_eq k m)

  unfoldable pub merge_keys :
      Text → List Text → Entries Text (BucketStats fl) → Entries Text (BucketStats fl)
  merge_keys full [] m = m
  merge_keys full (k ∷ ks) m = merge_keys full ks (merge_bucket full k (lookup bytes_eq k m) m)

  unfoldable pub merge_bare_into_full : Text → Text → AgentStats fl → AgentStats fl
  merge_bare_into_full bare full a = record a {
    buckets = merge_keys full (bare_keys (bare_prefix bare) a.buckets) a.buckets;
  }

  -- `claude_metric_models.insert(full)`, for a name that is not empty.
  unfoldable pub note_model : Text → AggregatorInner fl → AggregatorInner fl
  note_model full g =
      if is_empty_text full
      then g
      else record g { claude_metric_models = insert bytes_eq full tt g.claude_metric_models }

  unfoldable pub note_itself : Text → AggregatorInner fl → AggregatorInner fl
  note_itself full g = if is_empty_text full then g else record g {
    claude_canonical_models = upsert bytes_eq full full (λ v. v) g.claude_canonical_models;
  }

  -- The end of `register_canonical_claude_model`.
  unfoldable pub promote : Text → Text → AggregatorInner fl → AggregatorInner fl
  promote bare full g = record g {
    claude_canonical_models = insert bytes_eq bare full g.claude_canonical_models;
    agents = modify bytes_eq agent_claude (merge_bare_into_full bare full) g.agents;
  }

  -- What is behind `claude_metric_models.insert`.
  unfoldable pub register_suffix : Text → Text → AggregatorInner fl → AggregatorInner fl
  register_suffix bare full g =
      if is_empty_text bare || bytes_eq bare full
      then note_itself full g
      else if is_present (lookup bytes_eq bare g.claude_metric_models)
      then g
      else if is_name full (lookup bytes_eq bare g.claude_canonical_models)
      then g
      else promote bare full g

  unfoldable pub register_canonical_claude_model : Text → AggregatorInner fl → AggregatorInner fl
  register_canonical_claude_model full g =
      register_suffix (bare_model full) full (note_model full g)

  unfoldable pub canonical_claude_model : AggregatorInner fl → Text → Text
  canonical_claude_model g raw =
      if is_present (lookup bytes_eq raw g.claude_metric_models)
      then raw
      else or_default raw (lookup bytes_eq raw g.claude_canonical_models)
