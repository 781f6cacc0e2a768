-- ===== src/Aggregator/Reports.antt =====
-- What Claude Code's logs and metrics report, in src/aggregator.rs. `now` is the time of the call.
use otel_logger.Prelude.{
  ℕ, ◌+◌, Option, none, some, List, [], ◌∷◌, Bool, true, false, if◌then◌else◌, bytes_of, bytes_eq,
}
use otel_logger.Prelude.Int.{pos, max_zero}
use otel_logger.Prelude.Maps.{or_default}
use otel_logger.Otlp.{
  Text, AnyValue, any_value, as_string, KeyValue, string_attr, LogRecord, NumberDataPoint, Metric,
  MetricData, sum_data,
}
use otel_logger.Aggregator.Stats.{Float, ModelStats, no_stats}
use otel_logger.Aggregator.Bucket.{Bucket, from_parts, non_empty}
use otel_logger.Aggregator.State.{AggregatorInner}
use otel_logger.Aggregator.Claude.{record_claude_metric_usage}
use otel_logger.Aggregator.Models.{
  provider_anthropic, canonical_claude_model, register_canonical_claude_model,
}
use otel_logger.Aggregator.Values.{
  is_text, int_attr, u64_attr, f64_attr, is_delta_temporality, number_value_as_u64,
  number_value_as_f64,
}

abbrev pub count_of : Bool → ℕ
count_of true = 1
count_of false = 0

-- A handler for each item of a list, one after another, with the sum of what they count.
module _ {A S : Type 0} (handle : A → S → ℕ × S) where
  unfoldable pub each : List A → S → ℕ × S
  each [] g = (0, g)
  each (x ∷ xs) g = let r = handle x g in let rest = each xs r.1 in (r.0 + rest.0, rest.1)

module _ (fl : Float) where
  open fl use {F64, zero, greater}

  abbrev pub Attrs : Type 0
  Attrs = List (KeyValue F64)

  unfoldable pub body_text : Option (AnyValue F64) → Option Text
  body_text body = as_string (any_value body)

  unfoldable pub text_attr : Attrs → Text → Text
  text_attr attrs k = or_default [] (string_attr attrs k)

  unfoldable pub claude_request_stats : Attrs → ModelStats fl
  claude_request_stats attrs = record (no_stats fl) {
    request_count = 1;
    duration_ms = max_zero (or_default (pos 0) (int_attr fl attrs (bytes_of "duration_ms")));
  }

  unfoldable pub claude_usage_stats : Attrs → ModelStats fl
  claude_usage_stats attrs = record (no_stats fl) {
    input_tokens = u64_attr fl attrs (bytes_of "input_tokens");
    output_tokens = u64_attr fl attrs (bytes_of "output_tokens");
    cache_read_tokens = u64_attr fl attrs (bytes_of "cache_read_tokens");
    cache_creation_tokens = u64_attr fl attrs (bytes_of "cache_creation_tokens");
    cost_usd = greater (or_default zero (f64_attr fl attrs (bytes_of "cost_usd"))) zero;
  }

  unfoldable pub is_api_request : LogRecord F64 → Bool
  unfolding body_text is_text
  is_api_request log = is_text (bytes_of "claude_code.api_request") (body_text log.body)

  unfoldable pub extract_claude_api_request_meta :
      AggregatorInner fl → LogRecord F64 → Option (Bucket × ModelStats fl × ModelStats fl)
  extract_claude_api_request_meta g log =
      if is_api_request log
      then some (
        from_parts provider_anthropic
            (canonical_claude_model fl g (text_attr log.attributes (bytes_of "model")))
            (text_attr log.attributes (bytes_of "effort")),
        claude_request_stats log.attributes,
        claude_usage_stats log.attributes,
      )
      else none

  -- `claude_metric_model`: the model, and its registration.
  unfoldable pub metric_model : Attrs → Text
  metric_model attrs = non_empty (text_attr attrs (bytes_of "model"))

  unfoldable pub claude_metric_model : Attrs → AggregatorInner fl → AggregatorInner fl
  claude_metric_model attrs g = register_canonical_claude_model fl (metric_model attrs) g

  -- `match typ`
  unfoldable pub claude_token_stats : Text → ℕ → Option (ModelStats fl)
  claude_token_stats typ value =
      if bytes_eq typ (bytes_of "input")
      then some (record (no_stats fl) { input_tokens = value })
      else if bytes_eq typ (bytes_of "output")
      then some (record (no_stats fl) { output_tokens = value })
      else if bytes_eq typ (bytes_of "cacheRead")
      then some (record (no_stats fl) { cache_read_tokens = value })
      else if bytes_eq typ (bytes_of "cacheCreation")
      then some (record (no_stats fl) { cache_creation_tokens = value })
      else none

  unfoldable pub metric_bucket : Attrs → Bucket
  metric_bucket attrs =
      from_parts provider_anthropic (metric_model attrs) (text_attr attrs (bytes_of "effort"))

  unfoldable pub count_metric :
      ℕ → Attrs → Option (ModelStats fl) → AggregatorInner fl → ℕ × AggregatorInner fl
  count_metric now attrs none g = (0, g)
  count_metric now attrs (some stats) g =
      let r = record_claude_metric_usage fl now (metric_bucket attrs) stats g in (count_of r.0, r.1)

  unfoldable pub claude_token_point :
      ℕ → NumberDataPoint F64 → AggregatorInner fl → ℕ × AggregatorInner fl
  claude_token_point now dp g =
      count_metric now dp.attributes
        (claude_token_stats (text_attr dp.attributes (bytes_of "type")) (number_value_as_u64 fl dp))
        (claude_metric_model dp.attributes g)

  unfoldable pub claude_cost_point :
      ℕ → NumberDataPoint F64 → AggregatorInner fl → ℕ × AggregatorInner fl
  claude_cost_point now dp g =
      count_metric now dp.attributes
        (some (record (no_stats fl) { cost_usd = number_value_as_f64 fl dp }))
        (claude_metric_model dp.attributes g)

  -- The data points of a metric that is a sum of deltas.
  unfoldable pub each_sum :
      (NumberDataPoint F64 → AggregatorInner fl → ℕ × AggregatorInner fl)
      → Option (MetricData F64)
      → AggregatorInner fl
      → ℕ × AggregatorInner fl
  each_sum handle (some (sum_data temporality points)) g =
      if is_delta_temporality temporality then each handle points g else (0, g)
  each_sum handle _ g = (0, g)

  unfoldable pub ingest_claude_token : ℕ → Metric F64 → AggregatorInner fl → ℕ × AggregatorInner fl
  ingest_claude_token now metric g = each_sum (claude_token_point now) metric.data_of g

  unfoldable pub ingest_claude_cost : ℕ → Metric F64 → AggregatorInner fl → ℕ × AggregatorInner fl
  ingest_claude_cost now metric g = each_sum (claude_cost_point now) metric.data_of g
