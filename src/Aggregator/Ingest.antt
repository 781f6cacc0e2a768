-- ===== src/Aggregator/Ingest.antt =====
-- `ingest_logs`, `ingest_traces` and `ingest_metrics` of src/aggregator.rs: what a request changes,
-- and how often it changes a total. `now` is the time of the call.
use otel_logger.Prelude.{
  ℕ, ◌+◌, Option, none, some, List, [], ◌∷◌, Bool, false, ◌||◌, ◌==◌, if◌then◌else◌, bytes_of,
  bytes_eq,
}
use otel_logger.Prelude.Maps.{lookup}
use otel_logger.Otlp.{
  Text, KeyValue, Entry, LogRecord, SpanEvent, Span, NumberDataPoint, HistogramDataPoint, Metric,
  MetricData, histogram_data, LogsRequest, TraceRequest, MetricsRequest,
}
use otel_logger.Aggregator.Stats.{Float, ModelStats, no_stats}
use otel_logger.Aggregator.Bucket.{Bucket, from_parts, non_empty}
use otel_logger.Aggregator.State.{
  AggregatorInner, CodexSession, CodexTokenSource, agent_claude, agent_codex, record_into,
}
use otel_logger.Aggregator.Claude.{record_claude_log_usage}
use otel_logger.Aggregator.Values.{
  service_claude, is_codex_service, is_delta_temporality, number_value_as_u64, histogram_sum_as_u64,
  service_name,
}
use otel_logger.Aggregator.Reports.{
  count_of, each, text_attr, extract_claude_api_request_meta, ingest_claude_token,
  ingest_claude_cost, each_sum,
}
use otel_logger.Aggregator.Codex.{
  extract_session_from_attrs, codex_provider, codex_effort, update_codex_session,
}
use otel_logger.Aggregator.Codex.Events.{
  otel_event_matches, extract_codex_conversation_starts, update_codex_effort_from_request_attrs,
  extract_codex_sse_response_completed, is_logs, record_sse, set_token_source,
}

-- Two handlers, one after the other.
abbrev pub both {ℓ} : {S : Type ℓ} → (S → ℕ × S) → (S → ℕ × S) → S → ℕ × S
both f h g = ((f g).0 + (h (f g).1).0, (h (f g).1).1)

abbrev pub skip {ℓ} : {S : Type ℓ} → S → ℕ × S
skip g = (0, g)

module _ (fl : Float) where
  open fl use {F64}

  abbrev pub Handler : Type 0
  Handler = AggregatorInner fl → ℕ × AggregatorInner fl

  -- The sessions.
  unfoldable pub with_session : Text → Option CodexSession → Handler
  with_session service none g = (0, g)
  with_session service (some session) g =
      let r = update_codex_session fl service session g in (count_of r.0, r.1)

  unfoldable pub codex_log : ℕ → Text → LogRecord F64 → Handler
  codex_log now service log =
      both (with_session service (extract_codex_conversation_starts fl log))
        (λ g. record_sse fl now (extract_codex_sse_response_completed fl service log g) g)

  unfoldable pub claude_log :
      ℕ → Handler → Option (Bucket × ModelStats fl × ModelStats fl) → Handler
  claude_log now otherwise none g = otherwise g
  claude_log now otherwise (some (bucket, request_stats, usage_stats)) g = (
    1,
    record_claude_log_usage fl now bucket usage_stats
        (record_into fl now agent_claude bucket request_stats g),
  )

  unfoldable pub ingest_log : ℕ → Text → LogRecord F64 → Handler
  ingest_log now service log g =
      let codex = if is_codex_service service then codex_log now service log else skip in
      if bytes_eq service service_claude
      then claude_log now codex (extract_claude_api_request_meta fl g log) g
      else codex g

  unfoldable pub ingest_logs : ℕ → LogsRequest F64 → Handler
  ingest_logs now req =
      each (λ r. each (each (ingest_log now (service_name fl r.resource))) r.body) req

  -- The spans.
  unfoldable pub ingest_span_event : Text → SpanEvent F64 → Handler
  ingest_span_event service ev =
      if otel_event_matches fl ev.name ev.attributes (bytes_of "codex.conversation_starts")
      then with_session service (extract_session_from_attrs ev.attributes)
      else skip

  unfoldable pub span_effort : Text → Span F64 → Handler
  span_effort service span g =
      let r = update_codex_effort_from_request_attrs fl service span.attributes g in
      if bytes_eq span.name (bytes_of "handle_responses") then (count_of r.0, r.1) else (0, g)

  unfoldable pub ingest_span : Text → Span F64 → Handler
  ingest_span service span =
      both (each (ingest_span_event service) span.events) (span_effort service span)

  -- The early return for a request with no Codex resource leaves out no other work.
  unfoldable pub has_codex : TraceRequest F64 → Bool
  has_codex [] = false
  has_codex (r ∷ rs) = is_codex_service (service_name fl r.resource) || has_codex rs

  unfoldable pub ingest_resource_spans : Entry F64 (List (List (Span F64))) → Handler
  ingest_resource_spans r =
      let service = service_name fl r.resource in
      if is_codex_service service then each (each (ingest_span service)) r.body else skip

  unfoldable pub ingest_traces : TraceRequest F64 → Handler
  unfolding has_codex
  ingest_traces req = if has_codex req then each ingest_resource_spans req else skip

  -- Codex's metrics.
  unfoldable pub codex_token_stats : Text → ℕ → Option (ModelStats fl)
  codex_token_stats typ value =
      if bytes_eq typ (bytes_of "input")
      then some (record (no_stats fl) { input_tokens = value })
      else if bytes_eq typ (bytes_of "output")
      then some (record (no_stats fl) { output_tokens = value })
      else if bytes_eq typ (bytes_of "cached_input")
      then some (record (no_stats fl) { cache_read_tokens = value })
      else if bytes_eq typ (bytes_of "cache_write_input")
      then some (record (no_stats fl) { cache_creation_tokens = value })
      else if bytes_eq typ (bytes_of "reasoning_output")
      then some (record (no_stats fl) { reasoning_output_tokens = value })
      else none

  unfoldable pub codex_bucket : Text → List (KeyValue F64) → AggregatorInner fl → Bucket
  codex_bucket service attrs g =
      from_parts (codex_provider fl g service) (text_attr fl attrs (bytes_of "model"))
        (codex_effort fl g service)

  -- What a data point with a value records; one with none is skipped.
  unfoldable pub record_codex :
      ℕ → Text → List (KeyValue F64) → ℕ → Option (ModelStats fl) → Handler
  record_codex now service attrs value none g = (0, g)
  record_codex now service attrs value (some stats) g =
      if value == 0
      then (0, g)
      else (1, record_into fl now agent_codex (codex_bucket service attrs g) stats g)

  -- The source of the model's tokens, behind a data point that was recorded.
  unfoldable pub with_source : Text → ℕ × AggregatorInner fl → ℕ × AggregatorInner fl
  with_source model (n, g) =
      (n, if n == 0 then g else set_token_source fl model CodexTokenSource.metrics g)

  unfoldable pub codex_token_point : ℕ → Text → HistogramDataPoint F64 → Handler
  codex_token_point now service dp g =
      let model = text_attr fl dp.attributes (bytes_of "model") in
      let value = histogram_sum_as_u64 fl dp in
      let stats = codex_token_stats (text_attr fl dp.attributes (bytes_of "token_type")) value in
      if is_logs fl (lookup bytes_eq (non_empty model) g.codex_token_sources)
      then (0, g)
      else with_source model (record_codex now service dp.attributes value stats g)

  unfoldable pub codex_turn_point : ℕ → Text → NumberDataPoint F64 → Handler
  codex_turn_point now service dp =
      let n = number_value_as_u64 fl dp in
      record_codex now service dp.attributes n (some (record (no_stats fl) { request_count = n }))

  unfoldable pub codex_duration_point : ℕ → Text → HistogramDataPoint F64 → Handler
  codex_duration_point now service dp =
      let ms = histogram_sum_as_u64 fl dp in
      record_codex now service dp.attributes ms (some (record (no_stats fl) { duration_ms = ms }))

  unfoldable pub each_histogram :
      (HistogramDataPoint F64 → Handler) → Option (MetricData F64) → Handler
  each_histogram handle (some (histogram_data temporality points)) g =
      if is_delta_temporality temporality then each handle points g else (0, g)
  each_histogram handle _ g = (0, g)

  unfoldable pub ingest_claude_metric : ℕ → Metric F64 → Handler
  ingest_claude_metric now metric =
      if bytes_eq metric.name (bytes_of "claude_code.token.usage")
      then ingest_claude_token fl now metric
      else if bytes_eq metric.name (bytes_of "claude_code.cost.usage")
      then ingest_claude_cost fl now metric
      else skip

  unfoldable pub ingest_codex_metric : ℕ → Text → Metric F64 → Handler
  ingest_codex_metric now service metric =
      if bytes_eq metric.name (bytes_of "codex.turn.token_usage")
      then each_histogram (codex_token_point now service) metric.data_of
      else if bytes_eq metric.name (bytes_of "codex.conversation.turn.count")
      then each_sum fl (codex_turn_point now service) metric.data_of
      else if bytes_eq metric.name (bytes_of "codex.turn.e2e_duration_ms")
      then each_histogram (codex_duration_point now service) metric.data_of
      else skip

  unfoldable pub ingest_metric : ℕ → Text → Metric F64 → Handler
  ingest_metric now service metric =
      if bytes_eq service service_claude
      then ingest_claude_metric now metric
      else if is_codex_service service
      then ingest_codex_metric now service metric
      else skip

  unfoldable pub ingest_metrics : ℕ → MetricsRequest F64 → Handler
  ingest_metrics now req =
      each (λ r. each (each (ingest_metric now (service_name fl r.resource))) r.body) req
