-- ===== src/Aggregator/Sound/Reported.antt =====
-- What records and data points report of each counter, independently of what the aggregator does.
use otel_logger.Prelude.{ℕ, ◌+◌, Option, none, some, Bool, true, false, bytes_of, bytes_eq, total}
use otel_logger.Otlp.{
  Text, LogRecord, NumberDataPoint, HistogramDataPoint, Metric, MetricData, sum_data,
  histogram_data,
}
use otel_logger.Aggregator.Stats.{Float, Counter}
use otel_logger.Aggregator.Values.{
  service_claude, is_codex_service, is_delta_temporality, u64_attr, number_value_as_u64,
  histogram_sum_as_u64,
}
use otel_logger.Aggregator.Reports.{Attrs, text_attr, is_api_request}
use otel_logger.Aggregator.Codex.Events.{is_response_completed}
use otel_logger.Aggregator.Sound.{Budget}

abbrev pub only_if : Bool → ℕ → ℕ
only_if true v = v
only_if false v = 0

-- The type of the tokens that a counter counts.
unfoldable pub claude_type : Counter → Option Text
claude_type Counter.input = some (bytes_of "input")
claude_type Counter.output = some (bytes_of "output")
claude_type Counter.cache_read = some (bytes_of "cacheRead")
claude_type Counter.cache_creation = some (bytes_of "cacheCreation")
claude_type _ = none

unfoldable pub codex_type : Counter → Option Text
codex_type Counter.input = some (bytes_of "input")
codex_type Counter.output = some (bytes_of "output")
codex_type Counter.cache_read = some (bytes_of "cached_input")
codex_type Counter.cache_creation = some (bytes_of "cache_write_input")
codex_type Counter.reasoning = some (bytes_of "reasoning_output")
codex_type _ = none

unfoldable pub of_type : Option Text → Text → ℕ → ℕ
of_type none typ v = 0
of_type (some t) typ v = only_if (bytes_eq typ t) v

unfoldable pub of_requests : Counter → ℕ → ℕ
of_requests Counter.requests v = v
of_requests _ v = 0

unfoldable pub of_duration : Counter → ℕ → ℕ
of_duration Counter.duration v = v
of_duration _ v = 0

module _ (fl : Float) where
  open fl use {F64}

  -- The attribute of a log record of Claude Code, and of Codex, that a counter adds.
  unfoldable pub claude_log_weight : Attrs fl → Budget
  claude_log_weight attrs Counter.requests = 1
  claude_log_weight attrs Counter.input = u64_attr fl attrs (bytes_of "input_tokens")
  claude_log_weight attrs Counter.output = u64_attr fl attrs (bytes_of "output_tokens")
  claude_log_weight attrs Counter.cache_read = u64_attr fl attrs (bytes_of "cache_read_tokens")
  claude_log_weight attrs Counter.cache_creation =
      u64_attr fl attrs (bytes_of "cache_creation_tokens")
  claude_log_weight attrs Counter.reasoning = 0
  claude_log_weight attrs Counter.duration = u64_attr fl attrs (bytes_of "duration_ms")

  unfoldable pub codex_log_weight : Attrs fl → Budget
  codex_log_weight attrs Counter.input = u64_attr fl attrs (bytes_of "input_token_count")
  codex_log_weight attrs Counter.output = u64_attr fl attrs (bytes_of "output_token_count")
  codex_log_weight attrs Counter.cache_read = u64_attr fl attrs (bytes_of "cached_token_count")
  codex_log_weight attrs Counter.cache_creation =
      u64_attr fl attrs (bytes_of "cache_write_token_count")
  codex_log_weight attrs Counter.reasoning = u64_attr fl attrs (bytes_of "reasoning_token_count")
  codex_log_weight attrs _ = 0

  -- A request of Claude Code's API, or a finished response of Codex.
  unfoldable pub log_weight : Text → LogRecord F64 → Budget
  log_weight service log c =
      only_if (bytes_eq service service_claude)
        (only_if (is_api_request fl log) (claude_log_weight log.attributes c))
      + only_if (is_codex_service service)
          (only_if (is_response_completed fl log.attributes) (codex_log_weight log.attributes c))

  unfoldable pub claude_token_weight : NumberDataPoint F64 → Budget
  claude_token_weight dp c =
      of_type (claude_type c) (text_attr fl dp.attributes (bytes_of "type"))
        (number_value_as_u64 fl dp)

  unfoldable pub codex_token_weight : HistogramDataPoint F64 → Budget
  codex_token_weight dp c =
      of_type (codex_type c) (text_attr fl dp.attributes (bytes_of "token_type"))
        (histogram_sum_as_u64 fl dp)

  unfoldable pub codex_turn_weight : NumberDataPoint F64 → Budget
  codex_turn_weight dp c = of_requests c (number_value_as_u64 fl dp)

  unfoldable pub codex_duration_weight : HistogramDataPoint F64 → Budget
  codex_duration_weight dp c = of_duration c (histogram_sum_as_u64 fl dp)

  -- The data points of a sum, or of a histogram, of deltas.
  unfoldable pub sum_weight : (NumberDataPoint F64 → Budget) → Option (MetricData F64) → Budget
  sum_weight w (some (sum_data t points)) c =
      only_if (is_delta_temporality t) (total (λ dp. w dp c) points)
  sum_weight w _ c = 0

  unfoldable pub histogram_weight :
      (HistogramDataPoint F64 → Budget) → Option (MetricData F64) → Budget
  histogram_weight w (some (histogram_data t points)) c =
      only_if (is_delta_temporality t) (total (λ dp. w dp c) points)
  histogram_weight w _ c = 0

  unfoldable pub claude_metric_weight : Metric F64 → Budget
  claude_metric_weight m c =
      only_if (bytes_eq m.name (bytes_of "claude_code.token.usage"))
        (sum_weight claude_token_weight m.data_of c)

  unfoldable pub codex_metric_weight : Metric F64 → Budget
  codex_metric_weight m c =
      only_if (bytes_eq m.name (bytes_of "codex.turn.token_usage"))
        (histogram_weight codex_token_weight m.data_of c)
      + (only_if (bytes_eq m.name (bytes_of "codex.conversation.turn.count"))
            (sum_weight codex_turn_weight m.data_of c)
          + only_if (bytes_eq m.name (bytes_of "codex.turn.e2e_duration_ms"))
              (histogram_weight codex_duration_weight m.data_of c))

  unfoldable pub metric_weight : Text → Metric F64 → Budget
  metric_weight service m c =
      only_if (bytes_eq service service_claude) (claude_metric_weight m c)
      + only_if (is_codex_service service) (codex_metric_weight m c)
