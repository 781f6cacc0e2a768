-- ===== src/Aggregator/Tests/Requests.antt =====
-- A run of requests: Claude Code's metrics and logs, and a finished response of Codex whose session
-- is known only later.
use otel_logger.Prelude.{ℕ, ◌≤◌, none, some, List, [], ◌∷◌, bytes_of, bytes_eq, u64_max, arith}
use otel_logger.Prelude.Int.{pos}
use otel_logger.Otlp.{
  Text, KeyValue, Entry, LogRecord, Span, SpanEvent, Metric, OtlpValue, string_value, int_value,
  as_int, sum_data,
}
use otel_logger.Aggregator.Stats.{Counter}
use otel_logger.Aggregator.Codex.Events.{is_response_completed}
use otel_logger.Aggregator.Reports.{is_api_request, text_attr}
use otel_logger.Otlp.{string_attr, value_of, find_attr, any_value}
use otel_logger.Aggregator.Values.{
  service_name, is_delta_temporality, is_codex_service, u64_attr, int_attr, int_of,
  number_value_as_u64, u64_of_number, no_recorded_value,
}
use otel_logger.Aggregator.State.{agent_claude, agent_codex}
use otel_logger.Aggregator.Sound.{agent_of}
use otel_logger.Aggregator.Sound.Ingest.{
  Request, logs, traces, metrics, ingest_all, reported, request_weight, IsExact, ingest_all-IsExact,
}
use otel_logger.Aggregator.Sound.Reported.{
  log_weight, claude_log_weight, codex_log_weight, metric_weight, claude_metric_weight,
  codex_metric_weight, sum_weight, claude_token_weight, claude_type, of_type,
}
use otel_logger.Aggregator.Tests.{amounts}

abbrev attr : Text → OtlpValue ℕ → KeyValue ℕ
attr k v = record { key = k; value = some (record { value = some v }) }

abbrev text : Text → Text → KeyValue ℕ
text k v = attr k (string_value v)

abbrev of_service : {P : Type 0} → Text → P → Entry ℕ P
of_service name body = record {
  resource = some (record { attributes = text (bytes_of "service.name") name ∷ [] });
  body = body;
}

abbrev token_metric : Metric ℕ
token_metric = record {
  name = bytes_of "claude_code.token.usage";
  data_of = some (
      sum_data (pos 1) (
        record {
          attributes =
              text (bytes_of "model") (bytes_of "opus")
              ∷ text (bytes_of "type") (bytes_of "input")
              ∷ [];
          flags = 0;
          value = some (as_int (pos 30));
        }
        ∷ []));
}

abbrev api_request : LogRecord ℕ
api_request = record {
  body = some (record { value = some (string_value (bytes_of "claude_code.api_request")) });
  attributes =
      text (bytes_of "model") (bytes_of "opus")
      ∷ attr (bytes_of "input_tokens") (int_value (pos 40))
      ∷ [];
  event_name = [];
}

abbrev completed : LogRecord ℕ
completed = record {
  body = none;
  attributes =
      text (bytes_of "event.name") (bytes_of "codex.sse_event")
      ∷ text (bytes_of "event.kind") (bytes_of "response.completed")
      ∷ text (bytes_of "conversation.id") (bytes_of "c1")
      ∷ text (bytes_of "model") (bytes_of "gpt")
      ∷ attr (bytes_of "output_token_count") (int_value (pos 5))
      ∷ [];
  event_name = [];
}

abbrev started : SpanEvent ℕ
started = record {
  name = bytes_of "codex.conversation_starts";
  attributes =
      text (bytes_of "conversation.id") (bytes_of "c1")
      ∷ text (bytes_of "provider_name") (bytes_of "azure")
      ∷ text (bytes_of "reasoning_effort") (bytes_of "high")
      ∷ [];
}

abbrev turn : Span ℕ
turn = record { name = bytes_of "turn"; attributes = []; events = started ∷ [] }

abbrev day : List (Request ℕ)
day =
    metrics 1 (of_service (bytes_of "claude-code") ((token_metric ∷ []) ∷ []) ∷ [])
    ∷ logs 2 (of_service (bytes_of "claude-code") ((api_request ∷ []) ∷ []) ∷ [])
    ∷ logs 3 (of_service (bytes_of "codex_cli_rs") ((completed ∷ []) ∷ []) ∷ [])
    ∷ traces (of_service (bytes_of "codex_cli_rs") ((turn ∷ []) ∷ []) ∷ [])
    ∷ []

day_fits : (c : Counter) → reported amounts day c ≤ u64_max
unfolding request_weight log_weight claude_log_weight codex_log_weight metric_weight
    claude_metric_weight codex_metric_weight sum_weight claude_token_weight claude_type of_type
    u64_attr int_attr int_of value_of find_attr any_value bytes_eq number_value_as_u64 u64_of_number
    no_recorded_value service_name string_attr is_delta_temporality is_codex_service is_api_request
    is_response_completed text_attr
day_fits Counter.requests = omega arith
day_fits _ = omega arith

ingest_all-IsExact_example :
    IsExact amounts (reported amounts day) (agent_of amounts agent_claude (ingest_all amounts day))
    × IsExact amounts (reported amounts day) (agent_of amounts agent_codex (ingest_all amounts day))
ingest_all-IsExact_example = ingest_all-IsExact amounts day day_fits
