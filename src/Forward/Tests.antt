-- ===== src/Forward/Tests.antt =====
-- Runs of the router and of a worker.
use otel_logger.Prelude.{
  ℕ, zero, suc, ◌+◌, ◌≤◌, ◌<◌, ◌≡◌, refl, some, List, [], ◌∷◌, Bool, true, false, ok, bytes_of,
  bytes_eq, total, arith, ◌⊎◌,
}
use otel_logger.Otlp.{Entry, Text, string_value}
use otel_logger.Prelude.{Option}
use otel_logger.Prelude.Int.{pos}
use otel_logger.Forward.Client.{RpcAny, RpcRetryInfo, Code, grpc_status, retry_delay}
use otel_logger.Forward.Client.Delays.{IsShort, retry_delay-IsShort}
use otel_logger.Channel.{queues}
use otel_logger.Forward.Router.{
  ProxyRoute, TelemetryRecord, of_logs, logs, RouteLane, filter_entries, matcher_of, non_empty,
  check_services, check_from, check_names,
}
use otel_logger.Forward.Router.Matching.{named_entries, filter_entries_exact, one_route, contains}
use otel_logger.Forward.Router.Delivery.{notify_lane_accounts, Offered, Skipped}
use otel_logger.Forward.Worker.{
  Round, cancelled_during, succeeded, failed, sent, send_with_retry, Request, Turn, job,
  RouteMetrics, worker, requests_of,
}
use otel_logger.Forward.Worker.Retries.{
  send_with_retry_sent, send_with_retry_bounds, IsRetried, ArePauses,
}
use otel_logger.Forward.Worker.Accounts.{worker_accounts, accounted, due}

abbrev route_of : Text → Text → ProxyRoute
route_of name service = record { name = name; service_names = service ∷ []; signals = logs ∷ [] }

abbrev routes : List ProxyRoute
routes =
    route_of (bytes_of "anthropic") (bytes_of "claude-code")
    ∷ route_of (bytes_of "openai") (bytes_of "codex_exec")
    ∷ []

abbrev entry_of : Text → Entry ℕ ℕ
entry_of service = record {
  resource = some (record {
    attributes =
        record {
          key = bytes_of "service.name";
          value = some (record { value = some (string_value service) });
        }
        ∷ [];
  });
  body = 0;
}

abbrev entries : List (Entry ℕ ℕ)
entries = entry_of (bytes_of "codex_exec") ∷ entry_of (bytes_of "claude-code") ∷ entry_of [] ∷ []

routes_accepted : (seen : Text → Bool) × (check_services routes ≡ ok seen)
unfolding check_services check_from check_names bytes_eq
routes_accepted = (_, refl)

abbrev openai : ProxyRoute
openai = route_of (bytes_of "openai") (bytes_of "codex_exec")

filter_entries_exact_example :
    filter_entries openai.service_names (matcher_of routes) openai entries
    ≡ non_empty (named_entries openai entries)
filter_entries_exact_example =
    filter_entries_exact routes routes_accepted.0 1 openai entries routes_accepted.1 refl

one_route_example : ◌≡◌ {A = ℕ} 1 1
unfolding contains bytes_eq
one_route_example =
    one_route routes routes_accepted.0 1 1 openai openai (bytes_of "codex_exec") routes_accepted.1
      refl refl refl refl

-- The first attempt is answered with a delay, the second succeeds.
abbrev flaky : ℕ → Round
flaky zero = failed (some 1000) false
flaky (suc n) = succeeded

flaky-IsRetried : (j : ℕ) → j < 1 → IsRetried (flaky j)
flaky-IsRetried zero b = tt
flaky-IsRetried (suc j) b = absurd (omega arith)

send_with_retry_sent_example :
    ((send_with_retry 8 flaky).result ≡ sent) × ((send_with_retry 8 flaky).exports ≡ 1 + 1)
send_with_retry_sent_example = send_with_retry_sent 8 flaky 1 (omega arith) flaky-IsRetried refl

-- The shutdown cuts the second request's sending, and the third stays in the queue.
abbrev cut : ℕ → Round
cut n = cancelled_during

abbrev request_of : (ℕ → Round) → Request
request_of env = record { is_empty = false; env = env; late = false; drain_env = flaky }

abbrev turns : List Turn
turns = job (request_of flaky) ∷ job (request_of cut) ∷ job (request_of flaky) ∷ []

abbrev no_metrics : RouteMetrics
no_metrics = record { sent_total = 0; failed_total = 0; dropped_total = 0 }

worker_accounts_example :
    accounted (worker 8 turns no_metrics) ≡ accounted no_metrics + total due (requests_of turns)
worker_accounts_example = worker_accounts 8 turns no_metrics (unfold requests_of in omega arith)

abbrev lane : RouteLane (queues {A = TelemetryRecord ℕ ℕ ℕ ℕ})
lane = record {
  route = openai;
  sender = record { items = []; cap = 0; shut = false };
  dropped_total = 0;
}

send_with_retry_bounds_example :
    ((send_with_retry 8 flaky).exports ≤ 8 + 1) × ArePauses flaky 0 (send_with_retry 8 flaky).pauses
send_with_retry_bounds_example = send_with_retry_bounds 8 flaky

abbrev batch : TelemetryRecord ℕ ℕ ℕ ℕ
batch = of_logs entries

notify_lane_accounts_example :
    Offered queues batch (matcher_of routes) lane ⊎ Skipped queues batch (matcher_of routes) lane
notify_lane_accounts_example = notify_lane_accounts queues batch (matcher_of routes) lane

-- Details of one entry, that asks for two seconds.
abbrev one_detail : List ℕ → Option (List RpcAny)
one_detail bytes =
    some (
      record { type_url = bytes_of "type.googleapis.com/google.rpc.RetryInfo"; value = bytes } ∷ [])

abbrev two_seconds : List ℕ → Option RpcRetryInfo
two_seconds bytes = some (record { retry_delay = some (record { seconds = pos 2; nanos = pos 0 }) })

abbrev always : ℕ → Bool
always d = true

retry_delay-IsShort_example :
    IsShort always (
      retry_delay one_detail two_seconds always
        (grpc_status Code.resource_exhausted (0 ∷ []) false))
retry_delay-IsShort_example =
    retry_delay-IsShort one_detail two_seconds always Code.resource_exhausted (0 ∷ []) false
