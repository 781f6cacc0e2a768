-- ===== src/Aggregator/Sound/Ingest.antt =====
-- Any run of requests keeps the aggregator sound.
use otel_logger.Prelude.{ℕ, ◌+◌, ◌≤◌, ◌≡◌, List, u64_max, arith, total}
use otel_logger.Otlp.{LogsRequest, TraceRequest, MetricsRequest}
use otel_logger.Aggregator.Stats.{Float, Counter, count}
use otel_logger.Aggregator.State.{
  AgentStats, AggregatorInner, agent_claude, agent_codex, empty_aggregator,
}
use otel_logger.Aggregator.State.Balance.{bucket_sum}
use otel_logger.Aggregator.Values.{service_name}
use otel_logger.Aggregator.Reports.{each}
use otel_logger.Aggregator.Ingest.{
  Handler, ingest_log, ingest_logs, ingest_traces, ingest_metric, ingest_metrics,
}
use otel_logger.Aggregator.Sound.{Budget, agent_of, IsSound, empty-IsSound}
use otel_logger.Aggregator.Sound.Reported.{log_weight, metric_weight}
use otel_logger.Aggregator.Sound.Handlers.{Keeps, each-Keeps}
use otel_logger.Aggregator.Sound.Logs.{ingest_log-Keeps}
use otel_logger.Aggregator.Sound.Spans.{ingest_traces-Keeps}
use otel_logger.Aggregator.Sound.Data.{ingest_metric-Keeps}

-- A request, with the time of its call.
pub data Request (F : Type 0) : Type 0 where
  logs : ℕ → LogsRequest F → Request F
  traces : TraceRequest F → Request F
  metrics : ℕ → MetricsRequest F → Request F

module _ (fl : Float) where
  open fl use {F64}

  unfoldable pub ingest : Request F64 → Handler fl
  ingest (logs now req) = ingest_logs fl now req
  ingest (traces req) = ingest_traces fl req
  ingest (metrics now req) = ingest_metrics fl now req

  -- What a request reports of a counter, by the services, the attributes and the names in it.
  unfoldable pub request_weight : Request F64 → Budget
  request_weight (logs now req) c =
      total
        (λ r.
          total (λ scope. total (λ log. log_weight fl (service_name fl r.resource) log c) scope)
            r.body)
        req
  request_weight (traces req) c = 0
  request_weight (metrics now req) c =
      total
        (λ r.
          total (λ scope. total (λ m. metric_weight fl (service_name fl r.resource) m c) scope)
            r.body)
        req

  -- The state after a run of requests, and what they report.
  abbrev pub ingest_all : List (Request F64) → AggregatorInner fl
  ingest_all reqs = (each ingest reqs (empty_aggregator fl)).1

  abbrev pub reported : List (Request F64) → Budget
  reported reqs c = total (λ r. request_weight r c) reqs

  ingest-Keeps : (req : Request F64) → Keeps fl (request_weight req) (ingest req)
  unfolding ingest request_weight ingest_logs ingest_metrics
  ingest-Keeps (logs now req) =
      each-Keeps fl
        (λ r c.
          total (λ scope. total (λ log. log_weight fl (service_name fl r.resource) log c) scope)
            r.body)
        (λ r. each (each (ingest_log fl now (service_name fl r.resource))) r.body)
        (λ r.
          each-Keeps fl
            (λ scope c. total (λ log. log_weight fl (service_name fl r.resource) log c) scope)
            (each (ingest_log fl now (service_name fl r.resource)))
            (each-Keeps fl (log_weight fl (service_name fl r.resource))
              (ingest_log fl now (service_name fl r.resource))
              (ingest_log-Keeps fl now (service_name fl r.resource)))
            r.body)
        req
  ingest-Keeps (traces req) = ingest_traces-Keeps fl req
  ingest-Keeps (metrics now req) =
      each-Keeps fl
        (λ r c.
          total (λ scope. total (λ m. metric_weight fl (service_name fl r.resource) m c) scope)
            r.body)
        (λ r. each (each (ingest_metric fl now (service_name fl r.resource))) r.body)
        (λ r.
          each-Keeps fl
            (λ scope c. total (λ m. metric_weight fl (service_name fl r.resource) m c) scope)
            (each (ingest_metric fl now (service_name fl r.resource)))
            (each-Keeps fl (metric_weight fl (service_name fl r.resource))
              (ingest_metric fl now (service_name fl r.resource))
              (ingest_metric-Keeps fl now (service_name fl r.resource)))
            r.body)
        req

  pub ingest_all-IsSound :
      (reqs : List (Request F64))
      → ((c : Counter) → reported reqs c ≤ u64_max)
      → IsSound fl (λ c. 0 + reported reqs c) (ingest_all reqs)
  ingest_all-IsSound reqs fits =
      each-Keeps fl request_weight ingest ingest-Keeps reqs (λ c. 0) (empty_aggregator fl)
        (λ c. omega (arith, fits c)) (empty-IsSound fl (λ c. 0))

  -- The total of an agent is the sum of its buckets, and no more than was reported.
  pub record IsExact (n : Budget) (a : AgentStats fl) : Type 0 where
    pub balanced : (c : Counter) → count fl c a.total ≡ bucket_sum fl c a.buckets
    pub reported_at_most : (c : Counter) → count fl c a.total ≤ n c

  -- After any run of log, trace and metric requests, in any order, from an empty aggregator,
  -- while what they report of each counter adds up to less than 2 ^ 64: the total of Claude Code
  -- and the total of Codex are each the sum of their buckets in every counter, whatever was taken
  -- back, merged or moved, and each is at most what was reported of that counter to both of them
  -- together. Reported is: by each api_request record of Claude Code one request and the
  -- attributes of the tokens and of the duration; by each finished response of Codex the
  -- attributes of the tokens; by the data points of sums and histograms of deltas of each agent's
  -- metrics their values, for the counter of their type or metric only; and nothing by another
  -- service.
  pub ingest_all-IsExact :
      (reqs : List (Request F64))
      → ((c : Counter) → reported reqs c ≤ u64_max)
      → IsExact (reported reqs) (agent_of fl agent_claude (ingest_all reqs))
        × IsExact (reported reqs) (agent_of fl agent_codex (ingest_all reqs))
  ingest_all-IsExact reqs fits =
      let s = ingest_all-IsSound reqs fits in
      (
        record {
          balanced = s.claude.balanced.equal;
          reported_at_most = λ c. omega (arith, s.claude_le c);
        },
        record {
          balanced = s.codex.balanced.equal;
          reported_at_most = λ c. omega (arith, s.codex_le c);
        },
      )
