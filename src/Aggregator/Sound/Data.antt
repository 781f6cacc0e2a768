-- ===== src/Aggregator/Sound/Data.antt =====
-- Metrics keep the aggregator sound.
use otel_logger.Prelude.{
  ℕ, ◌+◌, ◌≤◌, ◌≡◌, refl, arith, List, [], ◌∷◌, Option, none, some, bytes_of, bytes_eq, Bool-cases,
  inl, inr, total,
}
use otel_logger.Otlp.{
  Text, NumberDataPoint, HistogramDataPoint, Metric, MetricData, sum_data, histogram_data,
  other_data,
}
use otel_logger.Aggregator.Stats.{Float, Counter}
use otel_logger.Aggregator.Values.{service_claude, is_codex_service, is_delta_temporality}
use otel_logger.Aggregator.Reports.{
  claude_token_point, claude_cost_point, each_sum, ingest_claude_token, ingest_claude_cost,
}
use otel_logger.Aggregator.Ingest.{
  skip, Handler, codex_token_point, codex_turn_point, codex_duration_point, each_histogram,
  ingest_claude_metric, ingest_codex_metric, ingest_metric,
}
use otel_logger.Aggregator.Sound.{Budget}
use otel_logger.Aggregator.Sound.Reported.{
  only_if, claude_token_weight, codex_token_weight, codex_turn_weight, codex_duration_weight,
  sum_weight, histogram_weight, claude_metric_weight, codex_metric_weight, metric_weight,
}
use otel_logger.Aggregator.Sound.Handlers.{
  Keeps, Keeps-more, skip-Keeps, each-Keeps, if-Keeps, if_either-Keeps,
}
use otel_logger.Aggregator.Sound.Points.{
  claude_token_point-Keeps, claude_cost_point-Keeps, codex_token_point-Keeps,
  codex_turn_point-Keeps, codex_duration_point-Keeps,
}

module _ (fl : Float) where
  open fl use {F64}

  each_sum-Keeps :
      (w : NumberDataPoint F64 → Budget) (handle : NumberDataPoint F64 → Handler fl)
      → ((dp : NumberDataPoint F64) → Keeps fl (w dp) (handle dp))
      → (data_of : Option (MetricData F64))
      → Keeps fl (sum_weight fl w data_of) (each_sum fl handle data_of)
  unfolding each_sum sum_weight
  each_sum-Keeps w handle k (some (sum_data t points)) n g fits h =
      elim (Bool-cases (is_delta_temporality t)) [
        | inl e ↦ rw e (each-Keeps fl w handle k points n g (rw e at fits) h)
        | inr e ↦ rw e (skip-Keeps fl (λ c. 0) n g (rw e at fits) h)
      ]
  each_sum-Keeps w handle k (some (histogram_data t points)) n g fits h =
      skip-Keeps fl (λ c. 0) n g fits h
  each_sum-Keeps w handle k (some other_data) n g fits h = skip-Keeps fl (λ c. 0) n g fits h
  each_sum-Keeps w handle k none n g fits h = skip-Keeps fl (λ c. 0) n g fits h

  each_histogram-Keeps :
      (w : HistogramDataPoint F64 → Budget) (handle : HistogramDataPoint F64 → Handler fl)
      → ((dp : HistogramDataPoint F64) → Keeps fl (w dp) (handle dp))
      → (data_of : Option (MetricData F64))
      → Keeps fl (histogram_weight fl w data_of) (each_histogram fl handle data_of)
  unfolding each_histogram histogram_weight
  each_histogram-Keeps w handle k (some (histogram_data t points)) n g fits h =
      elim (Bool-cases (is_delta_temporality t)) [
        | inl e ↦ rw e (each-Keeps fl w handle k points n g (rw e at fits) h)
        | inr e ↦ rw e (skip-Keeps fl (λ c. 0) n g (rw e at fits) h)
      ]
  each_histogram-Keeps w handle k (some (sum_data t points)) n g fits h =
      skip-Keeps fl (λ c. 0) n g fits h
  each_histogram-Keeps w handle k (some other_data) n g fits h = skip-Keeps fl (λ c. 0) n g fits h
  each_histogram-Keeps w handle k none n g fits h = skip-Keeps fl (λ c. 0) n g fits h

  none_total : {A : Type 0} (xs : List A) → total (λ _. 0) xs ≡ 0
  none_total [] = refl
  none_total (x ∷ xs) = omega (arith, none_total xs)

  no_weight :
      (data_of : Option (MetricData F64)) (c : Counter) → sum_weight fl (λ dp c. 0) data_of c ≤ 0
  unfolding sum_weight
  no_weight (some (sum_data t points)) c = ground (arith, none_total points)
  no_weight (some (histogram_data t points)) c = omega arith
  no_weight (some other_data) c = omega arith
  no_weight none c = omega arith

  ingest_claude_metric-Keeps :
      (now : ℕ) (metric : Metric F64)
      → Keeps fl (claude_metric_weight fl metric) (ingest_claude_metric fl now metric)
  unfolding ingest_claude_metric ingest_claude_token ingest_claude_cost claude_metric_weight
  ingest_claude_metric-Keeps now metric =
      let tokens : Budget = sum_weight fl (claude_token_weight fl) metric.data_of in
      let named = bytes_eq metric.name (bytes_of "claude_code.token.usage") in
      Keeps-more fl (λ c. only_if named (tokens c) + 0) (λ c. only_if named (tokens c))
        (ingest_claude_metric fl now metric) (λ c. omega arith)
        (if_either-Keeps fl tokens (λ c. 0) named (ingest_claude_token fl now metric) _
          (each_sum-Keeps (claude_token_weight fl) (claude_token_point fl now)
            (claude_token_point-Keeps fl now) metric.data_of)
          (if-Keeps fl (λ c. 0) (bytes_eq metric.name (bytes_of "claude_code.cost.usage"))
            (ingest_claude_cost fl now metric) skip (cost_metric-Keeps now metric.data_of)
            (skip-Keeps fl (λ c. 0))))
    where
      cost_metric-Keeps :
          (now : ℕ) (data_of : Option (MetricData F64))
          → Keeps fl (λ c. 0) (each_sum fl (claude_cost_point fl now) data_of)
      cost_metric-Keeps now data_of =
          Keeps-more fl (sum_weight fl (λ dp c. 0) data_of) (λ c. 0)
            (each_sum fl (claude_cost_point fl now) data_of) (λ c. no_weight data_of c)
            (each_sum-Keeps (λ dp c. 0) (claude_cost_point fl now) (claude_cost_point-Keeps fl now)
              data_of)

  ingest_codex_metric-Keeps :
      (now : ℕ) (service : Text) (metric : Metric F64)
      → Keeps fl (codex_metric_weight fl metric) (ingest_codex_metric fl now service metric)
  unfolding ingest_codex_metric codex_metric_weight
  ingest_codex_metric-Keeps now service metric =
      let d = metric.data_of in
      let tokens : Budget = histogram_weight fl (codex_token_weight fl) d in
      let turns : Budget = sum_weight fl (codex_turn_weight fl) d in
      let times : Budget = histogram_weight fl (codex_duration_weight fl) d in
      let named_1 = bytes_eq metric.name (bytes_of "codex.turn.token_usage") in
      let named_2 = bytes_eq metric.name (bytes_of "codex.conversation.turn.count") in
      let named_3 = bytes_eq metric.name (bytes_of "codex.turn.e2e_duration_ms") in
      Keeps-more fl
        (λ c.
          only_if named_1 (tokens c)
          + (only_if named_2 (turns c) + (only_if named_3 (times c) + 0)))
        (λ c. only_if named_1 (tokens c) + (only_if named_2 (turns c) + only_if named_3 (times c)))
        (ingest_codex_metric fl now service metric) (λ c. omega arith)
        (if_either-Keeps fl tokens
          (λ c. only_if named_2 (turns c) + (only_if named_3 (times c) + 0)) named_1
          (each_histogram fl (codex_token_point fl now service) d) _
          (each_histogram-Keeps (codex_token_weight fl) (codex_token_point fl now service)
            (codex_token_point-Keeps fl now service) d)
          (if_either-Keeps fl turns (λ c. only_if named_3 (times c) + 0) named_2
            (each_sum fl (codex_turn_point fl now service) d) _
            (each_sum-Keeps (codex_turn_weight fl) (codex_turn_point fl now service)
              (codex_turn_point-Keeps fl now service) d)
            (if_either-Keeps fl times (λ c. 0) named_3
              (each_histogram fl (codex_duration_point fl now service) d) skip
              (each_histogram-Keeps (codex_duration_weight fl) (codex_duration_point fl now service)
                (codex_duration_point-Keeps fl now service) d)
              (skip-Keeps fl (λ c. 0)))))

  pub ingest_metric-Keeps :
      (now : ℕ) (service : Text) (metric : Metric F64)
      → Keeps fl (metric_weight fl service metric) (ingest_metric fl now service metric)
  unfolding ingest_metric metric_weight
  ingest_metric-Keeps now service metric =
      let claude = claude_metric_weight fl metric in
      let codex = codex_metric_weight fl metric in
      let is_codex = is_codex_service service in
      Keeps-more fl
        (λ c.
          only_if (bytes_eq service service_claude) (claude c) + (only_if is_codex (codex c) + 0))
        (λ c. only_if (bytes_eq service service_claude) (claude c) + only_if is_codex (codex c))
        (ingest_metric fl now service metric) (λ c. omega arith)
        (if_either-Keeps fl claude (λ c. only_if is_codex (codex c) + 0)
          (bytes_eq service service_claude) (ingest_claude_metric fl now metric) _
          (ingest_claude_metric-Keeps now metric)
          (if_either-Keeps fl codex (λ c. 0) is_codex (ingest_codex_metric fl now service metric)
            skip (ingest_codex_metric-Keeps now service metric) (skip-Keeps fl (λ c. 0))))
