-- ===== src/Aggregator/Sound/Points.antt =====
-- Data points of metrics keep the aggregator sound.
use otel_logger.Prelude.{
  ℕ, ◌+◌, ◌≤◌, ◌≡◌, refl, sym, subst, Option, none, some, List, [], ◌∷◌, Bool, true, false, ◌==◌,
  bytes_of, bytes_eq, if◌then◌else◌, Bool-cases, inl, inr, arith,
}
use otel_logger.Prelude.Maps.{lookup}
use otel_logger.Otlp.{Text, KeyValue, NumberDataPoint, HistogramDataPoint}
use otel_logger.Aggregator.Stats.{Float, Counter, ModelStats, no_stats, count}
use otel_logger.Aggregator.Bucket.{non_empty, from_parts}
use otel_logger.Aggregator.State.{AggregatorInner, CodexTokenSource}
use otel_logger.Aggregator.Values.{number_value_as_u64, histogram_sum_as_u64, number_value_as_f64}
use otel_logger.Aggregator.Models.{is_empty_text, register_canonical_claude_model}
use otel_logger.Aggregator.Reports.{
  text_attr, metric_model, claude_metric_model, claude_token_stats, metric_bucket, count_metric,
  claude_token_point, claude_cost_point,
}
use otel_logger.Aggregator.Codex.Events.{is_logs}
use otel_logger.Aggregator.Ingest.{
  codex_token_stats, codex_bucket, record_codex, with_source, codex_token_point, codex_turn_point,
  codex_duration_point,
}
use otel_logger.Aggregator.Sound.{Budget, IsSound}
use otel_logger.Aggregator.Sound.Reported.{
  claude_type, codex_type, of_type, of_requests, of_duration, claude_token_weight,
  codex_token_weight, codex_turn_weight, codex_duration_weight,
}
use otel_logger.Aggregator.Sound.Agents.{record_into_codex-IsSound}
use otel_logger.Aggregator.Sound.Metrics.{IsKnown, record_claude_metric_usage-IsSound}
use otel_logger.Aggregator.Sound.Names.{register-IsSound, register-IsKnown}
use otel_logger.Aggregator.Sound.Handlers.{Keeps, skip-Keeps}
use otel_logger.Aggregator.Sound.Logs.{set_token_source-IsSound}

module _ (fl : Float) where
  open fl use {F64}

  -- Stats that count at most what a budget says.
  abbrev Within : Budget → Option (ModelStats fl) → Type 0
  Within w none = Unit
  Within w (some s) = (c : Counter) → count fl c s ≤ w c

  one_of :
      (w : Budget) (b : Bool) (x y : Option (ModelStats fl))
      → (b ≡ true → Within w x)
      → Within w y
      → Within w (if b then x else y)
  one_of w true x y h h' = h refl
  one_of w false x y h h' = h'

  Within-claude_token_stats :
      (typ : Text) (v : ℕ)
      → Within (λ c. of_type (claude_type c) typ v) (claude_token_stats fl typ v)
  unfolding claude_token_stats claude_type of_type
  Within-claude_token_stats typ v =
      let w : Budget = λ c. of_type (claude_type c) typ v in
      one_of w (bytes_eq typ (bytes_of "input")) (some (record (no_stats fl) { input_tokens = v }))
        _
        (λ e c. elim c as (λ k. count fl k (record (no_stats fl) { input_tokens = v }) ≤ w k) [
          | Counter.input ↦ rw e (omega arith)
          | _ ↦ omega arith
        ])
        (one_of w (bytes_eq typ (bytes_of "output"))
          (some (record (no_stats fl) { output_tokens = v })) _
          (λ e c. elim c as (λ k. count fl k (record (no_stats fl) { output_tokens = v }) ≤ w k) [
            | Counter.output ↦ rw e (omega arith)
            | _ ↦ omega arith
          ])
          (one_of w (bytes_eq typ (bytes_of "cacheRead"))
            (some (record (no_stats fl) { cache_read_tokens = v })) _
            (λ e c.
              elim c as (λ k. count fl k (record (no_stats fl) { cache_read_tokens = v }) ≤ w k) [
                | Counter.cache_read ↦ rw e (omega arith)
                | _ ↦ omega arith
              ])
            (one_of w (bytes_eq typ (bytes_of "cacheCreation"))
              (some (record (no_stats fl) { cache_creation_tokens = v })) _
              (λ e c.
                elim c
                  as (λ k. count fl k (record (no_stats fl) { cache_creation_tokens = v }) ≤ w k) [
                    | Counter.cache_creation ↦ rw e (omega arith)
                    | _ ↦ omega arith
                  ])
              (tt))))

  Within-codex_token_stats :
      (typ : Text) (v : ℕ) → Within (λ c. of_type (codex_type c) typ v) (codex_token_stats fl typ v)
  unfolding codex_token_stats codex_type of_type
  Within-codex_token_stats typ v =
      let w : Budget = λ c. of_type (codex_type c) typ v in
      one_of w (bytes_eq typ (bytes_of "input")) (some (record (no_stats fl) { input_tokens = v }))
        _
        (λ e c. elim c as (λ k. count fl k (record (no_stats fl) { input_tokens = v }) ≤ w k) [
          | Counter.input ↦ rw e (omega arith)
          | _ ↦ omega arith
        ])
        (one_of w (bytes_eq typ (bytes_of "output"))
          (some (record (no_stats fl) { output_tokens = v })) _
          (λ e c. elim c as (λ k. count fl k (record (no_stats fl) { output_tokens = v }) ≤ w k) [
            | Counter.output ↦ rw e (omega arith)
            | _ ↦ omega arith
          ])
          (one_of w (bytes_eq typ (bytes_of "cached_input"))
            (some (record (no_stats fl) { cache_read_tokens = v })) _
            (λ e c.
              elim c as (λ k. count fl k (record (no_stats fl) { cache_read_tokens = v }) ≤ w k) [
                | Counter.cache_read ↦ rw e (omega arith)
                | _ ↦ omega arith
              ])
            (one_of w (bytes_eq typ (bytes_of "cache_write_input"))
              (some (record (no_stats fl) { cache_creation_tokens = v })) _
              (λ e c.
                elim c
                  as (λ k. count fl k (record (no_stats fl) { cache_creation_tokens = v }) ≤ w k) [
                    | Counter.cache_creation ↦ rw e (omega arith)
                    | _ ↦ omega arith
                  ])
              (one_of w (bytes_eq typ (bytes_of "reasoning_output"))
                (some (record (no_stats fl) { reasoning_output_tokens = v })) _
                (λ e c.
                  elim c
                    as (λ k.
                      count fl k (record (no_stats fl) { reasoning_output_tokens = v }) ≤ w k) [
                        | Counter.reasoning ↦ rw e (omega arith)
                        | _ ↦ omega arith
                      ])
                (tt)))))

  non_empty_model : (s : Text) → is_empty_text (non_empty s) ≡ false
  unfolding non_empty is_empty_text
  non_empty_model [] = refl
  non_empty_model (x ∷ s) = refl

  non_empty_twice : (s : Text) → non_empty (non_empty s) ≡ non_empty s
  unfolding non_empty
  non_empty_twice [] = refl
  non_empty_twice (x ∷ s) = refl

  -- A data point of Claude Code: its model is registered, and then counted.
  claude_point :
      (now : ℕ) (v : Budget) (attrs : List (KeyValue F64)) (o : Option (ModelStats fl))
      → Within v o
      → Keeps fl v (λ g. count_metric fl now attrs o (claude_metric_model fl attrs g))
  unfolding count_metric claude_metric_model
  claude_point now v attrs none le n g fits h =
      skip-Keeps fl v n (register_canonical_claude_model fl (metric_model fl attrs) g) fits
        (register-IsSound fl n (metric_model fl attrs) g h)
  claude_point now v attrs (some s) le n g fits h =
      let model = metric_model fl attrs in
      let g' = register_canonical_claude_model fl model g in
      let named : is_empty_text model ≡ false =
        unfold metric_model in non_empty_model (text_attr fl attrs (bytes_of "model")) in
      let same : (metric_bucket fl attrs).model ≡ model =
        unfold metric_bucket from_parts metric_model in
        non_empty_twice (text_attr fl attrs (bytes_of "model")) in
      record_claude_metric_usage-IsSound fl n (λ c. n c + v c) now (metric_bucket fl attrs) s g'
        (λ c. omega (arith, le c)) fits
        (subst (λ m. IsKnown fl m g') (sym same) (register-IsKnown fl model g named))
        (register-IsSound fl n model g h)

  pub claude_token_point-Keeps :
      (now : ℕ) (dp : NumberDataPoint F64)
      → Keeps fl (claude_token_weight fl dp) (claude_token_point fl now dp)
  unfolding claude_token_point claude_token_weight
  claude_token_point-Keeps now dp =
      let v = number_value_as_u64 fl dp in
      let typ = text_attr fl dp.attributes (bytes_of "type") in
      claude_point now (λ c. of_type (claude_type c) typ v) dp.attributes
        (claude_token_stats fl typ v) (Within-claude_token_stats typ v)

  pub claude_cost_point-Keeps :
      (now : ℕ) (dp : NumberDataPoint F64) → Keeps fl (λ c. 0) (claude_cost_point fl now dp)
  unfolding claude_cost_point
  claude_cost_point-Keeps now dp =
      claude_point now (λ c. 0) dp.attributes
        (some (record (no_stats fl) { cost_usd = number_value_as_f64 fl dp })) (λ c. grind arith)

  -- A data point of Codex.
  record_codex-Keeps :
      (now : ℕ) (service : Text) (attrs : List (KeyValue F64)) (v : ℕ) (w : Budget)
      (o : Option (ModelStats fl))
      → Within w o
      → Keeps fl w (record_codex fl now service attrs v o)
  unfolding record_codex
  record_codex-Keeps now service attrs v w none le n g fits h = skip-Keeps fl w n g fits h
  record_codex-Keeps now service attrs v w (some s) le n g fits h = elim (Bool-cases (v == 0)) [
    | inl e ↦ rw e (skip-Keeps fl w n g fits h)
    | inr e ↦ rw e (
        record_into_codex-IsSound fl n (λ c. n c + w c) now (codex_bucket fl service attrs g) s g
          (λ c. omega (arith, le c)) fits h)
  ]

  with_source-IsSound :
      (n : Budget) (model : Text) (r : ℕ × AggregatorInner fl)
      → IsSound fl n r.1
      → IsSound fl n (with_source fl model r).1
  unfolding with_source
  with_source-IsSound n model (k, g) h = elim (Bool-cases (k == 0)) [
    | inl e ↦ rw e h
    | inr e ↦ rw e (set_token_source-IsSound fl n model CodexTokenSource.metrics g h)
  ]

  pub codex_token_point-Keeps :
      (now : ℕ) (service : Text) (dp : HistogramDataPoint F64)
      → Keeps fl (codex_token_weight fl dp) (codex_token_point fl now service dp)
  unfolding codex_token_point codex_token_weight
  codex_token_point-Keeps now service dp n g fits h =
      let model = text_attr fl dp.attributes (bytes_of "model") in
      let v = histogram_sum_as_u64 fl dp in
      let typ = text_attr fl dp.attributes (bytes_of "token_type") in
      let w : Budget = λ c. of_type (codex_type c) typ v in
      let stats = codex_token_stats fl typ v in
      elim (Bool-cases (is_logs fl (lookup bytes_eq (non_empty model) g.codex_token_sources))) [
        | inl e ↦ rw e (skip-Keeps fl w n g fits h)
        | inr e ↦ rw e (
            with_source-IsSound (λ c. n c + w c) model
              (record_codex fl now service dp.attributes v stats g)
              (record_codex-Keeps now service dp.attributes v w stats
                (Within-codex_token_stats typ v) n g fits h))
      ]

  pub codex_turn_point-Keeps :
      (now : ℕ) (service : Text) (dp : NumberDataPoint F64)
      → Keeps fl (codex_turn_weight fl dp) (codex_turn_point fl now service dp)
  unfolding codex_turn_point codex_turn_weight of_requests
  codex_turn_point-Keeps now service dp =
      let v = number_value_as_u64 fl dp in
      record_codex-Keeps now service dp.attributes v (λ c. of_requests c v)
        (some (record (no_stats fl) { request_count = v })) (λ c. grind arith)

  pub codex_duration_point-Keeps :
      (now : ℕ) (service : Text) (dp : HistogramDataPoint F64)
      → Keeps fl (codex_duration_weight fl dp) (codex_duration_point fl now service dp)
  unfolding codex_duration_point codex_duration_weight of_duration
  codex_duration_point-Keeps now service dp =
      let v = histogram_sum_as_u64 fl dp in
      record_codex-Keeps now service dp.attributes v (λ c. of_duration c v)
        (some (record (no_stats fl) { duration_ms = v })) (λ c. grind arith)
