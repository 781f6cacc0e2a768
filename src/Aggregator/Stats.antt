-- ===== src/Aggregator/Stats.antt =====
-- `ModelStats` of src/aggregator.rs.
use otel_logger.Prelude.Int.{ℤ}
use otel_logger.Prelude.{
  List, Option, ℕ, ◌-◌, ◌≡◌, refl, Bool, false, not, ◌||◌, ◌==◌, if◌then◌else◌, saturating_add,
  arith,
}

-- 64-bit floats, as far as the totals use them: `greater` is `f64::max`, `is_zero` the test
-- against 0.0, `max_value` is `f64::MAX`, `at_least` and `below` are `>=` and `<`, `of_int`,
-- `to_int` and `to_nat` are the casts `as f64`, `as i64` and `as u64`, and the two parsers are
-- those of the standard library. No law of them is used.
pub record Float : Type 1 where
  pub F64 : Type 0
  pub zero : F64
  pub plus : F64 → F64 → F64
  pub minus : F64 → F64 → F64
  pub greater : F64 → F64 → F64
  pub is_positive : F64 → Bool
  pub is_finite : F64 → Bool
  pub is_zero : F64 → Bool
  pub max_value : F64
  pub at_least : F64 → F64 → Bool
  pub below : F64 → F64 → Bool
  pub of_int : ℤ → F64
  pub to_int : F64 → ℤ
  pub to_nat : F64 → ℕ
  pub parse_int : List ℕ → Option ℤ
  pub parse_float : List ℕ → Option F64

-- The counters of a `ModelStats` that are `u64`.
pub data Counter : Type 0 where
  requests input output cache_read cache_creation reasoning duration : Counter

module _ (fl : Float) where
  open fl use {F64}

  pub record ModelStats : Type 0 where
    pub request_count : ℕ
    pub input_tokens : ℕ
    pub output_tokens : ℕ
    pub cache_read_tokens : ℕ
    pub cache_creation_tokens : ℕ
    pub reasoning_output_tokens : ℕ
    pub cost_usd : F64
    pub duration_ms : ℕ

  abbrev pub no_stats : ModelStats
  no_stats = record {
    request_count = 0;
    input_tokens = 0;
    output_tokens = 0;
    cache_read_tokens = 0;
    cache_creation_tokens = 0;
    reasoning_output_tokens = 0;
    cost_usd = fl.zero;
    duration_ms = 0;
  }

  positive_part : F64 → F64
  positive_part x = if fl.is_finite x then (if fl.is_positive x then x else fl.zero) else fl.zero

  -- `finite_saturating_add_f64`
  unfoldable pub finite_saturating_add : F64 → F64 → F64
  unfolding positive_part
  finite_saturating_add lhs rhs =
      let sum = fl.plus (positive_part lhs) (positive_part rhs) in
      if fl.is_finite sum then sum else fl.max_value

  -- `ModelStats::add`
  unfoldable pub add : ModelStats → ModelStats → ModelStats
  add s t = record {
    request_count = saturating_add s.request_count t.request_count;
    input_tokens = saturating_add s.input_tokens t.input_tokens;
    output_tokens = saturating_add s.output_tokens t.output_tokens;
    cache_read_tokens = saturating_add s.cache_read_tokens t.cache_read_tokens;
    cache_creation_tokens = saturating_add s.cache_creation_tokens t.cache_creation_tokens;
    reasoning_output_tokens = saturating_add s.reasoning_output_tokens t.reasoning_output_tokens;
    cost_usd = finite_saturating_add s.cost_usd t.cost_usd;
    duration_ms = saturating_add s.duration_ms t.duration_ms;
  }

  -- `ModelStats::subtract`; `-` on ℕ stops at 0, as `saturating_sub` does.
  unfoldable pub subtract : ModelStats → ModelStats → ModelStats
  subtract s t = record {
    request_count = s.request_count - t.request_count;
    input_tokens = s.input_tokens - t.input_tokens;
    output_tokens = s.output_tokens - t.output_tokens;
    cache_read_tokens = s.cache_read_tokens - t.cache_read_tokens;
    cache_creation_tokens = s.cache_creation_tokens - t.cache_creation_tokens;
    reasoning_output_tokens = s.reasoning_output_tokens - t.reasoning_output_tokens;
    cost_usd = fl.greater (fl.minus s.cost_usd t.cost_usd) fl.zero;
    duration_ms = s.duration_ms - t.duration_ms;
  }

  unfoldable pub has_usage : ModelStats → Bool
  has_usage s =
      not (s.input_tokens == 0)
      || (not (s.output_tokens == 0)
          || (not (s.cache_read_tokens == 0)
              || (not (s.cache_creation_tokens == 0)
                  || (not (s.reasoning_output_tokens == 0) || not (fl.is_zero s.cost_usd)))))

  unfoldable pub has_any_value : ModelStats → Bool
  unfolding has_usage
  has_any_value s = has_usage s || (not (s.request_count == 0) || not (s.duration_ms == 0))

  -- `saturating_sub_stats`
  unfoldable pub saturating_sub_stats : ModelStats → ModelStats → ModelStats
  saturating_sub_stats s t = subtract s t

  abbrev pub count : Counter → ModelStats → ℕ
  count requests s = s.request_count
  count input s = s.input_tokens
  count output s = s.output_tokens
  count cache_read s = s.cache_read_tokens
  count cache_creation s = s.cache_creation_tokens
  count reasoning s = s.reasoning_output_tokens
  count duration s = s.duration_ms

  pub count-add :
      (c : Counter) (s t : ModelStats) → count c (add s t) ≡ saturating_add (count c s) (count c t)
  unfolding add
  count-add requests s t = refl
  count-add _ s t = refl

  pub count-subtract :
      (c : Counter) (s t : ModelStats) → count c (subtract s t) ≡ count c s - count c t
  unfolding subtract
  count-subtract requests s t = refl
  count-subtract _ s t = refl

  pub count-no_stats : (c : Counter) → count c no_stats ≡ 0
  count-no_stats requests = refl
  count-no_stats _ = refl

  -- A bucket that is removed for holding nothing counts nothing.
  pub count_nothing : (c : Counter) (s : ModelStats) → has_any_value s ≡ false → count c s ≡ 0
  unfolding has_any_value
  count_nothing requests s h = ground arith
  count_nothing _ s h = ground arith
