-- ===== src/Aggregator/Values.antt =====
-- Values of attributes and data points, in src/aggregator.rs.
use otel_logger.Prelude.{
  ℕ, ◌-◌, ◌^◌, ◌%◌, Option, none, some, List, [], ◌∷◌, Bool, false, ◌&&◌, ◌||◌, ◌==◌, if◌then◌else◌,
  bytes_of, bytes_eq, u64_max,
}
use otel_logger.Prelude.Int.{ℤ, pos, negsuc, max_zero}
use otel_logger.Prelude.Maps.{or_default}
use otel_logger.Otlp.{
  Text, OtlpValue, string_value, int_value, double_value, KeyValue, Resource, value_of, string_attr,
  NumberValue, as_double, as_int, NumberDataPoint, HistogramDataPoint,
}
use otel_logger.Aggregator.Stats.{Float}

abbrev pub service_claude : Text
service_claude = bytes_of "claude-code"

abbrev pub codex_services : List Text
codex_services =
    bytes_of "codex_cli_rs"
    ∷ bytes_of "codex_exec"
    ∷ bytes_of "codex-app-server"
    ∷ bytes_of "codex_mcp_server"
    ∷ bytes_of "Codex Desktop"
    ∷ bytes_of "codex-exec-server"
    ∷ []

unfoldable pub is_one_of : List Text → Text → Bool
is_one_of [] s = false
is_one_of (t ∷ ts) s = bytes_eq t s || is_one_of ts s

unfoldable pub is_codex_service : Text → Bool
unfolding is_one_of
is_codex_service service = is_one_of codex_services service

unfoldable pub is_text : Text → Option Text → Bool
is_text expected none = false
is_text expected (some s) = bytes_eq s expected

-- `filter(|value| !value.is_empty())`
unfoldable pub filled : Option Text → Option Text
filled none = none
filled (some []) = none
filled (some (c ∷ s)) = some (c ∷ s)

-- `i64::MIN`, `i64::MAX`, `u64::MAX`
abbrev pub i64_min : ℤ
i64_min = negsuc (2 ^ 63 - 1)

abbrev pub i64_max : ℤ
i64_max = pos (2 ^ 63 - 1)

unfoldable pub is_delta_temporality : ℤ → Bool
is_delta_temporality (pos n) = n == 1
is_delta_temporality (negsuc n) = false

-- `flags & NoRecordedValueMask`, the lowest bit
unfoldable pub no_recorded_value : ℕ → Bool
no_recorded_value flags = flags % 2 == 1

module _ (fl : Float) where
  open fl use {
    F64, zero, greater, is_finite, at_least, below, of_int, to_int, to_nat, parse_int, parse_float,
  }

  unfoldable pub int_of : Option (OtlpValue F64) → Option ℤ
  int_of (some (int_value i)) = some i
  int_of (some (double_value d)) =
      if is_finite d && (at_least d (of_int i64_min) && below d (of_int i64_max))
      then some (to_int d)
      else none
  int_of (some (string_value s)) = parse_int s
  int_of _ = none

  unfoldable pub int_attr : List (KeyValue F64) → Text → Option ℤ
  unfolding int_of
  int_attr attrs k = int_of (value_of k attrs)

  unfoldable pub u64_attr : List (KeyValue F64) → Text → ℕ
  u64_attr attrs k = max_zero (or_default (pos 0) (int_attr attrs k))

  unfoldable pub finite_only : Option F64 → Option F64
  finite_only none = none
  finite_only (some d) = if is_finite d then some d else none

  unfoldable pub float_of : Option (OtlpValue F64) → Option F64
  unfolding finite_only
  float_of (some (double_value d)) = finite_only (some d)
  float_of (some (int_value i)) = some (of_int i)
  float_of (some (string_value s)) = finite_only (parse_float s)
  float_of _ = none

  unfoldable pub f64_attr : List (KeyValue F64) → Text → Option F64
  unfolding float_of
  f64_attr attrs k = float_of (value_of k attrs)

  unfoldable pub finite_u64_from_f64 : F64 → ℕ
  finite_u64_from_f64 d =
      if is_finite d && (at_least d zero && below d (of_int (pos u64_max))) then to_nat d else 0

  unfoldable pub u64_of_number : Option (NumberValue F64) → ℕ
  u64_of_number (some (as_int i)) = max_zero i
  u64_of_number (some (as_double d)) = finite_u64_from_f64 d
  u64_of_number none = 0

  unfoldable pub number_value_as_u64 : NumberDataPoint F64 → ℕ
  unfolding u64_of_number
  number_value_as_u64 dp = if no_recorded_value dp.flags then 0 else u64_of_number dp.value

  unfoldable pub f64_of_number : Option (NumberValue F64) → F64
  f64_of_number (some (as_double d)) = if is_finite d then greater d zero else zero
  f64_of_number (some (as_int i)) = of_int (pos (max_zero i))
  f64_of_number none = zero

  unfoldable pub number_value_as_f64 : NumberDataPoint F64 → F64
  unfolding f64_of_number
  number_value_as_f64 dp = if no_recorded_value dp.flags then zero else f64_of_number dp.value

  unfoldable pub u64_of_sum : Option F64 → ℕ
  u64_of_sum none = 0
  u64_of_sum (some s) = finite_u64_from_f64 s

  unfoldable pub histogram_sum_as_u64 : HistogramDataPoint F64 → ℕ
  unfolding u64_of_sum
  histogram_sum_as_u64 dp = if no_recorded_value dp.flags then 0 else u64_of_sum dp.sum

  -- `service_name`
  unfoldable pub service_name : Option (Resource F64) → Text
  service_name none = []
  service_name (some r) = or_default [] (string_attr r.attributes (bytes_of "service.name"))
