-- ===== src/Otlp.antt =====
-- The OTLP messages (crate `opentelemetry-proto`), as far as the program reads them. D is the type
-- of 64-bit floats; a text is the list of its bytes.
use otel_logger.Prelude.{ℕ, Option, none, some, List, [], ◌∷◌, bytes_eq, if◌then◌else◌}
use otel_logger.Prelude.Int.{ℤ}

abbrev pub Text : Type 0
Text = List ℕ

-- `any_value::Value`; arrays, key-value lists, bytes and Booleans are read by no function here.
pub data OtlpValue (D : Type 0) : Type 0 where
  string_value : Text → OtlpValue D
  int_value : ℤ → OtlpValue D
  double_value : D → OtlpValue D
  other_value : OtlpValue D

pub record AnyValue (D : Type 0) : Type 0 where
  pub value : Option (OtlpValue D)

pub record KeyValue (D : Type 0) : Type 0 where
  pub key : Text
  pub value : Option (AnyValue D)

pub record Resource (D : Type 0) : Type 0 where
  pub attributes : List (KeyValue D)

-- The entries of a request (`resource_logs`, `resource_spans`, `resource_metrics`): a resource and
-- what it reports.
pub record Entry (D P : Type 0) : Type 0 where
  pub resource : Option (Resource D)
  pub body : P

pub record LogRecord (D : Type 0) : Type 0 where
  pub body : Option (AnyValue D)
  pub attributes : List (KeyValue D)
  pub event_name : Text

pub record SpanEvent (D : Type 0) : Type 0 where
  pub name : Text
  pub attributes : List (KeyValue D)

pub record Span (D : Type 0) : Type 0 where
  pub name : Text
  pub attributes : List (KeyValue D)
  pub events : List (SpanEvent D)

-- `number_data_point::Value`
pub data NumberValue (D : Type 0) : Type 0 where
  as_double : D → NumberValue D
  as_int : ℤ → NumberValue D

pub record NumberDataPoint (D : Type 0) : Type 0 where
  pub attributes : List (KeyValue D)
  pub flags : ℕ
  pub value : Option (NumberValue D)

pub record HistogramDataPoint (D : Type 0) : Type 0 where
  pub attributes : List (KeyValue D)
  pub flags : ℕ
  pub sum : Option D

-- `metric::Data`, with the temporality as its number.
pub data MetricData (D : Type 0) : Type 0 where
  sum_data : ℤ → List (NumberDataPoint D) → MetricData D
  histogram_data : ℤ → List (HistogramDataPoint D) → MetricData D
  other_data : MetricData D

pub record Metric (D : Type 0) : Type 0 where
  pub name : Text
  pub data_of : Option (MetricData D)

-- The requests: each entry holds its scopes, and each scope what it reports.
abbrev pub LogsRequest : Type 0 → Type 0
LogsRequest D = List (Entry D (List (List (LogRecord D))))

abbrev pub TraceRequest : Type 0 → Type 0
TraceRequest D = List (Entry D (List (List (Span D))))

abbrev pub MetricsRequest : Type 0 → Type 0
MetricsRequest D = List (Entry D (List (List (Metric D))))

module _ {D : Type 0} where
  -- `attrs.iter().find(|kv| kv.key == key)`
  unfoldable pub find_attr : Text → List (KeyValue D) → Option (KeyValue D)
  find_attr k [] = none
  find_attr k (kv ∷ kvs) = if bytes_eq kv.key k then some kv else find_attr k kvs

  unfoldable pub any_value : Option (AnyValue D) → Option (OtlpValue D)
  any_value none = none
  any_value (some v) = v.value

  attr_value : Option (KeyValue D) → Option (OtlpValue D)
  attr_value none = none
  attr_value (some kv) = any_value kv.value

  unfoldable pub as_string : Option (OtlpValue D) → Option Text
  as_string (some (string_value s)) = some s
  as_string _ = none

  -- The value of the first attribute of a key.
  unfoldable pub value_of : Text → List (KeyValue D) → Option (OtlpValue D)
  unfolding find_attr any_value attr_value
  value_of k kvs = attr_value (find_attr k kvs)

  -- `string_attr` of src/aggregator.rs.
  unfoldable pub string_attr : List (KeyValue D) → Text → Option Text
  unfolding value_of as_string
  string_attr attrs k = as_string (value_of k attrs)
