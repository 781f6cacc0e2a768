-- ===== src/ProtoJson/Tests.antt =====
-- A map with a number that is none.
use otel_logger.Prelude.{ℕ, ◌≡◌, refl, true, ◌==◌, if◌then◌else◌, bytes_of}
use otel_logger.ProtoJson.{
  Floats, Value, scalar, serialize_str, serialize_f64, compound, end, element, entry, proto_json,
  proto_f64,
}
use otel_logger.ProtoJson.Numbers.{is_finite, is_finite-proto_json, proto_json_unchanged}

-- 0 stands for NaN, and 1 and 2 for the infinities.
abbrev small : Floats
small = record {
  F64 = ℕ;
  F32 = ℕ;
  is_nan = λ v. v == 0;
  is_infinite = λ v. if v == 1 then true else v == 2;
  is_positive = λ v. v == 1;
  is_finite32 = λ v. true;
  widen = λ v. v;
}

abbrev measured : Value small ℕ ℕ
measured =
    compound 0
      (entry (serialize_str (bytes_of "max")) (serialize_f64 2) (element 1 (serialize_f64 7) end))

abbrev plain : Value small ℕ ℕ
plain = compound 0 (element 1 (serialize_f64 7) (element 2 (scalar 5) end))

measured_json :
    proto_json small ℕ ℕ measured
    ≡ compound 0 (
        entry
          (serialize_str (bytes_of "max"))
          (serialize_str (bytes_of "-Infinity"))
          (element 1 (serialize_f64 7) end))
unfolding proto_json proto_f64
measured_json = refl

is_finite-proto_json_example : is_finite small ℕ ℕ (proto_json small ℕ ℕ measured) ≡ true
is_finite-proto_json_example = is_finite-proto_json small ℕ ℕ measured

plain_is_finite : is_finite small ℕ ℕ plain ≡ true
unfolding is_finite
plain_is_finite = refl

proto_json_unchanged_example : proto_json small ℕ ℕ plain ≡ plain
proto_json_unchanged_example = proto_json_unchanged small ℕ ℕ plain plain_is_finite
