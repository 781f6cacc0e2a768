-- ===== src/ProtoJson.antt =====
-- src/proto_json.rs: what `NonFinite` makes of a value that is serialized. A value is the tree of the
-- calls that `serde` makes for it; the serializer behind is a library's.
pub mod Numbers
mod Tests
use otel_logger.Prelude.{ℕ, List, Bool, true, false, not, ◌||◌, if◌then◌else◌, bytes_of}

abbrev pub Text : Type 0
Text = List ℕ

-- Floats of 64 and of 32 bits: `widen` is `f64::from`. No law of them is used.
pub record Floats : Type 1 where
  pub F64 : Type 0
  pub F32 : Type 0
  pub is_nan : F64 → Bool
  pub is_infinite : F64 → Bool
  pub is_positive : F64 → Bool
  pub is_finite32 : F32 → Bool
  pub widen : F32 → F64

module _ (fl : Floats) (Scalar Name : Type 0) where
  open fl use {F64, F32, is_nan, is_infinite, is_positive, is_finite32, widen}

  -- The other scalars, and the names and lengths that a compound value is announced with, are only
  -- passed on: `Scalar` and `Name` stand for them.
  mutual
    pub data Value : Type 0 where
      scalar : Scalar → Value
      serialize_str : Text → Value
      serialize_f64 : F64 → Value
      serialize_f32 : F32 → Value
      wrapper : Name → Value → Value
      compound : Name → Elements → Value

    -- The elements of a sequence or a tuple, the fields of a struct, and the keys and values of a
    -- map, each in its turn.
    pub data Elements : Type 0 where
      end : Elements
      element : Name → Value → Elements → Elements
      skip_field : Name → Elements → Elements
      entry : Value → Value → Elements → Elements

  unfoldable pub proto_f64 : F64 → Value
  proto_f64 v =
      if is_nan v
      then serialize_str (bytes_of "NaN")
      else if is_infinite v
      then serialize_str (if is_positive v then bytes_of "Infinity" else bytes_of "-Infinity")
      else serialize_f64 v

  unfoldable pub proto_f32 : F32 → Value
  unfolding proto_f64
  proto_f32 v = if is_finite32 v then serialize_f32 v else proto_f64 (widen v)

  -- `ProtoJson`, and `NonFinite` of what is serialized.
  unfoldable mutual
    unfolding proto_f64 proto_f32

    pub proto_json : Value → Value
    proto_json (scalar s) = scalar s
    proto_json (serialize_str s) = serialize_str s
    proto_json (serialize_f64 v) = proto_f64 v
    proto_json (serialize_f32 v) = proto_f32 v
    proto_json (wrapper name v) = wrapper name (proto_json v)
    proto_json (compound name es) = compound name (proto_elements es)

    pub proto_elements : Elements → Elements
    proto_elements end = end
    proto_elements (element key v es) = element key (proto_json v) (proto_elements es)
    proto_elements (skip_field key es) = skip_field key (proto_elements es)
    proto_elements (entry k v es) = entry (proto_json k) (proto_json v) (proto_elements es)
