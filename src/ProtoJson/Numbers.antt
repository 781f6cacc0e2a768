-- ===== src/ProtoJson/Numbers.antt =====
-- No number that JSON cannot write reaches the serializer behind, and all else reaches it as it is.
use otel_logger.Prelude.{◌≡◌, refl, Bool, true, false, ◌&&◌, ◌||◌, not, Bool-cases, inl, inr, arith}
use otel_logger.ProtoJson.{
  Floats, Value, scalar, serialize_str, serialize_f64, serialize_f32, wrapper, compound, Elements,
  end, element, skip_field, entry, proto_f64, proto_f32, proto_json, proto_elements,
}

module _ (fl : Floats) (Scalar Name : Type 0) where
  open fl use {F64, F32, is_nan, is_infinite, is_finite32, widen}

  -- Every float of a value is finite.
  unfoldable mutual
    pub is_finite : Value fl Scalar Name → Bool
    is_finite (scalar s) = true
    is_finite (serialize_str s) = true
    is_finite (serialize_f64 v) = not (is_nan v || is_infinite v)
    is_finite (serialize_f32 v) = is_finite32 v
    is_finite (wrapper name v) = is_finite v
    is_finite (compound name es) = all_finite es

    pub all_finite : Elements fl Scalar Name → Bool
    all_finite end = true
    all_finite (element key v es) = is_finite v && all_finite es
    all_finite (skip_field key es) = all_finite es
    all_finite (entry k v es) = is_finite k && (is_finite v && all_finite es)

  finite-proto_f64 : (v : F64) → is_finite (proto_f64 fl Scalar Name v) ≡ true
  unfolding proto_f64 is_finite
  finite-proto_f64 v = elim (Bool-cases (is_nan v)) [
    | inl e ↦ rw e refl
    | inr e ↦ elim (Bool-cases (is_infinite v)) [
      | inl e' ↦ rw (e, e') refl
      | inr e' ↦ rw (e, e') (rw (e, e') refl)
    ]
  ]

  finite-proto_f32 : (v : F32) → is_finite (proto_f32 fl Scalar Name v) ≡ true
  unfolding proto_f32 is_finite
  finite-proto_f32 v = elim (Bool-cases (is_finite32 v)) [
    | inl e ↦ rw e (rw e refl)
    | inr e ↦ rw e (finite-proto_f64 (widen v))
  ]

  mutual
    unfolding is_finite proto_json

    finite-proto_json : (v : Value fl Scalar Name) → is_finite (proto_json fl Scalar Name v) ≡ true
    finite-proto_json (scalar s) = refl
    finite-proto_json (serialize_str s) = refl
    finite-proto_json (serialize_f64 v) = finite-proto_f64 v
    finite-proto_json (serialize_f32 v) = finite-proto_f32 v
    finite-proto_json (wrapper name v) = finite-proto_json v
    finite-proto_json (compound name es) = finite-proto_elements es

    finite-proto_elements :
        (es : Elements fl Scalar Name) → all_finite (proto_elements fl Scalar Name es) ≡ true
    finite-proto_elements end = refl
    finite-proto_elements (element key v es) =
        rw (finite-proto_json v, finite-proto_elements es) refl
    finite-proto_elements (skip_field key es) = finite-proto_elements es
    finite-proto_elements (entry k v es) =
        rw (finite-proto_json k, finite-proto_json v, finite-proto_elements es) refl

  both_true : (a b : Bool) → (a && b) ≡ true → (a ≡ true) × (b ≡ true)
  both_true true b h = (refl, h)
  both_true false b h = cc

  mutual
    unfolding is_finite proto_json proto_f64 proto_f32

    proto_json-finite :
        (v : Value fl Scalar Name) → is_finite v ≡ true → proto_json fl Scalar Name v ≡ v
    proto_json-finite (scalar s) h = refl
    proto_json-finite (serialize_str s) h = refl
    proto_json-finite (serialize_f64 v) h =
        let a : is_nan v ≡ false = ground arith in
        let b : is_infinite v ≡ false = ground arith in rw (a, b) refl
    proto_json-finite (serialize_f32 v) h = rw h refl
    proto_json-finite (wrapper name v) h = rw (proto_json-finite v h) refl
    proto_json-finite (compound name es) h = rw (proto_elements-finite es h) refl

    proto_elements-finite :
        (es : Elements fl Scalar Name)
        → all_finite es ≡ true
        → proto_elements fl Scalar Name es ≡ es
    proto_elements-finite end h = refl
    proto_elements-finite (element key v es) h =
        let (a, b) = both_true (is_finite v) (all_finite es) h in
        rw (proto_json-finite v a, proto_elements-finite es b) refl
    proto_elements-finite (skip_field key es) h = rw (proto_elements-finite es h) refl
    proto_elements-finite (entry k v es) h =
        let (a, rest) = both_true (is_finite k) (is_finite v && all_finite es) h in
        let (b, c) = both_true (is_finite v) (all_finite es) rest in
        rw (proto_json-finite k a, proto_json-finite v b, proto_elements-finite es c) refl

  -- Whatever is serialized, every float that reaches the serializer behind is finite.
  pub is_finite-proto_json :
      (v : Value fl Scalar Name) → is_finite (proto_json fl Scalar Name v) ≡ true
  is_finite-proto_json v = finite-proto_json v

  -- A value whose floats are all finite reaches the serializer behind as it is.
  pub proto_json_unchanged :
      (v : Value fl Scalar Name) → is_finite v ≡ true → proto_json fl Scalar Name v ≡ v
  proto_json_unchanged v h = proto_json-finite v h
