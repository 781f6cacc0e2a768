-- ===== src/Http.antt =====
-- src/http.rs: from a request to its response. The body's text, the decoders and the sink behind are
-- arguments; what the admission and the receipt of the body come to is an argument too.
pub mod Answers
mod Tests
use otel_logger.Prelude.{
  eq_ignore_ascii_case, ℕ, ◌+◌, Option, none, some, List, [], ◌∷◌, ◌++◌, Bool, true, false, ◌&&◌,
  ◌||◌, ◌==◌, leb, if◌then◌else◌, bytes_of, bytes_eq, Result, ok, err, Action, ◌>>=◌, ◌>>◌, pure,
}

abbrev pub Text : Type 0
Text = List ℕ

abbrev pub protobuf_ct : Text
protobuf_ct = bytes_of "application/x-protobuf"

abbrev pub json_ct : Text
json_ct = bytes_of "application/json"

pub data Encoding : Type 0 where
  protobuf json : Encoding

-- The errors, over what the libraries and the sink say of them.
pub data HttpError (E : Type 0) : Type 0 where
  unsupported_content_type : Text → HttpError E
  bad_protobuf bad_json bad_body persistence busy : E → HttpError E
  body_too_large body_timeout : HttpError E

-- `IntoResponse for HttpError`
unfoldable pub status_of : {E : Type 0} → HttpError E → ℕ
status_of (unsupported_content_type t) = 415
status_of (bad_protobuf e) = 400
status_of (bad_json e) = 400
status_of (bad_body e) = 400
status_of body_too_large = 413
status_of (busy e) = 503
status_of body_timeout = 503
status_of (persistence e) = 503

-- `str::split(';').next()`
unfoldable pub before_semicolon : Text → Text
before_semicolon [] = []
before_semicolon (c ∷ s) = let rest = before_semicolon s in if c == b';' then [] else c ∷ rest

-- `str::trim`, of a text that is ASCII, as a header's is.
unfoldable pub is_space : ℕ → Bool
is_space c = (c == 32) || (leb 9 c && leb c 13)

unfoldable pub trim_start : Text → Text
trim_start [] = []
trim_start (c ∷ s) = let rest = trim_start s in if is_space c then rest else c ∷ s

unfoldable pub is_nothing : Text → Bool
is_nothing [] = true
is_nothing (c ∷ s) = false

unfoldable pub trim_end : Text → Text
trim_end [] = []
trim_end (c ∷ s) = let rest = trim_end s in if is_space c && is_nothing rest then [] else c ∷ rest

unfoldable pub primary_of : Text → Text
primary_of ct = trim_end (trim_start (before_semicolon ct))

module _ {E : Type 0} where
  unfoldable pub encoding_of : Text → Result (HttpError E) Encoding
  encoding_of primary =
      if eq_ignore_ascii_case primary protobuf_ct
      then ok protobuf
      else if eq_ignore_ascii_case primary json_ct
      then ok json
      else err (unsupported_content_type primary)

  -- The header, and its text where it has one (`to_str`).
  unfoldable pub detect_encoding : Option (Option Text) → Result (HttpError E) Encoding
  unfolding encoding_of
  detect_encoding none = encoding_of protobuf_ct
  detect_encoding (some none) = err (unsupported_content_type (bytes_of "<invalid header value>"))
  detect_encoding (some (some ct)) = encoding_of (primary_of ct)

-- What the receipt of a body comes to.
pub data Body (E : Type 0) : Type 0 where
  received : Text → Body E
  timed_out too_large : Body E
  broken : E → Body E

-- What a request brings: its header, whether it is admitted, and its body.
pub record HttpRequest (E : Type 0) : Type 0 where
  pub content_type : Option (Option Text)
  pub admission : Result E (Unit {0})
  pub body : Body E

-- A response: its status, and the type of the message that it holds, if it does.
pub record Response : Type 0 where
  pub status : ℕ
  pub message : Option Encoding

-- The decoders of a signal's requests, and the sink: `record_with_permit`.
pub record Backend : Type 1 where
  pub Error : Type 0
  pub Message : Type 0
  pub Sink : Type 0
  pub decode : Text → Result Error Message
  pub from_slice : Text → Result Error Message
  pub record_with_permit : Message → Sink → Result Error (Unit {0}) × Sink

module _ (rc : Backend) where
  open rc use {Error, Message, Sink, decode, from_slice, record_with_permit}

  abbrev pub Failure : Type 0
  Failure = HttpError Error

  unfoldable pub map_err : {A B : Type 0} → (A → Failure) → Result A B → Result Failure B
  map_err f (ok b) = ok b
  map_err f (err a) = err (f a)

  unfoldable pub bytes_from : Body Error → Result Failure Text
  bytes_from (received bytes) = ok bytes
  bytes_from timed_out = err body_timeout
  bytes_from too_large = err body_too_large
  bytes_from (broken e) = err (bad_body e)

  unfoldable pub receive_body : HttpRequest Error → Result Failure Text
  unfolding bytes_from
  receive_body r = elim r.admission [ ok _ ↦ bytes_from r.body | err e ↦ err (busy e) ]

  unfoldable pub decode_request : Encoding → Text → Result Failure Message
  unfolding map_err
  decode_request protobuf bytes = map_err bad_protobuf (decode bytes)
  decode_request json bytes = map_err bad_json (from_slice bytes)

  -- A result that needs no state.
  abbrev pub lift : {A : Type 0} → Result Failure A → Action Sink Failure A
  lift r s = (r, s)

  unfoldable pub persist_message : Message → Action Sink Failure (Unit {0})
  unfolding map_err
  persist_message m s = let r = record_with_permit m s in (map_err persistence r.0, r.1)

  -- `handle_traces`, `handle_metrics` and `handle_logs`, which differ in the signal.
  unfoldable pub handle : HttpRequest Error → Action Sink Failure Encoding
  unfolding receive_body decode_request persist_message
  handle r = do
    encoding ← lift (detect_encoding r.content_type)
    bytes ← lift (receive_body r)
    message ← lift (decode_request encoding bytes)
    persist_message message
    pure encoding

  -- `encode_response`, or the response of an error.
  unfoldable pub respond : Result Failure Encoding → Response
  respond (ok encoding) = record { status = 200; message = some encoding }
  respond (err e) = record { status = status_of e; message = none }
