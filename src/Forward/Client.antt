-- ===== src/Forward/Client.antt =====
-- Which failures of an export are retried, and after what delay, in src/forward/client.rs. A
-- duration is its nanoseconds.
pub mod Delays
use otel_logger.Prelude.{
  ℕ, ◌+◌, ◌*◌, ◌^◌, Option, none, some, List, [], ◌∷◌, ◌++◌, Bool, true, false, ◌&&◌, ◌||◌, ◌==◌,
  leb, ltb, if◌then◌else◌, bytes_of, bytes_eq,
}
use otel_logger.Prelude.Int.{ℤ, pos, negsuc}
use otel_logger.Otlp.{Text}

-- `tonic::Code`
pub data Code : Type 0 where
  ok_status cancelled unknown invalid_argument deadline_exceeded not_found already_exists : Code
  permission_denied resource_exhausted failed_precondition aborted out_of_range : Code
  unimplemented internal unavailable data_loss unauthenticated : Code

pub record RpcAny : Type 0 where
  pub type_url : Text
  pub value : List ℕ

pub record RpcDuration : Type 0 where
  pub seconds : ℤ
  pub nanos : ℤ

pub record RpcRetryInfo : Type 0 where
  pub retry_delay : Option RpcDuration

-- What an error is downcast to: `HttpExportFailure`, `tonic::Status` (with its details, and whether
-- its source is a `tonic::transport::Error`), `reqwest::Error`, or none of them.
pub data ExportError : Type 0 where
  http_failure : ℕ → Option ℕ → ExportError
  grpc_status : Code → List ℕ → Bool → ExportError
  reqwest_error other_error : ExportError

abbrev pub or_zero : Option ℕ → ℕ
or_zero none = 0
or_zero (some d) = d

-- `rsplit('/').next()`, with the part since the last slash so far.
unfoldable pub last_part : Text → Text → Text
last_part part [] = part
last_part part (c ∷ s) = last_part (if c == b'/' then [] else part ++ (c ∷ [])) s

unfoldable pub is_retryable_status : ℕ → Bool
is_retryable_status n = (n == 429) || ((n == 502) || ((n == 503) || (n == 504)))

-- `prost`'s decoders, and whether `Instant::now().checked_add` of a duration answers `Some`.
module _ (decode_status : List ℕ → Option (List RpcAny))
    (decode_info : List ℕ → Option RpcRetryInfo) (checked_add : ℕ → Bool) where
  unfoldable pub checked : ℕ → Option ℕ
  checked d = if checked_add d then some d else none

  -- The ranges of the two fields, and the duration.
  unfoldable pub in_range : ℤ → ℤ → Option ℕ
  unfolding checked
  in_range (pos s) (pos n) =
      if leb s 315576000000 && ltb n (10 ^ 9) then checked (s * 10 ^ 9 + n) else none
  in_range s n = none

  unfoldable pub delay_of_info : Option RpcRetryInfo → Option ℕ
  delay_of_info none = none
  delay_of_info (some info) = elim info.retry_delay [
    | none ↦ some 0
    | some duration ↦ in_range duration.seconds duration.nanos
  ]

  -- The closure of `find_map`.
  unfoldable pub delay_of_detail : RpcAny → Option ℕ
  unfolding last_part
  delay_of_detail detail =
      if bytes_eq (last_part [] detail.type_url) (bytes_of "google.rpc.RetryInfo")
      then delay_of_info (decode_info detail.value)
      else none

  unfoldable pub first_delay_of : List RpcAny → Option ℕ
  first_delay_of [] = none
  first_delay_of (detail ∷ details) = elim (delay_of_detail detail) [
    | none ↦ first_delay_of details
    | some d ↦ some d
  ]

  unfoldable pub delay_of_details : Option (List RpcAny) → Option ℕ
  delay_of_details none = none
  delay_of_details (some details) = first_delay_of details

  unfoldable pub grpc_retry_info : List ℕ → Option ℕ
  grpc_retry_info details = delay_of_details (decode_status details)

  -- The branches on `status.code()`.
  unfoldable pub grpc_delay : Code → Option ℕ → Bool → Option ℕ
  grpc_delay cancelled info transport = some (or_zero info)
  grpc_delay deadline_exceeded info transport = some (or_zero info)
  grpc_delay aborted info transport = some (or_zero info)
  grpc_delay out_of_range info transport = some (or_zero info)
  grpc_delay unavailable info transport = some (or_zero info)
  grpc_delay data_loss info transport = some (or_zero info)
  grpc_delay resource_exhausted info transport = info
  grpc_delay unknown info transport = if transport then some 0 else none
  grpc_delay internal info transport = if transport then some 0 else none
  grpc_delay _ info transport = none

  unfoldable pub retry_delay : ExportError → Option ℕ
  retry_delay (http_failure status retry_after) =
      if is_retryable_status status then some (or_zero retry_after) else none
  retry_delay (grpc_status code details transport) =
      grpc_delay code (grpc_retry_info details) transport
  retry_delay reqwest_error = some 0
  retry_delay other_error = none
