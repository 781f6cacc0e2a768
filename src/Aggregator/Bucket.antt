-- ===== src/Aggregator/Bucket.antt =====
-- `Bucket` of src/aggregator.rs and its key.
pub mod Keys
use otel_logger.Prelude.{ℕ, List, [], ◌∷◌, ◌++◌, ◌==◌, if◌then◌else◌, bytes_of}
use otel_logger.Otlp.{Text}

abbrev pub unknown : Text
unknown = bytes_of "unknown"

pub record Bucket : Type 0 where
  pub provider : Text
  pub model : Text
  pub effort : Text

unfoldable pub non_empty : Text → Text
non_empty [] = unknown
non_empty (c ∷ s) = c ∷ s

unfoldable pub from_parts : Text → Text → Text → Bucket
unfolding non_empty
from_parts provider model effort = record {
  provider = non_empty provider;
  model = non_empty model;
  effort = non_empty effort;
}

-- `%` and `/` are single bytes, and bytes of no other character.
unfoldable pub escape_char : ℕ → Text
escape_char c = if c == b'%' then bytes_of "%25" else if c == b'/' then bytes_of "%2F" else c ∷ []

unfoldable pub escape_bucket_component : Text → Text
unfolding escape_char
escape_bucket_component [] = []
escape_bucket_component (c ∷ s) = escape_char c ++ escape_bucket_component s

-- `Bucket::key`
unfoldable pub key : Bucket → Text
unfolding escape_bucket_component
key b =
    escape_bucket_component b.provider
    ++ (b'/' ∷ (escape_bucket_component b.model ++ (b'/' ∷ escape_bucket_component b.effort)))
