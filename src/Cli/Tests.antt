-- ===== src/Cli/Tests.antt =====
-- Headers with a secret from the environment.
use otel_logger.Prelude.{
  ◌≡◌, refl, [], ◌∷◌, some, ok, bytes_of, bytes_eq, strip_prefix, to_lower, eq_ignore_ascii_case,
}
use otel_logger.Cli.Headers.{
  Text, Headers, EnvVar, present, resolve_headers, resolve_from, push_header, push_value,
  push_checked, and_resolve, validate_header_key, check_reserved, check_characters, is_tchar,
  contains_char, is_listed, to_ascii_lowercase, validate_header_value, check_value, is_control,
  final_value, from_reference, from_env, is_resolved, merge_cli_headers, merge_from, merge_entry,
  and_merge, split_once_equals, in_front, override, retain_other,
}
use otel_logger.Cli.Headers.Resolved.{IsSafe, resolve_headers-IsSafe}
use otel_logger.Cli.Headers.Merged.{IsSole, merge_cli_headers-IsSole}
use otel_logger.Prelude.Maps.{insert, upsert}

abbrev secret : Text → EnvVar
secret name = present (bytes_of "t0k")

abbrev configured : Headers
configured = (bytes_of "X-Team", bytes_of "a b") ∷ (bytes_of "Authorization", bytes_of "env:T") ∷ []

abbrev on_wire : Headers
on_wire = (bytes_of "x-team", bytes_of "a b") ∷ (bytes_of "authorization", bytes_of "t0k") ∷ []

configured_resolved : resolve_headers secret configured ≡ ok on_wire
unfolding resolve_headers resolve_from push_header push_value push_checked and_resolve
    validate_header_key check_reserved check_characters is_tchar contains_char is_listed
    to_ascii_lowercase validate_header_value check_value is_control final_value from_reference
    from_env is_resolved bytes_eq strip_prefix to_lower
configured_resolved = refl

resolve_headers-IsSafe_example : IsSafe on_wire
resolve_headers-IsSafe_example =
    resolve_headers-IsSafe secret configured on_wire configured_resolved

option_split :
    split_once_equals (bytes_of "AUTHORIZATION=x=y")
    ≡ some (bytes_of "AUTHORIZATION", bytes_of "x=y")
unfolding split_once_equals in_front
option_split = refl

-- An option takes the place of a header of the file, however that is written.
option_wins :
    merge_cli_headers
      (λ s. s)
      (bytes_of "AUTHORIZATION=x=y" ∷ [])
      ((bytes_of "Authorization", bytes_of "env:T") ∷ [])
    ≡ ok ((bytes_of "authorization", bytes_of "x=y") ∷ [])
unfolding merge_cli_headers merge_from merge_entry and_merge split_once_equals in_front override
    retain_other to_ascii_lowercase to_lower eq_ignore_ascii_case insert upsert
option_wins = refl

merge_cli_headers-IsSole_example :
    IsSole
      (bytes_of "AUTHORIZATION")
      (bytes_of "x=y")
      ((bytes_of "authorization", bytes_of "x=y") ∷ [])
merge_cli_headers-IsSole_example =
    merge_cli_headers-IsSole (λ s. s) b'A' (bytes_of "UTHORIZATION") (bytes_of "x=y") []
      (bytes_of "AUTHORIZATION=x=y") ((bytes_of "Authorization", bytes_of "env:T") ∷ [])
      ((bytes_of "authorization", bytes_of "x=y") ∷ [])
      (bytes_of "AUTHORIZATION", option_split, refl) option_wins
