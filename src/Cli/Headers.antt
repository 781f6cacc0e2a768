-- ===== src/Cli/Headers.antt =====
-- `merge_cli_headers`, `resolve_headers`, `validate_header_key` and `validate_header_value` of
-- src/cli.rs. A text is the list of its characters' codes.
pub mod Merged
pub mod Resolved
use otel_logger.Prelude.{
  ℕ, ◌+◌, Option, none, some, List, [], ◌∷◌, ◌++◌, map, Bool, true, false, not, ◌&&◌, ◌||◌, ◌==◌,
  leb, ltb, if◌then◌else◌, bytes_of, bytes_eq, strip_prefix, to_lower, eq_ignore_ascii_case, Result,
  ok, err,
}
use otel_logger.Prelude.Maps.{Entries, insert}

abbrev pub Text : Type 0
Text = List ℕ

abbrev pub Headers : Type 0
Headers = Entries Text Text

-- What is wrong with a header: its number or a position, where the message names one.
pub data HeaderError : Type 0 where
  no_equals empty_cli_key : ℕ → HeaderError
  empty_key reserved_key duplicate_header env_not_present env_not_unicode : HeaderError
  invalid_character line_break control_character : ℕ → HeaderError

-- `is_ascii_graphic`, and the separators.
abbrev pub separators : Text
separators = bytes_of "(),/:;<=>?@[\\]{}\""

unfoldable pub contains_char : Text → ℕ → Bool
contains_char [] c = false
contains_char (x ∷ xs) c = (x == c) || contains_char xs c

unfoldable pub is_tchar : ℕ → Bool
unfolding contains_char
is_tchar c = (leb 33 c && leb c 126) && not (contains_char separators c)

-- The loop over the characters of a key, from a position on.
unfoldable pub check_characters : ℕ → Text → Result HeaderError (Unit {0})
check_characters position [] = ok tt
check_characters position (c ∷ s) =
    let rest = check_characters (position + 1) s in
    if is_tchar c then rest else err (invalid_character position)

abbrev pub disallowed_keys : List Text
disallowed_keys = bytes_of "host" ∷ bytes_of "content-length" ∷ bytes_of "transfer-encoding" ∷ []

unfoldable pub is_listed : List Text → Text → Bool
is_listed [] key = false
is_listed (k ∷ ks) key = bytes_eq k key || is_listed ks key

unfoldable pub to_ascii_lowercase : Text → Text
unfolding to_lower
to_ascii_lowercase [] = []
to_ascii_lowercase (c ∷ s) = to_lower c ∷ to_ascii_lowercase s

unfoldable pub check_reserved : Text → Result HeaderError (Unit {0}) → Result HeaderError (Unit {0})
unfolding is_listed to_ascii_lowercase
check_reserved key (err e) = err e
check_reserved key (ok _) =
    if is_listed disallowed_keys (to_ascii_lowercase key) then err reserved_key else ok tt

unfoldable pub validate_header_key : Text → Result HeaderError (Unit {0})
unfolding check_characters check_reserved
validate_header_key [] = err empty_key
validate_header_key (c ∷ s) = check_reserved (c ∷ s) (check_characters 0 (c ∷ s))

-- `char::is_control`
unfoldable pub is_control : ℕ → Bool
is_control c = ltb c 32 || (leb 127 c && leb c 159)

unfoldable pub check_value : ℕ → Text → Result HeaderError (Unit {0})
unfolding is_control
check_value idx [] = ok tt
check_value idx (c ∷ s) =
    let rest = check_value (idx + 1) s in
    if (c == 10) || (c == 13)
    then err (line_break idx)
    else if (is_control c && not (c == 9)) || (c == 0)
    then err (control_character idx)
    else rest

unfoldable pub validate_header_value : Text → Result HeaderError (Unit {0})
unfolding check_value
validate_header_value v = check_value 0 v

-- `split_once('=')`
unfoldable pub in_front : ℕ → Option (Text × Text) → Option (Text × Text)
in_front c none = none
in_front c (some (k, v)) = some (c ∷ k, v)

unfoldable pub split_once_equals : Text → Option (Text × Text)
unfolding in_front
split_once_equals [] = none
split_once_equals (c ∷ s) =
    let rest = in_front c (split_once_equals s) in if c == b'=' then some ([], s) else rest

-- `dest.retain(|existing, _| !existing.eq_ignore_ascii_case(key))`
unfoldable pub retain_other : Text → Headers → Headers
retain_other key [] = []
retain_other key ((k, v) ∷ m) =
    let rest = retain_other key m in if eq_ignore_ascii_case k key then rest else (k, v) ∷ rest

unfoldable pub override : Text → Text → Headers → Headers
unfolding retain_other to_ascii_lowercase
override key value dest = insert bytes_eq (to_ascii_lowercase key) value (retain_other key dest)

-- What a variable of the environment holds (`std::env::var`).
pub data EnvVar : Type 0 where
  present : Text → EnvVar
  not_present not_unicode : EnvVar

unfoldable pub and_merge :
    (Headers → Result HeaderError Headers) → Result HeaderError Headers → Result HeaderError Headers
and_merge f (err e) = err e
and_merge f (ok dest) = f dest

module _ (trim : Text → Text) where
  -- A round of `merge_cli_headers`; `trim` is `str::trim`.
  unfoldable pub merge_entry : ℕ → Option (Text × Text) → Headers → Result HeaderError Headers
  unfolding override
  merge_entry position none dest = err (no_equals position)
  merge_entry position (some (key, v)) dest = elim (trim key) [
    | [] ↦ err (empty_cli_key position)
    | c ∷ s ↦ ok (override (c ∷ s) v dest)
  ]

  unfoldable pub merge_from : ℕ → List Text → Headers → Result HeaderError Headers
  unfolding merge_entry and_merge
  merge_from position [] dest = ok dest
  merge_from position (entry ∷ entries) dest =
      and_merge (merge_from (position + 1) entries)
        (merge_entry position (split_once_equals entry) dest)

  unfoldable pub merge_cli_headers : List Text → Headers → Result HeaderError Headers
  unfolding merge_from
  merge_cli_headers entries dest = merge_from 1 entries dest

unfoldable pub from_env : EnvVar → Result HeaderError Text
from_env (present v) = ok v
from_env not_present = err env_not_present
from_env not_unicode = err env_not_unicode

unfoldable pub is_resolved : Text → Headers → Bool
is_resolved key [] = false
is_resolved key ((k, v) ∷ m) = bytes_eq k key || is_resolved key m

-- A round of the loop of `resolve_headers`, check by check.
unfoldable pub push_checked :
    Text → Text → Headers → Result HeaderError (Unit {0}) → Result HeaderError Headers
push_checked key v resolved (err e) = err e
push_checked key v resolved (ok _) = ok (resolved ++ ((key, v) ∷ []))

unfoldable pub push_value : Text → Headers → Result HeaderError Text → Result HeaderError Headers
unfolding push_checked
push_value key resolved (err e) = err e
push_value key resolved (ok v) = push_checked key v resolved (validate_header_value v)

unfoldable pub and_resolve :
    (Headers → Result HeaderError Headers) → Result HeaderError Headers → Result HeaderError Headers
and_resolve f (err e) = err e
and_resolve f (ok resolved) = f resolved

module _ (env_var : Text → EnvVar) where
  unfoldable pub from_reference : Text → Option Text → Result HeaderError Text
  unfolding from_env
  from_reference v (some var) = from_env (env_var var)
  from_reference v none = ok v

  unfoldable pub final_value : Text → Result HeaderError Text
  unfolding from_reference
  final_value v = from_reference v (strip_prefix (bytes_of "env:") v)

  unfoldable pub push_header :
      Text → Text → Headers → Result HeaderError (Unit {0}) → Result HeaderError Headers
  unfolding push_value final_value is_resolved
  push_header key v resolved (err e) = err e
  push_header key v resolved (ok _) =
      let lower = to_ascii_lowercase key in
      let pushed = push_value lower resolved (final_value v) in
      if is_resolved lower resolved then err duplicate_header else pushed

  unfoldable pub resolve_from : Headers → Headers → Result HeaderError Headers
  unfolding push_header and_resolve
  resolve_from [] resolved = ok resolved
  resolve_from ((key, v) ∷ raw) resolved =
      and_resolve (resolve_from raw) (push_header key v resolved (validate_header_key key))

  unfoldable pub resolve_headers : Headers → Result HeaderError Headers
  unfolding resolve_from
  resolve_headers raw = resolve_from raw []
