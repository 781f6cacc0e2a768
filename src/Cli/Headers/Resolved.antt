-- ===== src/Cli/Headers/Resolved.antt =====
-- The headers that are sent upstream cannot break out of their lines, and stand once.
use otel_logger.Prelude.{
  ℕ, ◌+◌, ◌≡◌, refl, subst, [], ◌∷◌, ◌++◌, Bool, true, false, not, ◌&&◌, ◌||◌, ◌==◌, bytes_eq,
  bytes_eq_refl, eq_of_bytes_eq, to_lower, Bool-cases, inl, inr, Result, ok, err, Result-cases,
  err_ok, of_ok, arith,
}
use otel_logger.Cli.Headers.{
  Text, Headers, HeaderError, contains_char, is_tchar, check_characters, disallowed_keys, is_listed,
  to_ascii_lowercase, check_reserved, validate_header_key, is_control, check_value,
  validate_header_value, EnvVar, final_value, is_resolved, push_checked, push_value, push_header,
  and_resolve, resolve_from, resolve_headers,
}

-- A test of every character.
unfoldable pub all_of : (ℕ → Bool) → Text → Bool
all_of p [] = true
all_of p (c ∷ s) = p c && all_of p s

-- No control character but a tab.
unfoldable pub is_plain : ℕ → Bool
unfolding is_control
is_plain c = not (is_control c) || (c == 9)

check_characters-all_of :
    (n : ℕ) (s : Text) → check_characters n s ≡ ok tt → all_of is_tchar s ≡ true
unfolding check_characters all_of
check_characters-all_of n [] h = refl
check_characters-all_of n (c ∷ s) h = elim (Bool-cases (is_tchar c)) [
  | inl e ↦ rw e (check_characters-all_of (n + 1) s (rw e at h))
  | inr e ↦ absurd (err_ok (rw e at h))
]

check_value-all_of : (n : ℕ) (s : Text) → check_value n s ≡ ok tt → all_of is_plain s ≡ true
unfolding check_value all_of is_plain
check_value-all_of n [] h = refl
check_value-all_of n (c ∷ s) h = elim (Bool-cases ((c == 10) || (c == 13))) [
  | inl e ↦ absurd (err_ok (rw e at h))
  | inr e ↦ elim (Bool-cases ((is_control c && not (c == 9)) || (c == 0))) [
    | inl e' ↦ absurd (err_ok (rw (e, e') at h))
    | inr e' ↦
        let here : (not (is_control c) || (c == 9)) ≡ true = ground arith in
        rw here (check_value-all_of (n + 1) s (rw (e, e') at h))
  ]
]

tchar-to_lower : (c : ℕ) → is_tchar c ≡ true → is_tchar (to_lower c) ≡ true
unfolding is_tchar contains_char to_lower
tchar-to_lower c h = ground arith

tchars-lower : (s : Text) → all_of is_tchar s ≡ true → all_of is_tchar (to_ascii_lowercase s) ≡ true
unfolding all_of to_ascii_lowercase
tchars-lower [] h = refl
tchars-lower (c ∷ s) h = elim (Bool-cases (is_tchar c)) [
  | inl e ↦ rw (tchar-to_lower c e) (tchars-lower s (rw e at h))
  | inr e ↦ absurd (ground arith)
]

-- Each header is safe to send, and no name stands twice.
abbrev pub IsSafe : Headers → Type 0
IsSafe [] = Unit
IsSafe ((k, v) ∷ m) =
    ((all_of is_tchar k ≡ true)
      × (is_listed disallowed_keys k ≡ false)
      × (all_of is_plain v ≡ true)
      × (is_resolved k m ≡ false))
    × IsSafe m

is_resolved-append :
    (j k : Text) (v : Text) (m : Headers)
    → is_resolved j m ≡ false
    → bytes_eq k j ≡ false
    → is_resolved j (m ++ ((k, v) ∷ [])) ≡ false
unfolding is_resolved
is_resolved-append j k v [] h o = rw o refl
is_resolved-append j k v ((i, w) ∷ m) h o = elim (Bool-cases (bytes_eq i j)) [
  | inl e ↦ absurd (ground arith)
  | inr e ↦ rw e (is_resolved-append j k v m (rw e at h) o)
]

apart : (j k : Text) → bytes_eq j k ≡ false → bytes_eq k j ≡ false
apart j k o = elim (Bool-cases (bytes_eq k j)) [
  | inl e ↦
      let p = eq_of_bytes_eq k j e in
      let q : bytes_eq j k ≡ true = rw p (bytes_eq_refl j) in absurd (ground arith)
  | inr e ↦ e
]

IsSafe-append :
    (k v : Text) (m : Headers)
    → all_of is_tchar k ≡ true
    → is_listed disallowed_keys k ≡ false
    → all_of is_plain v ≡ true
    → is_resolved k m ≡ false
    → IsSafe m
    → IsSafe (m ++ ((k, v) ∷ []))
unfolding is_resolved
IsSafe-append k v [] a b c o h = ((a, b, c, refl), tt)
IsSafe-append k v ((j, w) ∷ m) a b c o h =
    let (x, y, z, u) = h.0 in
    elim (Bool-cases (bytes_eq j k)) [
      | inl e ↦ absurd (ground arith)
      | inr e ↦ (
        (x, y, z, unfold is_resolved in is_resolved-append j k v m u (apart j k e)),
        IsSafe-append k v m a b c (rw e at o) h.1,
      )
    ]

-- What is known of a key that passed.
key_checked :
    (key : Text) (u : Unit {0})
    → validate_header_key key ≡ ok u
    → (all_of is_tchar key ≡ true) × (is_listed disallowed_keys (to_ascii_lowercase key) ≡ false)
unfolding validate_header_key check_reserved
key_checked [] u h = absurd (err_ok h)
key_checked (c ∷ s) u h = elim (Result-cases (check_characters 0 (c ∷ s))) [
  | inr (e, q) ↦ absurd (err_ok (rw q at h))
  | inl (w, q) ↦ elim (Bool-cases (is_listed disallowed_keys (to_ascii_lowercase (c ∷ s)))) [
    | inl e ↦ absurd (err_ok (rw (q, e) at h))
    | inr e ↦ (check_characters-all_of 0 (c ∷ s) q, e)
  ]
]

push_value-IsSafe :
    (k : Text) (m : Headers) (r : Result HeaderError Text) (out : Headers)
    → all_of is_tchar k ≡ true
    → is_listed disallowed_keys k ≡ false
    → is_resolved k m ≡ false
    → IsSafe m
    → push_value k m r ≡ ok out
    → IsSafe out
unfolding push_value push_checked validate_header_value
push_value-IsSafe k m (err e) out a b o s h = absurd (err_ok h)
push_value-IsSafe k m (ok v) out a b o s h = elim (Result-cases (check_value 0 v)) [
  | inr (e, q) ↦ absurd (err_ok (rw q at h))
  | inl (w, q) ↦
      subst IsSafe (of_ok (rw q at h)) (IsSafe-append k v m a b (check_value-all_of 0 v q) o s)
]

module _ (env_var : Text → EnvVar) where
  push_header-IsSafe :
      (k v : Text) (m out : Headers)
      → IsSafe m
      → push_header env_var k v m (validate_header_key k) ≡ ok out
      → IsSafe out
  unfolding push_header
  push_header-IsSafe k v m out s h = elim (Result-cases (validate_header_key k)) [
    | inr (e, q) ↦ absurd (err_ok (rw q at h))
    | inl (w, q) ↦
        let lower = to_ascii_lowercase k in
        let checked = key_checked k w q in
        elim (Bool-cases (is_resolved lower m)) [
          | inl e ↦ absurd (err_ok (rw (q, e) at h))
          | inr e ↦
              push_value-IsSafe lower m (final_value env_var v) out (tchars-lower k checked.0)
                checked.1 e s (rw (q, e) at h)
        ]
  ]

  resolve_from-IsSafe :
      (raw m out : Headers) → IsSafe m → resolve_from env_var raw m ≡ ok out → IsSafe out
  unfolding resolve_from and_resolve
  resolve_from-IsSafe [] m out s h = subst IsSafe (of_ok h) s
  resolve_from-IsSafe ((k, v) ∷ raw) m out s h =
      elim (Result-cases (push_header env_var k v m (validate_header_key k))) [
        | inr (e, q) ↦ absurd (err_ok (rw q at h))
        | inl (m', q) ↦ resolve_from-IsSafe raw m' out (push_header-IsSafe k v m m' s q) (rw q at h)
      ]

  -- Headers that are resolved, their values from the environment included: each name consists of
  -- the characters of a token and is none that the transfer needs, each value holds no control
  -- character but tabs, and no name stands twice.
  pub resolve_headers-IsSafe :
      (raw out : Headers) → resolve_headers env_var raw ≡ ok out → IsSafe out
  unfolding resolve_headers
  resolve_headers-IsSafe raw out h = resolve_from-IsSafe raw [] out tt h
