-- ===== src/Sink/Retention/Names.antt =====
-- The names of the daily files are recognised, and no other name is.
use otel_logger.Prelude.{
  strip_prefix, ℕ, ◌-◌, ◌≡◌, refl, sym, ◌∙◌, ap, subst, Option, none, some, List, [], ◌∷◌, ◌++◌,
  append_assoc, Bool, true, false, ◌&&◌, ◌==◌, leb, Bool-cases, Option-cases, inl, inr, arith,
  length, take, drop, length-append, take-append, drop-append, bytes_of, bytes_eq, bytes_eq_refl,
  eq_of_bytes_eq, take-append-drop,
}
use otel_logger.Storage.Daily.{NaiveDate, file_name}
use otel_logger.Sink.Retention.{
  Name, rotation_prefix, pretty_log_prefix, pretty_log_suffix, DailyLogKind, strip_suffix,
  then_strip, dot, is_ascii_digit, all_digits, Calendar, is_calendar_date, kind_if, jsonl_kind,
  kind_of, daily_log_kind,
}

some-injective {ℓ} : {A : Type ℓ} {a b : A} → ◌≡◌ {A = Option A} (some a) (some b) → a ≡ b
some-injective {A} {a} {b} h = cc

none-some {ℓ} : {A : Type ℓ} (a : A) → ◌≡◌ {A = Option A} none (some a) → ⊥
none-some a h = cc

and_right : (a b : Bool) → (a && b) ≡ true → b ≡ true
and_right true b h = h
and_right false b h = cc

strip_prefix-append : (p s : Name) → strip_prefix p (p ++ s) ≡ some s
unfolding strip_prefix
strip_prefix-append [] s = refl
strip_prefix-append (c ∷ p) s =
    let same : (c == c) ≡ true = ground arith in rw same (strip_prefix-append p s)

strip_suffix-append : (p s : Name) → strip_suffix p (s ++ p) ≡ some s
unfolding strip_suffix
strip_suffix-append p s =
    let n : length (s ++ p) - length p ≡ length s = rw (length-append s p) (omega arith) in
    let fits : leb (length p) (length (s ++ p)) ≡ true = rw (length-append s p) (ground arith) in
    rw (fits, n, drop-append s p, bytes_eq_refl p, take-append s p) refl

strip_prefix_sound : (p s t : Name) → strip_prefix p s ≡ some t → s ≡ p ++ t
unfolding strip_prefix
strip_prefix_sound [] s t h = ground arith
strip_prefix_sound (c ∷ p) [] t h = cc
strip_prefix_sound (c ∷ p) (d ∷ s) t h = elim (Bool-cases (c == d)) [
  | inl e ↦ let same : d ≡ c = ground arith in rw (same, strip_prefix_sound p s t (rw e at h)) refl
  | inr e ↦ absurd (ground arith)
]

strip_suffix_sound : (p s t : Name) → strip_suffix p s ≡ some t → s ≡ t ++ p
unfolding strip_suffix
strip_suffix_sound p s t h =
    let n = length s - length p in
    elim (Bool-cases (leb (length p) (length s) && bytes_eq (drop n s) p)) [
      | inl e ↦
          let taken : take n s ≡ t = some-injective (rw e at h) in
          let end : drop n s ≡ p = eq_of_bytes_eq (drop n s) p (and_right _ _ e) in
          sym (take-append-drop n s) ∙ rw (taken, end) refl
      | inr e ↦ absurd (none-some t (rw e at h))
    ]

-- What two steps of stripping found.
then_strip-cases :
    (f : Name → Option Name) (o : Option Name) (t : Name)
    → then_strip f o ≡ some t
    → (s : Name) × (o ≡ some s) × (f s ≡ some t)
unfolding then_strip
then_strip-cases f none t h = cc
then_strip-cases f (some s) t h = (s, refl, h)

-- The name of a daily file.
abbrev pub name_of : DailyLogKind → Name → Name
name_of DailyLogKind.jsonl date = rotation_prefix ++ (dot ++ date)
name_of DailyLogKind.pretty date =
    pretty_log_prefix ++ (dot ++ (date ++ (dot ++ pretty_log_suffix)))

abbrev pretty_date : Name → Option Name
pretty_date name = then_strip (strip_suffix dot) (
    then_strip (strip_suffix pretty_log_suffix)
      (then_strip (strip_prefix dot) (strip_prefix pretty_log_prefix name)))

abbrev jsonl_date : Name → Option Name
jsonl_date name = then_strip (strip_prefix dot) (strip_prefix rotation_prefix name)

pretty_date_sound :
    (name date : Name) → pretty_date name ≡ some date → name ≡ name_of DailyLogKind.pretty date
pretty_date_sound name date h =
    let (a, ha, fa) =
      then_strip-cases (strip_suffix dot)
        (then_strip (strip_suffix pretty_log_suffix)
          (then_strip (strip_prefix dot) (strip_prefix pretty_log_prefix name)))
        date h in
    let (b, hb, fb) =
      then_strip-cases (strip_suffix pretty_log_suffix)
        (then_strip (strip_prefix dot) (strip_prefix pretty_log_prefix name)) a ha in
    let (d, hd, fd) =
      then_strip-cases (strip_prefix dot) (strip_prefix pretty_log_prefix name) b hb in
    let p1 = strip_prefix_sound pretty_log_prefix name d hd in
    let p2 = strip_prefix_sound dot d b fd in
    let p3 = strip_suffix_sound pretty_log_suffix b a fb in
    let p4 = strip_suffix_sound dot a date fa in
    p1
    ∙ ap (λ x. pretty_log_prefix ++ x)
        (p2
          ∙ ap (λ x. dot ++ x)
              (p3 ∙ ap (λ x. x ++ pretty_log_suffix) p4 ∙ append_assoc date dot pretty_log_suffix))

jsonl_date_sound :
    (name date : Name) → jsonl_date name ≡ some date → name ≡ name_of DailyLogKind.jsonl date
jsonl_date_sound name date h =
    let (d, hd, fd) =
      then_strip-cases (strip_prefix dot) (strip_prefix rotation_prefix name) date h in
    strip_prefix_sound rotation_prefix name d hd
    ∙ ap (λ x. rotation_prefix ++ x) (strip_prefix_sound dot d date fd)

pretty_of_pretty : (t : Name) → pretty_date (name_of DailyLogKind.pretty t) ≡ some t
unfolding then_strip
pretty_of_pretty t =
    let tail = t ++ (dot ++ pretty_log_suffix) in
    rw
      (
        strip_prefix-append pretty_log_prefix (dot ++ tail),
        strip_prefix-append dot tail,
        sym (append_assoc t dot pretty_log_suffix),
        strip_suffix-append pretty_log_suffix (t ++ dot),
      )
      (strip_suffix-append dot t)

module _ (cal : Calendar) where
  -- A date starts with a digit.
  dates_apart :
      (d : Name)
      → is_calendar_date cal d ≡ true
      → strip_prefix (bytes_of ".pretty") (dot ++ d) ≡ none
  unfolding is_calendar_date strip_prefix all_digits is_ascii_digit
  dates_apart [] h = refl
  dates_apart (c ∷ d) h = let other : (112 == c) ≡ false = ground arith in rw other refl

  pretty_of_jsonl :
      (t : Name) → is_calendar_date cal t ≡ true → pretty_date (name_of DailyLogKind.jsonl t) ≡ none
  unfolding strip_prefix then_strip
  pretty_of_jsonl t h = rw (dates_apart t h) refl

  abbrev IsNameOf : Name → DailyLogKind → Type 0
  IsNameOf name k = (date : Name) × (is_calendar_date cal date ≡ true) × (name ≡ name_of k date)

  kind_if_sound :
      (k k' : DailyLogKind) (name date : Name)
      → name ≡ name_of k date
      → kind_if cal k date ≡ some k'
      → IsNameOf name k'
  unfolding kind_if
  kind_if_sound k k' name date p h = elim (Bool-cases (is_calendar_date cal date)) [
    | inl e ↦ let q : k ≡ k' = some-injective (rw e at h) in subst (IsNameOf name) q (date, e, p)
    | inr e ↦ absurd (none-some k' (rw e at h))
  ]

  -- A name that is taken for a daily file's is that of a file of its kind at a date of the calendar.
  pub daily_log_kind_sound :
      (name : Name) (k : DailyLogKind)
      → daily_log_kind cal name ≡ some k
      → (date : Name) × (is_calendar_date cal date ≡ true) × (name ≡ name_of k date)
  unfolding daily_log_kind kind_of jsonl_kind
  daily_log_kind_sound name k h = elim (Option-cases (pretty_date name)) [
    | inr (date, e) ↦
        kind_if_sound DailyLogKind.pretty k name date (pretty_date_sound name date e) (rw e at h)
    | inl e ↦ elim (Option-cases (jsonl_date name)) [
      | inr (date, e') ↦
          kind_if_sound DailyLogKind.jsonl k name date (jsonl_date_sound name date e')
            (rw (e, e') at h)
      | inl e' ↦ absurd (none-some k (rw (e, e') at h))
    ]
  ]

  module _ (date_text : NaiveDate → List ℕ) where
    -- While the date's text is a date of the calendar, the name that the writer gives to the JSONL
    -- file of the date is taken for a JSONL file's, and the name of the human-readable file for
    -- that of one.
    pub daily_log_kind-file_name :
        (d : NaiveDate)
        → is_calendar_date cal (date_text d) ≡ true
        → (daily_log_kind cal (file_name date_text rotation_prefix none d)
            ≡ some DailyLogKind.jsonl)
          × (daily_log_kind cal (file_name date_text pretty_log_prefix (some pretty_log_suffix) d)
              ≡ some DailyLogKind.pretty)
    unfolding daily_log_kind kind_of jsonl_kind kind_if file_name then_strip
    daily_log_kind-file_name d h =
        let t = date_text d in (rw (pretty_of_jsonl t h, h) refl, rw (pretty_of_pretty t, h) refl)
