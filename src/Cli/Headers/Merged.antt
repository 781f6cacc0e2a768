-- ===== src/Cli/Headers/Merged.antt =====
-- A header that an option names takes the place of every other of its name.
use otel_logger.Prelude.{
  ℕ, ◌+◌, ◌≡◌, refl, sym, ◌∙◌, subst, some, List, [], ◌∷◌, ◌++◌, true, false, ◌==◌, if◌then◌else◌,
  bytes_eq, bytes_eq_refl, eq_of_bytes_eq, to_lower, eq_ignore_ascii_case, Bool-cases, inl, inr,
  arith, total, ok, Result-cases, err_ok, of_ok,
}
use otel_logger.Prelude.Maps.{lookup, insert, upsert}
use otel_logger.Cli.Headers.{
  Text, Headers, retain_other, to_ascii_lowercase, override, merge_entry, and_merge, merge_from,
  merge_cli_headers, split_once_equals,
}

-- How many headers have a name, however it is written.
abbrev pub named : Text → Headers → ℕ
named key m = total (λ e. if eq_ignore_ascii_case e.0 key then 1 else 0) m

named-retain_other : (key : Text) (m : Headers) → named key (retain_other key m) ≡ 0
unfolding retain_other
named-retain_other key [] = refl
named-retain_other key ((k, v) ∷ m) = elim (Bool-cases (eq_ignore_ascii_case k key)) [
  | inl e ↦ rw e (named-retain_other key m)
  | inr e ↦ rw e (rw e (omega (arith, named-retain_other key m)))
]

lower-same : (key : Text) → eq_ignore_ascii_case (to_ascii_lowercase key) key ≡ true
unfolding eq_ignore_ascii_case to_ascii_lowercase to_lower
lower-same [] = refl
lower-same (c ∷ s) =
    let head : (to_lower (to_lower c) == to_lower c) ≡ true = unfold to_lower in ground arith in
    rw (head, lower-same s) refl

-- A header that is inserted behind others, none of its name.
insert_once :
    (key v : Text) (m : Headers)
    → named key m ≡ 0
    → (lookup bytes_eq (to_ascii_lowercase key) (insert bytes_eq (to_ascii_lowercase key) v m)
        ≡ some v)
      × (named key (insert bytes_eq (to_ascii_lowercase key) v m) ≡ 1)
unfolding insert upsert lookup
insert_once key v [] h =
    (rw (bytes_eq_refl (to_ascii_lowercase key)) refl, rw (lower-same key) refl)
insert_once key v ((k, w) ∷ m) h =
    let lower = to_ascii_lowercase key in
    let other : bytes_eq k lower ≡ false = elim (Bool-cases (bytes_eq k lower)) [
      | inl e ↦
          let p = eq_of_bytes_eq k lower e in
          let q : eq_ignore_ascii_case k key ≡ true = rw p (lower-same key) in
          let n : named key ((k, w) ∷ m) ≡ 1 + named key m = rw q refl in
          absurd (omega (arith, n, h))
      | inr e ↦ e
    ] in
    let apart : eq_ignore_ascii_case k key ≡ false =
      elim (Bool-cases (eq_ignore_ascii_case k key)) [
        | inl q ↦
            let n : named key ((k, w) ∷ m) ≡ 1 + named key m = rw q refl in
            absurd (omega (arith, n, h))
        | inr q ↦ q
      ] in
    let n : named key ((k, w) ∷ m) ≡ 0 + named key m = rw apart refl in
    let (a, b) = insert_once key v m (omega (arith, n, h)) in
    (rw (other, other) a, rw (other, apart) (omega (arith, b)))

-- A header's value at its name in lower case, and no other header of that name.
abbrev pub IsSole : Text → Text → Headers → Type 0
IsSole key v m = (lookup bytes_eq (to_ascii_lowercase key) m ≡ some v) × (named key m ≡ 1)

override-IsSole : (key v : Text) (dest : Headers) → IsSole key v (override key v dest)
unfolding override
override-IsSole key v dest = insert_once key v (retain_other key dest) (named-retain_other key dest)

module _ (trim : Text → Text) (c : ℕ) (s v : Text) where
  -- An entry of the command line that gives the key `c ∷ s` and the value `v`.
  abbrev pub Gives : Text → Type 0
  Gives e = (k : Text) × (split_once_equals e ≡ some (k, v)) × (trim k ≡ c ∷ s)

  merge_entry-IsSole :
      (position : ℕ) (e : Text) (dest out : Headers)
      → Gives e
      → merge_entry trim position (split_once_equals e) dest ≡ ok out
      → IsSole (c ∷ s) v out
  unfolding merge_entry
  merge_entry-IsSole position e dest out (k, p, q) h =
      let one : merge_entry trim position (some (k, v)) dest ≡ ok (override (c ∷ s) v dest) =
        rw (merge_entry, q) refl in
      subst (IsSole (c ∷ s) v) (of_ok (sym one ∙ (rw p at h))) (override-IsSole (c ∷ s) v dest)

  merge_from-IsSole :
      (position : ℕ) (entries : List Text) (e : Text) (dest out : Headers)
      → Gives e
      → merge_from trim position (entries ++ (e ∷ [])) dest ≡ ok out
      → IsSole (c ∷ s) v out
  unfolding merge_from and_merge
  merge_from-IsSole position [] e dest out g h =
      elim (Result-cases (merge_entry trim position (split_once_equals e) dest)) [
        | inr (x, q) ↦ absurd (err_ok (rw q at h))
        | inl (m, q) ↦ merge_entry-IsSole position e dest out g (q ∙ (rw q at h))
      ]
  merge_from-IsSole position (x ∷ entries) e dest out g h =
      elim (Result-cases (merge_entry trim position (split_once_equals x) dest)) [
        | inr (f, q) ↦ absurd (err_ok (rw q at h))
        | inl (m, q) ↦ merge_from-IsSole (position + 1) entries e m out g (rw q at h)
      ]

  -- Whatever options and configured headers are merged, when it succeeds and the last option gives a
  -- name that is not empty behind the trimming: the name in lower case has the value of that option,
  -- and no other header of the name, however it is written, is left.
  pub merge_cli_headers-IsSole :
      (entries : List Text) (e : Text) (dest out : Headers)
      → Gives e
      → merge_cli_headers trim (entries ++ (e ∷ [])) dest ≡ ok out
      → IsSole (c ∷ s) v out
  unfolding merge_cli_headers
  merge_cli_headers-IsSole entries e dest out g h = merge_from-IsSole 1 entries e dest out g h
