-- ===== src/Format/Quote/Reading.antt =====
-- A reader of what `quote_for_pretty` prints, and that it gives the text back.
use otel_logger.Prelude.{
  ℕ, ◌+◌, ◌*◌, ◌^◌, ◌-◌, ◌/◌, ◌%◌, ◌<◌, ◌≡◌, refl, ◌∙◌, ap, Option, none, some, [], ◌∷◌, ◌++◌,
  append_assoc, Bool, true, false, ◌==◌, ltb, if◌then◌else◌, Bool-cases, inl, inr, arith,
}
use otel_logger.Format.Quote.{
  Chars, needs_escape, forces_quote, any_forces, needs_quote, hex_digit, hex4, quote_char,
  quote_chars, quote_for_pretty,
}

-- Where a reader stands: in the text, behind a backslash, behind `\u`, in the digits of a code, or
-- behind the closing quote.
pub data Mode : Type 0 where
  text escape unicode closed bad : Mode
  digits : ℕ → Mode

digit_value : ℕ → ℕ
digit_value c = if ltb c 58 then c - 48 else c - 87

after_escape : ℕ → Mode
after_escape c = if c == b'u' then unicode else text

after : Mode → ℕ → Mode
unfolding digit_value after_escape
after text c = if c == b'"' then closed else if c == b'\\' then escape else text
after escape c = after_escape c
after unicode c = if c == b'{' then digits 0 else bad
after (digits n) c = if c == b'}' then text else digits (n * 16 + digit_value c)
after closed c = bad
after bad c = bad

meaning : ℕ → Chars
meaning c =
    if c == b'n'
    then 10 ∷ []
    else if c == b'r'
    then 13 ∷ []
    else if c == b't'
    then 9 ∷ []
    else if c == b'u'
    then []
    else c ∷ []

read_char : Mode → ℕ → Chars
unfolding meaning
read_char text c = if c == b'"' then [] else if c == b'\\' then [] else c ∷ []
read_char escape c = meaning c
read_char (digits n) c = if c == b'}' then n ∷ [] else []
read_char _ c = []

before : Chars → Option Chars → Option Chars
before s none = none
before s (some t) = some (s ++ t)

-- The characters up to the closing quote, which is to be the last.
unfoldable pub read : Mode → Chars → Option Chars
unfolding after read_char before
read closed [] = some []
read _ [] = none
read m (c ∷ s) = before (read_char m c) (read (after m c) s)

-- What a text was before `quote_for_pretty`.
unfoldable pub unquote : Chars → Option Chars
unquote [] = none
unquote (c ∷ s) = if c == b'"' then read text s else some (c ∷ s)

before-nil : (o : Option Chars) → before [] o ≡ o
unfolding before
before-nil none = refl
before-nil (some t) = refl

digit-hex_digit : (d : ℕ) → d < 16 → digit_value (hex_digit d) ≡ d
unfolding digit_value hex_digit
digit-hex_digit d h = ground arith

no_brace : (d : ℕ) → d < 16 → (hex_digit d == b'}') ≡ false
unfolding hex_digit
no_brace d h = ground arith

read_digit :
    (n d : ℕ) (s : Chars)
    → d < 16
    → read (digits n) (hex_digit d ∷ s) ≡ read (digits (n * 16 + d)) s
unfolding read after read_char
read_digit n d s h =
    rw (no_brace d h, digit-hex_digit d h) (before-nil (read (digits (n * 16 + d)) s))

-- A character that needs an escape has four digits.
short : (c : ℕ) → needs_escape c ≡ true → c < 16 ^ 4
unfolding needs_escape
short c h = ground arith

read-hex4 :
    (c : ℕ) (s : Chars)
    → c < 16 ^ 4
    → read (digits 0) (hex4 c ++ (b'}' ∷ s)) ≡ before (c ∷ []) (read text s)
unfolding hex4
read-hex4 c s h =
    let tail = b'}' ∷ s in
    let three = hex_digit (c % 16) ∷ tail in
    let two = hex_digit (c / 16 % 16) ∷ three in
    let one = hex_digit (c / 256 % 16) ∷ two in
    let a = 0 * 16 + c / 4096 % 16 in
    let b = a * 16 + c / 256 % 16 in
    let d = b * 16 + c / 16 % 16 in
    let whole : d * 16 + c % 16 ≡ c = omega arith in
    read_digit 0 (c / 4096 % 16) one (omega arith)
    ∙ read_digit a (c / 256 % 16) two (omega arith)
    ∙ read_digit b (c / 16 % 16) three (omega arith)
    ∙ read_digit d (c % 16) tail (omega arith)
    ∙ ap (λ n. read (digits n) tail) whole
    ∙ (unfold read after read_char in refl)

-- A text is read as a character.
abbrev ReadAs : ℕ → Chars → Chars → Type 0
ReadAs c s t = read text (t ++ s) ≡ before (c ∷ []) (read text s)

on_test :
    (c : ℕ) (s : Chars) (b : Bool) (t t' : Chars)
    → ((b ≡ true) → ReadAs c s t)
    → ((b ≡ false) → ReadAs c s t')
    → ReadAs c s (if b then t else t')
on_test c s true t t' h h' = h refl
on_test c s false t t' h h' = h' refl

-- A backslash and a letter are read as what the letter stands for.
read_escape :
    (c k x : ℕ) (s : Chars)
    → meaning x ≡ k ∷ []
    → after_escape x ≡ text
    → (c == k) ≡ true
    → ReadAs c s (b'\\' ∷ x ∷ [])
unfolding read after read_char
read_escape c k x s m a e =
    let p : c ≡ k = ground arith in rw (a, m, p) (before-nil (before (k ∷ []) (read text s)))

read_plain : (c : ℕ) (s : Chars) → (c == b'"') ≡ false → (c == b'\\') ≡ false → ReadAs c s (c ∷ [])
unfolding read after read_char
read_plain c s q e = rw (q, e) refl

read_unicode :
    (c : ℕ) (s : Chars)
    → needs_escape c ≡ true
    → ReadAs c s (b'\\' ∷ b'u' ∷ b'{' ∷ (hex4 c ++ (b'}' ∷ [])))
unfolding read after read_char after_escape meaning
read_unicode c s e = rw (append_assoc (hex4 c) (b'}' ∷ []) s) (
    before-nil _
    ∙ before-nil _
    ∙ before-nil _
    ∙ (unfold read after read_char in read-hex4 c s (short c e)))

read-quote_char :
    (c : ℕ) (s : Chars) → read text (quote_char c ++ s) ≡ before (c ∷ []) (read text s)
unfolding quote_char meaning after_escape
read-quote_char c s = on_test c s (c == b'\\') _ _ (read_escape c b'\\' b'\\' s refl refl) (λ b.
    on_test c s (c == b'"') _ _ (read_escape c b'"' b'"' s refl refl) (λ q.
      on_test c s (c == 10) _ _ (read_escape c 10 b'n' s refl refl) (λ _.
        on_test c s (c == 13) _ _ (read_escape c 13 b'r' s refl refl) (λ _.
          on_test c s (c == 9) _ _ (read_escape c 9 b't' s refl refl) (λ _.
            on_test c s (needs_escape c) _ (c ∷ []) (read_unicode c s)
              (λ _. read_plain c s q b))))))

read-quote_chars : (s : Chars) → read text (quote_chars s ++ (b'"' ∷ [])) ≡ some s
unfolding quote_chars
read-quote_chars [] = unfold read after read_char before in refl
read-quote_chars (c ∷ s) = rw (append_assoc (quote_char c) (quote_chars s) (b'"' ∷ [])) (
    read-quote_char c (quote_chars s ++ (b'"' ∷ []))
    ∙ ap (before (c ∷ [])) (read-quote_chars s)
    ∙ (unfold before in refl))

-- What is printed of a text can be read back, so no two texts are printed alike.
pub unquote-quote_for_pretty : (s : Chars) → unquote (quote_for_pretty s) ≡ some s
unfolding unquote quote_for_pretty needs_quote
unquote-quote_for_pretty [] = read-quote_chars []
unquote-quote_for_pretty (c ∷ s) = elim (Bool-cases (any_forces (c ∷ s))) [
  | inl e ↦ rw e (read-quote_chars (c ∷ s))
  | inr e ↦
      let plain : (c == b'"') ≡ false = unfold any_forces forces_quote in ground arith in
      rw (e, plain) refl
]
