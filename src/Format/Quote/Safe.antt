-- ===== src/Format/Quote/Safe.antt =====
-- What is printed holds no character that a terminal obeys.
use otel_logger.Prelude.{
  ℕ, ◌/◌, ◌%◌, ◌≤◌, ◌<◌, ◌≡◌, refl, [], ◌∷◌, ◌++◌, Bool, true, false, ◌==◌, if◌then◌else◌, arith,
}
use otel_logger.Format.Quote.{
  Chars, needs_escape, forces_quote, any_forces, needs_quote, hex_digit, hex4, quote_char,
  quote_chars, quote_for_pretty,
}

-- No character of a text needs an escape.
abbrev pub IsSafe : Chars → Type 0
IsSafe [] = Unit
IsSafe (c ∷ s) = (needs_escape c ≡ false) × IsSafe s

safe_ascii : (c : ℕ) → 32 ≤ c → c ≤ 126 → needs_escape c ≡ false
unfolding needs_escape
safe_ascii c l u = ground arith

safe_digit : (d : ℕ) → d < 16 → needs_escape (hex_digit d) ≡ false
unfolding hex_digit
safe_digit d h = safe_ascii (hex_digit d) (ground arith) (ground arith)

IsSafe-append : (s t : Chars) → IsSafe s → IsSafe t → IsSafe (s ++ t)
IsSafe-append [] t hs ht = ht
IsSafe-append (c ∷ s) t hs ht = (hs.0, IsSafe-append s t hs.1 ht)

IsSafe-hex4 : (c : ℕ) → IsSafe (hex4 c)
unfolding hex4
IsSafe-hex4 c =
    let digit : (n : ℕ) → needs_escape (hex_digit (n % 16)) ≡ false =
      λ n. safe_digit (n % 16) (omega arith) in
    (digit (c / 4096), (digit (c / 256), (digit (c / 16), (digit c, tt))))

on_test :
    (b : Bool) (s t : Chars) → IsSafe s → ((b ≡ false) → IsSafe t) → IsSafe (if b then s else t)
on_test true s t hs ht = hs
on_test false s t hs ht = ht refl

IsSafe-quote_char : (c : ℕ) → IsSafe (quote_char c)
unfolding quote_char needs_escape
IsSafe-quote_char c =
    on_test (c == b'\\') _ _ (refl, (refl, tt))
      (λ _.
        on_test (c == b'"') _ _ (refl, (refl, tt))
          (λ _.
            on_test (c == 10) _ _ (refl, (refl, tt))
              (λ _.
                on_test (c == 13) _ _ (refl, (refl, tt))
                  (λ _.
                    on_test (c == 9) _ _ (refl, (refl, tt))
                      (λ _.
                        on_test (needs_escape c) _ (c ∷ [])
                          (
                            refl,
                            (
                              refl,
                              (refl, IsSafe-append (hex4 c) (b'}' ∷ []) (IsSafe-hex4 c) (refl, tt)),
                            ),
                          )
                          (λ plain. (plain, tt)))))))

IsSafe-quote_chars : (s : Chars) → IsSafe (quote_chars s)
unfolding quote_chars
IsSafe-quote_chars [] = tt
IsSafe-quote_chars (c ∷ s) =
    IsSafe-append (quote_char c) (quote_chars s) (IsSafe-quote_char c) (IsSafe-quote_chars s)

IsSafe-plain : (s : Chars) → any_forces s ≡ false → IsSafe s
unfolding any_forces forces_quote
IsSafe-plain [] h = tt
IsSafe-plain (c ∷ s) h =
    let here : needs_escape c ≡ false = ground arith in
    let rest : any_forces s ≡ false = unfold any_forces forces_quote in ground arith in
    (here, IsSafe-plain s rest)

-- Whatever a text holds, what is printed of it holds no control character and no character that
-- changes the direction of the text.
pub quote_for_pretty-IsSafe : (s : Chars) → IsSafe (quote_for_pretty s)
unfolding quote_for_pretty needs_quote quote_chars
quote_for_pretty-IsSafe [] = (unfold needs_escape in refl, (unfold needs_escape in refl, tt))
quote_for_pretty-IsSafe (c ∷ s) =
    let mark : needs_escape b'"' ≡ false = unfold needs_escape in refl in
    on_test (any_forces (c ∷ s)) _ (c ∷ s)
      (
        mark,
        IsSafe-append (quote_chars (c ∷ s)) (b'"' ∷ []) (IsSafe-quote_chars (c ∷ s)) (mark, tt),
      )
      (IsSafe-plain (c ∷ s))
