-- ===== src/Format/Tests.antt =====
-- A text with a control character and a quote.
use otel_logger.Prelude.{ℕ, ◌≡◌, refl, some, List, [], ◌∷◌, bytes_of}
use otel_logger.Format.Quote.{
  quote_for_pretty, needs_quote, any_forces, forces_quote, needs_escape, quote_chars, quote_char,
  hex4, hex_digit,
}
use otel_logger.Format.Quote.Safe.{IsSafe, quote_for_pretty-IsSafe}
use otel_logger.Format.Quote.Reading.{unquote, unquote-quote_for_pretty}

-- An escape character, a quote, and the mark that turns the text around.
abbrev hostile : List ℕ
hostile = 27 ∷ b'"' ∷ b'a' ∷ 8238 ∷ []

quote_hostile : quote_for_pretty hostile ≡ bytes_of "\"\\u{001b}\\\"a\\u{202e}\""
unfolding quote_for_pretty needs_quote any_forces forces_quote needs_escape quote_chars quote_char
    hex4 hex_digit
quote_hostile = refl

quote_for_pretty-IsSafe_example : IsSafe (quote_for_pretty hostile)
quote_for_pretty-IsSafe_example = quote_for_pretty-IsSafe hostile

unquote-quote_for_pretty_example : unquote (quote_for_pretty hostile) ≡ some hostile
unquote-quote_for_pretty_example = unquote-quote_for_pretty hostile
