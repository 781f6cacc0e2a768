-- ===== src/Format/Quote.antt =====
-- `quote_for_pretty` and `needs_escape` of src/format.rs. A text is the list of its characters'
-- codes.
pub mod Safe
pub mod Reading
use otel_logger.Prelude.{
  ℕ, ◌+◌, ◌/◌, ◌%◌, List, [], ◌∷◌, ◌++◌, Bool, true, false, ◌&&◌, ◌||◌, ◌==◌, ltb, leb,
  if◌then◌else◌, bytes_of,
}

abbrev pub Chars : Type 0
Chars = List ℕ

-- The ranges are 0x00..=0x1f, 0x7f, 0x80..=0x9f, 0x061c, 0x200e, 0x200f, 0x202a..=0x202e and
-- 0x2066..=0x2069.
unfoldable pub needs_escape : ℕ → Bool
needs_escape c =
    ltb c 32
    || ((c == 127)
        || ((leb 128 c && leb c 159)
            || ((c == 1564)
                || ((c == 8206)
                    || ((c == 8207)
                        || ((leb 8234 c && leb c 8238) || (leb 8294 c && leb c 8297)))))))

-- The test of one character in `needs_quote`.
unfoldable pub forces_quote : ℕ → Bool
forces_quote c = (c == b' ') || ((c == b'"') || ((c == b'=') || needs_escape c))

unfoldable pub any_forces : Chars → Bool
any_forces [] = false
any_forces (c ∷ s) = forces_quote c || any_forces s

unfoldable pub needs_quote : Chars → Bool
needs_quote [] = true
needs_quote (c ∷ s) = any_forces (c ∷ s)

unfoldable pub hex_digit : ℕ → ℕ
hex_digit d = if ltb d 10 then 48 + d else 87 + d

-- `{:04x}` of a code with at most four digits, as those are that need an escape.
unfoldable pub hex4 : ℕ → Chars
hex4 c =
    hex_digit (c / 4096 % 16)
    ∷ hex_digit (c / 256 % 16)
    ∷ hex_digit (c / 16 % 16)
    ∷ hex_digit (c % 16)
    ∷ []

-- `match c`
unfoldable pub quote_char : ℕ → Chars
quote_char c =
    if c == b'\\'
    then bytes_of "\\\\"
    else if c == b'"'
    then bytes_of "\\\""
    else if c == 10
    then bytes_of "\\n"
    else if c == 13
    then bytes_of "\\r"
    else if c == 9
    then bytes_of "\\t"
    else if needs_escape c
    then bytes_of "\\u{" ++ (hex4 c ++ (b'}' ∷ []))
    else c ∷ []

unfoldable pub quote_chars : Chars → Chars
quote_chars [] = []
quote_chars (c ∷ s) = quote_char c ++ quote_chars s

unfoldable pub quote_for_pretty : Chars → Chars
quote_for_pretty s = if needs_quote s then b'"' ∷ (quote_chars s ++ (b'"' ∷ [])) else s
