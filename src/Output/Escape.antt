-- ===== src/Output/Escape.antt =====
-- `json_write_escaped` of src/output.c. What a function writes to its FILE is the text it returns.
pub mod RoundTrip
use netscope.Base.{ℕ, Bytes, ◌||◌, [], ◌∷◌, ◌++◌, ◌==◌, ltb, leb, if◌then◌else◌}
use netscope.Util.Text.{c_str, hex_padded}
use netscope.Util.Format.{codes}

-- One turn of the loop: the quote, the backslash and the three named control characters have an
-- escape of two characters; `*p < 0x20 || *p >= 0x7f` is written as `\u%04x`.
unfoldable pub escape_char : ℕ → Bytes
escape_char c =
    if c == b'"'
    then b'\\' ∷ b'"' ∷ []
    else if c == b'\\'
    then b'\\' ∷ b'\\' ∷ []
    else if c == b'\n'
    then b'\\' ∷ b'n' ∷ []
    else if c == b'\r'
    then b'\\' ∷ b'r' ∷ []
    else if c == b'\t'
    then b'\\' ∷ b't' ∷ []
    else if ltb c 0x20 || leb 0x7f c
    then b'\\' ∷ b'u' ∷ hex_padded 4 c
    else c ∷ []

unfoldable pub escape_chars : Bytes → Bytes
escape_chars [] = []
escape_chars (c ∷ s) = escape_char c ++ escape_chars s

unfoldable pub json_write_escaped : Bytes → Bytes
json_write_escaped s = b'"' ∷ (escape_chars (c_str s) ++ (b'"' ∷ []))
