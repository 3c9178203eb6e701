-- ===== src/Config/Port.antt =====
-- `parse_port` of src/config.c, with `strtol` of the C library for base 10.
pub mod Decimal
use netscope.Base.{
  ℕ, ◌+◌, ◌-◌, ◌*◌, ◌^◌, Bytes, Bool, true, false, ◌||◌, ◌&&◌, not, Option, none, some, [], ◌∷◌,
  ◌==◌, ltb, leb, if◌then◌else◌,
}

-- `isspace` in the C locale.
abbrev pub is_space : ℕ → Bool
is_space c = c == 32 || leb 9 c && leb c 13

abbrev pub is_digit : ℕ → Bool
is_digit c = leb 48 c && leb c 57

unfoldable pub skip_spaces : Bytes → Bytes
skip_spaces [] = []
skip_spaces (c ∷ s) = let rest = skip_spaces s in if is_space c then rest else c ∷ s

-- Whether there is a minus sign, and what follows the sign.
unfoldable pub take_sign : Bytes → Bool × Bytes
take_sign [] = (false, [])
take_sign (c ∷ s) =
    if c == b'-' then (true, s) else if c == b'+' then (false, s) else (false, c ∷ s)

-- The value of the digits in front, behind those that make `n`, and what follows them.
unfoldable pub take_digits : ℕ → Bytes → ℕ × Bytes
take_digits n [] = (n, [])
take_digits n (c ∷ s) =
    let more = take_digits (n * 10 + (c - 48)) s in if is_digit c then more else (n, c ∷ s)

abbrev pub starts_digits : Bytes → Bool
starts_digits [] = false
starts_digits (c ∷ s) = is_digit c

-- What `strtol` makes of a text: `none` where there is no number (then `end == text`), and else the
-- sign, the magnitude of the number and the rest. `errno` is ERANGE where it is no `long`.
unfoldable pub strtol : Bytes → Option (Bool × ℕ × Bytes)
unfolding skip_spaces take_sign take_digits
strtol text =
    let (negative, s) = take_sign (skip_spaces text) in
    if starts_digits s then (let (n, rest) = take_digits 0 s in some (negative, n, rest)) else none

abbrev pub out_of_range : Bool → ℕ → Bool
out_of_range negative n = if negative then ltb (2 ^ 63) n else leb (2 ^ 63) n

abbrev pub is_end_of_text : Bytes → Bool
is_end_of_text [] = true
is_end_of_text (c ∷ s) = false

-- `port < 0`
abbrev pub is_negative : Bool → ℕ → Bool
is_negative negative n = negative && ltb 0 n

unfoldable pub accept_port : Option (Bool × ℕ × Bytes) → Option ℕ
accept_port none = none
accept_port (some (negative, n, rest)) =
    if not (is_end_of_text rest) || out_of_range negative n || is_negative negative n || ltb 65535 n
    then none
    else some n

-- `none` where the code returns false, with its message.
unfoldable pub parse_port : Bytes → Option ℕ
parse_port text = accept_port (strtol text)
