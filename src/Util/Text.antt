-- ===== src/Util/Text.antt =====
-- C text. A char array that is filled from the front is kept as the bytes before its terminator;
-- what the sources use of the C library's formatting is here.
pub mod Digits
use netscope.Base.{
  ℕ, zero, suc, ◌+◌, ◌-◌, ◌/◌, ◌%◌, ◌≤◌, ◌<◌, ◌≡◌, refl, le→leb, lt→ltb, Bytes, List, [], ◌∷◌, ◌++◌,
  ◌==◌, ltb, leb, if◌then◌else◌, length, replicate, take, length-take, arith,
}
use netscope.Run.{Run, done, fault, Fault}

-- What a reader of the C string sees: the bytes before the first zero.
unfoldable pub c_str : Bytes → Bytes
c_str [] = []
c_str (c ∷ s) = if c == 0 then [] else c ∷ c_str s

-- `snprintf(buf, buf_len, …)` of a text: what stands in `buf` afterwards.
unfoldable pub snprintf : ℕ → Bytes → Bytes
snprintf zero s = []
snprintf (suc room) s = take room s

-- `out[out_pos++] = c`, `memcpy(out + out_pos, s, …)` and `out[out_pos] = '\0'` for an array of
-- `cap` chars of which the text `out` fills the front.
unfoldable pub store : ℕ → Bytes → Bytes → Run Bytes
store cap out s =
    if leb (length out + length s) cap then done (out ++ s) else fault Fault.out_of_bounds

unfoldable pub terminate : ℕ → Bytes → Run Bytes
terminate cap out = if ltb (length out) cap then done out else fault Fault.out_of_bounds

-- `pos += snprintf(out + pos, cap - pos, …)`: text that is cut off would carry `pos` out of `out`.
unfoldable pub print_at : ℕ → Bytes → Bytes → Run Bytes
print_at cap out s =
    if ltb (length out + length s) cap then done (out ++ s) else fault Fault.out_of_bounds

-- The digits of a number to a base, the last one first put down. 64-bit numbers have at most
-- twenty decimal and sixteen hexadecimal digits.
unfoldable pub digit_char : ℕ → ℕ
digit_char d = if ltb d 10 then 48 + d else 87 + d

unfoldable pub print_digits : ℕ → ℕ → ℕ → Bytes → Bytes
unfolding digit_char
print_digits zero base n acc = acc
print_digits (suc fuel) base n acc =
    let more = print_digits fuel base (n / base) (digit_char (n % base) ∷ acc) in
    if ltb n base then digit_char n ∷ acc else more

-- `%u` and `%x`
unfoldable pub decimal : ℕ → Bytes
unfolding print_digits
decimal n = print_digits 20 10 n []

unfoldable pub hex : ℕ → Bytes
unfolding print_digits
hex n = print_digits 16 16 n []

-- `%0<width>x`
unfoldable pub pad_zeros : ℕ → Bytes → Bytes
pad_zeros zero s = s
pad_zeros (suc k) s = 48 ∷ pad_zeros k s

unfoldable pub hex_padded : ℕ → ℕ → Bytes
unfolding pad_zeros hex
hex_padded width n = pad_zeros (width - length (hex n)) (hex n)

-- What one call of `fprintf` writes, or several in a row: the pieces one after the other.
unfoldable pub printed : List Bytes → Bytes
printed [] = []
printed (s ∷ []) = s
printed (s ∷ t ∷ more) = s ++ printed (t ∷ more)

-- `%0<width>d` of a number that is not negative, and `%-<width>s`
unfoldable pub decimal_padded : ℕ → ℕ → Bytes
unfolding pad_zeros decimal
decimal_padded width n = pad_zeros (width - length (decimal n)) (decimal n)

unfoldable pub pad_right : ℕ → Bytes → Bytes
pad_right width s = s ++ replicate (width - length s) 32

-- `snprintf(out + pos, cap - pos, …)` behind the text of `pos` chars that stands in an array of `cap`.
unfoldable pub append_at : ℕ → Bytes → Bytes → Run Bytes
unfolding snprintf
append_at cap out s =
    if leb (length out) cap
    then done (out ++ snprintf (cap - length out) s)
    else fault Fault.out_of_bounds

-- `snprintf` cuts a text, to what leaves room for the terminator.
pub length-snprintf-le : (buf_len : ℕ) (s : Bytes) → length (snprintf buf_len s) ≤ length s
unfolding snprintf
length-snprintf-le zero s = omega arith
length-snprintf-le (suc room) s = omega (arith, length-take room s)

pub length-snprintf-room : (buf_len : ℕ) (s : Bytes) → length (snprintf buf_len s) ≤ buf_len - 1
unfolding snprintf
length-snprintf-room zero s = omega arith
length-snprintf-room (suc room) s = omega (arith, length-take room s)

-- A store that fits.
pub store-done :
    (cap : ℕ) (out s : Bytes) → length out + length s ≤ cap → store cap out s ≡ done (out ++ s)
unfolding store
store-done cap out s h = rw (le→leb _ _ h) refl

pub terminate-done : (cap : ℕ) (out : Bytes) → length out < cap → terminate cap out ≡ done out
unfolding terminate
terminate-done cap out h = rw (lt→ltb _ _ h) refl
