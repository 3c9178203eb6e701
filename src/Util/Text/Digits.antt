-- ===== src/Util/Text/Digits.antt =====
-- The digits of small numbers, and how many chars a number takes.
use native.Mathlib.Decide.{dec_lt}
use netscope.Base.{
  ℕ, zero, suc, ◌+◌, ◌-◌, ◌/◌, ◌%◌, ◌≤◌, ◌<◌, Bytes, [], ◌∷◌, ◌≡◌, refl, ap, ◌∙◌, ◌⊎◌, inl, inr,
  ltb, length, lt→ltb, le→ltb, le→leb, arith, take, Bool-cases, length-append,
}
use netscope.Util.Text.{
  hex, hex_padded, pad_zeros, print_digits, digit_char, snprintf, append_at, length-snprintf-room,
}
use netscope.Run.{Returns}

pub print_digits-last :
    (fuel base n : ℕ) (acc : Bytes)
    → n < base
    → print_digits (suc fuel) base n acc ≡ digit_char n ∷ acc
unfolding print_digits
print_digits-last fuel base n acc h = rw (lt→ltb n base h) refl

pub print_digits-more :
    (fuel base n : ℕ) (acc : Bytes)
    → base ≤ n
    → print_digits (suc fuel) base n acc
      ≡ print_digits fuel base (n / base) (digit_char (n % base) ∷ acc)
unfolding print_digits
print_digits-more fuel base n acc h = rw (le→ltb n base h) refl

pub hex-byte :
    (c : ℕ)
    → c < 256
    → ((c < 16) × (hex c ≡ digit_char c ∷ []))
      ⊎ (hex c ≡ digit_char (c / 16) ∷ digit_char (c % 16) ∷ [])
unfolding hex
hex-byte c h = elim (dec_lt c 16) [
  | yes low ↦ inl (low, print_digits-last 15 16 c [] low)
  | no high ↦ inr (
      print_digits-more 15 16 c [] (omega arith)
      ∙ print_digits-last 14 16 (c / 16) (digit_char (c % 16) ∷ []) (omega arith))
]

pub hex_padded-of :
    (width n : ℕ) (s : Bytes) → hex n ≡ s → hex_padded width n ≡ pad_zeros (width - length s) s
unfolding hex_padded
hex_padded-of width n s e = ap (λ (t : Bytes). pad_zeros (width - length t) t) e

pad_two : (a b : ℕ) → pad_zeros (4 - 2) (a ∷ b ∷ []) ≡ 48 ∷ 48 ∷ a ∷ b ∷ []
unfolding pad_zeros
pad_two a b = refl

pad_three : (a : ℕ) → pad_zeros (4 - 1) (a ∷ []) ≡ 48 ∷ 48 ∷ 48 ∷ a ∷ []
unfolding pad_zeros
pad_three a = refl

digit_char-zero :
    (c : ℕ) → c < 16 → (digit_char (c / 16) ≡ 48) × (digit_char (c % 16) ≡ digit_char c)
unfolding digit_char
digit_char-zero c h = ground arith

pub hex_padded-byte :
    (c : ℕ) → c < 256 → hex_padded 4 c ≡ 48 ∷ 48 ∷ digit_char (c / 16) ∷ digit_char (c % 16) ∷ []
hex_padded-byte c h = elim (hex-byte c h) [
  | inl (low, e) ↦
      let (z, m) = digit_char-zero c low in
      rw (z, m) (hex_padded-of 4 c _ e ∙ pad_three (digit_char c))
  | inr e ↦ hex_padded-of 4 c _ e ∙ pad_two (digit_char (c / 16)) (digit_char (c % 16))
]

length-pad_zeros : (k : ℕ) (s : Bytes) → length (pad_zeros k s) ≡ k + length s
unfolding pad_zeros
length-pad_zeros zero s = omega arith
length-pad_zeros (suc k) s = omega (arith, length-pad_zeros k s)

length-print_digits-le :
    (fuel base n : ℕ) (acc : Bytes) → length (print_digits fuel base n acc) ≤ fuel + length acc
unfolding print_digits
length-print_digits-le zero base n acc = omega arith
length-print_digits-le (suc fuel) base n acc = elim (Bool-cases (ltb n base)) [
  | inl e ↦ rw e (omega arith)
  | inr e ↦
      rw e
        (omega (arith, length-print_digits-le fuel base (n / base) (digit_char (n % base) ∷ acc)))
]

length-hex-le : (n : ℕ) → length (hex n) ≤ 16
unfolding hex
length-hex-le n = omega (arith, length-print_digits-le 16 16 n [])

-- A padded number fills its width, or is as long as a 64-bit number at most.
pub length-hex_padded-le : (width n : ℕ) → length (hex_padded width n) ≤ width + 16
unfolding hex_padded
length-hex_padded-le width n =
    omega (arith, length-pad_zeros (width - length (hex n)) (hex n), length-hex-le n)

pub length-hex_padded-byte : (b : ℕ) → b < 256 → length (hex_padded 2 b) ≡ 2
length-hex_padded-byte b h = elim (hex-byte b h) [
  | inl (low, e) ↦ rw (hex_padded-of 2 b _ e, length-pad_zeros 1 (digit_char b ∷ [])) (omega arith)
  | inr e ↦
      rw
        (hex_padded-of 2 b _ e, length-pad_zeros 0 (digit_char (b / 16) ∷ digit_char (b % 16) ∷ []))
        (omega arith)
]

take-all : (n : ℕ) (s : Bytes) → length s ≤ n → take n s ≡ s
take-all zero [] h = refl
take-all zero (c ∷ s) h = absurd (omega arith)
take-all (suc n) [] h = refl
take-all (suc n) (c ∷ s) h = ap (λ (t : Bytes). c ∷ t) (take-all n s (omega arith))

-- `snprintf` of a text that fits.
pub snprintf-fits : (room : ℕ) (s : Bytes) → length s < room → snprintf room s ≡ s
unfolding snprintf
snprintf-fits zero s h = absurd (omega arith)
snprintf-fits (suc room) s h = take-all room s (omega arith)

-- A text that is written behind another one stays inside the array.
pub append_at-Returns :
    (cap : ℕ) (out s : Bytes)
    → length out < cap
    → Returns (append_at cap out s) (λ t. length t < cap)
unfolding append_at
append_at-Returns cap out s h = rw (le→leb (length out) cap (omega arith)) (
    omega (
      arith,
      length-append out (snprintf (cap - length out) s),
      length-snprintf-room (cap - length out) s,
    ))
