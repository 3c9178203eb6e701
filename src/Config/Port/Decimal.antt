-- ===== src/Config/Port/Decimal.antt =====
-- What `parse_port` accepts.
use netscope.Base.{
  ℕ, zero, suc, ◌+◌, ◌*◌, ◌/◌, ◌%◌, ◌≤◌, ◌<◌, Bytes, Bool, true, false, Option, none, some, [], ◌∷◌,
  ◌≡◌, refl, ap, ◌∙◌, ◌==◌, ltb, if-intro, Bool-cases, inl, inr, arith,
}
use netscope.Util.Text.{decimal, print_digits, digit_char}
use netscope.Util.Text.Digits.{print_digits-last, print_digits-more}
use netscope.Config.Port.{
  is_space, is_digit, skip_spaces, take_sign, take_digits, strtol, accept_port, parse_port,
}

-- Ten to the power `k + 1`.
abbrev tens : ℕ → ℕ
tens zero = 10
tens (suc k) = 10 * tens k

take_digits-digit :
    (v d : ℕ) (s : Bytes) → d < 10 → take_digits v (digit_char d ∷ s) ≡ take_digits (v * 10 + d) s
unfolding take_digits digit_char
take_digits-digit v d s h = ground arith

take_digits-print_digits :
    (k fuel n : ℕ) (acc : Bytes)
    → n < tens k
    → k < fuel
    → take_digits 0 (print_digits fuel 10 n acc) ≡ take_digits n acc
take_digits-print_digits k zero n acc h p = absurd (omega arith)
take_digits-print_digits zero (suc fuel) n acc h p =
    rw (print_digits-last fuel 10 n acc h)
      (take_digits-digit 0 n acc h ∙ ap (λ (v : ℕ). take_digits v acc) (omega arith))
take_digits-print_digits (suc k) (suc fuel) n acc h p = elim (Bool-cases (ltb n 10)) [
  | inl e ↦
      rw (print_digits-last fuel 10 n acc (ground arith))
        (take_digits-digit 0 n acc (ground arith) ∙ ap (λ (v : ℕ). take_digits v acc) (omega arith))
  | inr e ↦ rw (print_digits-more fuel 10 n acc (ground arith)) (
      take_digits-print_digits k fuel (n / 10) (digit_char (n % 10) ∷ acc) (omega arith)
        (omega arith)
      ∙ take_digits-digit (n / 10) (n % 10) acc (omega arith)
      ∙ ap (λ (v : ℕ). take_digits v acc) (omega arith))
]

-- A text that begins with a digit.
abbrev StartsDigit : Bytes → Type 0
StartsDigit [] = ⊥
StartsDigit (c ∷ s) = is_digit c ≡ true

digit_char-is_digit : (d : ℕ) → d < 10 → is_digit (digit_char d) ≡ true
unfolding digit_char
digit_char-is_digit d h = ground arith

print_digits-StartsDigit :
    (fuel n : ℕ) (acc : Bytes) → StartsDigit acc → StartsDigit (print_digits fuel 10 n acc)
unfolding print_digits
print_digits-StartsDigit zero n acc h = h
print_digits-StartsDigit (suc fuel) n acc h =
    if-intro StartsDigit (ltb n 10) _ _ (λ e. digit_char-is_digit n (ground arith))
      (λ e.
        print_digits-StartsDigit fuel (n / 10) (digit_char (n % 10) ∷ acc)
          (digit_char-is_digit (n % 10) (omega arith)))

decimal-StartsDigit : (n : ℕ) → StartsDigit (decimal n)
unfolding decimal print_digits
decimal-StartsDigit n =
    if-intro StartsDigit (ltb n 10) _ _ (λ e. digit_char-is_digit n (ground arith))
      (λ e.
        print_digits-StartsDigit 19 (n / 10) (digit_char (n % 10) ∷ [])
          (digit_char-is_digit (n % 10) (omega arith)))

strtol-digits :
    (s : Bytes) → StartsDigit s → strtol s ≡ some (false, (take_digits 0 s).0, (take_digits 0 s).1)
unfolding strtol skip_spaces take_sign
strtol-digits [] h = absurd h
strtol-digits (c ∷ s) h = rw (no_space c h, no_minus c h, no_plus c h, h) refl
  where
    no_space : (c : ℕ) → is_digit c ≡ true → is_space c ≡ false
    no_space c h = ground arith

    no_minus : (c : ℕ) → is_digit c ≡ true → (c == b'-') ≡ false
    no_minus c h = ground arith

    no_plus : (c : ℕ) → is_digit c ≡ true → (c == b'+') ≡ false
    no_plus c h = ground arith

take_digits-decimal : (port : ℕ) → port ≤ 65535 → take_digits 0 (decimal port) ≡ (port, [])
unfolding decimal take_digits
take_digits-decimal port h = take_digits-print_digits 4 20 port [] (omega arith) (omega arith)

-- Every port from 0 to 65535, written in decimal, is read back.
pub parse_port-decimal : (port : ℕ) → port ≤ 65535 → parse_port (decimal port) ≡ some port
unfolding parse_port accept_port
parse_port-decimal port h =
    rw (strtol-digits (decimal port) (decimal-StartsDigit port), take_digits-decimal port h)
      (ground arith)

accept_port-le :
    (r : Option (Bool × ℕ × Bytes)) (port : ℕ) → accept_port r ≡ some port → port ≤ 65535
unfolding accept_port
accept_port-le none port h = absurd (ground arith)
accept_port-le (some (negative, n, rest)) port h = ground arith

-- Whatever the text is, a port that is accepted is at most 65535.
pub parse_port-le : (text : Bytes) (port : ℕ) → parse_port text ≡ some port → port ≤ 65535
unfolding parse_port
parse_port-le text port h = accept_port-le (strtol text) port h
