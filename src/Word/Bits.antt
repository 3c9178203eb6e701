-- ===== src/Word/Bits.antt =====
-- Laws of `&` with a mask of ones and of `|` with disjoint bits, from the digit recursion that the
-- native operations stand for.
use Prim.Native.Nat.{max, digits, bit_and-bitwise, bit_or-bitwise}
use netscope.Base.{
  ℕ, zero, suc, ◌+◌, ◌*◌, ◌/◌, ◌%◌, ◌^◌, ◌≤◌, ◌<◌, min, bit_and, bit_or, ◌≡◌, refl, ◌∙◌, arith,
  ◌==◌, if◌then◌else◌,
}

-- Any operation that works digit by digit, `end` being the answer when the first number is used up:
-- more fuel than the first number changes nothing.
module _ (end : ℕ → ℕ) (op : ℕ → ℕ → ℕ) where
  spare_fuel :
      (fuel more x y : ℕ) → x ≤ fuel → fuel ≤ more → digits end op more x y ≡ digits end op fuel x y
  spare_fuel zero zero x y h le = refl
  spare_fuel zero (suc more) zero y h le = refl
  spare_fuel (suc fuel) (suc more) zero y h le = refl
  spare_fuel (suc fuel) zero x y h le = absurd (omega arith)
  spare_fuel zero (suc more) (suc x) y h le = absurd (omega arith)
  spare_fuel (suc fuel) (suc more) (suc x) y h le =
      omega (arith, spare_fuel fuel more (suc x / 2) (y / 2) (omega arith) (omega arith))

  halves : (x y : ℕ) → digits end op x (suc x / 2) y ≡ digits end op (suc x / 2) (suc x / 2) y
  halves x y = spare_fuel (suc x / 2) x (suc x / 2) y (omega arith) (omega arith)

-- `&` and `|` through the lowest digit of both numbers.
and_lowest : (x y : ℕ) → bit_and x y ≡ 2 * bit_and (x / 2) (y / 2) + min (x % 2) (y % 2)
and_lowest zero y = omega (arith, bit_and-bitwise 0 y, bit_and-bitwise 0 (y / 2))
and_lowest (suc x) y =
    let top = bit_and-bitwise (suc x) y in
    let rest = bit_and-bitwise (suc x / 2) (y / 2) in
    omega (arith, top, rest, halves (λ b. zero) min x (y / 2))

or_lowest : (x y : ℕ) → bit_or x y ≡ 2 * bit_or (x / 2) (y / 2) + max (x % 2) (y % 2)
or_lowest zero y = omega (arith, bit_or-bitwise 0 y, bit_or-bitwise 0 (y / 2))
or_lowest (suc x) y =
    let top = bit_or-bitwise (suc x) y in
    let rest = bit_or-bitwise (suc x / 2) (y / 2) in
    omega (arith, top, rest, halves (λ b. b) max x (y / 2))

-- By halving, on a bound for the number.
and_nothing : (bound x : ℕ) → x ≤ bound → bit_and x 0 ≡ 0
and_nothing bound zero h = refl
and_nothing zero (suc x) h = absurd (omega arith)
and_nothing (suc bound) (suc x) h =
    omega (arith, and_lowest (suc x) 0, and_nothing bound (suc x / 2) (omega arith))

or_nothing : (bound x : ℕ) → x ≤ bound → bit_or x 0 ≡ x
or_nothing bound zero h = refl
or_nothing zero (suc x) h = absurd (omega arith)
or_nothing (suc bound) (suc x) h =
    omega (arith, or_lowest (suc x) 0, or_nothing bound (suc x / 2) (omega arith))

-- A mask of `k` ones, and the lowest `k` digits.
abbrev ones : ℕ → ℕ
ones zero = 0
ones (suc k) = ones k * 2 + 1

abbrev low_digits : ℕ → ℕ → ℕ
low_digits zero a = 0
low_digits (suc k) a = low_digits k (a / 2) * 2 + a % 2

half_odd : (a : ℕ) → (a * 2 + 1) / 2 ≡ a
half_odd a = omega arith

half_even : (a : ℕ) → a * 2 / 2 ≡ a
half_even a = omega arith

bit_and-ones : (k a : ℕ) → bit_and a (ones k) ≡ low_digits k a
bit_and-ones zero a = and_nothing a a (omega arith)
bit_and-ones (suc k) a =
    and_lowest a (ones k * 2 + 1) ∙ rw (half_odd (ones k)) (omega (arith, bit_and-ones k (a / 2)))

-- Masks of the sources.
pub bit_and-0x03 : (a : ℕ) → bit_and a 0x03 ≡ a % 4
bit_and-0x03 a = bit_and-ones 2 a ∙ omega arith

pub bit_and-0x0F : (a : ℕ) → bit_and a 0x0F ≡ a % 16
bit_and-0x0F a = bit_and-ones 4 a ∙ omega arith

pub bit_and-0xFF : (a : ℕ) → bit_and a 0xFF ≡ a % 256
bit_and-0xFF a = bit_and-ones 8 a ∙ omega arith

pub bit_and-0xFFF : (a : ℕ) → bit_and a 0xFFF ≡ a % 4096
bit_and-0xFFF a = bit_and-ones 12 a ∙ omega arith

pub bit_and-0x1FFF : (a : ℕ) → bit_and a 0x1FFF ≡ a % 8192
bit_and-0x1FFF a = bit_and-ones 13 a ∙ omega arith

pub bit_and-0x3FFF : (a : ℕ) → bit_and a 0x3FFF ≡ a % 16384
bit_and-0x3FFF a = bit_and-ones 14 a ∙ omega arith

pub bit_and-0xFFFFF : (a : ℕ) → bit_and a 0xFFFFF ≡ a % 1048576
bit_and-0xFFFFF a = bit_and-ones 20 a ∙ omega arith

-- `a << k`, and the bound on what fits below it.
abbrev shl : ℕ → ℕ → ℕ
shl zero a = a
shl (suc k) a = shl k a * 2

abbrev two_pow : ℕ → ℕ
two_pow zero = 1
two_pow (suc k) = two_pow k * 2

bit_or-shl : (k a b : ℕ) → b < two_pow k → bit_or (shl k a) b ≡ shl k a + b
bit_or-shl zero a zero h = omega (arith, or_nothing a a (omega arith))
bit_or-shl zero a (suc b) h = absurd (omega arith)
bit_or-shl (suc k) a b h =
    or_lowest (shl k a * 2) b
    ∙ rw (half_even (shl k a)) (omega (arith, bit_or-shl k a (b / 2) (omega arith)))

-- Shifts of the sources: the second operand has no bit in common with the shifted one.
pub bit_or-shl_8 : (a b : ℕ) → b < 256 → bit_or (a * 256) b ≡ a * 256 + b
bit_or-shl_8 a b h = rw (shl_8 a) (bit_or-shl 8 a b h)
  where
    shl_8 : (a : ℕ) → a * 256 ≡ shl 8 a
    shl_8 a = omega arith

pub bit_or-shl_16 : (a b : ℕ) → b < 2 ^ 16 → bit_or (a * 2 ^ 16) b ≡ a * 2 ^ 16 + b
bit_or-shl_16 a b h = rw (shl_16 a) (bit_or-shl 16 a b h)
  where
    shl_16 : (a : ℕ) → a * 2 ^ 16 ≡ shl 16 a
    shl_16 a = omega arith

pub bit_or-shl_24 : (a b : ℕ) → b < 2 ^ 24 → bit_or (a * 2 ^ 24) b ≡ a * 2 ^ 24 + b
bit_or-shl_24 a b h = rw (shl_24 a) (bit_or-shl 24 a b h)
  where
    shl_24 : (a : ℕ) → a * 2 ^ 24 ≡ shl 24 a
    shl_24 a = omega arith

-- One bit of a word, tested by `&` with a power of two.
abbrev one_bit : ℕ → ℕ
one_bit zero = 1
one_bit (suc k) = one_bit k * 2

abbrev digit : ℕ → ℕ → ℕ
digit zero a = a % 2
digit (suc k) a = digit k (a / 2)

half_double : (a : ℕ) → a * 2 % 2 ≡ 0
half_double a = omega arith

digit_cases : (k a : ℕ) → digit k a ≤ 1
digit_cases zero a = omega arith
digit_cases (suc k) a = digit_cases k (a / 2)

bit_and-one_bit : (k a : ℕ) → bit_and a (one_bit k) ≡ (if digit k a == 1 then one_bit k else 0)
bit_and-one_bit zero a = ground (arith, bit_and-ones 1 a)
bit_and-one_bit (suc k) a =
    and_lowest a (one_bit k * 2)
    ∙ rw (half_even (one_bit k), half_double (one_bit k))
        (ground (arith, bit_and-one_bit k (a / 2)))

pub bit_and-0x2000 : (a : ℕ) → bit_and a 0x2000 ≡ (if a / 0x2000 % 2 == 1 then 0x2000 else 0)
bit_and-0x2000 a = ground (arith, bit_and-one_bit 13 a)

pub bit_and-0x4000 : (a : ℕ) → bit_and a 0x4000 ≡ (if a / 0x4000 % 2 == 1 then 0x4000 else 0)
bit_and-0x4000 a = ground (arith, bit_and-one_bit 14 a)

pub bit_and-0x8000 : (a : ℕ) → bit_and a 0x8000 ≡ (if a / 0x8000 % 2 == 1 then 0x8000 else 0)
bit_and-0x8000 a = ground (arith, bit_and-one_bit 15 a)
