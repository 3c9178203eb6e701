-- ===== src/Util/Format/Ipv6.antt =====
-- The text of an IPv6 address, `ns_format_ipv6` of src/util.c, and its array `tmp`.
use netscope.Base.{
  ℕ, zero, suc, ◌+◌, ◌-◌, ◌*◌, ◌/◌, ◌%◌, ◌^◌, ◌≤◌, ◌<◌, Bytes, Bool, true, false, not, ◌&&◌, Option,
  none, some, List, [], ◌∷◌, ◌≡◌, ◌==◌, ltb, if◌then◌else◌, length, length-append, get_or, All,
  Bool-cases, inl, inr, le→leb, lt→ltb, le→ltb, arith,
}
use netscope.Run.{done, Returns, Returns-bind}
use netscope.Util.Text.{
  store, terminate, print_at, print_digits, digit_char, hex, length-snprintf-le,
  length-snprintf-room,
}
use netscope.Util.Format.{
  ipv6_groups, ZeroRun, zero_run, drop_short, is_start, is_end, ipv6_group, ipv6_loop, is_empty,
  no_run, format_ipv6,
}

-- Sixteen to the power `k + 1`.
abbrev sixteens : ℕ → ℕ
sixteens zero = 16
sixteens (suc k) = 16 * sixteens k

length-print_digits :
    (k fuel n : ℕ) (acc : Bytes)
    → n < sixteens k
    → k < fuel
    → length (print_digits fuel 16 n acc) ≤ suc k + length acc
unfolding print_digits
length-print_digits k zero n acc h p = absurd (omega arith)
length-print_digits zero (suc fuel) n acc h p = rw (lt→ltb n 16 h) (omega arith)
length-print_digits (suc k) (suc fuel) n acc h p =
    ground (arith, length-print_digits k fuel (n / 16) (digit_char (n % 16) ∷ acc))

length-hex : (n : ℕ) → n < 2 ^ 16 → length (hex n) ≤ 4
unfolding hex
length-hex n h = omega (arith, length-print_digits 3 16 n [] h (omega arith))

ipv6_groups-small : (k i : ℕ) (addr : Bytes) → All (λ g. g < 2 ^ 16) (ipv6_groups k i addr)
unfolding ipv6_groups
ipv6_groups-small zero i addr = tt
ipv6_groups-small (suc k) i addr = (omega arith, ipv6_groups-small k (suc i) addr)

get_or-small : (gs : List ℕ) (i : ℕ) → All (λ g. g < 2 ^ 16) gs → get_or gs i 0 < 2 ^ 16
get_or-small [] i h = omega arith
get_or-small (g ∷ gs) zero h = h.0
get_or-small (g ∷ gs) (suc i) h = get_or-small gs i h.1

-- A run that starts somewhere is at least two groups long.
abbrev IsLong : Option ℕ → ℕ → Type 0
IsLong none len = Unit
IsLong (some s) len = 2 ≤ len

drop_short-IsLong : (r : ZeroRun) → IsLong (drop_short r).best_start (drop_short r).best_len
unfolding drop_short
drop_short-IsLong r = elim (Bool-cases (ltb r.best_len 2)) [
  | inl e ↦ rw e tt
  | inr e ↦ rw e (long r.best_start (ground arith))
]
  where
    long : (o : Option ℕ) → 2 ≤ r.best_len → IsLong o r.best_len
    long none h = tt
    long (some s) h = h

-- The text has at most `bound` chars.
abbrev pub Fits : ℕ → Bytes → Type 0
Fits bound s = length s ≤ bound

store-Fits :
    (bound : ℕ) (out s : Bytes)
    → length out + length s ≤ bound
    → bound ≤ 46
    → Returns (store 46 out s) (Fits bound)
unfolding store
store-Fits bound out s h small =
    rw (le→leb (length out + length s) 46 (omega arith)) (omega (arith, length-append out s))

print_at-Fits :
    (bound : ℕ) (out s : Bytes)
    → length out + length s ≤ bound
    → bound < 46
    → Returns (print_at 46 out s) (Fits bound)
unfolding print_at
print_at-Fits bound out s h small =
    rw (lt→ltb (length out + length s) 46 (omega arith)) (omega (arith, length-append out s))

separator-Fits :
    (b : Bool) (tmp : Bytes)
    → length tmp + 5 ≤ 40
    → Returns (if b then store 46 tmp (b':' ∷ []) else done tmp) (Fits (length tmp + 1))
separator-Fits true tmp h = store-Fits (length tmp + 1) tmp (b':' ∷ []) (omega arith) (omega arith)
separator-Fits false tmp h = omega arith

ipv6_group-Fits :
    (groups : List ℕ) (r : ZeroRun) (i : ℕ) (tmp : Bytes)
    → All (λ g. g < 2 ^ 16) groups
    → length tmp + 5 ≤ 40
    → Returns (ipv6_group groups r i tmp) (Fits (length tmp + 5))
unfolding ipv6_group
ipv6_group-Fits groups r i tmp small h =
    Returns-bind _ (λ s. print_at 46 s (hex (get_or groups i 0))) (Fits (length tmp + 1))
      (Fits (length tmp + 5))
      (separator-Fits (not (i == 0) && not (is_end r.best_start r.best_len i)) tmp h)
      (λ s fits.
        print_at-Fits (length tmp + 5) s (hex (get_or groups i 0))
          (omega (arith, length-hex (get_or groups i 0) (get_or-small groups i small)))
          (omega arith))

skipped : (o : Option ℕ) (len i : ℕ) → IsLong o len → is_start o i ≡ true → 2 ≤ len
skipped none len i h e = cc
skipped (some s) len i h e = h

-- Each of the at most `fuel` turns that are left writes at most five chars.
ipv6_loop-Fits :
    (fuel : ℕ) (groups : List ℕ) (r : ZeroRun) (i : ℕ) (tmp : Bytes)
    → All (λ g. g < 2 ^ 16) groups
    → IsLong r.best_start r.best_len
    → 8 ≤ i + fuel
    → length tmp + 5 * fuel ≤ 40
    → Returns (ipv6_loop fuel groups r i tmp) (Fits 40)
unfolding ipv6_loop
ipv6_loop-Fits zero groups r i tmp small long enough h = rw (le→ltb i 8 (omega arith)) (omega arith)
ipv6_loop-Fits (suc fuel) groups r i tmp small long enough h = elim (Bool-cases (ltb i 8)) [
  | inr e ↦ rw e (omega arith)
  | inl e ↦ elim (Bool-cases (is_start r.best_start i)) [
    | inl start ↦
        rw (e, start)
          (Returns-bind _ (ipv6_loop fuel groups r (i + r.best_len)) (Fits (length tmp + 2))
            (Fits 40)
            (store-Fits (length tmp + 2) tmp (b':' ∷ b':' ∷ []) (omega arith) (omega arith))
            (λ s fits.
              ipv6_loop-Fits fuel groups r (i + r.best_len) s small long
                (omega (arith, skipped r.best_start r.best_len i long start)) (omega arith)))
    | inr other ↦
        rw (e, other)
          (Returns-bind _ (ipv6_loop fuel groups r (suc i)) (Fits (length tmp + 5)) (Fits 40)
            (ipv6_group-Fits groups r i tmp small (omega arith))
            (λ s fits.
              ipv6_loop-Fits fuel groups r (suc i) s small long (omega arith) (omega arith)))
  ]
]

root-Fits :
    (tmp : Bytes)
    → Fits 40 tmp
    → Returns (if is_empty tmp then store 46 tmp (b':' ∷ b':' ∷ []) else done tmp) (Fits 45)
root-Fits [] h = store-Fits 45 [] (b':' ∷ b':' ∷ []) (omega arith) (omega arith)
root-Fits (c ∷ tmp) h = omega arith

-- At most 45 chars, and no more than the buffer of the caller takes.
abbrev pub Printed : ℕ → Bytes → Type 0
Printed buf_len s = (length s ≤ 45) × (length s ≤ buf_len - 1)

-- For every address the loop ends, no char is written outside `tmp[46]`, no group is cut off, and
-- the text has at most 45 chars and at most `buf_len - 1`.
pub format_ipv6-Printed :
    (addr : Bytes) (buf_len : ℕ) → Returns (format_ipv6 addr buf_len) (Printed buf_len)
unfolding format_ipv6 terminate
format_ipv6-Printed addr buf_len =
    let groups = ipv6_groups 8 0 addr in
    let r = drop_short (zero_run 0 groups no_run) in
    Returns-bind (ipv6_loop 8 groups r 0 []) _ (Fits 40) (Printed buf_len)
      (ipv6_loop-Fits 8 groups r 0 [] (ipv6_groups-small 8 0 addr)
        (drop_short-IsLong (zero_run 0 groups no_run)) (omega arith) (omega arith))
      (λ tmp fits.
        Returns-bind (if is_empty tmp then store 46 tmp (b':' ∷ b':' ∷ []) else done tmp) _
          (Fits 45) (Printed buf_len) (root-Fits tmp fits)
          (λ s short.
            rw (lt→ltb (length s) 46 (omega arith))
              (omega (arith, length-snprintf-le buf_len s), length-snprintf-room buf_len s)))
