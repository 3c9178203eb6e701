-- ===== src/Output/Json/Ascii.antt =====
-- The characters of the line that `print_json_line` of src/output.c writes.
use native.Mathlib.Nat.{mod-lt}
use netscope.Base.{
  append_assoc, ℕ, zero, suc, ◌/◌, ◌%◌, ◌-◌, ◌≤◌, ◌<◌, Bytes, Bool, true, false, ◌||◌, [], ◌∷◌,
  ◌++◌, ◌≡◌, refl, ◌⊎◌, inl, inr, ltb, leb, length, All, Bool-cases, ◌==◌, if◌then◌else◌, arith,
}
use netscope.Run.{Returns, Returns-done}
use netscope.Util.Text.{c_str, decimal, hex, hex_padded, pad_zeros, print_digits, digit_char}
use netscope.Packet.Data.{Packet}
use netscope.Packet.WellFormed.{IsPacket}
use netscope.Output.Data.{Clock, IsClock}
use netscope.Output.Escape.{escape_char, escape_chars, json_write_escaped}
use netscope.Output.Json.{print_json_line, bool_text}
use netscope.Output.Json.Value.{
  Json, text, number, boolean, array, object, Items, no_items, item, Fields, no_fields, field,
  show_json, show_items, show_more_items, show_fields, show_more_fields, packet_json,
}
use netscope.Output.Json.Line.{print_json_line_lem}

abbrev pub IsPrintable : ℕ → Type 0
IsPrintable c = (0x20 ≤ c) × (c < 0x7f)

-- Printable characters, and a newline at the end and only there.
abbrev pub IsLine : Bytes → Type 0
IsLine [] = ⊥
IsLine (c ∷ s) = ((c ≡ 10) × (s ≡ [])) ⊎ (IsPrintable c × IsLine s)

print_digits-IsPrintable :
    (fuel base n : ℕ) (acc : Bytes)
    → 0 < base
    → base ≤ 16
    → All IsPrintable acc
    → All IsPrintable (print_digits fuel base n acc)
unfolding print_digits digit_char
print_digits-IsPrintable zero base n acc pos h p = p
print_digits-IsPrintable (suc fuel) base n acc pos h p = elim (Bool-cases (ltb n base)) [
  | inl e ↦ rw e (digit n (ground arith), p)
  | inr e ↦ rw e (
      print_digits-IsPrintable fuel base (n / base) (digit_char (n % base) ∷ acc) pos h
        (digit (n % base) (mod_below n base pos h), p))
]
  where
    digit : (d : ℕ) → d < 16 → IsPrintable (digit_char d)
    digit d h = ground arith

    mod_below : (n base : ℕ) → 0 < base → base ≤ 16 → n % base < 16
    mod_below n base pos h = omega (arith, mod-lt n pos)

pad_zeros-IsPrintable : (k : ℕ) (s : Bytes) → All IsPrintable s → All IsPrintable (pad_zeros k s)
unfolding pad_zeros
pad_zeros-IsPrintable zero s h = h
pad_zeros-IsPrintable (suc k) s h = (omega arith, pad_zeros-IsPrintable k s h)

hex_padded-IsPrintable : (width n : ℕ) → All IsPrintable (hex_padded width n)
unfolding hex_padded hex
hex_padded-IsPrintable width n =
    pad_zeros-IsPrintable (width - length (hex n)) (hex n)
      (print_digits-IsPrintable 16 16 n [] (omega arith) (omega arith) tt)

decimal-IsPrintable : (n : ℕ) → All IsPrintable (decimal n)
unfolding decimal
decimal-IsPrintable n = print_digits-IsPrintable 20 10 n [] (omega arith) (omega arith) tt

if-All :
    (b : Bool) (s t : Bytes)
    → All IsPrintable s
    → All IsPrintable t
    → All IsPrintable (if b then s else t)
if-All true s t h k = h
if-All false s t h k = k

escape_char-IsPrintable : (c : ℕ) → All IsPrintable (escape_char c)
unfolding escape_char
escape_char-IsPrintable c = if-All (c == 34) _ _ (omega arith) (
    if-All (c == 92) _ _ (omega arith) (
      if-All (c == 10) _ _ (omega arith) (
        if-All (c == 13) _ _ (omega arith) (
          if-All (c == 9) _ _ (omega arith) (elim (Bool-cases (ltb c 0x20 || leb 0x7f c)) [
            | inl e ↦ rw e (omega arith, (omega arith, hex_padded-IsPrintable 4 c))
            | inr e ↦ rw e (ground arith, tt)
          ])))))

behind : (s rest : Bytes) → All IsPrintable s → IsLine rest → IsLine (s ++ rest)
behind [] rest h l = l
behind (c ∷ s) rest h l = inr (h.0, behind s rest h.1 l)

escape_chars-IsLine : (s rest : Bytes) → IsLine rest → IsLine (escape_chars s ++ rest)
unfolding escape_chars
escape_chars-IsLine [] rest l = l
escape_chars-IsLine (c ∷ s) rest l =
    rw (append_assoc (escape_char c) (escape_chars s) rest)
      (behind (escape_char c) _ (escape_char-IsPrintable c) (escape_chars-IsLine s rest l))

escaped-IsLine : (s rest : Bytes) → IsLine rest → IsLine (json_write_escaped s ++ rest)
unfolding json_write_escaped
escaped-IsLine s rest l =
    rw (append_assoc (escape_chars (c_str s)) (b'"' ∷ []) rest)
      (inr (omega arith, escape_chars-IsLine (c_str s) _ (inr (omega arith, l))))

bool_text-IsPrintable : (b : Bool) → All IsPrintable (bool_text b)
bool_text-IsPrintable true = omega arith
bool_text-IsPrintable false = omega arith

mutual
  unfolding show_json

  show_json-IsLine : (v : Json) (rest : Bytes) → IsLine rest → IsLine (show_json v rest)
  show_json-IsLine (text s) rest l = escaped-IsLine s rest l
  show_json-IsLine (number n) rest l = behind (decimal n) rest (decimal-IsPrintable n) l
  show_json-IsLine (boolean b) rest l = behind (bool_text b) rest (bool_text-IsPrintable b) l
  show_json-IsLine (array xs) rest l =
      inr (omega arith, show_items-IsLine xs _ (inr (omega arith, l)))
  show_json-IsLine (object fs) rest l =
      inr (omega arith, show_fields-IsLine fs _ (inr (omega arith, l)))

  show_items-IsLine : (xs : Items) (rest : Bytes) → IsLine rest → IsLine (show_items xs rest)
  show_items-IsLine no_items rest l = l
  show_items-IsLine (item v xs) rest l = show_json-IsLine v _ (show_more_items-IsLine xs rest l)

  show_more_items-IsLine :
      (xs : Items) (rest : Bytes) → IsLine rest → IsLine (show_more_items xs rest)
  show_more_items-IsLine no_items rest l = l
  show_more_items-IsLine (item v xs) rest l =
      inr (omega arith, show_json-IsLine v _ (show_more_items-IsLine xs rest l))

  show_fields-IsLine : (fs : Fields) (rest : Bytes) → IsLine rest → IsLine (show_fields fs rest)
  show_fields-IsLine no_fields rest l = l
  show_fields-IsLine (field k v fs) rest l =
      escaped-IsLine k _
        (inr (omega arith, show_json-IsLine v _ (show_more_fields-IsLine fs rest l)))

  show_more_fields-IsLine :
      (fs : Fields) (rest : Bytes) → IsLine rest → IsLine (show_more_fields fs rest)
  show_more_fields-IsLine no_fields rest l = l
  show_more_fields-IsLine (field k v fs) rest l = inr (
    omega arith,
    escaped-IsLine k _
        (inr (omega arith, show_json-IsLine v _ (show_more_fields-IsLine fs rest l))),
  )

-- For every well-formed packet, whatever bytes its names have (and with a `strftime` that stays
-- inside its array), the JSON line is written without a fault, consists of printable ASCII
-- characters, and has one newline, at its end.
pub print_json_line-IsLine :
    {n : ℕ} (clock : Clock) (pkt : Packet)
    → IsClock clock
    → IsPacket n pkt
    → Returns (print_json_line clock pkt) IsLine
print_json_line-IsLine clock pkt hc h =
    Returns-done IsLine (print_json_line_lem clock pkt hc h)
      (show_json-IsLine (packet_json clock pkt) (10 ∷ []) (inl (refl, refl)))
