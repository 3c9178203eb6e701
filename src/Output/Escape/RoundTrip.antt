-- ===== src/Output/Escape/RoundTrip.antt =====
-- A reader of JSON strings, written from the grammar of JSON and not from `json_write_escaped` of
-- src/output.c.
use netscope.Base.{
  ℕ, suc, ◌+◌, ◌-◌, ◌*◌, ◌/◌, ◌%◌, ◌<◌, Bytes, Option, none, some, [], ◌∷◌, ◌++◌, ◌≡◌, refl, ap,
  ◌∙◌, ◌&&◌, ◌||◌, ◌==◌, append_assoc, false, ltb, leb, if◌then◌else◌, arith, ◌⊎◌, inl, inr,
  Bool-cases, All, IsByte,
}
use netscope.Util.Text.{c_str, hex_padded, digit_char}
use netscope.Util.Text.Digits.{hex_padded-byte}
use netscope.Output.Escape.{escape_char, escape_chars, json_write_escaped}

-- Where the reader stands: in the text, behind a backslash, or in a `\u` escape of which so many
-- digits are read with that value.
pub data Reader : Type 0 where
  plain escaped : Reader
  unicode : ℕ → ℕ → Reader

abbrev pub hex_value : ℕ → Option ℕ
hex_value c =
    if leb 48 c && leb c 57
    then some (c - 48)
    else if leb 97 c && leb c 102
    then some (c - 87)
    else if leb 65 c && leb c 70
    then some (c - 55)
    else none

abbrev pub escape_value : ℕ → Option ℕ
escape_value c =
    if c == 34 || c == 92 || c == 47
    then some c
    else if c == 98
    then some 8
    else if c == 102
    then some 12
    else if c == 110
    then some 10
    else if c == 114
    then some 13
    else if c == 116
    then some 9
    else none

abbrev pub put : ℕ → Option (Bytes × Bytes) → Option (Bytes × Bytes)
put c none = none
put c (some (s, rest)) = some (c ∷ s, rest)

abbrev pub put_some : Option ℕ → Option (Bytes × Bytes) → Option (Bytes × Bytes)
put_some none r = none
put_some (some c) r = put c r

-- The text up to the closing quote, and what follows it.
unfoldable pub read_chars : Reader → Bytes → Option (Bytes × Bytes)
read_chars reader [] = none
read_chars plain (c ∷ s) =
    let go = read_chars plain s in
    let esc = read_chars escaped s in
    if c == 34 then some ([], s) else if c == 92 then esc else if ltb c 32 then none else put c go
read_chars escaped (c ∷ s) =
    let go = read_chars plain s in
    let uni = read_chars (unicode 0 0) s in if c == 117 then uni else put_some (escape_value c) go
read_chars (unicode k v) (c ∷ s) = elim (hex_value c) [
  | none ↦ none
  | some d ↦
      if k == 3
      then put (v * 16 + d) (read_chars plain s)
      else read_chars (unicode (suc k) (v * 16 + d)) s
]

-- A JSON string and what follows it.
unfoldable pub read_string : Bytes → Option (Bytes × Bytes)
read_string [] = none
read_string (c ∷ s) = if c == 34 then read_chars plain s else none

hex_value-digit_char : (d : ℕ) → d < 16 → hex_value (digit_char d) ≡ some d
unfolding digit_char
hex_value-digit_char d h = ground arith

read-unicode :
    (a b : ℕ) (t : Bytes)
    → a < 16
    → b < 16
    → read_chars plain (92 ∷ 117 ∷ 48 ∷ 48 ∷ digit_char a ∷ digit_char b ∷ t)
      ≡ put (a * 16 + b) (read_chars plain t)
unfolding read_chars
read-unicode a b t h k =
    rw (hex_value-digit_char a h, hex_value-digit_char b k)
      (ap (λ (v : ℕ). put v (read_chars plain t)) (omega arith))

read-plain :
    (c : ℕ) (t : Bytes)
    → (c == 34) ≡ false
    → (c == 92) ≡ false
    → ltb c 32 ≡ false
    → read_chars plain (c ∷ t) ≡ put c (read_chars plain t)
unfolding read_chars
read-plain c t quote slash low = rw (quote, slash, low) refl

-- Whether a number is that constant.
is : (c k : ℕ) → (c ≡ k) ⊎ ((c == k) ≡ false)
is c k = ground arith

read-other :
    (c : ℕ) (t : Bytes)
    → c < 256
    → (c == 34) ≡ false
    → (c == 92) ≡ false
    → read_chars plain ((if ltb c 32 || leb 127 c then 92 ∷ 117 ∷ hex_padded 4 c else c ∷ []) ++ t)
      ≡ put c (read_chars plain t)
read-other c t h quote slash = elim (Bool-cases (ltb c 32 || leb 127 c)) [
  | inl e ↦
      rw (e, hex_padded-byte c h)
        (read-unicode (c / 16) (c % 16) t (omega arith) (omega arith)
          ∙ ap (λ (v : ℕ). put v (read_chars plain t)) (omega arith))
  | inr e ↦ rw e (read-plain c t quote slash (ground arith))
]

read-escape_char :
    (c : ℕ) (t : Bytes)
    → c < 256
    → read_chars plain (escape_char c ++ t) ≡ put c (read_chars plain t)
unfolding escape_char read_chars
read-escape_char c t h = elim (is c 34) [
  | inl e ↦ rw e refl
  | inr quote ↦ elim (is c 92) [
    | inl e ↦ rw e refl
    | inr slash ↦ elim (is c 10) [
      | inl e ↦ rw e refl
      | inr line ↦ elim (is c 13) [
        | inl e ↦ rw e refl
        | inr return ↦ elim (is c 9) [
          | inl e ↦ rw e refl
          | inr tab ↦ rw (quote, slash, line, return, tab) (read-other c t h quote slash)
        ]
      ]
    ]
  ]
]

-- What the code escapes, read back: the text and nothing of what follows.
read-escape_chars :
    (s t : Bytes) → All IsByte s → read_chars plain (escape_chars s ++ (34 ∷ t)) ≡ some (s, t)
unfolding escape_chars read_chars
read-escape_chars [] t h = refl
read-escape_chars (c ∷ s) t h =
    ap (read_chars plain) (append_assoc (escape_char c) (escape_chars s) (34 ∷ t))
    ∙ read-escape_char c (escape_chars s ++ (34 ∷ t)) h.0
    ∙ ap (put c) (read-escape_chars s t h.1)

c_str-All : (s : Bytes) → All IsByte s → All IsByte (c_str s)
unfolding c_str
c_str-All [] h = tt
c_str-All (c ∷ s) h = elim (Bool-cases (c == 0)) [
  | inl e ↦ rw e tt
  | inr e ↦ rw e (h.0, c_str-All s h.1)
]

-- For every text of bytes, followed by anything, what `json_write_escaped` writes is a JSON string:
-- a reader of JSON strings that knows nothing of the code reads it to its closing quote, gets back
-- exactly the bytes before the terminator, and leaves what follows. So different texts are never
-- written the same way, and no text ends the string early.
pub json_write_escaped-read_string :
    (s rest : Bytes)
    → All IsByte s
    → read_string (json_write_escaped s ++ rest) ≡ some (c_str s, rest)
unfolding json_write_escaped read_string
json_write_escaped-read_string s rest h =
    ap (read_chars plain) (append_assoc (escape_chars (c_str s)) (34 ∷ []) rest)
    ∙ read-escape_chars (c_str s) rest (c_str-All s h)
