-- ===== src/Util/HexDump/Lines.antt =====
-- What `ns_hex_dump` of src/util.c writes, described row by row.
use netscope.Base.{
  ℕ, zero, suc, ◌+◌, ◌-◌, ◌*◌, ◌≤◌, ◌<◌, ◌≡◌, refl, sym, ap, ◌∙◌, Bytes, [], ◌∷◌, ◌++◌, ◌==◌, ltb,
  if◌then◌else◌, length, take, drop, length-append, lt→ltb, lt→leb, arith, All, IsByte, Bool-cases,
  inl, inr, append_assoc, append-nil,
}
use netscope.Run.{done}
use netscope.Word.{add_size}
use netscope.Util.{at}
use netscope.Util.Buffer.{byte_at, byte_at-lt}
use netscope.Util.Text.{hex_padded, store-done, terminate-done}
use netscope.Util.Text.Digits.{snprintf-fits, length-hex_padded-le, length-hex_padded-byte}
use netscope.Util.Format.{codes}
use netscope.Util.HexDump.{
  append_line, append_gap, hex_columns, shown_char, ascii_columns, hex_line,
}

-- A column of the left part: two digits, or blanks behind the end of the row; a gap in the middle.
abbrev pub column : Bytes → ℕ → Bytes
column row i = if ltb i (length row) then hex_padded 2 (byte_at row i) ++ codes " " else codes "   "

abbrev pub gap : ℕ → Bytes
gap i = if i == 7 then codes " " else []

abbrev pub columns : ℕ → ℕ → Bytes → Bytes
columns zero i row = []
columns (suc k) i row = column row i ++ (gap i ++ columns k (suc i) row)

abbrev pub shown : Bytes → Bytes
shown [] = []
shown (c ∷ row) = shown_char c ∷ shown row

-- A row of at most 16 bytes: its offset, the bytes in hexadecimal, and as characters.
abbrev pub row_text : ℕ → Bytes → Bytes
row_text offset row =
    ((((hex_padded 4 offset ++ codes "  ") ++ columns 16 0 row) ++ codes " ") ++ shown row)
    ++ codes "\n"

-- So many rows of 16 bytes, the last one maybe shorter.
abbrev pub rows_text : ℕ → ℕ → Bytes → Bytes
rows_text zero offset bytes = []
rows_text (suc k) offset bytes =
    row_text offset (take 16 bytes) ++ rows_text k (offset + 16) (drop 16 bytes)

append_line-fits :
    (line s : Bytes) → length line + length s < 128 → append_line 128 line s ≡ line ++ s
unfolding append_line
append_line-fits line s h =
    rw (lt→leb 128 (length line) (omega arith), snprintf-fits (128 - length line) s (omega arith))
      refl

length-column : (row : Bytes) (i : ℕ) → All IsByte row → length (column row i) ≡ 3
length-column row i h = elim (Bool-cases (ltb i (length row))) [
  | inl e ↦ rw e (
      omega (
        arith,
        length-append (hex_padded 2 (byte_at row i)) (codes " "),
        length-hex_padded-byte (byte_at row i) (byte_at-lt row i h),
      ))
  | inr e ↦ rw e refl
]

append_gap_lem :
    (i : ℕ) (line s : Bytes)
    → length line + length s + 1 < 128
    → append_gap i (append_line 128 line s) ≡ line ++ (s ++ gap i)
unfolding append_gap
append_gap_lem i line s h = elim (Bool-cases (i == 7)) [
  | inl e ↦
      rw (e, append_line-fits line s (omega arith))
        (append_line-fits (line ++ s) (codes " ") (omega (arith, length-append line s))
          ∙ append_assoc line s (codes " "))
  | inr e ↦
      rw (e, append_line-fits line s (omega arith))
        (ap (λ (t : Bytes). line ++ t) (sym (append-nil s)))
]

length-gap : (i : ℕ) → length (gap i) ≤ 1
length-gap i = ground arith

length-columns : (k i : ℕ) (row : Bytes) → All IsByte row → length (columns k i row) ≤ 4 * k
length-columns zero i row h = omega arith
length-columns (suc k) i row h = omega (
  arith,
  length-append (column row i) (gap i ++ columns k (suc i) row),
  length-append (gap i) (columns k (suc i) row),
  length-column row i h,
  length-gap i,
  length-columns k (suc i) row h,
)

drop-cons : (i : ℕ) (row : Bytes) → i < length row → drop i row ≡ byte_at row i ∷ drop (suc i) row
drop-cons i [] h = absurd (omega arith)
drop-cons zero (c ∷ row) h = refl
drop-cons (suc i) (c ∷ row) h = drop-cons i row (omega arith)

drop-all : (i : ℕ) (row : Bytes) → i ≡ length row → drop i row ≡ []
drop-all zero [] h = refl
drop-all zero (c ∷ row) h = absurd (omega arith)
drop-all (suc i) [] h = refl
drop-all (suc i) (c ∷ row) h = drop-all i row (omega arith)

length-shown : (row : Bytes) → length (shown row) ≡ length row
length-shown [] = refl
length-shown (c ∷ row) = ap suc (length-shown row)

-- A row of the buffer that starts at `offset`.
module _ (buf row : Bytes) (offset : ℕ) (bytes : All IsByte row)
    (here : (i : ℕ) → i < length row → at buf (add_size offset i) ≡ done (byte_at row i)) where
  -- The loop behind one column, if the loop from the next one on is right.
  after_column :
      (turns i : ℕ) (line s : Bytes)
      → length line + length s + 1 < 128
      → ((line' : Bytes)
          → length line' ≤ length line + length s + 1
          → hex_columns turns (suc i) buf offset (length row) line'
            ≡ done (line' ++ columns turns (suc i) row))
      → hex_columns turns (suc i) buf offset (length row) (append_gap i (append_line 128 line s))
        ≡ done (line ++ (s ++ (gap i ++ columns turns (suc i) row)))
  after_column turns i line s room ih = rw (append_gap_lem i line s room) (
      ih (line ++ (s ++ gap i))
        (omega (arith, length-append line (s ++ gap i), length-append s (gap i), length-gap i))
      ∙ ap done (
          append_assoc line (s ++ gap i) (columns turns (suc i) row)
          ∙ ap (λ (t : Bytes). line ++ t) (append_assoc s (gap i) (columns turns (suc i) row))))

  hex_columns_lem :
      (turns i : ℕ) (line : Bytes)
      → length line + 4 * turns < 128
      → hex_columns turns i buf offset (length row) line ≡ done (line ++ columns turns i row)
  unfolding hex_columns
  hex_columns_lem zero i line room = ap done (sym (append-nil line))
  hex_columns_lem (suc turns) i line room = elim (Bool-cases (ltb i (length row))) [
    | inl e ↦
        rw (e, here i (ground arith))
          (after_column turns i line (hex_padded 2 (byte_at row i) ++ codes " ")
            (omega (arith, full))
            (λ line' h. hex_columns_lem turns (suc i) line' (omega (arith, full))))
    | inr e ↦ rw e (
        after_column turns i line (codes "   ") (omega arith)
          (λ line' h. hex_columns_lem turns (suc i) line' (omega arith)))
  ]
    where
      full : length (hex_padded 2 (byte_at row i) ++ codes " ") ≡ 3
      full = omega (
        arith,
        length-append (hex_padded 2 (byte_at row i)) (codes " "),
        length-hex_padded-byte (byte_at row i) (byte_at-lt row i bytes),
      )

  ascii_columns_lem :
      (turns i : ℕ) (line : Bytes)
      → i + turns ≡ length row
      → length line + turns + 1 < 128
      → ascii_columns turns i buf offset line ≡ done (line ++ shown (drop i row))
  unfolding ascii_columns
  ascii_columns_lem zero i line end room =
      rw (drop-all i row (omega arith)) (ap done (sym (append-nil line)))
  ascii_columns_lem (suc turns) i line end room =
      rw
        (
          lt→ltb (length line + 1) 128 (omega arith),
          here i (omega arith),
          store-done 128 line (shown_char (byte_at row i) ∷ []) (omega arith),
          drop-cons i row (omega arith),
        )
        (ascii_columns_lem turns (suc i) (line ++ (shown_char (byte_at row i) ∷ [])) (omega arith)
            (omega (arith, length-append line (shown_char (byte_at row i) ∷ [])))
          ∙ ap done
              (append_assoc line (shown_char (byte_at row i) ∷ []) (shown (drop (suc i) row))))

  pub hex_line_lem : length row ≤ 16 → hex_line buf offset (length row) ≡ done (row_text offset row)
  unfolding hex_line
  hex_line_lem few =
      let start = hex_padded 4 offset ++ codes "  " in
      let left = start ++ columns 16 0 row in
      let right = (left ++ codes " ") ++ shown row in
      let begun : length start ≤ 22 =
        omega (
          arith,
          length-append (hex_padded 4 offset) (codes "  "),
          length-hex_padded-le 4 offset,
        ) in
      let half : length left ≤ 86 =
        omega
          (arith, begun, length-append start (columns 16 0 row), length-columns 16 0 row bytes) in
      let whole : length right ≤ 103 = omega (
        arith,
        half,
        few,
        length-append (left ++ codes " ") (shown row),
        length-append left (codes " "),
        length-shown row,
      ) in
      rw
        (
          append_line-fits [] start (omega (arith, begun)),
          hex_columns_lem 16 0 start (omega (arith, begun)),
          append_line-fits left (codes " ") (omega (arith, half)),
          ascii_columns_lem (length row) 0 (left ++ codes " ") (omega arith)
              (omega (arith, half, few, length-append left (codes " "))),
          lt→ltb (length right + 1) 128 (omega (arith, whole)),
          store-done 128 right (codes "\n") (omega (arith, whole)),
        )
        (terminate-done 128 (right ++ codes "\n")
          (omega (arith, whole, length-append right (codes "\n"))))
