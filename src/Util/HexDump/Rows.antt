-- ===== src/Util/HexDump/Rows.antt =====
-- The rows that `ns_hex_dump_file` writes.
use netscope.Base.{
  ℕ, zero, suc, ◌+◌, ◌-◌, ◌/◌, ◌*◌, ◌^◌, ◌≤◌, ◌<◌, ◌≡◌, refl, sym, ap, ◌∙◌, Bytes, true, [], ◌∷◌,
  ◌++◌, length, min, get_or-take, get_or-drop, take, drop, length-take, length-drop, lt→ltb, le→ltb,
  arith, All, IsByte, append_assoc, append-nil,
}
use netscope.Run.{done}
use netscope.Word.{add_size, add_size_exact, sub_size_exact}
use netscope.Util.{at}
use netscope.Util.Buffer.{IsBuffer, byte_at, All-drop}
use netscope.Util.Reads.{at-done}
use netscope.Util.HexDump.{chunk_size, hex_dump_loop, hex_dump, hex_dump_file_write, hex_dump_file}
use netscope.Util.HexDump.Lines.{row_text, rows_text, hex_line_lem}

take-All : (n : ℕ) (s : Bytes) → All IsByte s → All IsByte (take n s)
take-All zero s h = tt
take-All (suc n) [] h = tt
take-All (suc n) (c ∷ s) h = (h.0, take-All n s h.1)

drop-nil : (n : ℕ) → drop {A = ℕ} n [] ≡ []
drop-nil zero = refl
drop-nil (suc n) = refl

drop-drop : (m n : ℕ) (s : Bytes) → drop n (drop m s) ≡ drop (m + n) s
drop-drop zero n s = ap (λ (k : ℕ). drop k s) (omega arith)
drop-drop (suc m) n [] = drop-nil n ∙ sym (drop-nil (suc m + n))
drop-drop (suc m) n (c ∷ s) = drop-drop m n s ∙ ap (λ (k : ℕ). drop k (c ∷ s)) (the_sum m n)
  where
    the_sum : (m n : ℕ) → suc (m + n) ≡ suc m + n
    the_sum m n = omega arith

module _ {buf : Bytes} {n : ℕ} (valid : IsBuffer buf n) (room : n + 16 < 2 ^ 64) where
  abbrev row_at : ℕ → Bytes
  row_at offset = take 16 (drop offset (take n buf))

  row_at-here :
      (offset i : ℕ)
      → offset < n
      → i < length (row_at offset)
      → at buf (add_size offset i) ≡ done (byte_at (row_at offset) i)
  row_at-here offset i h k =
      let inside : offset + i < n = omega (
        arith,
        length-take 16 (drop offset (take n buf)),
        length-drop offset (take n buf),
        length-take n buf,
      ) in
      rw
        (
          add_size_exact offset i (omega (arith, inside)),
          at-done buf (offset + i) (omega (arith, inside, valid.within)),
        )
        (ap done (
          sym (
            get_or-take 16 i (drop offset (take n buf)) 0
              (omega (arith, length-take 16 (drop offset (take n buf))))
            ∙ get_or-drop offset i (take n buf) 0
            ∙ get_or-take n (offset + i) buf 0 inside)))

  chunk_size_lem : (offset : ℕ) → offset ≤ n → chunk_size n offset ≡ min 16 (n - offset)
  unfolding chunk_size
  chunk_size_lem offset h = rw (sub_size_exact n offset h (omega arith)) (ground arith)

  hex_dump_loop_lem :
      (fuel k offset : ℕ) (out : Bytes)
      → k ≤ fuel
      → n ≤ offset + 16 * k
      → offset + 16 * k < n + 16
      → hex_dump_loop hex_dump_file_write fuel buf n offset out
        ≡ done (out ++ rows_text k offset (drop offset (take n buf)), true)
  unfolding hex_dump_loop
  hex_dump_loop_lem zero zero offset out h lo hi =
      rw (le→ltb offset n (omega arith), append-nil out) refl
  hex_dump_loop_lem (suc fuel) zero offset out h lo hi =
      rw (le→ltb offset n (omega arith), append-nil out) refl
  hex_dump_loop_lem zero (suc k) offset out h lo hi = absurd (omega arith)
  hex_dump_loop_lem (suc fuel) (suc k) offset out h lo hi =
      let long : length (row_at offset) ≡ min 16 (n - offset) = omega (
        arith,
        length-take 16 (drop offset (take n buf)),
        length-drop offset (take n buf),
        length-take n buf,
        valid.within,
      ) in
      let chunk : chunk_size n offset ≡ length (row_at offset) =
        chunk_size_lem offset (omega arith) ∙ sym long in
      rw
        (
          lt→ltb offset n (omega arith),
          chunk,
          hex_line_lem buf (row_at offset) offset
              (take-All 16 (drop offset (take n buf))
                (All-drop offset (take n buf) (take-All n buf valid.bytes)))
              (λ i. row_at-here offset i (omega arith)) (omega (arith, long)),
          add_size_exact offset 16 (omega arith),
          drop-drop offset 16 (take n buf),
        )
        (hex_dump_loop_lem fuel k (offset + 16) (out ++ row_text offset (row_at offset))
            (omega arith) (omega arith) (omega arith)
          ∙ ap (λ (t : Bytes). done (t, true))
              (append_assoc out (row_text offset (row_at offset)) _))

  -- For every buffer with that many bytes (and a length that leaves 16 below 2^64, so that the offset
  -- does not wrap around), the dump ends without a fault, and adds to the stream one row for every 16
  -- bytes and one for the rest: the offset in hexadecimal, the bytes as two digits each with a gap in
  -- the middle and blanks for what is missing, and the bytes as characters. No row is ever cut off by
  -- the array of 128 chars, and no byte beyond the length is read.
  pub hex_dump_file_lem :
      (out : Bytes)
      → hex_dump_file buf n out ≡ done (out ++ rows_text ((n + 15) / 16) 0 (take n buf))
  unfolding hex_dump_file hex_dump
  hex_dump_file_lem out =
      rw
        (hex_dump_loop_lem (n / 16 + 1) ((n + 15) / 16) 0 out (omega arith) (omega arith)
          (omega arith))
        refl
