-- ===== src/Util/HexDump.antt =====
-- `ns_hex_dump` and `ns_hex_dump_file` of src/util.c.
pub mod Lines
pub mod Rows
use netscope.Base.{
  ℕ, zero, suc, ◌+◌, ◌-◌, ◌/◌, Bytes, Bool, true, false, not, ◌&&◌, List, [], ◌∷◌, ◌++◌, ◌==◌, ltb,
  leb, if◌then◌else◌, length,
}
use netscope.Run.{Run, done, fault, Fault, ◌>>=◌}
use netscope.Word.{add_size, sub_size}
use netscope.Util.{at}
use netscope.Util.Text.{snprintf, store, terminate, hex_padded}
use netscope.Util.Format.{codes}

-- `pos = append_line(line, buf_len, pos, …)`: what does not fit is cut off.
unfoldable pub append_line : ℕ → Bytes → Bytes → Bytes
unfolding snprintf
append_line buf_len line s =
    if leb buf_len (length line) then line else line ++ snprintf (buf_len - length line) s

unfoldable pub append_gap : ℕ → Bytes → Bytes
append_gap i line = if i == 7 then append_line 128 line (codes " ") else line

-- The columns from `i` on, for as many as are left of the 16.
unfoldable pub hex_columns : ℕ → ℕ → Bytes → ℕ → ℕ → Bytes → Run Bytes
unfolding append_line append_gap
hex_columns zero i buf offset chunk line = done line
hex_columns (suc turns) i buf offset chunk line = do
  line ←
      if ltb i chunk
      then at buf (add_size offset i)
        >>= (λ b. done (append_line 128 line (hex_padded 2 b ++ codes " ")))
      else done (append_line 128 line (codes "   "))
  hex_columns turns (suc i) buf offset chunk (append_gap i line)

abbrev pub shown_char : ℕ → ℕ
shown_char c = if leb 0x20 c && ltb c 0x7f then c else b'.'

-- The loop over the characters, on the turns that are left: `i < chunk && pos + 1 < sizeof(line)`.
unfoldable pub ascii_columns : ℕ → ℕ → Bytes → ℕ → Bytes → Run Bytes
unfolding store
ascii_columns zero i buf offset line = done line
ascii_columns (suc turns) i buf offset line =
    if not (ltb (length line + 1) 128) then done line else do
      c ← at buf (add_size offset i)
      line ← store 128 line (shown_char c ∷ [])
      ascii_columns turns (suc i) buf offset line

unfoldable pub chunk_size : ℕ → ℕ → ℕ
chunk_size length offset = if ltb (sub_size length offset) 16 then sub_size length offset else 16

unfoldable pub hex_line : Bytes → ℕ → ℕ → Run Bytes
unfolding hex_columns ascii_columns append_line store terminate
hex_line buf offset chunk = do
  let line = append_line 128 [] (hex_padded 4 offset ++ codes "  ")
  line ← hex_columns 16 0 buf offset chunk line
  let line = append_line 128 line (codes " ")
  line ← ascii_columns chunk 0 buf offset line
  line ← if ltb (length line + 1) 128 then store 128 line (codes "\n") else done line
  terminate 128 line

-- The loop over the lines: `write` says what becomes of its context, and whether to go on.
module _ {S : Type 0} (write : S → Bytes → S × Bool) where
  unfoldable pub hex_dump_loop : ℕ → Bytes → ℕ → ℕ → S → Run (S × Bool)
  hex_dump_loop zero buf length offset ctx =
      if ltb offset length then fault Fault.out_of_fuel else done (ctx, true)
  hex_dump_loop (suc fuel) buf length offset ctx =
      if not (ltb offset length) then done (ctx, true) else do
        line ← hex_line buf offset (chunk_size length offset)
        let (ctx, more) = write ctx line
        if more then hex_dump_loop fuel buf length (add_size offset 16) ctx else done (ctx, false)

  unfoldable pub hex_dump : Bytes → ℕ → S → Run (S × Bool)
  unfolding hex_dump_loop
  hex_dump buf length ctx = hex_dump_loop (length / 16 + 1) buf length 0 ctx

-- `fputs` on a stream that takes what is written to it.
abbrev pub hex_dump_file_write : Bytes → Bytes → Bytes × Bool
hex_dump_file_write out chunk = (out ++ chunk, true)

unfoldable pub hex_dump_file : Bytes → ℕ → Bytes → Run Bytes
hex_dump_file buf length out = hex_dump hex_dump_file_write buf length out >>= (λ r. done r.0)
