-- ===== src/Protocols/Dns/Name.antt =====
-- `ns_dns_decode_name`. The local variables of the function are a record, and one turn of its loop
-- is a function. `end_offset` is `none` until `*end_offset` has been stored into (`end_set`).
pub mod Label
pub mod Total
use netscope.Base.{
  ℕ, zero, suc, ◌+◌, bit_and, Bytes, Bool, not, Option, none, some, List, [], ◌∷◌, ◌==◌, ltb, leb,
  if◌then◌else◌, length,
}
use netscope.Run.{Run, done, fault, Fault, ◌>>=◌}
use netscope.Word.{add_size}
use netscope.Util.{bounds_check, read_u8, read_u16_be, memcpy}
use netscope.Util.Text.{store, terminate}
use netscope.Protocols.Status.{Status, ok, truncated, malformed}

pub record NameState : Type 0 where
  pub pos : ℕ
  pub out : Bytes
  pub end_offset : Option ℕ
  pub jumps : ℕ

-- A turn ends in `continue`, in `break` (the status is `ok`) or in a `return` of another status.
pub data Turn : Type 0 where
  again : NameState → Turn
  leave : Status → NameState → Turn

-- `if (!end_set) { *end_offset = e; end_set = true; }`
abbrev pub set_end : Option ℕ → ℕ → Option ℕ
set_end none e = some e
set_end (some old) e = some old

unfoldable pub name_pointer : Bytes → ℕ → NameState → Run Turn
name_pointer buf length s = do
  ptr_field ← read_u16_be buf length s.pos
  elim ptr_field [
    | none ↦ done (leave truncated s)
    | some p ↦
        let s' = record s {
          end_offset = set_end s.end_offset (add_size s.pos 2);
          jumps = s.jumps + 1;
        } in
        if ltb 32 s'.jumps
        then done (leave malformed s')
        else done (again (record s' { pos = bit_and p 0x3FFF }))
  ]

-- The dot that separates a label from those before it.
unfoldable pub store_dot : ℕ → Bytes → Run Bytes
store_dot out_len [] = done []
store_dot out_len (c ∷ out) = store out_len (c ∷ out) (b'.' ∷ [])

unfoldable pub name_label : Bytes → ℕ → ℕ → ℕ → NameState → Run Turn
name_label buf n out_len label_len s =
    let pos = add_size s.pos 1 in
    if not (bounds_check n pos label_len)
    then done (leave truncated (record s { pos = pos }))
    else if leb out_len (add_size (add_size (length s.out) label_len) 1)
    then done (leave malformed (record s { pos = pos }))
    else do
      out ← store_dot out_len s.out
      label ← memcpy buf pos label_len
      out ← store out_len out label
      done (again (record s { pos = add_size pos label_len; out = out }))

unfoldable pub name_turn : Bytes → ℕ → ℕ → NameState → Run Turn
name_turn buf length out_len s = do
  len_byte ← read_u8 buf length s.pos
  elim len_byte [
    | none ↦ done (leave truncated s)
    | some b ↦
        if bit_and b 0xC0 == 0xC0
        then name_pointer buf length s
        else if not (bit_and b 0xC0 == 0)
        then done (leave malformed s)
        else if b == 0
        then done (leave ok (record s { end_offset = set_end s.end_offset (add_size s.pos 1) }))
        else name_label buf length out_len b s
  ]

-- The loop `for (;;)`, with fuel.
unfoldable pub name_loop : ℕ → Bytes → ℕ → ℕ → NameState → Run (Status × NameState)
name_loop zero buf length out_len s = fault Fault.out_of_fuel
name_loop (suc fuel) buf length out_len s = do
  turn ← name_turn buf length out_len s
  elim turn [
    | again s' ↦ name_loop fuel buf length out_len s'
    | leave status s' ↦ done (status, s')
  ]

-- What stands behind the loop: the root is written as a dot, and the text is terminated.
unfoldable pub finish_name : ℕ → Status × NameState → Run (Status × Bytes × Option ℕ)
finish_name out_len (ok, s) = do
  out ← elim s.out [ [] ↦ store out_len [] (b'.' ∷ []) | c ∷ out ↦ done (c ∷ out) ]
  out ← terminate out_len out
  done (ok, out, s.end_offset)
finish_name out_len (status, s) = done (status, s.out, s.end_offset)

-- Each turn follows one of at most 32 pointers, writes at least one char, or is the last.
abbrev pub name_fuel : ℕ → ℕ
name_fuel out_len = out_len + 34

-- The status, the text in `out`, and `*end_offset`.
unfoldable pub decode_name : Bytes → ℕ → ℕ → ℕ → Run (Status × Bytes × Option ℕ)
decode_name buf length offset out_len =
    if out_len == 0
    then done (malformed, [], none)
    else name_loop (name_fuel out_len) buf length out_len
        (record { pos = offset; out = []; end_offset = none; jumps = 0 })
      >>= finish_name out_len
