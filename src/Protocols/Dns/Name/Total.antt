-- ===== src/Protocols/Dns/Name/Total.antt =====
-- `ns_dns_decode_name` of src/protocols/dns.c as a whole: its buffer, `out` and the fuel.
use native.Mathlib.Decide.{dec_le, dec_lt}
use netscope.Base.{
  ℕ, zero, suc, ◌+◌, ◌-◌, ◌^◌, ◌≤◌, ◌<◌, bit_and, Bytes, not, Option, none, some, [], ◌∷◌, inl, inr,
  ◌==◌, if◌then◌else◌, length, length-append, Bool-cases, lt→leb, le→leb, lt→ltb, le→ltb, arith,
}
use netscope.Run.{done, Returns, Returns-bind, ◌>>=◌}
use netscope.Word.{add_size, add_size_exact}
use netscope.Util.Buffer.{IsBuffer, byte_at, byte_at-lt, slice, length-slice}
use netscope.Util.Reads.{read_u8_lem, read_u16_be_lem}
use netscope.Util.Text.{store, terminate}
use netscope.Protocols.Status.{Status, ok, truncated, malformed, unsupported}
use netscope.Protocols.Dns.Name.{
  NameState, Turn, again, leave, set_end, name_pointer, name_label, name_turn, name_loop,
  finish_name, name_fuel, decode_name,
}
use netscope.Protocols.Dns.Name.Label.{
  dotted, length-dotted-le, le-length-dotted, add_label, label_cut, label_long, label_fits,
}

-- The end of the name as it is written at `offset`: not yet known, and then the loop has not gone
-- back; or known, behind `offset` and inside the buffer.
abbrev pub IsEnd : ℕ → ℕ → ℕ → Option ℕ → Type 0
IsEnd offset n pos none = offset ≤ pos
IsEnd offset n pos (some e) = (offset < e) × (e ≤ n)

pub record IsNameState (offset n out_len : ℕ) (s : NameState) : Type 0 where
  pub end_ok : IsEnd offset n s.pos s.end_offset
  pub room : length s.out < out_len
  pub few_jumps : s.jumps ≤ 32

-- The turns that are left at most.
abbrev pub turns_left : ℕ → NameState → ℕ
turns_left out_len s = (32 - s.jumps) + (out_len - length s.out)

-- `*end_offset` has been stored into, with an offset behind the start and inside the buffer.
abbrev pub Ended : ℕ → ℕ → Option ℕ → Type 0
Ended offset n none = ⊥
Ended offset n (some e) = (offset < e) × (e ≤ n)

abbrev pub EndedIfOk : ℕ → ℕ → Status → Option ℕ → Type 0
EndedIfOk offset n ok e = Ended offset n e
EndedIfOk offset n status e = Unit

abbrev TurnOk : ℕ → ℕ → ℕ → NameState → Turn → Type 0
TurnOk offset n out_len s (again s') =
    IsNameState offset n out_len s' × (turns_left out_len s' < turns_left out_len s)
TurnOk offset n out_len s (leave status s') =
    (length s'.out < out_len) × EndedIfOk offset n status s'.end_offset

IsEnd-set_end :
    (offset n pos pos' e : ℕ) (o : Option ℕ)
    → IsEnd offset n pos o
    → pos < e
    → e ≤ n
    → IsEnd offset n pos' (set_end o e)
IsEnd-set_end offset n pos pos' e none h p q = (omega arith, q)
IsEnd-set_end offset n pos pos' e (some old) h p q = h

Ended-set_end :
    (offset n pos e : ℕ) (o : Option ℕ)
    → IsEnd offset n pos o
    → pos < e
    → e ≤ n
    → Ended offset n (set_end o e)
Ended-set_end offset n pos e none h p q = (omega arith, q)
Ended-set_end offset n pos e (some old) h p q = h

IsEnd-forward :
    (offset n pos pos' : ℕ) (o : Option ℕ)
    → IsEnd offset n pos o
    → pos ≤ pos'
    → IsEnd offset n pos' o
IsEnd-forward offset n pos pos' none h p = omega arith
IsEnd-forward offset n pos pos' (some e) h p = h

module _ {buf : Bytes} {n : ℕ} (valid : IsBuffer buf n) (offset out_len : ℕ) (s : NameState)
    (good : IsNameState offset n out_len s) where
  name_pointer-TurnOk : Returns (name_pointer buf n s) (TurnOk offset n out_len s)
  unfolding name_pointer
  name_pointer-TurnOk = rw (read_u16_be_lem valid s.pos) (elim (dec_le (s.pos + 2) n) [
    | no cut ↦ rw (lt→leb (s.pos + 2) n (omega arith)) (good.room, tt)
    | yes fits ↦
        rw (le→leb (s.pos + 2) n fits, add_size_exact s.pos 2 (omega (arith, valid.small)))
          (elim (dec_le 32 s.jumps) [
            | yes many ↦ rw (lt→ltb 32 (s.jumps + 1) (omega arith)) (good.room, tt)
            | no few ↦ rw (le→ltb 32 (s.jumps + 1) (omega arith)) (
              record {
                end_ok =
                    IsEnd-set_end offset n s.pos _ (s.pos + 2) s.end_offset good.end_ok
                      (omega arith) fits;
                room = good.room;
                few_jumps = omega arith;
              },
              omega (arith, good.few_jumps),
            )
          ])
  ])

  add_label-IsNameState :
      (b : ℕ)
      → 0 < b
      → s.pos + 1 + b ≤ n
      → length s.out + b + 1 < out_len
      → IsNameState offset n out_len (add_label buf s.pos b s)
        × (turns_left out_len (add_label buf s.pos b s) < turns_left out_len s)
  unfolding add_label
  add_label-IsNameState b pos_b fits short =
      let label_len = length-slice buf (s.pos + 1) b (omega (arith, valid.within)) in
      let grown = length-append (dotted s.out) (slice buf (s.pos + 1) b) in
      (
        record {
          end_ok =
              IsEnd-forward offset n s.pos (s.pos + 1 + b) s.end_offset good.end_ok (omega arith);
          room = omega (arith, label_len, grown, length-dotted-le s.out);
          few_jumps = good.few_jumps;
        },
        omega (arith, label_len, grown, length-dotted-le s.out, le-length-dotted s.out),
      )

  name_label-TurnOk :
      (b : ℕ)
      → 0 < b
      → b < 256
      → s.pos < n
      → out_len < 2 ^ 63
      → Returns (name_label buf n out_len b s) (TurnOk offset n out_len s)
  name_label-TurnOk b pos_b small_b h small_out = elim (dec_le (s.pos + 1 + b) n) [
    | no cut ↦
        rw (label_cut valid out_len s b small_b h small_out good.room (omega arith)) (good.room, tt)
    | yes fits ↦ elim (dec_lt (length s.out + b + 1) out_len) [
      | no long ↦
          rw (label_long valid out_len s b small_b h small_out good.room fits (omega arith))
            (good.room, tt)
      | yes short ↦
          rw (label_fits valid out_len s b small_b h small_out good.room fits short)
            (add_label-IsNameState b pos_b fits short)
    ]
  ]

  name_turn-TurnOk :
      out_len < 2 ^ 63 → Returns (name_turn buf n out_len s) (TurnOk offset n out_len s)
  unfolding name_turn
  name_turn-TurnOk small_out = rw (read_u8_lem valid s.pos) (elim (dec_lt s.pos n) [
    | no out ↦ rw (lt→leb (s.pos + 1) n (omega arith)) (good.room, tt)
    | yes h ↦
        rw (le→leb (s.pos + 1) n (omega arith))
          (byte_turn (byte_at buf s.pos) h (byte_at-lt buf s.pos valid.bytes))
  ])
    where
      byte_turn :
          (b : ℕ)
          → s.pos < n
          → b < 256
          → Returns
              (if bit_and b 0xC0 == 0xC0
                then name_pointer buf n s
                else if not (bit_and b 0xC0 == 0)
                then done (leave malformed s)
                else if b == 0
                then done
                    (leave ok (record s { end_offset = set_end s.end_offset (add_size s.pos 1) }))
                else name_label buf n out_len b s)
              (TurnOk offset n out_len s)
      byte_turn b h small = elim (Bool-cases (bit_and b 0xC0 == 0xC0)) [
        | inl p ↦ rw p name_pointer-TurnOk
        | inr q ↦ elim (Bool-cases (bit_and b 0xC0 == 0)) [
          | inr r ↦ rw (q, r) (good.room, tt)
          | inl l ↦ elim (Bool-cases (b == 0)) [
            | inl z ↦
                rw (q, l, z, add_size_exact s.pos 1 (omega (arith, valid.small)))
                  (
                    good.room,
                    Ended-set_end offset n s.pos (s.pos + 1) s.end_offset good.end_ok (omega arith)
                        (omega arith),
                  )
            | inr z ↦ rw (q, l, z) (name_label-TurnOk b (ground arith) small h small_out)
          ]
        ]
      ]

abbrev NameEnd : ℕ → ℕ → ℕ → Status × NameState → Type 0
NameEnd offset n out_len (status, s) =
    (length s.out < out_len) × EndedIfOk offset n status s.end_offset

name_loop-Returns :
    {buf : Bytes} {n : ℕ} (valid : IsBuffer buf n) (offset out_len fuel : ℕ) (s : NameState)
    → out_len < 2 ^ 63
    → IsNameState offset n out_len s
    → turns_left out_len s < fuel
    → Returns (name_loop fuel buf n out_len s) (NameEnd offset n out_len)
unfolding name_loop
name_loop-Returns valid offset out_len zero s small good h = absurd (omega arith)
name_loop-Returns {buf} {n} valid offset out_len (suc fuel) s small good h =
    Returns-bind (name_turn buf n out_len s) _ (TurnOk offset n out_len s)
      (NameEnd offset n out_len) (name_turn-TurnOk valid offset out_len s good small)
      (rest (name_loop-Returns valid offset out_len fuel))
  where
    rest :
        ((s' : NameState)
          → out_len < 2 ^ 63
          → IsNameState offset n out_len s'
          → turns_left out_len s' < fuel
          → Returns (name_loop fuel buf n out_len s') (NameEnd offset n out_len))
        → (t : Turn) → TurnOk offset n out_len s t
        → Returns
            (elim t [
              | again s' ↦ name_loop fuel buf n out_len s'
              | leave status s' ↦ done (status, s')
            ])
            (NameEnd offset n out_len)
    rest ih (again s') ok_turn = ih s' small ok_turn.0 (omega (arith, ok_turn.1))
    rest ih (leave status s') ok_turn = ok_turn

-- What an answer of the decoder promises: the text and its terminator fit, and with `ok` the offset
-- behind the name has been stored, behind the start and inside the buffer.
abbrev pub Decoded : ℕ → ℕ → ℕ → Status × Bytes × Option ℕ → Type 0
Decoded offset n out_len (status, name, end) =
    (length name < out_len) × EndedIfOk offset n status end

finish_name-Returns :
    (offset n out_len : ℕ) (r : Status × NameState)
    → 1 < out_len
    → NameEnd offset n out_len r
    → Returns (finish_name out_len r) (Decoded offset n out_len)
unfolding finish_name terminate store
finish_name-Returns offset n out_len (ok, s) two h = finish_text s.out h.0
  where
    finish_text :
        (out : Bytes)
        → length out < out_len
        → Returns
            ((elim out [ [] ↦ store out_len [] (b'.' ∷ []) | c ∷ out ↦ done (c ∷ out) ])
              >>= (λ out. terminate out_len out >>= (λ out. done (ok, out, s.end_offset))))
            (Decoded offset n out_len)
    finish_text [] room = rw (le→leb 1 out_len room, lt→ltb 1 out_len two) (two, h.1)
    finish_text (c ∷ out) room = rw (lt→ltb (suc (length out)) out_len room) (room, h.1)
finish_name-Returns offset n out_len (truncated, s) two h = h
finish_name-Returns offset n out_len (malformed, s) two h = h
finish_name-Returns offset n out_len (unsupported, s) two h = h

-- On every buffer and from every offset, whatever pointers the bytes form, and for every `out` of two
-- chars or more (and under 2^63), the decoder ends within its fuel and without a fault. The text it leaves, with its terminator, fits in `out`, and if the
-- status is `ok` then `*end_offset` is behind the offset and inside the buffer.
pub decode_name-Decoded :
    {buf : Bytes} {n : ℕ} (valid : IsBuffer buf n) (offset out_len : ℕ)
    → 1 < out_len
    → out_len < 2 ^ 63
    → Returns (decode_name buf n offset out_len) (Decoded offset n out_len)
unfolding decode_name
decode_name-Decoded {buf} {n} valid offset out_len two small = elim (Bool-cases (out_len == 0)) [
  | inl z ↦ absurd (ground arith)
  | inr z ↦ rw z (
      Returns-bind
        (name_loop (name_fuel out_len) buf n out_len
          (record { pos = offset; out = []; end_offset = none; jumps = 0 }))
        (finish_name out_len) (NameEnd offset n out_len) (Decoded offset n out_len)
        (name_loop-Returns valid offset out_len (name_fuel out_len) _ small
          (record { end_ok = omega arith; room = omega arith; few_jumps = omega arith })
          (omega arith))
        (λ r. finish_name-Returns offset n out_len r two))
]
