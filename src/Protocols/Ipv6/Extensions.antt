-- ===== src/Protocols/Ipv6/Extensions.antt =====
-- The walk over the extension headers of IPv6, `skip_extension_headers`.
use netscope.Base.{
  ℕ, zero, suc, ◌+◌, ◌*◌, ◌≤◌, ◌<◌, Bytes, Bool, true, false, ◌||◌, none, some, ◌≡◌, refl, inl, inr,
  leb, ◌==◌, if◌then◌else◌, Bool-cases, lt→leb, le→leb, ◌∙◌, arith,
}
use native.Mathlib.Decide.{dec_le}
use netscope.Run.{done, Returns, Returns-mono}
use netscope.Word.{add_size_exact}
use netscope.Util.Buffer.{IsBuffer, byte_at, byte_at-lt}
use netscope.Util.Reads.{bounds_check_lem, load_u8_lem, read_u8_lem}
use netscope.Protocols.Ipv6.{Skip, Round, skip_round, skip_loop, skip_extension_headers}

-- Hop-by-hop options, routing and destination options have one layout.
abbrev pub is_options : ℕ → Bool
is_options next_header = next_header == 0 || next_header == 43 || next_header == 60

unfoldable pub is_extension : ℕ → Bool
is_extension next_header = is_options next_header || next_header == 44

-- The length of the extension header at `offset`: in units of eight bytes, not counting the first,
-- but for the fragment header.
unfoldable pub extension_len : Bytes → ℕ → ℕ → ℕ
extension_len buf offset next_header =
    if is_options next_header then (byte_at buf (offset + 1) + 1) * 8 else 8

round_result : Bytes → ℕ → ℕ → ℕ → Round
round_result buf n offset next_header =
    if is_extension next_header
    then (if leb (offset + extension_len buf offset next_header) n
        then (some (offset + extension_len buf offset next_header, byte_at buf offset), false)
        else (none, false))
    else (none, true)

skip_round_lem :
    {buf : Bytes} {n : ℕ} (valid : IsBuffer buf n) (offset next_header : ℕ)
    → skip_round buf n offset next_header ≡ done (round_result buf n offset next_header)
unfolding skip_round round_result is_extension extension_len
skip_round_lem {buf} {n} valid offset next_header =
    (ground (
      arith,
      valid.small,
      bounds_check_lem n offset 2 valid.small,
      bounds_check_lem n offset 8 valid.small,
      bounds_check_lem n offset ((byte_at buf (offset + 1) + 1) * 8) valid.small,
      add_size_exact offset 1,
      add_size_exact offset 8,
      add_size_exact (byte_at buf (offset + 1)) 1,
      add_size_exact offset ((byte_at buf (offset + 1) + 1) * 8),
      byte_at-lt buf (offset + 1) valid.bytes,
      load_u8_lem valid offset,
      load_u8_lem valid (offset + 1),
      read_u8_lem valid offset,
    ))

-- The chain of extension headers as a relation: `Walk buf n k offset nh offset' nh'` says that `k`
-- extension headers, each inside the first `n` bytes, lead from `offset`, where a header of kind
-- `nh` starts, to `offset'`, where one of kind `nh'` starts.
pub data Walk (buf : Bytes) (n : ℕ) : ℕ → ℕ → ℕ → ℕ → ℕ → Type 0 where
  here : {offset next_header : ℕ} → Walk buf n 0 offset next_header offset next_header
  skip :
      {k offset next_header end last : ℕ}
      → is_extension next_header ≡ true
      → offset + extension_len buf offset next_header ≤ n
      → Walk buf n k (offset + extension_len buf offset next_header) (byte_at buf offset) end last
      → Walk buf n (suc k) offset next_header end last

-- A walk of fewer headers than the rounds allow, up to a header that is none of them.
abbrev pub Reaches : ℕ → Bytes → ℕ → ℕ → ℕ → ℕ → ℕ → Type 0
Reaches rounds buf n offset next_header end last =
    (k : ℕ) × (k < rounds) × Walk buf n k offset next_header end last × (is_extension last ≡ false)

Reaches-skip :
    {rounds : ℕ} {buf : Bytes} {n offset next_header end last : ℕ}
    → is_extension next_header ≡ true
    → offset + extension_len buf offset next_header ≤ n
    → Reaches rounds buf n
        (offset + extension_len buf offset next_header)
        (byte_at buf offset)
        end
        last
    → Reaches (suc rounds) buf n offset next_header end last
Reaches-skip e h (k, lt, walk, upper) = (suc k, omega arith, skip e h walk, upper)

-- What the answer of the loop tells.
abbrev pub Sound : ℕ → Bytes → ℕ → ℕ → ℕ → Skip → Type 0
Sound rounds buf n offset next_header (true, end, last) =
    (offset ≤ end) × (end ≤ n) × Reaches rounds buf n offset next_header end last
Sound rounds buf n offset next_header (false, end, last) = (offset ≤ end) × (end ≤ n)

Sound-skip :
    (rounds : ℕ) (buf : Bytes) {n : ℕ} (offset next_header : ℕ) (r : Skip)
    → is_extension next_header ≡ true
    → offset + extension_len buf offset next_header ≤ n
    → Sound rounds buf n (offset + extension_len buf offset next_header) (byte_at buf offset) r
    → Sound (suc rounds) buf n offset next_header r
Sound-skip rounds buf offset next_header (true, end, last) e h s =
    (omega (arith, s.0), s.1, Reaches-skip e h s.2)
Sound-skip rounds buf offset next_header (false, end, last) e h s = (omega (arith, s.0), s.1)

-- One round of the loop: at a header of another kind, at one that does not fit, at one that does.
module _ {buf : Bytes} {n : ℕ} (valid : IsBuffer buf n) (rounds offset next_header : ℕ) where
  loop_upper :
      is_extension next_header ≡ false
      → skip_loop (suc rounds) buf n offset next_header ≡ done (true, offset, next_header)
  unfolding skip_loop round_result
  loop_upper upper = rw (skip_round_lem valid offset next_header, upper) refl

  loop_long :
      is_extension next_header ≡ true
      → n < offset + extension_len buf offset next_header
      → skip_loop (suc rounds) buf n offset next_header ≡ done (false, offset, next_header)
  unfolding skip_loop round_result
  loop_long ext long = rw (skip_round_lem valid offset next_header, ext, lt→leb _ _ long) refl

  loop_next :
      is_extension next_header ≡ true
      → offset + extension_len buf offset next_header ≤ n
      → skip_loop (suc rounds) buf n offset next_header
        ≡ skip_loop rounds buf n
            (offset + extension_len buf offset next_header)
            (byte_at buf offset)
  unfolding skip_loop round_result
  loop_next ext fits = rw (skip_round_lem valid offset next_header, ext, le→leb _ _ fits) refl

skip_loop-Sound :
    {buf : Bytes} {n : ℕ} (valid : IsBuffer buf n) (rounds offset next_header : ℕ)
    → offset ≤ n
    → Returns (skip_loop rounds buf n offset next_header) (Sound rounds buf n offset next_header)
skip_loop-Sound valid zero offset next_header h = unfold skip_loop in (omega arith, h)
skip_loop-Sound {buf} {n} valid (suc rounds) offset next_header h =
    elim (Bool-cases (is_extension next_header)) [
      | inr upper ↦
          rw (loop_upper valid rounds offset next_header upper)
            (omega arith, h, (0, omega arith, here, upper))
      | inl ext ↦ elim (dec_le (offset + extension_len buf offset next_header) n) [
        | no long ↦
            rw (loop_long valid rounds offset next_header ext (omega arith)) (omega arith, h)
        | yes fits ↦ rw (loop_next valid rounds offset next_header ext fits) (
            Returns-mono
              (skip_loop rounds buf n (offset + extension_len buf offset next_header)
                (byte_at buf offset))
              (Sound rounds buf n (offset + extension_len buf offset next_header)
                (byte_at buf offset))
              (Sound (suc rounds) buf n offset next_header)
              (skip_loop-Sound valid rounds (offset + extension_len buf offset next_header)
                (byte_at buf offset) fits)
              (λ r. Sound-skip rounds buf offset next_header r ext fits))
      ]
    ]

skip_loop-Walk :
    {buf : Bytes} {n k offset next_header end last : ℕ} (valid : IsBuffer buf n)
    → Walk buf n k offset next_header end last
    → (rounds : ℕ) → is_extension last ≡ false
    → k < rounds
    → skip_loop rounds buf n offset next_header ≡ done (true, end, last)
skip_loop-Walk valid here zero upper lt = absurd (omega arith)
skip_loop-Walk valid (skip e fits w) zero upper lt = absurd (omega arith)
skip_loop-Walk {offset = o} {next_header = h} valid here (suc r) upper lt =
    loop_upper valid r o h upper
skip_loop-Walk {offset = o} {next_header = h} valid (skip e fits w) (suc r) upper lt =
    loop_next valid r o h e fits ∙ skip_loop-Walk valid w r upper (omega arith)

-- As many headers as there are rounds use all rounds up, whatever comes behind them.
skip_loop-all_rounds :
    {buf : Bytes} {n k offset next_header end last : ℕ} (valid : IsBuffer buf n)
    → Walk buf n k offset next_header end last
    → skip_loop k buf n offset next_header ≡ done (false, end, last)
skip_loop-all_rounds valid here = unfold skip_loop in refl
skip_loop-all_rounds {offset = o} {next_header = h} valid (skip {k} e fits w) =
    loop_next valid k o h e fits ∙ skip_loop-all_rounds valid w

-- On every buffer, from an offset inside it, the walk ends without a fault; the offset does not go
-- back or leave the buffer; and where the answer is `true`, fewer than eight extension headers,
-- each inside the buffer, lead to the new offset, and the next header there is of another kind.
pub skip_extension_headers-Sound :
    {buf : Bytes} {n : ℕ} (valid : IsBuffer buf n) (offset next_header : ℕ)
    → offset ≤ n
    → Returns (skip_extension_headers buf n offset next_header) (Sound 8 buf n offset next_header)
unfolding skip_extension_headers
skip_extension_headers-Sound valid offset next_header h =
    skip_loop-Sound valid 8 offset next_header h

-- Conversely, wherever fewer than eight extension headers inside the buffer lead to a header of
-- another kind, the walk answers `true` with that offset and that kind.
pub skip_extension_headers-Walk :
    {buf : Bytes} {n k offset next_header end last : ℕ} (valid : IsBuffer buf n)
    → Walk buf n k offset next_header end last
    → is_extension last ≡ false
    → k < 8
    → skip_extension_headers buf n offset next_header ≡ done (true, end, last)
unfolding skip_extension_headers
skip_extension_headers-Walk valid w upper lt = skip_loop-Walk valid w 8 upper lt

-- A chain of exactly eight extension headers is refused, also where the header behind the eighth is
-- of another kind: the answer is `false`, with the offset and the kind behind the eighth.
pub skip_extension_headers-eight :
    {buf : Bytes} {n offset next_header end last : ℕ} (valid : IsBuffer buf n)
    → Walk buf n 8 offset next_header end last
    → skip_extension_headers buf n offset next_header ≡ done (false, end, last)
unfolding skip_extension_headers
skip_extension_headers-eight valid w = skip_loop-all_rounds valid w
