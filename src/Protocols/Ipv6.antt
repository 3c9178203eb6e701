-- ===== src/Protocols/Ipv6.antt =====
-- src/protocols/ipv6.c
pub mod Parse
pub mod Extensions
use netscope.Base.{
  ℕ, zero, suc, ◌+◌, ◌/◌, ◌%◌, ◌^◌, bit_and, Bytes, Bool, true, false, not, ◌||◌, Option, none,
  some, ◌==◌, if◌then◌else◌, replicate,
}
use netscope.Run.{Run, done, ◌>>=◌}
use netscope.Word.{add_size, mul_size}
use netscope.Util.{bounds_check, read_u8, load_u8, load_u16, load_u32, memcpy}
use netscope.Protocols.Status.{Status, ok, truncated, malformed, Parsed}

pub record Ipv6Info : Type 0 where
  pub version : ℕ
  pub traffic_class : ℕ
  pub flow_label : ℕ
  pub payload_length : ℕ
  pub next_header : ℕ
  pub hop_limit : ℕ
  pub source : Bytes
  pub destination : Bytes
  pub header_length : ℕ

unfoldable pub parse_ipv6 : Bytes → ℕ → Ipv6Info → Run (Parsed Ipv6Info)
parse_ipv6 buf length out =
    if not (bounds_check length 0 40) then done (truncated, out, none) else do
      first_word ← load_u32 buf length 0
      let version = first_word / 2 ^ 28 % 2 ^ 8
      if not (version == 6) then done (malformed, out, none) else do
        payload_length ← load_u16 buf length 4
        next_header ← load_u8 buf length 6
        hop_limit ← load_u8 buf length 7
        source ← memcpy buf 8 16
        destination ← memcpy buf 24 16
        done (
          ok,
          record {
            version = version;
            traffic_class = bit_and (first_word / 2 ^ 20) 0xFF % 2 ^ 8;
            flow_label = bit_and first_word 0x000FFFFF;
            payload_length = payload_length;
            next_header = next_header;
            hop_limit = hop_limit;
            source = source;
            destination = destination;
            header_length = 40;
          },
          some 40,
        )

-- The answer, `*offset` and `*next_header` after the call.
abbrev pub Skip : Type 0
Skip = Bool × ℕ × ℕ

-- One round of the loop of `skip_extension_headers`: `some` where the code says `continue`, with
-- the new offset and next header; `none` with the answer where it returns.
abbrev pub Round : Type 0
Round = Option (ℕ × ℕ) × Bool

skip_options : Bytes → ℕ → ℕ → Run Round
skip_options buf length offset =
    if not (bounds_check length offset 2) then done (none, false) else do
      next ← load_u8 buf length offset
      ext_len_units ← load_u8 buf length (add_size offset 1)
      let ext_len = mul_size (add_size ext_len_units 1) 8
      if not (bounds_check length offset ext_len)
          then done (none, false)
          else done (some (add_size offset ext_len, next), false)

skip_fragment : Bytes → ℕ → ℕ → Run Round
skip_fragment buf length offset = do
  next ← read_u8 buf length offset
  elim next [
    | none ↦ done (none, false)
    | some next ↦
        if not (bounds_check length offset 8)
        then done (none, false)
        else done (some (add_size offset 8, next), false)
  ]

unfoldable pub skip_round : Bytes → ℕ → ℕ → ℕ → Run Round
unfolding skip_options skip_fragment add_size mul_size
skip_round buf length offset next_header =
    if next_header == 0 || next_header == 43 || next_header == 60
    then skip_options buf length offset
    else if next_header == 44
    then skip_fragment buf length offset
    else done (none, true)

-- `for (i = 0; i < NS_IPV6_MAX_EXTENSION_HEADERS; i++)`, on the rounds that are left.
unfoldable pub skip_loop : ℕ → Bytes → ℕ → ℕ → ℕ → Run Skip
skip_loop zero buf length offset next_header = done (false, offset, next_header)
skip_loop (suc rounds) buf length offset next_header = do
  (step, answer) ← skip_round buf length offset next_header
  elim step [
    | none ↦ done (answer, offset, next_header)
    | some (offset', next) ↦ skip_loop rounds buf length offset' next
  ]

unfoldable pub skip_extension_headers : Bytes → ℕ → ℕ → ℕ → Run Skip
unfolding skip_round skip_loop
skip_extension_headers = skip_loop 8
