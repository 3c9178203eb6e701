-- ===== src/Protocols/Ipv6/Parse.antt =====
-- What `parse_ipv6` answers on every buffer.
use netscope.Base.{ℕ, ◌/◌, ◌%◌, ◌^◌, Bytes, none, some, ◌≡◌, ltb, ◌==◌, if◌then◌else◌, arith}
use netscope.Run.{done}
use netscope.Word.Bits.{bit_and-0xFF, bit_and-0xFFFFF}
use netscope.Util.Buffer.{IsBuffer, byte_at, u16_at, u32_at, u32_at-lt, slice}
use netscope.Util.Reads.{bounds_check_lem, load_u8_lem, load_u16_lem, load_u32_lem, memcpy_lem}
use netscope.Protocols.Status.{ok, truncated, malformed, Parsed}
use netscope.Protocols.Ipv6.{Ipv6Info, parse_ipv6}

-- The header as RFC 8200 lays it out.
unfoldable pub ipv6_header : Bytes → Ipv6Info
ipv6_header buf = record {
  version = 6;
  traffic_class = u32_at buf 0 / 2 ^ 20 % 256;
  flow_label = u32_at buf 0 % 2 ^ 20;
  payload_length = u16_at buf 4;
  next_header = byte_at buf 6;
  hop_limit = byte_at buf 7;
  source = slice buf 8 16;
  destination = slice buf 24 16;
  header_length = 40;
}

unfoldable pub ipv6_result : Bytes → ℕ → Ipv6Info → Parsed Ipv6Info
unfolding ipv6_header
ipv6_result buf n out =
    if ltb n 40
    then (truncated, out, none)
    else if u32_at buf 0 / 2 ^ 28 == 6
    then (ok, ipv6_header buf, some 40)
    else (malformed, out, none)

-- On every buffer `parse_ipv6` ends without a fault, with the answer of `ipv6_result`: truncated below
-- 40 bytes, malformed for another version, otherwise every field from its place and the header
-- length 40.
pub parse_ipv6_lem :
    {buf : Bytes} {n : ℕ} (valid : IsBuffer buf n) (out : Ipv6Info)
    → parse_ipv6 buf n out ≡ done (ipv6_result buf n out)
unfolding parse_ipv6 ipv6_result
parse_ipv6_lem {buf} {n} valid out = rw (bounds_check_lem n 0 40 valid.small) (
    ground (
      arith,
      u32_at-lt buf 0 valid.bytes,
      load_u32_lem valid 0,
      load_u16_lem valid 4,
      load_u8_lem valid 6,
      load_u8_lem valid 7,
      memcpy_lem valid 8 16,
      memcpy_lem valid 24 16,
      bit_and-0xFF (u32_at buf 0 / 2 ^ 20),
      bit_and-0xFFFFF (u32_at buf 0),
    ))
