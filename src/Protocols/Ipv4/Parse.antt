-- ===== src/Protocols/Ipv4/Parse.antt =====
-- What `parse_ipv4` answers on every buffer.
use netscope.Base.{
  ℕ, ◌*◌, ◌/◌, ◌%◌, ◌^◌, ◌≤◌, Bytes, Bool, not, ◌&&◌, ◌||◌, none, some, ◌≡◌, ltb, ◌==◌,
  if◌then◌else◌, arith,
}
use netscope.Run.{done}
use netscope.Word.Bits.{bit_and-0x03, bit_and-0x0F, bit_and-0x1FFF, bit_and-0x2000, bit_and-0x4000}
use netscope.Util.Buffer.{IsBuffer, byte_at, byte_at-lt, u16_at, slice}
use netscope.Util.Reads.{bounds_check_lem, load_u8_lem, load_u16_lem, memcpy_lem}
use netscope.Protocols.Status.{ok, truncated, malformed, Parsed}
use netscope.Protocols.Ipv4.{Ipv4Info, ipv4_fields, parse_ipv4}

-- The length of the header in bytes: the lower half of byte 0 counts 32-bit words.
unfoldable pub ipv4_header_len : Bytes → ℕ
ipv4_header_len buf = byte_at buf 0 % 16 * 4

-- The two parts of the flags and the fragment offset that decide what the packet is a piece of.
unfoldable pub more_fragments : Bytes → Bool
more_fragments buf = u16_at buf 6 / 0x2000 % 2 == 1

unfoldable pub fragment_place : Bytes → ℕ
fragment_place buf = u16_at buf 6 % 8192

-- The header as RFC 791 lays it out.
unfoldable pub ipv4_header : Bytes → Ipv4Info
unfolding ipv4_header_len more_fragments fragment_place
ipv4_header buf = record {
  version = 4;
  ihl = byte_at buf 0 % 16;
  dscp = byte_at buf 1 / 4;
  ecn = byte_at buf 1 % 4;
  total_length = u16_at buf 2;
  identification = u16_at buf 4;
  flag_df = u16_at buf 6 / 0x4000 % 2 == 1;
  flag_mf = more_fragments buf;
  fragment_offset = fragment_place buf;
  ttl = byte_at buf 8;
  protocol = byte_at buf 9;
  header_checksum = u16_at buf 10;
  source = slice buf 12 4;
  destination = slice buf 16 4;
  header_length = ipv4_header_len buf;
  is_fragment = more_fragments buf || not (fragment_place buf == 0);
  is_initial_fragment = more_fragments buf && fragment_place buf == 0;
}

unfoldable pub ipv4_result : Bytes → ℕ → Ipv4Info → Parsed Ipv4Info
unfolding ipv4_header
ipv4_result buf n out =
    if ltb n 20
    then (truncated, out, none)
    else if not (byte_at buf 0 / 16 == 4)
    then (malformed, out, none)
    else if ltb (ipv4_header_len buf) 20
    then (malformed, out, none)
    else if ltb n (ipv4_header_len buf)
    then (truncated, out, none)
    else if ltb (u16_at buf 2) (ipv4_header_len buf)
    then (malformed, out, none)
    else (ok, ipv4_header buf, some (ipv4_header_len buf))

ipv4_fields_lem :
    {buf : Bytes} {n : ℕ} (valid : IsBuffer buf n) (out : Ipv4Info)
    → 20 ≤ n
    → ipv4_fields buf n 4 (byte_at buf 0 % 16) out
      ≡ done (
          if ltb n (ipv4_header_len buf)
          then (truncated, out, none)
          else if ltb (u16_at buf 2) (ipv4_header_len buf)
          then (malformed, out, none)
          else (ok, ipv4_header buf, some (ipv4_header_len buf)))
unfolding ipv4_fields ipv4_header
ipv4_fields_lem {buf} {n} valid out h =
    (ground (
      arith,
      bounds_check_lem n 0 (byte_at buf 0 % 16 * 4 % 2 ^ 64) valid.small,
      load_u8_lem valid 1,
      load_u16_lem valid 2,
      load_u16_lem valid 4,
      load_u16_lem valid 6,
      load_u8_lem valid 8,
      load_u8_lem valid 9,
      load_u16_lem valid 10,
      memcpy_lem valid 12 4,
      memcpy_lem valid 16 4,
      byte_at-lt buf 1 valid.bytes,
      bit_and-0x03 (byte_at buf 1),
      bit_and-0x1FFF (u16_at buf 6),
      bit_and-0x2000 (u16_at buf 6),
      bit_and-0x4000 (u16_at buf 6),
    ))

-- On every buffer `parse_ipv4` ends without a fault, with the answer of `ipv4_result`: truncated below
-- 20 bytes, malformed for another version or a header length under 5 words, truncated if the header
-- does not fit, malformed if the total length is under the header length; otherwise every field from
-- its place, the flags and the fragment offset as arithmetic of the 16-bit word at 6.
pub parse_ipv4_lem :
    {buf : Bytes} {n : ℕ} (valid : IsBuffer buf n) (out : Ipv4Info)
    → parse_ipv4 buf n out ≡ done (ipv4_result buf n out)
unfolding parse_ipv4 ipv4_result
parse_ipv4_lem {buf} {n} valid out = rw (bounds_check_lem n 0 20 valid.small) (
    ground (
      arith,
      load_u8_lem valid 0,
      byte_at-lt buf 0 valid.bytes,
      bit_and-0x0F (byte_at buf 0),
      ipv4_fields_lem valid out,
    ))
