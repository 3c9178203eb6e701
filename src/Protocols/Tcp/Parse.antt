-- ===== src/Protocols/Tcp/Parse.antt =====
-- What `parse_tcp` answers on every buffer.
use netscope.Base.{ℕ, ◌*◌, ◌/◌, ◌%◌, ◌^◌, Bytes, none, some, ◌≡◌, ltb, if◌then◌else◌, arith}
use netscope.Run.{done}
use netscope.Util.Buffer.{IsBuffer, byte_at, byte_at-lt, u16_at, u32_at}
use netscope.Util.Reads.{bounds_check_lem, load_u8_lem, load_u16_lem, load_u32_lem}
use netscope.Protocols.Status.{ok, truncated, malformed, Parsed}
use netscope.Protocols.Tcp.{TcpInfo, parse_tcp}

-- The length of the header in bytes: the upper half of byte 12 counts 32-bit words.
unfoldable pub tcp_header_len : Bytes → ℕ
tcp_header_len buf = byte_at buf 12 / 16 * 4

-- The header as RFC 9293 lays it out.
unfoldable pub tcp_header : Bytes → TcpInfo
unfolding tcp_header_len
tcp_header buf = record {
  source_port = u16_at buf 0;
  destination_port = u16_at buf 2;
  sequence_number = u32_at buf 4;
  ack_number = u32_at buf 8;
  data_offset = byte_at buf 12 / 16;
  flags = byte_at buf 13;
  window_size = u16_at buf 14;
  checksum = u16_at buf 16;
  urgent_pointer = u16_at buf 18;
  header_length = tcp_header_len buf;
}

unfoldable pub tcp_result : Bytes → ℕ → TcpInfo → Parsed TcpInfo
unfolding tcp_header
tcp_result buf n out =
    if ltb n 20
    then (truncated, out, none)
    else if ltb (tcp_header_len buf) 20
    then (malformed, out, none)
    else if ltb n (tcp_header_len buf)
    then (truncated, out, none)
    else (ok, tcp_header buf, some (tcp_header_len buf))

-- On every buffer `parse_tcp` ends without a fault, with the answer of `tcp_result`: truncated below 20
-- bytes, malformed for a data offset under 5, truncated if the header does not fit, otherwise every
-- field from its place and four times the data offset as the header length.
pub parse_tcp_lem :
    {buf : Bytes} {n : ℕ} (valid : IsBuffer buf n) (out : TcpInfo)
    → parse_tcp buf n out ≡ done (tcp_result buf n out)
unfolding parse_tcp tcp_result
parse_tcp_lem {buf} {n} valid out = rw (bounds_check_lem n 0 20 valid.small) (
    ground (
      arith,
      byte_at-lt buf 12 valid.bytes,
      bounds_check_lem n 0 (byte_at buf 12 / 2 ^ 4 % 2 ^ 8 * 4 % 2 ^ 64) valid.small,
      load_u16_lem valid 0,
      load_u16_lem valid 2,
      load_u32_lem valid 4,
      load_u32_lem valid 8,
      load_u8_lem valid 12,
      load_u8_lem valid 13,
      load_u16_lem valid 14,
      load_u16_lem valid 16,
      load_u16_lem valid 18,
    ))
