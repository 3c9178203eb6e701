-- ===== src/Protocols/Udp/Parse.antt =====
-- What `parse_udp` answers on every buffer.
use netscope.Base.{ℕ, Bytes, ◌≡◌, ltb, if◌then◌else◌, arith}
use netscope.Run.{done}
use netscope.Util.Buffer.{IsBuffer, u16_at}
use netscope.Util.Reads.{bounds_check_lem, load_u16_lem}
use netscope.Protocols.Status.{Status, ok, truncated, malformed}
use netscope.Protocols.Udp.{UdpInfo, parse_udp}

-- The header as RFC 768 lays it out.
unfoldable pub udp_header : Bytes → UdpInfo
udp_header buf = record {
  source_port = u16_at buf 0;
  destination_port = u16_at buf 2;
  length = u16_at buf 4;
  checksum = u16_at buf 6;
}

unfoldable pub udp_result : Bytes → ℕ → UdpInfo → Status × UdpInfo
udp_result buf n out =
    if ltb n 8
    then (truncated, out)
    else if ltb (u16_at buf 4) 8
    then (malformed, out)
    else (ok, udp_header buf)

-- On every buffer `parse_udp` ends without a fault, with the answer of `udp_result`: truncated below 8
-- bytes, malformed for a length field under 8, otherwise the four fields from their places.
pub parse_udp_lem :
    {buf : Bytes} {n : ℕ} (valid : IsBuffer buf n) (out : UdpInfo)
    → parse_udp buf n out ≡ done (udp_result buf n out)
unfolding parse_udp udp_result udp_header
parse_udp_lem {buf} {n} valid out = rw (bounds_check_lem n 0 8 valid.small) (
    ground (
      arith,
      load_u16_lem valid 0,
      load_u16_lem valid 2,
      load_u16_lem valid 4,
      load_u16_lem valid 6,
    ))
