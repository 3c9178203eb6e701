-- ===== src/Protocols/Icmp/Parse.antt =====
-- What `parse_icmp` answers on every buffer.
use netscope.Base.{ℕ, Bytes, Bool, ◌||◌, ◌≡◌, ltb, ◌==◌, if◌then◌else◌, arith}
use netscope.Run.{done}
use netscope.Util.Buffer.{IsBuffer, byte_at, u16_at}
use netscope.Util.Reads.{bounds_check_lem, load_u8_lem, load_u16_lem}
use netscope.Protocols.Status.{Status, ok, truncated}
use netscope.Protocols.Icmp.{IcmpInfo, parse_icmp}

-- Echo request and echo reply carry an identifier and a sequence number.
unfoldable pub is_echo : ℕ → Bool
is_echo type = type == 8 || type == 0

-- The message as RFC 792 lays it out, with the second half of the header or with zeros for it.
unfoldable pub icmp_header : Bytes → IcmpInfo
icmp_header buf = record {
  type = byte_at buf 0;
  code = byte_at buf 1;
  checksum = u16_at buf 2;
  identifier = 0;
  sequence = 0;
}

unfoldable pub echo_header : Bytes → IcmpInfo
unfolding icmp_header
echo_header buf = record (icmp_header buf) { identifier = u16_at buf 4; sequence = u16_at buf 6 }

unfoldable pub icmp_result : Bytes → ℕ → IcmpInfo → Status × IcmpInfo
unfolding is_echo echo_header
icmp_result buf n out =
    if ltb n 4
    then (truncated, out)
    else if is_echo (byte_at buf 0)
    then (if ltb n 8 then (truncated, icmp_header buf) else (ok, echo_header buf))
    else (ok, icmp_header buf)

-- On every buffer `parse_icmp` ends without a fault, with the answer of `icmp_result`: truncated below 4
-- bytes; for the echo types truncated below 8 bytes, with the first fields stored all the same, and
-- else with identifier and sequence; for the other types without them.
pub parse_icmp_lem :
    {buf : Bytes} {n : ℕ} (valid : IsBuffer buf n) (out : IcmpInfo)
    → parse_icmp buf n out ≡ done (icmp_result buf n out)
unfolding parse_icmp icmp_result
parse_icmp_lem {buf} {n} valid out = rw (bounds_check_lem n 0 4 valid.small) (
    ground (
      arith,
      bounds_check_lem n 0 8 valid.small,
      load_u8_lem valid 0,
      load_u8_lem valid 1,
      load_u16_lem valid 2,
      load_u16_lem valid 4,
      load_u16_lem valid 6,
    ))
