-- ===== src/Protocols/Icmpv6/Parse.antt =====
-- What `parse_icmpv6` answers on every buffer.
use netscope.Base.{ℕ, Bytes, Bool, ◌||◌, ◌≡◌, ltb, ◌==◌, if◌then◌else◌, arith}
use netscope.Run.{done}
use netscope.Util.Buffer.{IsBuffer, byte_at, u16_at}
use netscope.Util.Reads.{bounds_check_lem, load_u8_lem, load_u16_lem}
use netscope.Protocols.Status.{Status, ok, truncated}
use netscope.Protocols.Icmpv6.{Icmpv6Info, parse_icmpv6}

-- Echo request and echo reply carry an identifier and a sequence number.
unfoldable pub is_echo_v6 : ℕ → Bool
is_echo_v6 type = type == 128 || type == 129

-- The message as RFC 4443 lays it out, with the second half of the header or with zeros for it.
unfoldable pub icmpv6_header : Bytes → Icmpv6Info
icmpv6_header buf = record {
  type = byte_at buf 0;
  code = byte_at buf 1;
  checksum = u16_at buf 2;
  identifier = 0;
  sequence = 0;
}

unfoldable pub echo_header_v6 : Bytes → Icmpv6Info
unfolding icmpv6_header
echo_header_v6 buf = record (icmpv6_header buf) {
  identifier = u16_at buf 4;
  sequence = u16_at buf 6;
}

unfoldable pub icmpv6_result : Bytes → ℕ → Icmpv6Info → Status × Icmpv6Info
unfolding is_echo_v6 echo_header_v6
icmpv6_result buf n out =
    if ltb n 4
    then (truncated, out)
    else if is_echo_v6 (byte_at buf 0)
    then (if ltb n 8 then (truncated, icmpv6_header buf) else (ok, echo_header_v6 buf))
    else (ok, icmpv6_header buf)

-- On every buffer `parse_icmpv6` ends without a fault, with the answer of `icmpv6_result`: truncated
-- below 4 bytes; for the echo types truncated below 8 bytes, with the first fields stored all the same,
-- and else with identifier and sequence; for the other types without them.
pub parse_icmpv6_lem :
    {buf : Bytes} {n : ℕ} (valid : IsBuffer buf n) (out : Icmpv6Info)
    → parse_icmpv6 buf n out ≡ done (icmpv6_result buf n out)
unfolding parse_icmpv6 icmpv6_result
parse_icmpv6_lem {buf} {n} valid out = rw (bounds_check_lem n 0 4 valid.small) (
    ground (
      arith,
      bounds_check_lem n 0 8 valid.small,
      load_u8_lem valid 0,
      load_u8_lem valid 1,
      load_u16_lem valid 2,
      load_u16_lem valid 4,
      load_u16_lem valid 6,
    ))
