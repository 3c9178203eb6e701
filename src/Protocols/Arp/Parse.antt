-- ===== src/Protocols/Arp/Parse.antt =====
-- What `parse_arp` answers on every buffer.
use netscope.Base.{ℕ, ◌+◌, ◌*◌, Bytes, ◌&&◌, ◌≡◌, ltb, ◌==◌, if◌then◌else◌, arith}
use netscope.Run.{done}
use netscope.Util.Buffer.{IsBuffer, byte_at, u16_at, slice}
use netscope.Util.Reads.{bounds_check_lem, load_u8_lem, load_u16_lem, memcpy_lem}
use netscope.Protocols.Status.{Status, ok, truncated, unsupported}
use netscope.Protocols.Arp.{ArpInfo, parse_arp}

-- The packet as RFC 826 lays it out for Ethernet and IPv4.
unfoldable pub arp_packet : Bytes → ArpInfo
arp_packet buf = record {
  operation = u16_at buf 6;
  sender_mac = slice buf 8 6;
  sender_ip = slice buf 14 4;
  target_mac = slice buf 18 6;
  target_ip = slice buf 24 4;
}

unfoldable pub arp_result : Bytes → ℕ → ArpInfo → Status × ArpInfo
unfolding arp_packet
arp_result buf n out =
    if ltb n 8
    then (truncated, out)
    else if u16_at buf 0 == 1 && u16_at buf 2 == 0x0800 && byte_at buf 4 == 6 && byte_at buf 5 == 4
    then (if ltb n 28 then (truncated, out) else (ok, arp_packet buf))
    else (unsupported, out)

-- On every buffer `parse_arp` ends without a fault, with the answer of `arp_result`: truncated below 8
-- bytes; unsupported, with `*out` as before, unless the header is for Ethernet and IPv4; truncated
-- below 28 bytes; otherwise the operation and the four addresses from their places.
pub parse_arp_lem :
    {buf : Bytes} {n : ℕ} (valid : IsBuffer buf n) (out : ArpInfo)
    → parse_arp buf n out ≡ done (arp_result buf n out)
unfolding parse_arp arp_result
parse_arp_lem {buf} {n} valid out = rw (bounds_check_lem n 0 8 valid.small) (
    ground (
      arith,
      bounds_check_lem n 8 (2 * byte_at buf 4 + 2 * byte_at buf 5) valid.small,
      bounds_check_lem n 8 20 valid.small,
      load_u16_lem valid 0,
      load_u16_lem valid 2,
      load_u8_lem valid 4,
      load_u8_lem valid 5,
      load_u16_lem valid 6,
      memcpy_lem valid 8 6,
      memcpy_lem valid 14 4,
      memcpy_lem valid 18 6,
      memcpy_lem valid 24 4,
    ))
