-- ===== src/Protocols/Ethernet/Parse.antt =====
-- What `parse_ethernet` answers on every buffer.
use netscope.Base.{ℕ, ◌%◌, Bytes, true, false, none, some, ◌≡◌, ltb, ◌==◌, if◌then◌else◌, arith}
use netscope.Run.{done}
use netscope.Word.Bits.{bit_and-0xFFF}
use netscope.Util.Buffer.{IsBuffer, u16_at, slice}
use netscope.Util.Reads.{bounds_check_lem, read_u16_be_lem, load_u16_lem, memcpy_lem}
use netscope.Protocols.Status.{ok, truncated, Parsed}
use netscope.Protocols.Ethernet.{EthInfo, parse_ethernet}

-- The addresses, and the fields of an untagged and of a tagged frame.
unfoldable pub eth_header : Bytes → ℕ → EthInfo
eth_header buf ethertype = record {
  destination = slice buf 0 6;
  source = slice buf 6 6;
  ethertype = ethertype;
  has_vlan = false;
  vlan_id = 0;
}

unfoldable pub tagged_header : Bytes → EthInfo
tagged_header buf = record {
  destination = slice buf 0 6;
  source = slice buf 6 6;
  ethertype = u16_at buf 16;
  has_vlan = true;
  vlan_id = u16_at buf 14 % 4096;
}

unfoldable pub eth_result : Bytes → ℕ → EthInfo → Parsed EthInfo
unfolding eth_header tagged_header
eth_result buf n out =
    if ltb n 14
    then (truncated, out, none)
    else if u16_at buf 12 == 0x8100
    then (if ltb n 18
        then (truncated, eth_header buf 0, none)
        else (ok, tagged_header buf, some 18))
    else (ok, eth_header buf (u16_at buf 12), some 14)

-- On every buffer `parse_ethernet` ends without a fault, with the answer of `eth_result`: truncated
-- below 14 bytes, and below 18 with a VLAN tag; otherwise the addresses, the ethertype (behind the tag,
-- if there is one), the low 12 bits of the tag, and 14 or 18 as the header length.
pub parse_ethernet_lem :
    {buf : Bytes} {n : ℕ} (valid : IsBuffer buf n) (out : EthInfo)
    → parse_ethernet buf n out ≡ done (eth_result buf n out)
unfolding parse_ethernet eth_result
parse_ethernet_lem {buf} {n} valid out = rw (bounds_check_lem n 0 14 valid.small) (
    ground (
      arith,
      bounds_check_lem n 0 18 valid.small,
      memcpy_lem valid 0 6,
      memcpy_lem valid 6 6,
      read_u16_be_lem valid 12,
      load_u16_lem valid 14,
      load_u16_lem valid 16,
      bit_and-0xFFF (u16_at buf 14),
    ))
