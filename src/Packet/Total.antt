-- ===== src/Packet/Total.antt =====
-- The dissection of src/packet.c as a whole and well-formed packets.
use Prim.Native.String.{String}
use netscope.Base.{ℕ, Bytes, Option, none, some, refl, arith}
use netscope.Run.{Returns, Returns-bind}
use netscope.Util.Buffer.{IsBuffer}
use netscope.Protocols.Status.{Status, ok, truncated, malformed, unsupported}
use netscope.Protocols.Ethernet.{EthInfo, zero_eth, parse_ethernet}
use netscope.Packet.Data.{Timestamp, LinkType, no_link, ethernet_link, Packet}
use netscope.Packet.Dissect.{mark_malformed, eth_parsed, new_packet, packet_parse}
use netscope.Packet.WellFormed.{
  IsPacket, HeaderFits, ParsedFits, set_payload_inside, parse_ethernet-ParsedFits,
}
use netscope.Packet.Network.{IsFresh, parse_network-IsPacket}

eth_refused :
    {n : ℕ} (p : Packet) (h : IsPacket n p) (info : EthInfo) (reason : String)
    → IsPacket n (mark_malformed (record p { eth = info }) reason)
eth_refused p h info reason = record {
  captured = h.captured;
  net_tag = h.net_tag;
  transport_tag = h.transport_tag;
  dns_tag = h.dns_tag;
  dns_ok = h.dns_ok;
  payload_ok = h.payload_ok;
  reason_ok = tt;
  raw_ok = h.raw_ok;
}

module _ {buf : Bytes} {n : ℕ} (valid : IsBuffer buf n) (p : Packet) (h : IsPacket n p)
    (fresh : IsFresh p) where
  eth_parsed-IsPacket :
      (info : EthInfo) (status : Status) (header_len : Option ℕ)
      → HeaderFits n status header_len
      → Returns (eth_parsed (record p { eth = info }) buf n status header_len) (IsPacket n)
  unfolding eth_parsed
  eth_parsed-IsPacket info ok none fits = absurd fits
  eth_parsed-IsPacket info ok (some k) fits = rw (set_payload_inside _ n k valid.small fits) (
      parse_network-IsPacket valid k _
        (record {
          captured = h.captured;
          net_tag = h.net_tag;
          transport_tag = h.transport_tag;
          dns_tag = h.dns_tag;
          dns_ok = h.dns_ok;
          payload_ok = (fits, refl);
          reason_ok = h.reason_ok;
          raw_ok = h.raw_ok;
        })
        (record {
          no_network = fresh.no_network;
          zero_member = fresh.zero_member;
          bare = record {
            no_transport = fresh.bare.no_transport;
            zero_member = fresh.bare.zero_member;
            no_dns = fresh.bare.no_dns;
          };
        })
        fits)
  eth_parsed-IsPacket info truncated header_len fits = eth_refused p h info _
  eth_parsed-IsPacket info malformed header_len fits = eth_refused p h info _
  eth_parsed-IsPacket info unsupported header_len fits = eth_refused p h info _

new_packet-IsPacket :
    {buf : Bytes} {captured_length : ℕ} (valid : IsBuffer buf captured_length) (original_length : ℕ)
    (timestamp : Timestamp) (number : ℕ) (link_type : LinkType)
    → IsPacket captured_length
        (new_packet buf captured_length original_length timestamp number link_type)
new_packet-IsPacket valid original_length timestamp number link_type = record {
  captured = refl;
  net_tag = tt;
  transport_tag = tt;
  dns_tag = tt;
  dns_ok = omega arith;
  payload_ok = omega arith;
  reason_ok = tt;
  raw_ok = valid;
}

-- For every captured packet, of which at least `captured_length` bytes are there, the dissection
-- ends: it never reads outside those bytes, writes outside an array, uses a variable that is not
-- set or reads a union member that was not written, and no loop runs out of its bound. The packet
-- that it leaves is well-formed: the payload lies inside the captured bytes, both protocol tags name
-- the member that is in the union, a transport protocol stands over IP and DNS over TCP or UDP, and
-- there is a reason exactly if the packet is malformed. Its raw bytes are as many as it says.
pub packet_parse-IsPacket :
    {buf : Bytes} {captured_length : ℕ} (valid : IsBuffer buf captured_length) (original_length : ℕ)
    (timestamp : Timestamp) (number : ℕ) (link_type : LinkType)
    → Returns
        (packet_parse buf captured_length original_length timestamp number link_type)
        (IsPacket captured_length)
unfolding packet_parse
packet_parse-IsPacket {buf} {captured_length} valid original_length timestamp number no_link =
    new_packet-IsPacket valid original_length timestamp number no_link
packet_parse-IsPacket {buf} {captured_length} valid original_length timestamp number ethernet_link =
    Returns-bind (parse_ethernet buf captured_length zero_eth) _ (ParsedFits captured_length)
      (IsPacket captured_length) (parse_ethernet-ParsedFits valid zero_eth)
      (λ r.
        eth_parsed-IsPacket valid
          (new_packet buf captured_length original_length timestamp number ethernet_link)
          (new_packet-IsPacket valid original_length timestamp number ethernet_link)
          (record {
            no_network = refl;
            zero_member = refl;
            bare = record { no_transport = refl; zero_member = refl; no_dns = refl };
          })
          r.1 r.0 r.2)
