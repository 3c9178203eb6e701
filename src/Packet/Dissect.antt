-- ===== src/Packet/Dissect.antt =====
-- src/packet.c. Every layer is handed `data + offset` and `length - offset`; what a layer stores
-- into the packet stays there, also where a later layer fails.
use Prim.Native.String.{String}
use netscope.Base.{
  ℕ, Bytes, true, false, not, ◌&&◌, Option, none, some, ◌==◌, ltb, if◌then◌else◌, drop,
}
use netscope.Run.{Run, done, ◌>>=◌, init}
use netscope.Word.{add_size, sub_size}
use netscope.Protocols.Status.{Status, ok, truncated}
use netscope.Protocols.Ethernet.{parse_ethernet}
use netscope.Protocols.Arp.{parse_arp}
use netscope.Protocols.Ipv4.{Ipv4Info, parse_ipv4}
use netscope.Protocols.Ipv6.{Ipv6Info, Skip, parse_ipv6, skip_extension_headers}
use netscope.Protocols.Tcp.{TcpInfo, parse_tcp}
use netscope.Protocols.Udp.{UdpInfo, parse_udp}
use netscope.Protocols.Icmp.{parse_icmp}
use netscope.Protocols.Icmpv6.{parse_icmpv6}
use netscope.Protocols.Dns.Parse.{parse_dns}
use netscope.Packet.Data.{
  Timestamp, LinkType, no_link, ethernet_link, Proto, arp, ipv4, ipv6, tcp, udp, icmp, icmpv6,
  net_arp, net_ipv4, net_ipv6, transport_tcp, transport_udp, transport_icmp, transport_icmpv6,
  Packet, zero_packet, as_arp, as_ipv4, as_ipv6, as_tcp, as_udp, as_icmp, as_icmpv6,
}

abbrev pub mark_malformed : Packet → String → Packet
mark_malformed out reason = record out { malformed = true; malformed_reason = some reason }

unfoldable pub set_payload : Packet → ℕ → ℕ → Packet
set_payload out length offset =
    if ltb length offset
    then record out { payload = none; payload_length = 0 }
    else record out { payload = some offset; payload_length = sub_size length offset }

abbrev pub store_dns : Packet → Status → Packet
store_dns out ok = record out { has_dns = true }
store_dns out status = out

unfoldable pub parse_dns_if_applicable : Packet → Bytes → ℕ → ℕ → ℕ → ℕ → Run Packet
parse_dns_if_applicable out buf length offset src_port dst_port =
    if not (src_port == 53) && not (dst_port == 53)
    then done out
    else if ltb length offset
    then done out
    else do
      (status, dns) ← parse_dns (drop offset buf) (sub_size length offset) out.dns_info
      done (store_dns (record out { dns_info = dns }) status)

-- Each layer in two steps: the call of its parser, and what the packet does with the status.
unfoldable pub tcp_parsed : Packet → Bytes → ℕ → ℕ → TcpInfo → Status → Option ℕ → Run Packet
tcp_parsed out buf length offset info ok header_len = do
  header_len ← init header_len
  let out = set_payload (record out { transport_proto = tcp }) length (add_size offset header_len)
  parse_dns_if_applicable out buf length (add_size offset header_len) info.source_port
      info.destination_port
tcp_parsed out buf length offset info truncated header_len =
    done (mark_malformed out "TCP header truncated")
tcp_parsed out buf length offset info status header_len =
    done (mark_malformed out "TCP header inconsistent")

unfoldable pub udp_parsed : Packet → Bytes → ℕ → ℕ → UdpInfo → Status → Run Packet
udp_parsed out buf length offset info ok = do
  let app_offset = add_size offset 8
  let out = set_payload (record out { transport_proto = udp }) length app_offset
  parse_dns_if_applicable out buf length app_offset info.source_port info.destination_port
udp_parsed out buf length offset info truncated = done (mark_malformed out "UDP header truncated")
udp_parsed out buf length offset info status = done (mark_malformed out "UDP header inconsistent")

abbrev pub icmp_parsed : Packet → Status → Packet
icmp_parsed out ok = record out { transport_proto = icmp }
icmp_parsed out status = mark_malformed out "ICMP header truncated"

abbrev pub icmpv6_parsed : Packet → Status → Packet
icmpv6_parsed out ok = record out { transport_proto = icmpv6 }
icmpv6_parsed out status = mark_malformed out "ICMPv6 header truncated"

unfoldable pub parse_transport : Packet → Bytes → ℕ → ℕ → ℕ → Run Packet
parse_transport out buf length offset proto =
    if proto == 6
    then as_tcp out.transport >>= (λ member. do
      (status, info, header_len) ← parse_tcp (drop offset buf) (sub_size length offset) member
      tcp_parsed (record out { transport = transport_tcp info }) buf length offset info status
          header_len)
    else if proto == 17
    then as_udp out.transport >>= (λ member. do
      (status, info) ← parse_udp (drop offset buf) (sub_size length offset) member
      udp_parsed (record out { transport = transport_udp info }) buf length offset info status)
    else if proto == 1
    then as_icmp out.transport >>= (λ member. do
      (status, info) ← parse_icmp (drop offset buf) (sub_size length offset) member
      done (icmp_parsed (record out { transport = transport_icmp info }) status))
    else if proto == 58
    then as_icmpv6 out.transport >>= (λ member. do
      (status, info) ← parse_icmpv6 (drop offset buf) (sub_size length offset) member
      done (icmpv6_parsed (record out { transport = transport_icmpv6 info }) status))
    else done out

unfoldable pub ipv4_parsed : Packet → Bytes → ℕ → ℕ → Ipv4Info → Status → Option ℕ → Run Packet
ipv4_parsed out buf length offset info truncated header_len =
    done (mark_malformed out "IPv4 header truncated")
ipv4_parsed out buf length offset info ok header_len = do
  header_len ← init header_len
  let transport_offset = add_size offset header_len
  let out = set_payload (record out { network_proto = ipv4 }) length transport_offset
  if info.is_fragment && not info.is_initial_fragment
      then done out
      else parse_transport out buf length transport_offset info.protocol
ipv4_parsed out buf length offset info status header_len =
    done (mark_malformed out "IPv4 header inconsistent")

unfoldable pub packet_parse_ipv4 : Packet → Bytes → ℕ → ℕ → Run Packet
packet_parse_ipv4 out buf length offset = do
  member ← as_ipv4 out.net
  (status, info, header_len) ← parse_ipv4 (drop offset buf) (sub_size length offset) member
  ipv4_parsed (record out { net = net_ipv4 info }) buf length offset info status header_len

unfoldable pub ipv6_skipped : Packet → Bytes → ℕ → Skip → Run Packet
ipv6_skipped out buf length (false, ext_offset, next_header) =
    done (set_payload (mark_malformed out "IPv6 extension header chain invalid") length ext_offset)
ipv6_skipped out buf length (true, ext_offset, next_header) =
    parse_transport (set_payload out length ext_offset) buf length ext_offset next_header

unfoldable pub ipv6_parsed : Packet → Bytes → ℕ → ℕ → Ipv6Info → Status → Option ℕ → Run Packet
ipv6_parsed out buf length offset info truncated header_len =
    done (mark_malformed out "IPv6 header truncated")
ipv6_parsed out buf length offset info ok header_len = do
  header_len ← init header_len
  skip ← skip_extension_headers buf length (add_size offset header_len) info.next_header
  ipv6_skipped (record out { network_proto = ipv6 }) buf length skip
ipv6_parsed out buf length offset info status header_len =
    done (mark_malformed out "IPv6 header inconsistent")

unfoldable pub packet_parse_ipv6 : Packet → Bytes → ℕ → ℕ → Run Packet
packet_parse_ipv6 out buf length offset = do
  member ← as_ipv6 out.net
  (status, info, header_len) ← parse_ipv6 (drop offset buf) (sub_size length offset) member
  ipv6_parsed (record out { net = net_ipv6 info }) buf length offset info status header_len

abbrev pub arp_parsed : Packet → Status → Packet
arp_parsed out ok = record out { network_proto = arp }
arp_parsed out truncated = mark_malformed out "ARP packet truncated"
arp_parsed out status = out

unfoldable pub packet_parse_arp : Packet → Bytes → ℕ → ℕ → Run Packet
packet_parse_arp out buf length offset = do
  member ← as_arp out.net
  (status, info) ← parse_arp (drop offset buf) (sub_size length offset) member
  done (set_payload (arp_parsed (record out { net = net_arp info }) status) length offset)

-- From the switch over the ethertype on.
unfoldable pub parse_network : Packet → Bytes → ℕ → ℕ → Run Packet
parse_network out buf length offset =
    if out.eth.ethertype == 0x0800
    then packet_parse_ipv4 out buf length offset
    else if out.eth.ethertype == 0x86DD
    then packet_parse_ipv6 out buf length offset
    else if out.eth.ethertype == 0x0806
    then packet_parse_arp out buf length offset
    else done out

unfoldable pub eth_parsed : Packet → Bytes → ℕ → Status → Option ℕ → Run Packet
eth_parsed out buf length ok header_len = do
  offset ← init header_len
  parse_network (set_payload (record out { has_eth = true }) length offset) buf length offset
eth_parsed out buf length status header_len = done (mark_malformed out "Ethernet header truncated")

-- The packet before its first layer: all of the captured bytes are payload.
abbrev pub new_packet : Bytes → ℕ → ℕ → Timestamp → ℕ → LinkType → Packet
new_packet buf captured_length original_length timestamp number link_type = record zero_packet {
  number = number;
  timestamp = timestamp;
  captured_length = captured_length;
  original_length = original_length;
  raw_data = buf;
  link_type = link_type;
  payload = some 0;
  payload_length = captured_length;
}

-- The parse of the first layer, for an Ethernet packet.
unfoldable pub parse_link : Packet → Bytes → ℕ → Run Packet
parse_link out buf captured_length = do
  (status, info, header_len) ← parse_ethernet buf captured_length out.eth
  eth_parsed (record out { eth = info }) buf captured_length status header_len

unfoldable pub packet_parse : Bytes → ℕ → ℕ → Timestamp → ℕ → LinkType → Run Packet
unfolding parse_link
packet_parse buf captured_length original_length timestamp number link_type =
    let out = new_packet buf captured_length original_length timestamp number link_type in
    elim link_type [ no_link ↦ done out | ethernet_link ↦ parse_link out buf captured_length ]

unfoldable pub proto_name : Proto → String
proto_name arp = "ARP"
proto_name ipv4 = "IPv4"
proto_name ipv6 = "IPv6"
proto_name tcp = "TCP"
proto_name udp = "UDP"
proto_name icmp = "ICMP"
proto_name icmpv6 = "ICMPv6"
proto_name Proto.dns = "DNS"
proto_name Proto.unknown = "Unknown"
