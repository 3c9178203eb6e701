-- ===== src/Stats/Update.antt =====
-- `ns_stats_update` of src/stats.c.
use netscope.Base.{
  ℕ, ◌+◌, ◌-◌, ◌%◌, ◌^◌, Bool, true, false, not, ◌&&◌, Option, none, some, if◌then◌else◌,
}
use netscope.Run.{Run, done, ◌>>=◌}
use netscope.Packet.Data.{Proto, arp, ipv4, ipv6, tcp, udp, icmp, icmpv6, Packet}
use netscope.Stats.Data.{Stats, add_u64}
use netscope.Stats.Flow.{Endpoints, extract_endpoints, record_flow}

unfoldable pub count_totals : Stats → Packet → Stats
count_totals stats pkt = record stats {
  total_packets = add_u64 stats.total_packets 1;
  total_captured_bytes = add_u64 stats.total_captured_bytes pkt.captured_length;
  total_wire_bytes = add_u64 stats.total_wire_bytes pkt.original_length;
  malformed_packets =
      if pkt.malformed then add_u64 stats.malformed_packets 1 else stats.malformed_packets;
}

-- The switch over the network protocol; `unknown_eth` stands for the test of its default case.
unfoldable pub count_network : Stats → Bool → Proto → Stats
count_network stats unknown_eth ipv4 = record stats { ipv4_packets = add_u64 stats.ipv4_packets 1 }
count_network stats unknown_eth ipv6 = record stats { ipv6_packets = add_u64 stats.ipv6_packets 1 }
count_network stats unknown_eth arp = record stats { arp_packets = add_u64 stats.arp_packets 1 }
count_network stats unknown_eth other = record stats {
  unsupported_packets =
      if unknown_eth then add_u64 stats.unsupported_packets 1 else stats.unsupported_packets;
}

unfoldable pub count_transport : Stats → Proto → Stats
count_transport stats tcp = record stats { tcp_packets = add_u64 stats.tcp_packets 1 }
count_transport stats udp = record stats { udp_packets = add_u64 stats.udp_packets 1 }
count_transport stats icmp = record stats { icmp_packets = add_u64 stats.icmp_packets 1 }
count_transport stats icmpv6 = record stats { icmpv6_packets = add_u64 stats.icmpv6_packets 1 }
count_transport stats other = stats

unfoldable pub count_dns : Stats → Bool → Stats
count_dns stats true = record stats { dns_packets = add_u64 stats.dns_packets 1 }
count_dns stats false = stats

unfoldable pub count_flow : Stats → ℕ → Option Endpoints → Run Stats
count_flow stats size none = done stats
count_flow stats size (some e) = record_flow stats e size

unfoldable pub stats_update : Stats → Packet → Run Stats
stats_update stats pkt = do
  let stats = count_totals stats pkt
  let stats = count_network stats (pkt.has_eth && not pkt.malformed) pkt.network_proto
  let stats = count_transport stats pkt.transport_proto
  let stats = count_dns stats pkt.has_dns
  endpoints ← extract_endpoints pkt
  count_flow stats pkt.captured_length endpoints

-- `other` of ns_stats_print: subtractions on uint64_t.
unfoldable pub sub_u64 : ℕ → ℕ → ℕ
sub_u64 a b = (a + 2 ^ 64 - b) % 2 ^ 64

unfoldable pub other_packets : Stats → ℕ
other_packets stats =
    sub_u64
      (sub_u64
        (sub_u64 (sub_u64 (sub_u64 stats.total_packets stats.tcp_packets) stats.udp_packets)
          stats.icmp_packets)
        stats.icmpv6_packets)
      stats.arp_packets
