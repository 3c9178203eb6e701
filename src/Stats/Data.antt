-- ===== src/Stats/Data.antt =====
-- The structs of include/netscope/stats.h. The 64-bit counters wrap around.
use netscope.Base.{ℕ, ◌+◌, ◌%◌, ◌^◌, Bytes, Bool, false, List, [], replicate}
use netscope.Packet.Data.{Proto, unknown, arp, ipv4, ipv6, tcp, udp, icmp, icmpv6}

pub record Flow : Type 0 where
  pub in_use : Bool
  pub protocol : Proto
  pub addr_a : Bytes
  pub addr_b : Bytes
  pub port_a : ℕ
  pub port_b : ℕ
  pub packets : ℕ
  pub bytes : ℕ

pub record Stats : Type 0 where
  pub total_packets : ℕ
  pub total_captured_bytes : ℕ
  pub total_wire_bytes : ℕ
  pub ipv4_packets : ℕ
  pub ipv6_packets : ℕ
  pub arp_packets : ℕ
  pub tcp_packets : ℕ
  pub udp_packets : ℕ
  pub icmp_packets : ℕ
  pub icmpv6_packets : ℕ
  pub dns_packets : ℕ
  pub malformed_packets : ℕ
  pub unsupported_packets : ℕ
  pub flows : List Flow
  pub flow_count : ℕ

abbrev pub max_flows : ℕ
max_flows = 1024

-- `ns_stats_init`
abbrev pub zero_flow : Flow
zero_flow = record {
  in_use = false;
  protocol = unknown;
  addr_a = [];
  addr_b = [];
  port_a = 0;
  port_b = 0;
  packets = 0;
  bytes = 0;
}

unfoldable pub stats_init : Stats
stats_init = record {
  total_packets = 0;
  total_captured_bytes = 0;
  total_wire_bytes = 0;
  ipv4_packets = 0;
  ipv6_packets = 0;
  arp_packets = 0;
  tcp_packets = 0;
  udp_packets = 0;
  icmp_packets = 0;
  icmpv6_packets = 0;
  dns_packets = 0;
  malformed_packets = 0;
  unsupported_packets = 0;
  flows = replicate max_flows zero_flow;
  flow_count = 0;
}

-- `a + b` on uint64_t.
unfoldable pub add_u64 : ℕ → ℕ → ℕ
add_u64 a b = (a + b) % 2 ^ 64

-- The value of an enumerator.
unfoldable pub proto_code : Proto → ℕ
proto_code unknown = 0
proto_code arp = 1
proto_code ipv4 = 2
proto_code ipv6 = 3
proto_code tcp = 4
proto_code udp = 5
proto_code icmp = 6
proto_code icmpv6 = 7
proto_code Proto.dns = 8
