-- ===== src/Stats/Named.antt =====
-- The counters by protocol of src/stats.c, and the names that they are printed under.
use netscope.Base.{ℕ, ◌+◌, ◌≤◌, Bool, true, false, ◌≡◌, refl, arith}
use netscope.Packet.Data.{
  Proto, unknown, arp, ipv4, ipv6, tcp, udp, icmp, icmpv6, Transport, transport_tcp, transport_udp,
  transport_icmp, transport_icmpv6,
}
use netscope.Packet.WellFormed.{TransportTag, IsIp}
use netscope.Stats.Data.{Stats, add_u64}
use netscope.Stats.Update.{count_network, count_transport, count_dns}

-- The packets that ns_stats_print lists by name.
abbrev pub named_packets : Stats → ℕ
named_packets s = s.tcp_packets + s.udp_packets + s.icmp_packets + s.icmpv6_packets + s.arp_packets

-- From `s` to `s'` at most `k` packets are counted under a name, and the rest of what matters here
-- stays as it is.
pub record Grows (k : ℕ) (s s' : Stats) : Type 0 where
  pub flows : s'.flows ≡ s.flows
  pub flow_count : s'.flow_count ≡ s.flow_count
  pub total : s'.total_packets ≡ s.total_packets
  pub named : named_packets s' ≤ named_packets s + k

-- At most how many names a protocol is counted under.
abbrev pub as_network : Proto → ℕ
as_network arp = 1
as_network proto = 0

abbrev pub as_transport : Proto → ℕ
as_transport tcp = 1
as_transport udp = 1
as_transport icmp = 1
as_transport icmpv6 = 1
as_transport proto = 0

same : (s : Stats) → Grows 0 s s
same s = record { flows = refl; flow_count = refl; total = refl; named = omega arith }

pub count_network-Grows :
    (s : Stats) (b : Bool) (proto : Proto) → Grows (as_network proto) s (count_network s b proto)
unfolding count_network add_u64
count_network-Grows s b arp = record {
  flows = refl;
  flow_count = refl;
  total = refl;
  named = omega arith;
}
count_network-Grows s b unknown = record {
  flows = refl;
  flow_count = refl;
  total = refl;
  named = omega arith;
}
count_network-Grows s b ipv4 = record {
  flows = refl;
  flow_count = refl;
  total = refl;
  named = omega arith;
}
count_network-Grows s b ipv6 = record {
  flows = refl;
  flow_count = refl;
  total = refl;
  named = omega arith;
}
count_network-Grows s b tcp = record {
  flows = refl;
  flow_count = refl;
  total = refl;
  named = omega arith;
}
count_network-Grows s b udp = record {
  flows = refl;
  flow_count = refl;
  total = refl;
  named = omega arith;
}
count_network-Grows s b icmp = record {
  flows = refl;
  flow_count = refl;
  total = refl;
  named = omega arith;
}
count_network-Grows s b icmpv6 = record {
  flows = refl;
  flow_count = refl;
  total = refl;
  named = omega arith;
}
count_network-Grows s b Proto.dns = record {
  flows = refl;
  flow_count = refl;
  total = refl;
  named = omega arith;
}

pub count_transport-Grows :
    (s : Stats) (proto : Proto) → Grows (as_transport proto) s (count_transport s proto)
unfolding count_transport add_u64
count_transport-Grows s tcp = record {
  flows = refl;
  flow_count = refl;
  total = refl;
  named = omega arith;
}
count_transport-Grows s udp = record {
  flows = refl;
  flow_count = refl;
  total = refl;
  named = omega arith;
}
count_transport-Grows s icmp = record {
  flows = refl;
  flow_count = refl;
  total = refl;
  named = omega arith;
}
count_transport-Grows s icmpv6 = record {
  flows = refl;
  flow_count = refl;
  total = refl;
  named = omega arith;
}
count_transport-Grows s arp = same s
count_transport-Grows s unknown = same s
count_transport-Grows s ipv4 = same s
count_transport-Grows s ipv6 = same s
count_transport-Grows s Proto.dns = same s

pub count_dns-Grows : (s : Stats) (b : Bool) → Grows 0 s (count_dns s b)
unfolding count_dns
count_dns-Grows s true = record {
  flows = refl;
  flow_count = refl;
  total = refl;
  named = omega arith;
}
count_dns-Grows s false = same s

-- ARP carries no transport protocol, so a packet with fitting tags counts under one name at most.
as_network-le : (network : Proto) → as_network network ≤ 1
as_network-le arp = omega arith
as_network-le unknown = omega arith
as_network-le ipv4 = omega arith
as_network-le ipv6 = omega arith
as_network-le tcp = omega arith
as_network-le udp = omega arith
as_network-le icmp = omega arith
as_network-le icmpv6 = omega arith
as_network-le Proto.dns = omega arith

as_network-IsIp : (network : Proto) → IsIp network → as_network network ≤ 0
as_network-IsIp ipv4 h = omega arith
as_network-IsIp ipv6 h = omega arith
as_network-IsIp other h = absurd h

pub one_name :
    (network transport : Proto) (t : Transport)
    → TransportTag network transport t
    → as_network network + as_transport transport ≤ 1
one_name network unknown t h = omega (arith, as_network-le network)
one_name network tcp (transport_tcp i) h = omega (arith, as_network-IsIp network h)
one_name network udp (transport_udp i) h = omega (arith, as_network-IsIp network h)
one_name network icmp (transport_icmp i) h = omega (arith, as_network-IsIp network h)
one_name network icmpv6 (transport_icmpv6 i) h = omega (arith, as_network-IsIp network h)
one_name network proto t h = absurd h
