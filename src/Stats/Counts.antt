-- ===== src/Stats/Counts.antt =====
-- The counters of src/stats.c over `ns_stats_update`, and what `ns_stats_print` subtracts from
-- them.
use netscope.Base.{
  ℕ, ◌+◌, ◌≤◌, ◌<◌, ◌^◌, Bytes, not, ◌&&◌, Option, none, some, ◌≡◌, refl, sym, ap, ◌∙◌, length,
  arith,
}
use netscope.Run.{Returns, Returns-bind, Returns-mono}
use netscope.Util.Format.{format_ipv6}
use netscope.Util.Format.Ipv6.{Printed, format_ipv6-Printed}
use netscope.Packet.Data.{
  Proto, unknown, arp, ipv4, ipv6, tcp, udp, icmp, icmpv6, Net, net_arp, net_ipv4, net_ipv6,
  Transport, transport_tcp, transport_udp, transport_icmp, transport_icmpv6, Packet,
}
use netscope.Packet.WellFormed.{NetTag, TransportTag, IsPacket}
use netscope.Stats.Data.{Stats, stats_init, add_u64}
use netscope.Stats.Flow.{
  Endpoints, canonical, extract_endpoints, transport_endpoints, network_endpoints, record_flow,
}
use netscope.Stats.Table.{
  used, IsTable, home, Outcome, hit, fresh, full, Outcome-IsTable, record_flow-Outcome,
}
use netscope.Stats.Unique.{IsMap, Fits, Outcome-IsMap, canonical-Fits, stats_init-IsMap}
use netscope.Util.Format.Ipv4.{length-format_ipv4}
use mathlib.Core.Path.{subst}
use netscope.Stats.Update.{
  count_totals, count_network, count_transport, count_dns, count_flow, stats_update, sub_u64,
  other_packets,
}
use netscope.Stats.Named.{
  named_packets, Grows, count_network-Grows, count_transport-Grows, count_dns-Grows, one_name,
}

pub record IsStats (s : Stats) : Type 0 where
  pub table : IsTable s
  pub map : IsMap s.flows
  pub named : named_packets s ≤ s.total_packets

-- All that an update counts, but for the flow.
abbrev counted : Stats → Packet → Stats
counted s pkt =
    count_dns
      (count_transport
        (count_network (count_totals s pkt) (pkt.has_eth && not pkt.malformed) pkt.network_proto)
        pkt.transport_proto)
      pkt.has_dns

abbrev Found : Option Endpoints → Type 0
Found none = Unit
Found (some e) = Fits e

-- Tags that fit: the members that are read are the ones that were written.
transport_endpoints-Found :
    (network proto : Proto) (t : Transport) (a b : Bytes)
    → TransportTag network proto t
    → (length a < 46) × (length b < 46)
    → Returns (transport_endpoints proto t a b) Found
unfolding transport_endpoints
transport_endpoints-Found network unknown t a b h k = tt
transport_endpoints-Found network tcp (transport_tcp i) a b h k = k
transport_endpoints-Found network udp (transport_udp i) a b h k = k
transport_endpoints-Found network icmp (transport_icmp i) a b h k = k
transport_endpoints-Found network icmpv6 (transport_icmpv6 i) a b h k = k
transport_endpoints-Found network proto t a b h k = absurd h

network_endpoints-Found :
    (network : Proto) (net : Net) (proto : Proto) (t : Transport)
    → NetTag network net
    → TransportTag network proto t
    → Returns (network_endpoints network net proto t) Found
unfolding network_endpoints
network_endpoints-Found unknown net proto t h k = tt
network_endpoints-Found arp (net_arp i) proto t h k = (
  length-format_ipv4 i.sender_ip 46 (omega arith),
  length-format_ipv4 i.target_ip 46 (omega arith),
)
network_endpoints-Found ipv4 (net_ipv4 i) proto t h k =
    transport_endpoints-Found ipv4 proto t _ _ k (
      length-format_ipv4 i.source 46 (omega arith),
      length-format_ipv4 i.destination 46 (omega arith),
    )
network_endpoints-Found ipv6 (net_ipv6 i) proto t h k =
    Returns-bind (format_ipv6 i.source 46) _ (Printed 46) Found (format_ipv6-Printed i.source 46)
      (λ a p.
        Returns-bind (format_ipv6 i.destination 46) _ (Printed 46) Found
          (format_ipv6-Printed i.destination 46)
          (λ b q.
            transport_endpoints-Found ipv6 proto t a b k (omega (arith, p.0), omega (arith, q.0))))
network_endpoints-Found network net proto t h k = absurd h

-- Consistent statistics of so many packets.
abbrev Total : ℕ → Stats → Type 0
Total total s = IsStats s × (s.total_packets ≡ total)

-- The counters of packets do not depend on the table.
Outcome-kept :
    {s : Stats} {e : Endpoints} {size start total : ℕ} (s' : Stats)
    → Outcome s e size start s'
    → (named_packets s ≤ s.total_packets → named_packets s' ≤ s'.total_packets)
      × (s.total_packets ≡ total → s'.total_packets ≡ total)
Outcome-kept s' (hit i f read taken same) = (λ h. h, λ h. h)
Outcome-kept s' (fresh k f lt passed read free) = (λ h. h, λ h. h)
Outcome-kept s' (full others) = (λ h. h, λ h. h)

recorded-Total :
    {s : Stats} {e : Endpoints} {size : ℕ} (s' : Stats) (total : ℕ)
    → Fits e
    → Total total s
    → Outcome s e size (home e) s'
    → Total total s'
recorded-Total {s} {e} {size} s' total fits (good, sum) out = (
  record {
    table = Outcome-IsTable s' good.table out;
    map = Outcome-IsMap s' fits good.map out;
    named = (Outcome-kept {total = total} s' out).0 good.named;
  },
  (Outcome-kept {total = total} s' out).1 sum,
)

count_flow-Total :
    (s : Stats) (size total : ℕ) (o : Option Endpoints)
    → Found o
    → Total total s
    → Returns (count_flow s size o) (Total total)
unfolding count_flow
count_flow-Total s size total none fits good = good
count_flow-Total s size total (some e) fits good =
    Returns-mono (record_flow s e size) (Outcome s (canonical e) size (home (canonical e)))
      (Total total) (record_flow-Outcome s e size good.0.table)
      (λ s'. recorded-Total s' total (canonical-Fits e fits) good)

Grows-IsTable : {k : ℕ} {s s' : Stats} → Grows k s s' → IsTable s → IsTable s'
Grows-IsTable g table = record {
  slots = ap length g.flows ∙ table.slots;
  counted = g.flow_count ∙ table.counted ∙ ap used (sym g.flows);
}

module _ (s : Stats) (pkt : Packet) (good : IsStats s) (room : s.total_packets + 1 < 2 ^ 64) where
  totals-named :
      (named_packets (count_totals s pkt) ≤ s.total_packets)
      × ((count_totals s pkt).total_packets ≡ s.total_packets + 1)
      × IsTable (count_totals s pkt)
  unfolding count_totals add_u64
  totals-named =
      (good.named, omega arith, record { slots = good.table.slots; counted = good.table.counted })

  count_totals-IsMap : IsMap (count_totals s pkt).flows
  unfolding count_totals
  count_totals-IsMap = good.map

  counted-Total : {n : ℕ} → IsPacket n pkt → Total (s.total_packets + 1) (counted s pkt)
  counted-Total h =
      let start = totals-named in
      let network =
        count_network-Grows (count_totals s pkt) (pkt.has_eth && not pkt.malformed)
          pkt.network_proto in
      let transport =
        count_transport-Grows
          (count_network (count_totals s pkt) (pkt.has_eth && not pkt.malformed) pkt.network_proto)
          pkt.transport_proto in
      let dns =
        count_dns-Grows
          (count_transport
            (count_network (count_totals s pkt) (pkt.has_eth && not pkt.malformed)
              pkt.network_proto)
            pkt.transport_proto)
          pkt.has_dns in
      let one = one_name pkt.network_proto pkt.transport_proto pkt.transport h.transport_tag in
      let sum : ((counted s pkt).total_packets ≡ s.total_packets + 1) =
        dns.total ∙ transport.total ∙ network.total ∙ start.1 in
      (
        record {
          map = subst IsMap (sym (dns.flows ∙ transport.flows ∙ network.flows)) count_totals-IsMap;
          table = Grows-IsTable dns (Grows-IsTable transport (Grows-IsTable network start.2));
          named = omega (arith, start.0, network.named, transport.named, dns.named, one, sum);
        },
        sum,
      )

-- For a well-formed packet and consistent statistics (the table of flows is well-formed, every slot
-- in use is reached by the probing for its flow, no flow has two slots, and the packets counted as
-- TCP, UDP, ICMP, ICMPv6 and ARP are together not more than all packets), with room in the 64-bit
-- count of packets, the update ends without a fault: it reads no union member other than the one
-- that was written and no slot outside the table. The statistics stay consistent, and count one
-- packet more.
pub stats_update-IsStats :
    {n : ℕ} (s : Stats) (pkt : Packet)
    → IsPacket n pkt
    → IsStats s
    → s.total_packets + 1 < 2 ^ 64
    → Returns (stats_update s pkt) (λ s'. IsStats s' × (s'.total_packets ≡ s.total_packets + 1))
unfolding stats_update extract_endpoints
stats_update-IsStats s pkt h good room =
    Returns-bind (network_endpoints pkt.network_proto pkt.net pkt.transport_proto pkt.transport) _
      Found (Total (s.total_packets + 1))
      (network_endpoints-Found pkt.network_proto pkt.net pkt.transport_proto pkt.transport h.net_tag
        h.transport_tag)
      (λ o found.
        count_flow-Total (counted s pkt) pkt.captured_length (s.total_packets + 1) o found
          (counted-Total s pkt good room h))

-- The packets that are printed as "Other": on consistent statistics with a 64-bit total the
-- subtractions do not wrap around, so they and the packets printed by name are together all
-- packets.
pub other_packets-IsStats :
    (s : Stats)
    → IsStats s
    → s.total_packets < 2 ^ 64
    → other_packets s + named_packets s ≡ s.total_packets
unfolding other_packets sub_u64
other_packets-IsStats s good small = omega (arith, good.named)

pub stats_init-IsStats : IsStats stats_init
unfolding stats_init
stats_init-IsStats = record {
  map = stats_init-IsMap;
  table = record { slots = refl; counted = refl };
  named = omega arith;
}
