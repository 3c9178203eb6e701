-- ===== src/Tests/Stats.antt =====
-- Statistics of single packets.
use netscope.Base.{◌+◌, ◌≡◌, refl, some, arith, replicate}
use netscope.Run.{Returns}
use netscope.Util.Format.{codes}
use netscope.Protocols.Udp.{zero_udp}
use netscope.Packet.Data.{Packet, ipv4, udp, tcp, net_ipv4, transport_udp, zero_ipv4, zero_packet}
use netscope.Packet.WellFormed.{IsPacket}
use netscope.Stats.Data.{Stats, stats_init}
use netscope.Stats.Flow.{Endpoints, swap, canonical, record_flow}
use netscope.Stats.Direction.{record_flow-swap}
use netscope.Stats.Table.{home, IsTable, Outcome, record_flow-Outcome, record_flow-IsTable}
use netscope.Stats.Unique.{IsMap, stats_init-IsMap, record_flow-IsMap}
use netscope.Stats.Entries.{Recorded, record_flow-Recorded}
use netscope.Stats.Update.{stats_update, other_packets}
use netscope.Stats.Named.{named_packets}
use netscope.Stats.Counts.{IsStats, stats_init-IsStats, stats_update-IsStats, other_packets-IsStats}

abbrev conversation : Endpoints
conversation = record {
  proto = tcp;
  addr_a = codes "192.168.1.12";
  port_a = 5353;
  addr_b = codes "1.1.1.1";
  port_b = 80;
}

record_flow-swap_example :
    record_flow stats_init (swap conversation) 60 ≡ record_flow stats_init conversation 60
record_flow-swap_example = record_flow-swap stats_init conversation 60

record_flow-Outcome_example :
    Returns
      (record_flow stats_init conversation 60)
      (Outcome stats_init (canonical conversation) 60 (home (canonical conversation)))
record_flow-Outcome_example =
    record_flow-Outcome stats_init conversation 60 stats_init-IsStats.table

record_flow-IsTable_example : Returns (record_flow stats_init conversation 60) IsTable
record_flow-IsTable_example =
    record_flow-IsTable stats_init conversation 60 stats_init-IsStats.table

record_flow-IsMap_example : Returns (record_flow stats_init conversation 60) (λ s. IsMap s.flows)
record_flow-IsMap_example =
    record_flow-IsMap stats_init conversation 60 stats_init-IsStats.table (omega arith, omega arith)
      stats_init-IsMap

record_flow-Recorded_example :
    Returns
      (record_flow stats_init conversation 60)
      (λ s. Recorded stats_init.flows (canonical conversation) 60 s.flows)
record_flow-Recorded_example =
    record_flow-Recorded stats_init conversation 60 stats_init-IsStats.table
      (omega arith, omega arith) stats_init-IsMap

-- A UDP packet over IPv4.
abbrev pub udp_packet : Packet
udp_packet = record zero_packet {
  captured_length = 42;
  original_length = 42;
  raw_data = replicate 42 0;
  network_proto = ipv4;
  net = net_ipv4 zero_ipv4;
  transport_proto = udp;
  transport = transport_udp zero_udp;
  payload = some 42;
}

pub udp_packet-IsPacket : IsPacket 42 udp_packet
udp_packet-IsPacket = record {
  captured = refl;
  net_tag = tt;
  transport_tag = tt;
  dns_tag = tt;
  dns_ok = omega arith;
  payload_ok = omega arith;
  reason_ok = tt;
  raw_ok = record { within = omega arith; small = omega arith; bytes = omega arith };
}

stats_update-IsStats_example :
    Returns
      (stats_update stats_init udp_packet)
      (λ s. IsStats s × (s.total_packets ≡ stats_init.total_packets + 1))
unfolding stats_init
stats_update-IsStats_example =
    stats_update-IsStats stats_init udp_packet udp_packet-IsPacket stats_init-IsStats (omega arith)

-- Five packets, of which two have no name.
abbrev five_packets : Stats
five_packets = record stats_init {
  total_packets = 5;
  tcp_packets = 1;
  udp_packets = 1;
  arp_packets = 1;
}

five_packets-IsStats : IsStats five_packets
unfolding stats_init
five_packets-IsStats = record {
  table = record {
    slots = stats_init-IsStats.table.slots;
    counted = stats_init-IsStats.table.counted;
  };
  named = omega arith;
  map = stats_init-IsMap;
}

other_packets-IsStats_example : other_packets five_packets + named_packets five_packets ≡ 5
other_packets-IsStats_example =
    other_packets-IsStats five_packets five_packets-IsStats (omega arith)
