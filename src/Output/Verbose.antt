-- ===== src/Output/Verbose.antt =====
-- `print_verbose_block` of src/output.c.
use netscope.Base.{◌%◌, Bytes, [], ◌∷◌, if◌then◌else◌}
use netscope.Run.{Run, done, ◌>>=◌}
use netscope.Util.Text.{decimal, decimal_padded, hex_padded, printed}
use netscope.Util.Format.{codes, format_mac, format_ipv4, format_ipv6}
use netscope.Protocols.Ethernet.{EthInfo}
use netscope.Protocols.Tcp.Flags.{tcp_flags_to_string}
use netscope.Packet.Data.{
  Proto, ipv4, ipv6, tcp, udp, Net, Transport, Packet, as_ipv4, as_ipv6, as_tcp, as_udp,
}
use netscope.Output.Data.{Clock}
use netscope.Output.Text.{format_timestamp}

unfoldable pub verbose_eth : EthInfo → Bytes
verbose_eth eth = printed (
    codes "Ethernet\n"
    ∷ codes "  Source:      "
    ∷ format_mac eth.source 18
    ∷ codes "\n  Destination: "
    ∷ format_mac eth.destination 18
    ∷ codes "\n  Type:        0x"
    ∷ hex_padded 4 eth.ethertype
    ∷ codes "\n"
    ∷ (if eth.has_vlan
        then printed (codes "  VLAN:        " ∷ decimal eth.vlan_id ∷ codes "\n" ∷ [])
        else [])
    ∷ codes "\n"
    ∷ [])

unfoldable pub verbose_net : Proto → Net → Run Bytes
verbose_net ipv4 net = as_ipv4 net >>= (λ i. done (
    printed (
      codes "IPv4\n"
      ∷ codes "  Source:      "
      ∷ format_ipv4 i.source 16
      ∷ codes "\n  Destination: "
      ∷ format_ipv4 i.destination 16
      ∷ codes "\n  TTL:         "
      ∷ decimal i.ttl
      ∷ codes "\n  Protocol:    "
      ∷ decimal i.protocol
      ∷ codes "\n\n"
      ∷ [])))
verbose_net ipv6 net = do
  i ← as_ipv6 net
  src ← format_ipv6 i.source 46
  dst ← format_ipv6 i.destination 46
  done (
      printed (
        codes "IPv6\n"
        ∷ codes "  Source:      "
        ∷ src
        ∷ codes "\n  Destination: "
        ∷ dst
        ∷ codes "\n  Hop limit:   "
        ∷ decimal i.hop_limit
        ∷ codes "\n  Next header: "
        ∷ decimal i.next_header
        ∷ codes "\n\n"
        ∷ []))
verbose_net other net = done []

unfoldable pub verbose_transport : Proto → Transport → Run Bytes
verbose_transport tcp t = do
  i ← as_tcp t
  flags ← tcp_flags_to_string i.flags 32
  done (
      printed (
        codes "TCP\n"
        ∷ codes "  Source port:      "
        ∷ decimal i.source_port
        ∷ codes "\n  Destination port: "
        ∷ decimal i.destination_port
        ∷ codes "\n  Sequence:         "
        ∷ decimal i.sequence_number
        ∷ codes "\n  Ack:              "
        ∷ decimal i.ack_number
        ∷ codes "\n  Flags:            "
        ∷ flags
        ∷ codes "\n  Window:           "
        ∷ decimal i.window_size
        ∷ codes "\n\n"
        ∷ []))
verbose_transport udp t = as_udp t >>= (λ i. done (
    printed (
      codes "UDP\n"
      ∷ codes "  Source port:      "
      ∷ decimal i.source_port
      ∷ codes "\n  Destination port: "
      ∷ decimal i.destination_port
      ∷ codes "\n  Length:           "
      ∷ decimal i.length
      ∷ codes "\n\n"
      ∷ [])))
verbose_transport other t = done []

unfoldable pub print_verbose_block : Clock → Packet → Run Bytes
print_verbose_block clock pkt = do
  ts ← format_timestamp clock pkt.timestamp 16
  net ← verbose_net pkt.network_proto pkt.net
  transport ← verbose_transport pkt.transport_proto pkt.transport
  done (
      printed (
        codes "\nPacket #"
        ∷ decimal pkt.number
        ∷ codes "\nTimestamp: "
        ∷ ts
        ∷ codes "."
        ∷ decimal_padded 6 (pkt.timestamp.microseconds % 1000000)
        ∷ codes "\nCaptured length: "
        ∷ decimal pkt.captured_length
        ∷ codes " bytes\n\n"
        ∷ (if pkt.has_eth then verbose_eth pkt.eth else [])
        ∷ net
        ∷ transport
        ∷ codes "Payload: "
        ∷ decimal pkt.payload_length
        ∷ codes " bytes\n"
        ∷ []))
