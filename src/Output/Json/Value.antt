-- ===== src/Output/Json/Value.antt =====
-- JSON values and their text, and the value that stands for a packet: the description that
-- `print_json_line` is measured against.
use netscope.Base.{
  ℕ, bit_and, Bytes, Bool, Option, none, some, List, [], ◌∷◌, ◌++◌, ◌==◌, ltb, ◌&&◌, get_or,
  if◌then◌else◌,
}
use netscope.Run.{Run, done, fault}
use netscope.Util.Text.{decimal}
use netscope.Util.Format.{codes, format_ipv4, format_ipv6}
use netscope.Protocols.Dns.Rdata.{dns_type_name}
use netscope.Protocols.Dns.Message.{DnsInfo, zero_question}
use netscope.Protocols.Tcp.Flags.{tcp_flag_names}
use netscope.Packet.Data.{
  Proto, ipv4, ipv6, tcp, udp, Net, net_ipv4, net_ipv6, Transport, transport_tcp, transport_udp,
  Packet,
}
use netscope.Packet.Dissect.{proto_name}
use netscope.Output.Data.{Clock, top_protocol}
use netscope.Output.Escape.{json_write_escaped}
use netscope.Output.Json.{bool_text, iso_timestamp}

mutual
  pub data Json : Type 0 where
    text : Bytes → Json
    number : ℕ → Json
    boolean : Bool → Json
    array : Items → Json
    object : Fields → Json

  pub data Items : Type 0 where
    no_items : Items
    item : Json → Items → Items

  pub data Fields : Type 0 where
    no_fields : Fields
    field : Bytes → Json → Fields → Fields

-- The text of a value, in front of what follows it.
unfoldable mutual
  pub show_json : Json → Bytes → Bytes
  show_json (text s) rest = json_write_escaped s ++ rest
  show_json (number n) rest = decimal n ++ rest
  show_json (boolean b) rest = bool_text b ++ rest
  show_json (array xs) rest = b'[' ∷ show_items xs (b']' ∷ rest)
  show_json (object fs) rest = b'{' ∷ show_fields fs (b'}' ∷ rest)

  pub show_items : Items → Bytes → Bytes
  show_items no_items rest = rest
  show_items (item v xs) rest = show_json v (show_more_items xs rest)

  pub show_more_items : Items → Bytes → Bytes
  show_more_items no_items rest = rest
  show_more_items (item v xs) rest = b',' ∷ show_json v (show_more_items xs rest)

  pub show_fields : Fields → Bytes → Bytes
  show_fields no_fields rest = rest
  show_fields (field k v fs) rest =
      json_write_escaped k ++ (b':' ∷ show_json v (show_more_fields fs rest))

  pub show_more_fields : Fields → Bytes → Bytes
  show_more_fields no_fields rest = rest
  show_more_fields (field k v fs) rest =
      b',' ∷ (json_write_escaped k ++ (b':' ∷ show_json v (show_more_fields fs rest)))

-- The text that a run leaves.
abbrev pub text_of : Run Bytes → Bytes
text_of (done s) = s
text_of (fault e) = []

-- The addresses of an IP packet.
abbrev pub addresses_of : Proto → Net → Option (Bytes × Bytes)
addresses_of ipv4 (net_ipv4 i) = some (format_ipv4 i.source 46, format_ipv4 i.destination 46)
addresses_of ipv6 (net_ipv6 i) =
    some (text_of (format_ipv6 i.source 46), text_of (format_ipv6 i.destination 46))
addresses_of network net = none

abbrev pub ports_of : Proto → Transport → Option (ℕ × ℕ)
ports_of tcp (transport_tcp i) = some (i.source_port, i.destination_port)
ports_of udp (transport_udp i) = some (i.source_port, i.destination_port)
ports_of proto t = none

abbrev pub port_field : Option ℕ → Fields
port_field none = no_fields
port_field (some port) = field (codes "port") (number port) no_fields

abbrev pub source_port_of : Option (ℕ × ℕ) → Option ℕ
source_port_of none = none
source_port_of (some (source, destination)) = some source

abbrev pub destination_port_of : Option (ℕ × ℕ) → Option ℕ
destination_port_of none = none
destination_port_of (some (source, destination)) = some destination

abbrev pub end_json : Bytes → Option ℕ → Json
end_json ip port = object (field (codes "ip") (text ip) (port_field port))

abbrev pub address_fields : Option (Bytes × Bytes) → Option (ℕ × ℕ) → Fields → Fields
address_fields none ports more = more
address_fields (some (source, destination)) ports more =
    field (codes "source") (end_json source (source_port_of ports))
      (field (codes "destination") (end_json destination (destination_port_of ports)) more)

-- The names of the flags that are set.
unfoldable pub flag_items : List (ℕ × Bytes) → ℕ → Items
flag_items [] flags = no_items
flag_items ((bit, name) ∷ rest) flags =
    let more = flag_items rest flags in
    if bit_and flags bit == 0 then more else item (text name) more

abbrev pub tcp_fields : Proto → Transport → Fields → Fields
tcp_fields tcp (transport_tcp i) more =
    field (codes "tcp")
      (object (field (codes "flags") (array (flag_items tcp_flag_names i.flags)) no_fields)) more
tcp_fields proto t more = more

-- The first question of a DNS message.
abbrev pub dns_fields : Bool → DnsInfo → Fields → Fields
dns_fields has_dns dns more =
    if has_dns && ltb 0 dns.decoded_question_count
    then (let q = get_or dns.questions 0 zero_question in
        field (codes "dns")
          (object (
            field (codes "question") (text q.name)
              (field (codes "type") (text (dns_type_name q.type 16)) no_fields)))
          more)
    else more

-- A packet as a JSON object.
unfoldable pub packet_json : Clock → Packet → Json
packet_json clock pkt = object (
    field (codes "timestamp") (text (text_of (iso_timestamp clock pkt.timestamp))) (
      field (codes "captured_length") (number pkt.captured_length) (
        field (codes "malformed") (boolean pkt.malformed) (
          field (codes "protocol") (text (codes (proto_name (top_protocol pkt)))) (
            address_fields (addresses_of pkt.network_proto pkt.net)
              (ports_of pkt.transport_proto pkt.transport)
              (tcp_fields pkt.transport_proto pkt.transport
                (dns_fields pkt.has_dns pkt.dns_info no_fields)))))))
