-- ===== src/Output/Json.antt =====
-- `print_json_line` of src/output.c.
pub mod Value
pub mod Parts
pub mod Line
pub mod Ascii
use netscope.Base.{
  ℕ, ◌/◌, bit_and, Bytes, Bool, true, false, ◌||◌, ◌&&◌, List, [], ◌∷◌, ◌++◌, ◌==◌, ltb,
  if◌then◌else◌,
}
use netscope.Run.{Run, done, ◌>>=◌}
use netscope.Util.Text.{append_at, decimal, decimal_padded, printed}
use netscope.Util.Format.{codes}
use netscope.Protocols.Dns.Rdata.{dns_type_name}
use netscope.Protocols.Dns.Message.{DnsInfo, slot_at}
use netscope.Protocols.Tcp.Flags.{tcp_flag_names}
use netscope.Packet.Data.{
  Timestamp, Proto, ipv4, ipv6, tcp, udp, Net, Transport, Packet, as_tcp, as_udp,
}
use netscope.Packet.Dissect.{proto_name}
use netscope.Output.Data.{Clock, top_protocol}
use netscope.Output.Escape.{json_write_escaped}
use netscope.Output.Text.{format_network_addrs}

unfoldable pub iso_timestamp : Clock → Timestamp → Run Bytes
iso_timestamp clock ts =
    append_at 32 (clock.strftime_utc 32 (codes "%Y-%m-%dT%H:%M:%S") ts.seconds)
      (b'.' ∷ (decimal_padded 3 (ts.microseconds / 1000) ++ codes "Z"))

abbrev pub bool_text : Bool → Bytes
bool_text true = codes "true"
bool_text false = codes "false"

-- `,"port":%u` for both ends, where there is a port.
unfoldable pub json_ports : Proto → Transport → Run (Bytes × Bytes)
json_ports tcp t = as_tcp t >>= (λ i.
    done (
      codes ",\"port\":" ++ decimal i.source_port,
      codes ",\"port\":" ++ decimal i.destination_port,
    ))
json_ports udp t = as_udp t >>= (λ i.
    done (
      codes ",\"port\":" ++ decimal i.source_port,
      codes ",\"port\":" ++ decimal i.destination_port,
    ))
json_ports other t = done ([], [])

unfoldable pub json_ends : Proto → Net → Proto → Transport → Run Bytes
json_ends network net proto t = do
  (src, dst) ← format_network_addrs network net 46 46
  (src_port, dst_port) ← json_ports proto t
  done (
      printed (
        codes ",\"source\":{\"ip\":"
        ∷ json_write_escaped src
        ∷ src_port
        ∷ codes "}"
        ∷ codes ",\"destination\":{\"ip\":"
        ∷ json_write_escaped dst
        ∷ dst_port
        ∷ codes "}"
        ∷ []))

abbrev pub json_addresses : Proto → Net → Proto → Transport → Run Bytes
json_addresses ipv4 net proto t = json_ends ipv4 net proto t
json_addresses ipv6 net proto t = json_ends ipv6 net proto t
json_addresses other net proto t = done []

-- The loop over `kFlags`, which has the names of `ns_tcp_flags_to_string` in the same order.
unfoldable pub json_flags : List (ℕ × Bytes) → ℕ → Bool → Bytes
json_flags [] flags first = []
json_flags ((bit, name) ∷ rest) flags first =
    let skipped = json_flags rest flags first in
    let written = json_flags rest flags false in
    if bit_and flags bit == 0
    then skipped
    else (if first then [] else codes ",") ++ (json_write_escaped name ++ written)

unfoldable pub json_tcp : Proto → Transport → Run Bytes
json_tcp tcp t = as_tcp t >>= (λ i. done (
    printed
      (codes ",\"tcp\":{\"flags\":[" ∷ json_flags tcp_flag_names i.flags true ∷ codes "]}" ∷ [])))
json_tcp other t = done []

unfoldable pub json_dns : Bool → DnsInfo → Run Bytes
json_dns has_dns dns =
    if has_dns && ltb 0 dns.decoded_question_count
    then slot_at dns.questions 0 >>= (λ q. done (
        printed (
          codes ",\"dns\":{\"question\":"
          ∷ json_write_escaped q.name
          ∷ codes ",\"type\":"
          ∷ json_write_escaped (dns_type_name q.type 16)
          ∷ codes "}"
          ∷ [])))
    else done []

unfoldable pub print_json_line : Clock → Packet → Run Bytes
print_json_line clock pkt = do
  ts_iso ← iso_timestamp clock pkt.timestamp
  addresses ← json_addresses pkt.network_proto pkt.net pkt.transport_proto pkt.transport
  flags ← json_tcp pkt.transport_proto pkt.transport
  dns ← json_dns pkt.has_dns pkt.dns_info
  done (
      printed (
        codes "{\"timestamp\":"
        ∷ json_write_escaped ts_iso
        ∷ codes ",\"captured_length\":"
        ∷ decimal pkt.captured_length
        ∷ codes ",\"malformed\":"
        ∷ bool_text pkt.malformed
        ∷ codes ",\"protocol\":"
        ∷ json_write_escaped (codes (proto_name (top_protocol pkt)))
        ∷ addresses
        ∷ flags
        ∷ dns
        ∷ codes "}\n"
        ∷ []))
