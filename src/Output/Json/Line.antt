-- ===== src/Output/Json/Line.antt =====
-- The line of `print_json_line` of src/output.c beside the text of a JSON object.
use netscope.Base.{ℕ, Bytes, [], ◌∷◌, ◌++◌, ◌≡◌, ap, ◌∙◌, arith, ◌<◌, length}
use netscope.Run.{done}
use netscope.Util.Text.{printed}
use netscope.Util.Text.Digits.{append_at-Returns}
use netscope.Util.Format.{codes}
use netscope.Packet.Data.{Timestamp, Packet}
use netscope.Packet.WellFormed.{IsPacket}
use netscope.Output.Data.{Clock, IsClock}
use netscope.Output.Json.{iso_timestamp, print_json_line}
use netscope.Output.Json.Value.{
  no_fields, show_json, show_fields, show_more_fields, text_of, tcp_fields, dns_fields, packet_json,
}
use netscope.Output.Json.Parts.{
  text_of_Returns, json_laws, json_addresses-Adds, json_tcp-Adds, json_dns-Adds,
}

iso_timestamp-done :
    (clock : Clock) (ts : Timestamp)
    → IsClock clock
    → iso_timestamp clock ts ≡ done (text_of (iso_timestamp clock ts))
unfolding iso_timestamp
iso_timestamp-done clock ts h =
    text_of_Returns (iso_timestamp clock ts) (λ t. length t < 32)
      (append_at-Returns 32 (clock.strftime_utc 32 (codes "%Y-%m-%dT%H:%M:%S") ts.seconds) _
        (h.utc_fits 32 (codes "%Y-%m-%dT%H:%M:%S") ts.seconds (omega arith)))

-- For every well-formed packet, with a `strftime` that stays inside its array, the line is written
-- without a fault, and it is the text of one JSON object followed by a newline: the object with the
-- time, the captured length, whether the packet is malformed, and the protocol; for an IP packet
-- with both addresses, and with the ports for TCP and UDP; for TCP with the names of the flags that
-- are set; and with the first question of a DNS message that has one.
pub print_json_line_lem :
    {n : ℕ} (clock : Clock) (pkt : Packet)
    → IsClock clock
    → IsPacket n pkt
    → print_json_line clock pkt ≡ done (show_json (packet_json clock pkt) (b'\n' ∷ []))
unfolding print_json_line printed packet_json show_more_fields show_fields show_json
print_json_line_lem clock pkt hc h =
    let (ends, e, ends_lem) =
      json_addresses-Adds pkt.network_proto pkt.net pkt.transport_proto pkt.transport h.net_tag
        h.transport_tag in
    let (flags, f, flags_lem) =
      json_tcp-Adds pkt.network_proto pkt.transport_proto pkt.transport h.transport_tag in
    let (dns, d, dns_lem) = json_dns-Adds pkt.has_dns pkt.dns_info h.dns_ok in
    let more =
      ap (λ (t : Bytes). ends ++ (flags ++ t)) (dns_lem no_fields (codes "}\n"))
      ∙ ap (λ (t : Bytes). ends ++ t)
          (flags_lem (dns_fields pkt.has_dns pkt.dns_info no_fields) (codes "}\n"))
      ∙ ends_lem
          (tcp_fields pkt.transport_proto pkt.transport
            (dns_fields pkt.has_dns pkt.dns_info no_fields))
          (codes "}\n") in
    rw (iso_timestamp-done clock pkt.timestamp hc, e, f, d) (simp (json_laws, more))
