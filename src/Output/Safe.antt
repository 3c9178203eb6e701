-- ===== src/Output/Safe.antt =====
-- `ns_output_packet` of src/output.c on well-formed packets.
use netscope.Base.{
  ℕ, ◌+◌, ◌<◌, ◌^◌, Bytes, Bool, true, not, ◌&&◌, [], ◌++◌, ◌≡◌, refl, sym, ltb, if◌then◌else◌,
  length, append-nil, append_assoc, Bool-cases, inl, inr, arith,
}
use netscope.Run.{
  done, Returns, Returns-bind, Returns-done, ◌>>=◌, if-Returns, Ends, Ends-bind, Returns-Ends,
  if-Ends,
}
use netscope.Util.Text.Digits.{append_at-Returns}
use netscope.Util.Format.{codes, format_ipv6}
use netscope.Util.Format.Ipv6.{Printed, format_ipv6-Printed}
use netscope.Util.HexDump.{hex_dump_file}
use netscope.Util.HexDump.Rows.{hex_dump_file_lem}
use netscope.Protocols.Tcp.Flags.{tcp_flags_to_string, tcp_flags_to_string_lem}
use netscope.Protocols.Dns.Message.{DnsInfo, slot_at}
use netscope.Protocols.Dns.Message.Total.{slot_at-All, IsQuestion, IsRecord}
use netscope.Protocols.Dns.Parse.Questions.{IsDns}
use netscope.Config.Data.{text_format, json_format, OutputFormat}
use netscope.Packet.Data.{
  Timestamp, Proto, unknown, arp, ipv4, ipv6, tcp, udp, icmp, icmpv6, Net, net_arp, net_ipv4,
  net_ipv6, Transport, transport_tcp, transport_udp, transport_icmp, transport_icmpv6, Packet,
  as_arp,
}
use netscope.Packet.WellFormed.{NetTag, TransportTag, IsPacket}
use netscope.Output.Data.{Clock, IsClock, OutputOptions}
use netscope.Output.Text.{
  format_timestamp, format_network_addrs, text_columns, print_dns_line, print_packet_line,
  print_text_line, is_arp,
}
use netscope.Output.Verbose.{verbose_net, verbose_transport, print_verbose_block}
use netscope.Output.Json.{print_json_line}
use netscope.Output.Json.Line.{print_json_line_lem}
use netscope.Output.{output_text, output_packet}

format_timestamp-Ends :
    (clock : Clock) (ts : Timestamp) → IsClock clock → Ends (format_timestamp clock ts 16)
unfolding format_timestamp
format_timestamp-Ends clock ts h =
    Returns-Ends _ (λ (s : Bytes). length s < 16)
      (append_at-Returns 16 (clock.strftime_local 16 (codes "%H:%M:%S") ts.seconds) _
        (h.local_fits 16 (codes "%H:%M:%S") ts.seconds (omega arith)))

format_ipv6-Ends : (addr : Bytes) (room : ℕ) → Ends (format_ipv6 addr room)
format_ipv6-Ends addr room = Returns-Ends _ (Printed room) (format_ipv6-Printed addr room)

tcp_flags-Ends : (flags : ℕ) → Ends (tcp_flags_to_string flags 32)
tcp_flags-Ends flags =
    Returns-done (λ s. Unit) (tcp_flags_to_string_lem flags 32 (omega arith) (omega arith)) tt

format_network_addrs-Ends :
    (network : Proto) (net : Net) (src_len dst_len : ℕ)
    → NetTag network net
    → Ends (format_network_addrs network net src_len dst_len)
unfolding format_network_addrs
format_network_addrs-Ends unknown net src_len dst_len h = tt
format_network_addrs-Ends arp net src_len dst_len h = tt
format_network_addrs-Ends ipv4 (net_ipv4 i) src_len dst_len h = tt
format_network_addrs-Ends ipv6 (net_ipv6 i) src_len dst_len h =
    Ends-bind (format_ipv6 i.source src_len) _ (format_ipv6-Ends i.source src_len) (λ src.
      Ends-bind (format_ipv6 i.destination dst_len) _ (format_ipv6-Ends i.destination dst_len)
        (λ dst. tt))
format_network_addrs-Ends network net src_len dst_len h = absurd h

text_columns-Ends :
    (network proto : Proto) (t : Transport) (has_dns : Bool) (src dst : Bytes)
    → TransportTag network proto t
    → Ends (text_columns network proto t has_dns src dst)
unfolding text_columns
text_columns-Ends network unknown t has_dns src dst h = tt
text_columns-Ends network tcp (transport_tcp i) has_dns src dst h =
    Ends-bind (tcp_flags_to_string i.flags 32) _ (tcp_flags-Ends i.flags) (λ flags. tt)
text_columns-Ends network udp (transport_udp i) has_dns src dst h = tt
text_columns-Ends network icmp (transport_icmp i) has_dns src dst h = tt
text_columns-Ends network icmpv6 (transport_icmpv6 i) has_dns src dst h = tt
text_columns-Ends network proto t has_dns src dst h = absurd h

print_dns_line-Ends : (dns : DnsInfo) → IsDns dns → Ends (print_dns_line dns)
unfolding print_dns_line
print_dns_line-Ends dns h =
    if-Ends (dns.is_response && ltb 0 dns.decoded_answer_count) _ _
      (Ends-bind (slot_at dns.answers 0) _
        (Returns-Ends _ IsRecord
          (slot_at-All IsRecord dns.answers 0 h.answers_fit (omega (arith, h.answer_slots))))
        (λ a. tt))
      (if-Ends (not dns.is_response && ltb 0 dns.decoded_question_count) _ _
        (Ends-bind (slot_at dns.questions 0) _
          (Returns-Ends _ IsQuestion (
            slot_at-All IsQuestion dns.questions 0 h.questions_fit
              (omega (arith, h.question_slots))))
          (λ q. tt))
        tt)

as_arp-Ends :
    (network : Proto) (net : Net) → NetTag network net → is_arp network ≡ true → Ends (as_arp net)
as_arp-Ends arp (net_arp i) t e = tt
as_arp-Ends arp net t e = absurd t
as_arp-Ends network net t e = absurd (ground arith)

verbose_net-Ends :
    (network : Proto) (net : Net) → NetTag network net → Ends (verbose_net network net)
unfolding verbose_net
verbose_net-Ends unknown net h = tt
verbose_net-Ends arp net h = tt
verbose_net-Ends ipv4 (net_ipv4 i) h = tt
verbose_net-Ends ipv6 (net_ipv6 i) h =
    Ends-bind (format_ipv6 i.source 46) _ (format_ipv6-Ends i.source 46) (λ src.
      Ends-bind (format_ipv6 i.destination 46) _ (format_ipv6-Ends i.destination 46) (λ dst. tt))
verbose_net-Ends network net h = absurd h

verbose_transport-Ends :
    (network proto : Proto) (t : Transport)
    → TransportTag network proto t
    → Ends (verbose_transport proto t)
unfolding verbose_transport
verbose_transport-Ends network unknown t h = tt
verbose_transport-Ends network tcp (transport_tcp i) h =
    Ends-bind (tcp_flags_to_string i.flags 32) _ (tcp_flags-Ends i.flags) (λ flags. tt)
verbose_transport-Ends network udp (transport_udp i) h = tt
verbose_transport-Ends network icmp (transport_icmp i) h = tt
verbose_transport-Ends network icmpv6 (transport_icmpv6 i) h = tt
verbose_transport-Ends network proto t h = absurd h

-- What is written goes behind what is there.
abbrev pub Appends : Bytes → Bytes → Type 0
Appends out out' = (text : Bytes) × (out' ≡ out ++ text)

module _ {n : ℕ} (clock : Clock) (pkt : Packet) (hc : IsClock clock) (h : IsPacket n pkt) where
  print_packet_line-Ends : (ts color reset : Bytes) → Ends (print_packet_line pkt ts color reset)
  unfolding print_packet_line
  print_packet_line-Ends ts color reset =
      Ends-bind (format_network_addrs pkt.network_proto pkt.net 46 46) _
        (format_network_addrs-Ends pkt.network_proto pkt.net 46 46 h.net_tag)
        (λ addrs.
          Ends-bind
            (text_columns pkt.network_proto pkt.transport_proto pkt.transport pkt.has_dns addrs.0
              addrs.1)
            _
            (text_columns-Ends pkt.network_proto pkt.transport_proto pkt.transport pkt.has_dns
              addrs.0 addrs.1 h.transport_tag)
            (λ c.
              Ends-bind (if pkt.has_dns then print_dns_line pkt.dns_info else done []) _
                (if-Ends pkt.has_dns _ _ (print_dns_line-Ends pkt.dns_info h.dns_ok) tt)
                (λ dns. tt)))

  print_text_line-Ends : (opts : OutputOptions) → Ends (print_text_line clock pkt opts)
  unfolding print_text_line
  print_text_line-Ends opts =
      Ends-bind (format_timestamp clock pkt.timestamp 16) _
        (format_timestamp-Ends clock pkt.timestamp hc)
        (λ ts. if-Ends pkt.malformed _ _ tt (elim (Bool-cases (is_arp pkt.network_proto)) [
          | inl e ↦ rw e (
              Ends-bind (as_arp pkt.net) _ (as_arp-Ends pkt.network_proto pkt.net h.net_tag e)
                (λ i. tt))
          | inr e ↦ rw e (print_packet_line-Ends ts _ _)
        ]))

  print_verbose_block-Ends : Ends (print_verbose_block clock pkt)
  unfolding print_verbose_block
  print_verbose_block-Ends =
      Ends-bind (format_timestamp clock pkt.timestamp 16) _
        (format_timestamp-Ends clock pkt.timestamp hc)
        (λ ts.
          Ends-bind (verbose_net pkt.network_proto pkt.net) _
            (verbose_net-Ends pkt.network_proto pkt.net h.net_tag)
            (λ net.
              Ends-bind (verbose_transport pkt.transport_proto pkt.transport) _
                (verbose_transport-Ends pkt.network_proto pkt.transport_proto pkt.transport
                  h.transport_tag)
                (λ transport. tt)))

  module _ (room : n + 16 < 2 ^ 64) (opts : OutputOptions) (out : Bytes) where
    output_text-Appends : Returns (output_text clock pkt opts out) (Appends out)
    unfolding output_text
    output_text-Appends =
        if-Returns (done out) _ (Appends out) opts.quiet ([], sym (append-nil out))
          (Returns-bind (print_text_line clock pkt opts) _ (λ s. Unit) (Appends out)
            (print_text_line-Ends opts)
            (λ line u.
              Returns-bind (if opts.verbose then print_verbose_block clock pkt else done []) _
                (λ s. Unit) (Appends out) (if-Ends opts.verbose _ _ print_verbose_block-Ends tt)
                (λ block v.
                  if-Returns
                    (hex_dump_file pkt.raw_data pkt.captured_length (out ++ (line ++ block)))
                    (done (out ++ (line ++ block))) (Appends out) opts.hex (dump (line ++ block))
                    (line ++ block, refl))))
      where
        dump :
            (s : Bytes)
            → Returns (hex_dump_file pkt.raw_data pkt.captured_length (out ++ s)) (Appends out)
        dump s =
            rw (h.captured, hex_dump_file_lem h.raw_ok room (out ++ s)) (_, append_assoc out s _)

    -- For every well-formed packet of fewer than 2^64 - 16 bytes, all options and every stream, with a
    -- `strftime` that stays inside its array, the packet is printed without a fault: no union member is read but the one that was
    -- written, no slot or byte outside its array. What was in the stream stays, with the output
    -- behind it.
    pub output_packet-Appends : Returns (output_packet clock pkt opts out) (Appends out)
    unfolding output_packet
    output_packet-Appends = by_format opts.format
      where
        by_format :
            (format : OutputFormat)
            → Returns
                (elim format [
                  | json_format ↦ print_json_line clock pkt >>= (λ line. done (out ++ line))
                  | text_format ↦ output_text clock pkt opts out
                ])
                (Appends out)
        by_format json_format = rw (print_json_line_lem clock pkt hc h) (_, refl)
        by_format text_format = output_text-Appends
