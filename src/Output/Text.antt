-- ===== src/Output/Text.antt =====
-- The text output of src/output.c: `format_timestamp`, `format_network_addrs`, `print_arp_line` and
-- `print_text_line`.
use Prim.Native.String.{String}
use netscope.Base.{
  ℕ, ◌/◌, Bytes, Bool, true, false, ◌||◌, Option, none, some, [], ◌∷◌, ◌++◌, ◌==◌, ltb, not, ◌&&◌,
  if◌then◌else◌,
}
use netscope.Run.{Run, done, ◌>>=◌}
use netscope.Util.Text.{c_str, snprintf, append_at, decimal, decimal_padded, pad_right, printed}
use netscope.Util.Format.{codes, format_mac, format_ipv4, format_ipv6}
use netscope.Protocols.Arp.{ArpInfo}
use netscope.Protocols.Icmp.{IcmpInfo, icmp_type_name}
use netscope.Protocols.Icmpv6.{icmpv6_type_name}
use netscope.Protocols.Tcp.Flags.{tcp_flags_to_string}
use netscope.Protocols.Dns.Rdata.{dns_type_name}
use netscope.Protocols.Dns.Message.{DnsInfo, slot_at}
use netscope.Packet.Data.{
  Timestamp, Proto, arp, ipv4, ipv6, tcp, udp, icmp, icmpv6, Net, Transport, Packet, as_arp,
  as_ipv4, as_ipv6, as_tcp, as_udp, as_icmp, as_icmpv6,
}
use netscope.Packet.Dissect.{proto_name}
use netscope.Output.Data.{
  OutputOptions, Clock, color_error, color_reset, protocol_color, top_protocol,
}

unfoldable pub format_timestamp : Clock → Timestamp → ℕ → Run Bytes
format_timestamp clock ts buf_len =
    append_at buf_len (clock.strftime_local buf_len (codes "%H:%M:%S") ts.seconds)
      (b'.' ∷ decimal_padded 3 (ts.microseconds / 1000))

unfoldable pub format_network_addrs : Proto → Net → ℕ → ℕ → Run (Bytes × Bytes)
format_network_addrs ipv4 net src_len dst_len =
    as_ipv4 net >>= (λ i. done (format_ipv4 i.source src_len, format_ipv4 i.destination dst_len))
format_network_addrs ipv6 net src_len dst_len = do
  i ← as_ipv6 net
  src ← format_ipv6 i.source src_len
  dst ← format_ipv6 i.destination dst_len
  done (src, dst)
format_network_addrs other net src_len dst_len =
    done (snprintf src_len (codes "?"), snprintf dst_len (codes "?"))

unfoldable pub print_arp_line : ArpInfo → Bytes → Bytes → Bytes
print_arp_line info color reset =
    let sender = format_ipv4 info.sender_ip 16 in
    let target = format_ipv4 info.target_ip 16 in
    let sender_mac = format_mac info.sender_mac 18 in
    let start = printed (color ∷ codes "ARP" ∷ reset ∷ codes "   " ∷ sender ∷ []) in
    if info.operation == 1
    then printed (start ∷ codes " -> " ∷ target ∷ codes "   Who has " ∷ target ∷ codes "?\n" ∷ [])
    else if info.operation == 2
    then printed (start ∷ codes " is at " ∷ sender_mac ∷ codes "\n" ∷ [])
    else printed (
        start
        ∷ codes " -> "
        ∷ target
        ∷ codes "   operation="
        ∷ decimal info.operation
        ∷ codes "\n"
        ∷ [])

-- The columns behind the time: `proto_name`, `src_ep`, `dst_ep` and `extra`.
pub record Columns : Type 0 where
  pub proto_name : Bytes
  pub src_ep : Bytes
  pub dst_ep : Bytes
  pub extra : Bytes

abbrev pub endpoint : Bytes → ℕ → Bytes
endpoint addr port = snprintf 64 (addr ++ (b':' ∷ decimal port))

unfoldable pub icmp_extra : IcmpInfo → Bytes
icmp_extra i =
    if i.type == 8 || i.type == 0
    then snprintf 128 (
        printed (
          codes (icmp_type_name i.type)
          ∷ codes " id="
          ∷ decimal i.identifier
          ∷ codes " seq="
          ∷ decimal i.sequence
          ∷ []))
    else snprintf 128 (codes (icmp_type_name i.type))

-- The switch over the transport protocol.
unfoldable pub text_columns : Proto → Proto → Transport → Bool → Bytes → Bytes → Run Columns
text_columns network tcp t has_dns src dst = do
  i ← as_tcp t
  flags ← tcp_flags_to_string i.flags 32
  done (record {
    proto_name = codes "TCP";
    src_ep = endpoint src i.source_port;
    dst_ep = endpoint dst i.destination_port;
    extra = snprintf 128 (b'[' ∷ (flags ++ codes "]"));
  })
text_columns network udp t has_dns src dst = as_udp t >>= (λ i. done (record {
  proto_name = codes "UDP";
  src_ep = endpoint src i.source_port;
  dst_ep = endpoint dst i.destination_port;
  extra = if has_dns then snprintf 128 (codes "DNS") else [];
}))
text_columns network icmp t has_dns src dst = as_icmp t >>= (λ i. done (record {
  proto_name = codes "ICMP";
  src_ep = snprintf 64 src;
  dst_ep = snprintf 64 dst;
  extra = icmp_extra i;
}))
text_columns network icmpv6 t has_dns src dst = as_icmpv6 t >>= (λ i. done (record {
  proto_name = codes "ICMPv6";
  src_ep = snprintf 64 src;
  dst_ep = snprintf 64 dst;
  extra = snprintf 128 (codes (icmpv6_type_name i.type));
}))
text_columns network other t has_dns src dst = done (record {
  proto_name = codes (proto_name network);
  src_ep = snprintf 64 src;
  dst_ep = snprintf 64 dst;
  extra = [];
})

-- The line below a DNS message.
unfoldable pub print_dns_line : DnsInfo → Run Bytes
print_dns_line dns =
    if dns.is_response && ltb 0 dns.decoded_answer_count
    then slot_at dns.answers 0 >>= (λ a. done (
        printed (
          codes "    Response: "
          ∷ c_str a.name
          ∷ codes " "
          ∷ dns_type_name a.type 16
          ∷ codes " "
          ∷ c_str a.rdata_text
          ∷ codes "\n"
          ∷ [])))
    else if not dns.is_response && ltb 0 dns.decoded_question_count
    then slot_at dns.questions 0 >>= (λ q. done (
        printed (
          codes "    Query: "
          ∷ c_str q.name
          ∷ codes " "
          ∷ dns_type_name q.type 16
          ∷ codes "\n"
          ∷ [])))
    else done []

abbrev pub reason_or_unknown : Option String → Bytes
reason_or_unknown none = codes "unknown reason"
reason_or_unknown (some reason) = codes reason

unfoldable pub print_malformed : Packet → Bytes → Bytes → Bytes → Bytes
print_malformed pkt ts err_color reset = printed (
    codes "["
    ∷ ts
    ∷ codes "] "
    ∷ err_color
    ∷ codes "MALFORMED"
    ∷ reset
    ∷ codes " "
    ∷ reason_or_unknown pkt.malformed_reason
    ∷ codes " ("
    ∷ decimal pkt.captured_length
    ∷ codes " bytes captured)\n"
    ∷ [])

-- The last case of `print_text_line`: every packet but the malformed ones and ARP.
unfoldable pub print_packet_line : Packet → Bytes → Bytes → Bytes → Run Bytes
print_packet_line pkt ts color reset = do
  (src, dst) ← format_network_addrs pkt.network_proto pkt.net 46 46
  c ← text_columns pkt.network_proto pkt.transport_proto pkt.transport pkt.has_dns src dst
  dns ← if pkt.has_dns then print_dns_line pkt.dns_info else done []
  done (
      printed (
        codes "["
        ∷ ts
        ∷ codes "] "
        ∷ color
        ∷ pad_right 6 c.proto_name
        ∷ reset
        ∷ codes " "
        ∷ c.src_ep
        ∷ codes " -> "
        ∷ c.dst_ep
        ∷ codes "   "
        ∷ c.extra
        ∷ codes " "
        ∷ decimal pkt.captured_length
        ∷ codes " B\n"
        ∷ dns
        ∷ []))

abbrev pub is_arp : Proto → Bool
is_arp arp = true
is_arp other = false

unfoldable pub print_text_line : Clock → Packet → OutputOptions → Run Bytes
print_text_line clock pkt opts = do
  let color = if opts.color then protocol_color (top_protocol pkt) else []
  let reset = if opts.color then color_reset else []
  ts ← format_timestamp clock pkt.timestamp 16
  if pkt.malformed
      then done (print_malformed pkt ts (if opts.color then color_error else []) reset)
      else if is_arp pkt.network_proto
      then as_arp pkt.net >>= (λ info.
        done (printed (codes "[" ∷ ts ∷ codes "] " ∷ print_arp_line info color reset ∷ [])))
      else print_packet_line pkt ts color reset
