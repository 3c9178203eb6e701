-- ===== src/Tests/Packet.antt =====
-- Whole frames and DNS messages, at the bytes of Tests/Frames.
use netscope.Base.{◌<◌, [], ◌∷◌, length, arith}
use netscope.Run.{Returns}
use netscope.Util.Format.{format_ipv6}
use netscope.Util.Format.Ipv6.{Printed, format_ipv6-Printed}
use netscope.Protocols.Dns.Name.{decode_name}
use netscope.Protocols.Dns.Name.Total.{Decoded, decode_name-Decoded}
use netscope.Protocols.Dns.Rdata.{format_rdata}
use netscope.Protocols.Dns.Rdata.Total.{format_rdata-Returns}
use netscope.Protocols.Dns.Message.{zero_dns}
use netscope.Protocols.Dns.Parse.{parse_dns}
use netscope.Protocols.Dns.Parse.Total.{DnsParsed, parse_dns-DnsParsed}
use netscope.Packet.Data.{Timestamp, ethernet_link}
use netscope.Packet.Dissect.{packet_parse}
use netscope.Packet.WellFormed.{IsPacket}
use netscope.Packet.Total.{packet_parse-IsPacket}
use netscope.Tests.Frames.{eth_query, eth_query-IsBuffer, dns_query, dns_query-IsBuffer}

abbrev noon : Timestamp
noon = record { seconds = 43200; microseconds = 7 }

packet_parse-IsPacket_example :
    Returns (packet_parse eth_query 62 62 noon 1 ethernet_link) (IsPacket 62)
packet_parse-IsPacket_example = packet_parse-IsPacket eth_query-IsBuffer 62 noon 1 ethernet_link

parse_dns-DnsParsed_example :
    Returns (parse_dns dns_query 20 zero_dns) (DnsParsed dns_query 20 zero_dns)
parse_dns-DnsParsed_example = parse_dns-DnsParsed dns_query-IsBuffer zero_dns

decode_name-Decoded_example : Returns (decode_name dns_query 20 12 256) (Decoded 12 20 256)
decode_name-Decoded_example =
    decode_name-Decoded dns_query-IsBuffer 12 256 (omega arith) (omega arith)

format_rdata-Returns_example : Returns (format_rdata dns_query 20 4 4 1 256) (λ s. length s < 256)
format_rdata-Returns_example =
    format_rdata-Returns dns_query-IsBuffer 4 4 256 (omega arith) (omega arith) 1

format_ipv6-Printed_example :
    Returns
      (format_ipv6 (0 ∷ 0 ∷ 0 ∷ 0 ∷ 0 ∷ 0 ∷ 0 ∷ 0 ∷ 0 ∷ 0 ∷ 0 ∷ 0 ∷ 0 ∷ 0 ∷ 0 ∷ 1 ∷ []) 46)
      (Printed 46)
format_ipv6-Printed_example =
    format_ipv6-Printed (0 ∷ 0 ∷ 0 ∷ 0 ∷ 0 ∷ 0 ∷ 0 ∷ 0 ∷ 0 ∷ 0 ∷ 0 ∷ 0 ∷ 0 ∷ 0 ∷ 0 ∷ 1 ∷ []) 46
