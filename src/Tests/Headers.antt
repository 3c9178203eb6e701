-- ===== src/Tests/Headers.antt =====
-- The theorems on the header parsers, at concrete bytes.
use netscope.Base.{◌+◌, ◌≤◌, ◌-◌, ◌^◌, ◌↔◌, ◌≡◌, refl, true, false, none, some, [], ◌∷◌, arith}
use netscope.Run.{done, Returns}
use netscope.Util.{bounds_check, read_u16_be, read_u32_be, read_u64_be}
use netscope.Util.Buffer.{u16_at, u64_at, slice}
use netscope.Util.Reads.{bounds_check_iff, read_u16_be_lem, read_u32_be_lem, read_u64_be_lem}
use netscope.Protocols.Status.{ok}
use netscope.Protocols.Ethernet.{zero_eth, parse_ethernet}
use netscope.Protocols.Ethernet.Parse.{eth_result, parse_ethernet_lem}
use netscope.Protocols.Arp.{zero_arp, parse_arp}
use netscope.Protocols.Arp.Parse.{arp_result, parse_arp_lem}
use netscope.Protocols.Ipv4.{parse_ipv4}
use netscope.Protocols.Ipv4.Parse.{ipv4_result, parse_ipv4_lem}
use netscope.Protocols.Ipv6.{parse_ipv6, skip_extension_headers}
use netscope.Protocols.Ipv6.Parse.{ipv6_result, parse_ipv6_lem}
use netscope.Protocols.Ipv6.Extensions.{
  is_extension, extension_len, Walk, here, skip, Sound, skip_extension_headers-Sound,
  skip_extension_headers-Walk, skip_extension_headers-eight,
}
use netscope.Protocols.Tcp.{parse_tcp}
use netscope.Protocols.Tcp.Parse.{tcp_result, parse_tcp_lem}
use netscope.Protocols.Udp.{zero_udp, parse_udp}
use netscope.Protocols.Udp.Parse.{udp_result, parse_udp_lem}
use netscope.Protocols.Icmp.{zero_icmp, parse_icmp}
use netscope.Protocols.Icmp.Parse.{icmp_result, parse_icmp_lem}
use netscope.Protocols.Icmpv6.{zero_icmpv6, parse_icmpv6}
use netscope.Protocols.Icmpv6.Parse.{icmpv6_result, parse_icmpv6_lem}
use netscope.Packet.Data.{zero_ipv4, zero_ipv6, zero_tcp}
use netscope.Tests.Frames.{
  ipv4_query, ipv4_query-IsBuffer, udp_query, udp_query-IsBuffer, dns_query, dns_query-IsBuffer,
  vlan_frame, vlan_frame-IsBuffer, arp_request, arp_request-IsBuffer, tcp_syn, tcp_syn-IsBuffer,
  echo_request, echo_request-IsBuffer, echo_request_v6, echo_request_v6-IsBuffer, ipv6_frame,
  ipv6_frame-IsBuffer, eight_headers, eight_headers-IsBuffer,
}

bounds_check_iff_example : (bounds_check 10 9 (2 ^ 64 - 1) ≡ true) ↔ (9 + (2 ^ 64 - 1) ≤ 10)
bounds_check_iff_example = bounds_check_iff 10 9 (2 ^ 64 - 1) (omega arith)

read_u16_be_example : read_u16_be dns_query 20 18 ≡ done (some 1)
unfolding u16_at
read_u16_be_example = read_u16_be_lem dns_query-IsBuffer 18

read_u32_be_example : read_u32_be dns_query 20 17 ≡ done none
read_u32_be_example = read_u32_be_lem dns_query-IsBuffer 17

read_u64_be_example : read_u64_be dns_query 20 4 ≡ done (some 0x0001_0000_0000_0000)
unfolding u64_at
read_u64_be_example = read_u64_be_lem dns_query-IsBuffer 4

parse_ethernet_example :
    parse_ethernet vlan_frame 18 zero_eth
    ≡ done (
      ok,
      record {
        destination = 1 ∷ 2 ∷ 3 ∷ 4 ∷ 5 ∷ 6 ∷ [];
        source = 7 ∷ 8 ∷ 9 ∷ 10 ∷ 11 ∷ 12 ∷ [];
        ethertype = 0x86dd;
        has_vlan = true;
        vlan_id = 5;
      },
      some 18,
    )
unfolding eth_result u16_at slice
parse_ethernet_example = parse_ethernet_lem vlan_frame-IsBuffer zero_eth

parse_arp_example :
    parse_arp arp_request 28 zero_arp
    ≡ done (
      ok,
      record {
        operation = 1;
        sender_mac = 2 ∷ 4 ∷ 6 ∷ 8 ∷ 10 ∷ 12 ∷ [];
        sender_ip = 10 ∷ 0 ∷ 0 ∷ 1 ∷ [];
        target_mac = 0 ∷ 0 ∷ 0 ∷ 0 ∷ 0 ∷ 0 ∷ [];
        target_ip = 10 ∷ 0 ∷ 0 ∷ 2 ∷ [];
      },
    )
unfolding arp_result u16_at slice
parse_arp_example = parse_arp_lem arp_request-IsBuffer zero_arp

parse_ipv4_example : parse_ipv4 ipv4_query 48 zero_ipv4 ≡ done (ipv4_result ipv4_query 48 zero_ipv4)
parse_ipv4_example = parse_ipv4_lem ipv4_query-IsBuffer zero_ipv4

parse_ipv6_example : parse_ipv6 ipv6_frame 48 zero_ipv6 ≡ done (ipv6_result ipv6_frame 48 zero_ipv6)
parse_ipv6_example = parse_ipv6_lem ipv6_frame-IsBuffer zero_ipv6

parse_tcp_example : parse_tcp tcp_syn 20 zero_tcp ≡ done (tcp_result tcp_syn 20 zero_tcp)
parse_tcp_example = parse_tcp_lem tcp_syn-IsBuffer zero_tcp

parse_udp_example :
    parse_udp udp_query 28 zero_udp
    ≡ done
        (ok, record { source_port = 5353; destination_port = 53; length = 28; checksum = 0xbeef })
unfolding udp_result u16_at netscope.Protocols.Udp.Parse.udp_header
parse_udp_example = parse_udp_lem udp_query-IsBuffer zero_udp

parse_icmp_example :
    parse_icmp echo_request 8 zero_icmp
    ≡ done (ok, record { type = 8; code = 0; checksum = 0x1234; identifier = 321; sequence = 8 })
unfolding icmp_result u16_at
parse_icmp_example = parse_icmp_lem echo_request-IsBuffer zero_icmp

parse_icmpv6_example :
    parse_icmpv6 echo_request_v6 8 zero_icmpv6
    ≡ done (ok, record { type = 128; code = 0; checksum = 0x1234; identifier = 321; sequence = 8 })
unfolding icmpv6_result u16_at
parse_icmpv6_example = parse_icmpv6_lem echo_request_v6-IsBuffer zero_icmpv6

skip_extension_headers-Sound_example :
    Returns (skip_extension_headers ipv6_frame 48 40 0) (Sound 8 ipv6_frame 48 40 0)
skip_extension_headers-Sound_example =
    skip_extension_headers-Sound ipv6_frame-IsBuffer 40 0 (omega arith)

one-Walk : Walk ipv6_frame 48 1 40 0 48 59
unfolding is_extension extension_len
one-Walk = skip refl (omega arith) here

skip_extension_headers-Walk_example :
    skip_extension_headers ipv6_frame 48 40 0 ≡ done (true, 48, 59)
unfolding is_extension
skip_extension_headers-Walk_example =
    skip_extension_headers-Walk ipv6_frame-IsBuffer one-Walk refl (omega arith)

eight-Walk : Walk eight_headers 64 8 0 60 64 6
unfolding is_extension extension_len
eight-Walk = skip refl (omega arith) (
    skip refl (omega arith) (
      skip refl (omega arith) (
        skip refl (omega arith) (
          skip refl (omega arith)
            (skip refl (omega arith) (skip refl (omega arith) (skip refl (omega arith) here)))))))

skip_extension_headers-eight_example :
    skip_extension_headers eight_headers 64 0 60 ≡ done (false, 64, 6)
skip_extension_headers-eight_example =
    skip_extension_headers-eight eight_headers-IsBuffer eight-Walk
