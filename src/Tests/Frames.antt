-- ===== src/Tests/Frames.antt =====
-- Bytes that the other tests run on, in the style of tests/test_packets.c.
use netscope.Base.{Bytes, [], ◌∷◌, arith}
use netscope.Util.Buffer.{IsBuffer}

-- A DNS query for the addresses of `ab`.
abbrev pub dns_query : Bytes
dns_query =
    0x12 ∷ 0x34 ∷ 1 ∷ 0 ∷ 0 ∷ 1 ∷ 0 ∷ 0 ∷ 0 ∷ 0 ∷ 0 ∷ 0 ∷ 2 ∷ b'a' ∷ b'b' ∷ 0 ∷ 0 ∷ 1 ∷ 0 ∷ 1 ∷ []

abbrev pub udp_query : Bytes
udp_query = 0x14 ∷ 0xe9 ∷ 0 ∷ 53 ∷ 0 ∷ 28 ∷ 0xbe ∷ 0xef ∷ dns_query

abbrev pub ipv4_query : Bytes
ipv4_query =
    0x45 ∷ 0 ∷ 0 ∷ 48 ∷ 0xab ∷ 0xcd ∷ 0x40 ∷ 0 ∷ 64 ∷ 17 ∷ 0x12 ∷ 0x34 ∷ 192 ∷ 168 ∷ 1 ∷ 12 ∷ 1 ∷ 1
    ∷ 1 ∷ 1 ∷ udp_query

abbrev pub eth_query : Bytes
eth_query = 0xff ∷ 0xff ∷ 0xff ∷ 0xff ∷ 0xff ∷ 0xff ∷ 2 ∷ 4 ∷ 6 ∷ 8 ∷ 10 ∷ 12 ∷ 8 ∷ 0 ∷ ipv4_query

pub eth_query-IsBuffer : IsBuffer eth_query 62
eth_query-IsBuffer = omega arith

pub ipv4_query-IsBuffer : IsBuffer ipv4_query 48
ipv4_query-IsBuffer = omega arith

pub udp_query-IsBuffer : IsBuffer udp_query 28
udp_query-IsBuffer = omega arith

pub dns_query-IsBuffer : IsBuffer dns_query 20
dns_query-IsBuffer = omega arith

-- A frame with a VLAN tag.
abbrev pub vlan_frame : Bytes
vlan_frame =
    1 ∷ 2 ∷ 3 ∷ 4 ∷ 5 ∷ 6 ∷ 7 ∷ 8 ∷ 9 ∷ 10 ∷ 11 ∷ 12 ∷ 0x81 ∷ 0 ∷ 0x20 ∷ 5 ∷ 0x86 ∷ 0xdd ∷ []

pub vlan_frame-IsBuffer : IsBuffer vlan_frame 18
vlan_frame-IsBuffer = omega arith

abbrev pub arp_request : Bytes
arp_request =
    0 ∷ 1 ∷ 8 ∷ 0 ∷ 6 ∷ 4 ∷ 0 ∷ 1 ∷ 2 ∷ 4 ∷ 6 ∷ 8 ∷ 10 ∷ 12 ∷ 10 ∷ 0 ∷ 0 ∷ 1 ∷ 0 ∷ 0 ∷ 0 ∷ 0 ∷ 0 ∷ 0
    ∷ 10 ∷ 0 ∷ 0 ∷ 2 ∷ []

pub arp_request-IsBuffer : IsBuffer arp_request 28
arp_request-IsBuffer = omega arith

abbrev pub tcp_syn : Bytes
tcp_syn =
    0x30 ∷ 0x39 ∷ 0 ∷ 80 ∷ 0 ∷ 0 ∷ 1 ∷ 0 ∷ 0 ∷ 0 ∷ 0 ∷ 7 ∷ 0x50 ∷ 2 ∷ 0x20 ∷ 0 ∷ 0xab ∷ 0xcd ∷ 0 ∷ 0
    ∷ []

pub tcp_syn-IsBuffer : IsBuffer tcp_syn 20
tcp_syn-IsBuffer = omega arith

abbrev pub echo_request : Bytes
echo_request = 8 ∷ 0 ∷ 0x12 ∷ 0x34 ∷ 1 ∷ 65 ∷ 0 ∷ 8 ∷ []

pub echo_request-IsBuffer : IsBuffer echo_request 8
echo_request-IsBuffer = omega arith

abbrev pub echo_request_v6 : Bytes
echo_request_v6 = 128 ∷ 0 ∷ 0x12 ∷ 0x34 ∷ 1 ∷ 65 ∷ 0 ∷ 8 ∷ []

pub echo_request_v6-IsBuffer : IsBuffer echo_request_v6 8
echo_request_v6-IsBuffer = omega arith

-- An IPv6 header in front of one with hop-by-hop options.
abbrev pub ipv6_frame : Bytes
ipv6_frame =
    0x60 ∷ 0x01 ∷ 0x23 ∷ 0x45 ∷ 0 ∷ 8 ∷ 0 ∷ 64 ∷ 0xfe ∷ 0x80 ∷ 0 ∷ 0 ∷ 0 ∷ 0 ∷ 0 ∷ 0 ∷ 0 ∷ 0 ∷ 0 ∷ 0
    ∷ 0 ∷ 0 ∷ 0 ∷ 1 ∷ 0xff ∷ 2 ∷ 0 ∷ 0 ∷ 0 ∷ 0 ∷ 0 ∷ 0 ∷ 0 ∷ 0 ∷ 0 ∷ 0 ∷ 0 ∷ 0 ∷ 0 ∷ 2 ∷ 59 ∷ 0 ∷ 5
    ∷ 2 ∷ 0 ∷ 0 ∷ 1 ∷ 0 ∷ []

pub ipv6_frame-IsBuffer : IsBuffer ipv6_frame 48
ipv6_frame-IsBuffer = omega arith

-- Eight headers with destination options, the last in front of TCP.
abbrev pub eight_headers : Bytes
eight_headers =
    60 ∷ 0 ∷ 0 ∷ 0 ∷ 0 ∷ 0 ∷ 0 ∷ 0 ∷ 60 ∷ 0 ∷ 0 ∷ 0 ∷ 0 ∷ 0 ∷ 0 ∷ 0 ∷ 60 ∷ 0 ∷ 0 ∷ 0 ∷ 0 ∷ 0 ∷ 0 ∷ 0
    ∷ 60 ∷ 0 ∷ 0 ∷ 0 ∷ 0 ∷ 0 ∷ 0 ∷ 0 ∷ 60 ∷ 0 ∷ 0 ∷ 0 ∷ 0 ∷ 0 ∷ 0 ∷ 0 ∷ 60 ∷ 0 ∷ 0 ∷ 0 ∷ 0 ∷ 0 ∷ 0
    ∷ 0 ∷ 60 ∷ 0 ∷ 0 ∷ 0 ∷ 0 ∷ 0 ∷ 0 ∷ 0 ∷ 6 ∷ 0 ∷ 0 ∷ 0 ∷ 0 ∷ 0 ∷ 0 ∷ 0 ∷ []

pub eight_headers-IsBuffer : IsBuffer eight_headers 64
eight_headers-IsBuffer = omega arith
