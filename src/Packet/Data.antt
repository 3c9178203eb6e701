-- ===== src/Packet/Data.antt =====
-- include/netscope/packet.h
use Prim.Native.String.{String}
use netscope.Base.{ℕ, Bytes, Bool, false, Option, none, [], replicate}
use netscope.Run.{Run, done, fault, Fault}
use netscope.Protocols.Ethernet.{EthInfo, zero_eth}
use netscope.Protocols.Arp.{ArpInfo, zero_arp}
use netscope.Protocols.Ipv4.{Ipv4Info}
use netscope.Protocols.Ipv6.{Ipv6Info}
use netscope.Protocols.Tcp.{TcpInfo}
use netscope.Protocols.Udp.{UdpInfo, zero_udp}
use netscope.Protocols.Icmp.{IcmpInfo, zero_icmp}
use netscope.Protocols.Icmpv6.{Icmpv6Info, zero_icmpv6}
use netscope.Protocols.Dns.Message.{DnsInfo, zero_dns}

-- Both fields are kept as they come; the sign of `seconds` plays no part.
pub record Timestamp : Type 0 where
  pub seconds : ℕ
  pub microseconds : ℕ

pub data LinkType : Type 0 where
  no_link ethernet_link : LinkType

pub data Proto : Type 0 where
  unknown arp ipv4 ipv6 tcp udp icmp icmpv6 dns : Proto

-- The unions, by the member last written. `memset` leaves all members zero.
pub data Net : Type 0 where
  zero_net : Net
  net_arp : ArpInfo → Net
  net_ipv4 : Ipv4Info → Net
  net_ipv6 : Ipv6Info → Net

pub data Transport : Type 0 where
  zero_transport : Transport
  transport_tcp : TcpInfo → Transport
  transport_udp : UdpInfo → Transport
  transport_icmp : IcmpInfo → Transport
  transport_icmpv6 : Icmpv6Info → Transport

-- `payload` is an offset into the packet's bytes, `none` for a null pointer.
pub record Packet : Type 0 where
  pub number : ℕ
  pub timestamp : Timestamp
  pub captured_length : ℕ
  pub original_length : ℕ
  pub raw_data : Bytes
  pub link_type : LinkType
  pub has_eth : Bool
  pub eth : EthInfo
  pub network_proto : Proto
  pub net : Net
  pub transport_proto : Proto
  pub transport : Transport
  pub has_dns : Bool
  pub dns_info : DnsInfo
  pub payload : Option ℕ
  pub payload_length : ℕ
  pub malformed : Bool
  pub malformed_reason : Option String

abbrev pub zero_ipv4 : Ipv4Info
zero_ipv4 = record {
  version = 0;
  ihl = 0;
  dscp = 0;
  ecn = 0;
  total_length = 0;
  identification = 0;
  flag_df = false;
  flag_mf = false;
  fragment_offset = 0;
  ttl = 0;
  protocol = 0;
  header_checksum = 0;
  source = replicate 4 0;
  destination = replicate 4 0;
  header_length = 0;
  is_fragment = false;
  is_initial_fragment = false;
}

abbrev pub zero_ipv6 : Ipv6Info
zero_ipv6 = record {
  version = 0;
  traffic_class = 0;
  flow_label = 0;
  payload_length = 0;
  next_header = 0;
  hop_limit = 0;
  source = replicate 16 0;
  destination = replicate 16 0;
  header_length = 0;
}

abbrev pub zero_tcp : TcpInfo
zero_tcp = record {
  source_port = 0;
  destination_port = 0;
  sequence_number = 0;
  ack_number = 0;
  data_offset = 0;
  flags = 0;
  window_size = 0;
  checksum = 0;
  urgent_pointer = 0;
  header_length = 0;
}

-- Reading a member of a union: the one last written, or zeros.
abbrev pub as_arp : Net → Run ArpInfo
as_arp zero_net = done zero_arp
as_arp (net_arp i) = done i
as_arp other = fault Fault.wrong_member

abbrev pub as_ipv4 : Net → Run Ipv4Info
as_ipv4 zero_net = done zero_ipv4
as_ipv4 (net_ipv4 i) = done i
as_ipv4 other = fault Fault.wrong_member

abbrev pub as_ipv6 : Net → Run Ipv6Info
as_ipv6 zero_net = done zero_ipv6
as_ipv6 (net_ipv6 i) = done i
as_ipv6 other = fault Fault.wrong_member

abbrev pub as_tcp : Transport → Run TcpInfo
as_tcp zero_transport = done zero_tcp
as_tcp (transport_tcp i) = done i
as_tcp other = fault Fault.wrong_member

abbrev pub as_udp : Transport → Run UdpInfo
as_udp zero_transport = done zero_udp
as_udp (transport_udp i) = done i
as_udp other = fault Fault.wrong_member

abbrev pub as_icmp : Transport → Run IcmpInfo
as_icmp zero_transport = done zero_icmp
as_icmp (transport_icmp i) = done i
as_icmp other = fault Fault.wrong_member

abbrev pub as_icmpv6 : Transport → Run Icmpv6Info
as_icmpv6 zero_transport = done zero_icmpv6
as_icmpv6 (transport_icmpv6 i) = done i
as_icmpv6 other = fault Fault.wrong_member

-- `memset(out, 0, sizeof(*out))`
abbrev pub zero_packet : Packet
zero_packet = record {
  number = 0;
  timestamp = record { seconds = 0; microseconds = 0 };
  captured_length = 0;
  original_length = 0;
  raw_data = [];
  link_type = no_link;
  has_eth = false;
  eth = zero_eth;
  network_proto = unknown;
  net = zero_net;
  transport_proto = unknown;
  transport = zero_transport;
  has_dns = false;
  dns_info = zero_dns;
  payload = none;
  payload_length = 0;
  malformed = false;
  malformed_reason = none;
}
