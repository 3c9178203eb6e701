-- ===== src/Packet/WellFormed.antt =====
-- What holds of every packet that the dissection leaves, and of the pieces that it is made of.
use Prim.Native.String.{String}
use netscope.Base.{
  ℕ, ◌-◌, ◌≤◌, ◌<◌, Bytes, Bool, true, false, Option, none, some, ◌≡◌, refl, le→ltb, arith,
}
use netscope.Run.{Returns}
use netscope.Word.{size_mod, sub_size_exact}
use netscope.Util.Buffer.{IsBuffer}
use netscope.Protocols.Status.{Status, ok}
use netscope.Protocols.Ethernet.{EthInfo, parse_ethernet}
use netscope.Protocols.Ethernet.Parse.{eth_result, parse_ethernet_lem}
use netscope.Protocols.Ipv4.{Ipv4Info, parse_ipv4}
use netscope.Protocols.Ipv4.Parse.{ipv4_result, parse_ipv4_lem}
use netscope.Protocols.Ipv6.{Ipv6Info, parse_ipv6}
use netscope.Protocols.Ipv6.Parse.{ipv6_result, parse_ipv6_lem}
use netscope.Protocols.Tcp.{TcpInfo, parse_tcp}
use netscope.Protocols.Tcp.Parse.{tcp_result, parse_tcp_lem}
use netscope.Protocols.Dns.Parse.Questions.{IsDns}
use netscope.Packet.Data.{
  Proto, unknown, arp, ipv4, ipv6, tcp, udp, icmp, icmpv6, Net, net_arp, net_ipv4, net_ipv6,
  Transport, zero_transport, transport_tcp, transport_udp, transport_icmp, transport_icmpv6, Packet,
}
use netscope.Packet.Dissect.{set_payload}

-- The network protocol names the member of the union that was written.
abbrev pub NetTag : Proto → Net → Type 0
NetTag unknown net = Unit
NetTag arp (net_arp i) = Unit
NetTag ipv4 (net_ipv4 i) = Unit
NetTag ipv6 (net_ipv6 i) = Unit
NetTag proto net = ⊥

abbrev pub IsIp : Proto → Type 0
IsIp ipv4 = Unit
IsIp ipv6 = Unit
IsIp proto = ⊥

-- So does the transport protocol, which stands over IP only.
abbrev pub TransportTag : Proto → Proto → Transport → Type 0
TransportTag network unknown t = Unit
TransportTag network tcp (transport_tcp i) = IsIp network
TransportTag network udp (transport_udp i) = IsIp network
TransportTag network icmp (transport_icmp i) = IsIp network
TransportTag network icmpv6 (transport_icmpv6 i) = IsIp network
TransportTag network proto t = ⊥

-- DNS stands over TCP or UDP.
abbrev pub DnsTag : Bool → Proto → Type 0
DnsTag false proto = Unit
DnsTag true tcp = Unit
DnsTag true udp = Unit
DnsTag true proto = ⊥

-- The payload is what is left of the captured bytes from an offset on, or absent and empty.
abbrev pub IsPayload : ℕ → Option ℕ → ℕ → Type 0
IsPayload n none len = len ≡ 0
IsPayload n (some offset) len = (offset ≤ n) × (len ≡ n - offset)

-- A malformed packet has a reason, and no other has one.
abbrev pub IsReason : Bool → Option String → Type 0
IsReason true (some reason) = Unit
IsReason false none = Unit
IsReason flag reason = ⊥

pub record IsPacket (n : ℕ) (p : Packet) : Type 0 where
  pub captured : p.captured_length ≡ n
  pub net_tag : NetTag p.network_proto p.net
  pub transport_tag : TransportTag p.network_proto p.transport_proto p.transport
  pub dns_tag : DnsTag p.has_dns p.transport_proto
  pub dns_ok : IsDns p.dns_info
  pub payload_ok : IsPayload n p.payload p.payload_length
  pub reason_ok : IsReason p.malformed p.malformed_reason
  pub raw_ok : IsBuffer p.raw_data n

-- A packet whose transport layer has not been looked at.
pub record IsBare (p : Packet) : Type 0 where
  pub no_transport : p.transport_proto ≡ unknown
  pub zero_member : p.transport ≡ zero_transport
  pub no_dns : p.has_dns ≡ false

pub set_payload_inside :
    (p : Packet) (n offset : ℕ)
    → n < size_mod
    → offset ≤ n
    → set_payload p n offset ≡ record p { payload = some offset; payload_length = n - offset }
unfolding set_payload
set_payload_inside p n offset small h = rw (le→ltb n offset h, sub_size_exact n offset h small) refl

-- A parser that answers `ok` has stored a header length within what it was given.
abbrev pub HeaderFits : ℕ → Status → Option ℕ → Type 0
HeaderFits n ok none = ⊥
HeaderFits n ok (some h) = h ≤ n
HeaderFits n status h = Unit

abbrev pub ParsedFits {ℓ} : {A : Type ℓ} → ℕ → Status × A × Option ℕ → Type 0
ParsedFits n r = HeaderFits n r.0 r.2

module _ {buf : Bytes} {n : ℕ} (valid : IsBuffer buf n) where
  pub parse_ethernet-ParsedFits :
      (out : EthInfo) → Returns (parse_ethernet buf n out) (ParsedFits n)
  unfolding eth_result
  parse_ethernet-ParsedFits out = rw (parse_ethernet_lem valid out) (ground arith)

  pub parse_ipv4-ParsedFits : (out : Ipv4Info) → Returns (parse_ipv4 buf n out) (ParsedFits n)
  unfolding ipv4_result
  parse_ipv4-ParsedFits out = rw (parse_ipv4_lem valid out) (ground arith)

  pub parse_ipv6-ParsedFits : (out : Ipv6Info) → Returns (parse_ipv6 buf n out) (ParsedFits n)
  unfolding ipv6_result
  parse_ipv6-ParsedFits out = rw (parse_ipv6_lem valid out) (ground arith)

  pub parse_tcp-ParsedFits : (out : TcpInfo) → Returns (parse_tcp buf n out) (ParsedFits n)
  unfolding tcp_result
  parse_tcp-ParsedFits out = rw (parse_tcp_lem valid out) (ground arith)
