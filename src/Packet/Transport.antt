-- ===== src/Packet/Transport.antt =====
-- The transport layer and DNS of src/packet.c and well-formed packets.
use native.Mathlib.Decide.{dec_le}
use Prim.Native.String.{String}
use netscope.Base.{
  ℕ, ◌+◌, ◌-◌, ◌≤◌, Bytes, Bool, true, false, not, ◌&&◌, Option, none, some, ◌≡◌, refl, ◌==◌, drop,
  le→ltb, lt→ltb, arith,
}
use netscope.Run.{done, Returns, Returns-bind, if-Returns}
use netscope.Word.{add_size_exact, sub_size_exact}
use netscope.Util.Buffer.{IsBuffer, IsBuffer-drop}
use netscope.Protocols.Status.{Status, ok, truncated, malformed, unsupported}
use netscope.Protocols.Tcp.{TcpInfo, parse_tcp}
use netscope.Protocols.Udp.{UdpInfo, zero_udp, parse_udp}
use netscope.Protocols.Udp.Parse.{udp_result, parse_udp_lem}
use netscope.Protocols.Icmp.{IcmpInfo, zero_icmp}
use netscope.Protocols.Icmp.Parse.{parse_icmp_lem}
use netscope.Protocols.Icmpv6.{Icmpv6Info, zero_icmpv6}
use netscope.Protocols.Icmpv6.Parse.{parse_icmpv6_lem}
use netscope.Protocols.Dns.Message.{DnsInfo}
use netscope.Protocols.Dns.Parse.{parse_dns}
use netscope.Protocols.Dns.Parse.Questions.{IsDns}
use netscope.Protocols.Dns.Parse.Total.{DnsParsed, parse_dns-DnsParsed}
use netscope.Packet.Data.{
  Proto, unknown, tcp, udp, icmp, icmpv6, Transport, zero_transport, transport_tcp, transport_udp,
  transport_icmp, transport_icmpv6, Packet, zero_tcp, as_tcp, as_udp, as_icmp, as_icmpv6,
}
use netscope.Packet.Dissect.{
  mark_malformed, store_dns, parse_dns_if_applicable, tcp_parsed, udp_parsed, icmp_parsed,
  icmpv6_parsed, parse_transport,
}
use netscope.Packet.WellFormed.{
  IsIp, DnsTag, TransportTag, IsPacket, IsBare, IsPayload, HeaderFits, ParsedFits,
  set_payload_inside, parse_tcp-ParsedFits,
}

other_status :
    (n : ℕ) (p : Packet) (d : DnsInfo)
    → IsPacket n p
    → IsDns d
    → IsPacket n (record p { dns_info = d })
other_status n p d h good = record {
  captured = h.captured;
  net_tag = h.net_tag;
  transport_tag = h.transport_tag;
  dns_tag = h.dns_tag;
  dns_ok = good;
  payload_ok = h.payload_ok;
  reason_ok = h.reason_ok;
  raw_ok = h.raw_ok;
}

store_dns-IsPacket :
    (buf : Bytes) (k n : ℕ) (p : Packet) (r : Status × DnsInfo)
    → IsPacket n p
    → DnsTag true p.transport_proto
    → DnsParsed buf k p.dns_info r
    → IsPacket n (store_dns (record p { dns_info = r.1 }) r.0)
store_dns-IsPacket buf k n p (ok, d) h tag parsed = record {
  captured = h.captured;
  net_tag = h.net_tag;
  transport_tag = h.transport_tag;
  dns_tag = tag;
  dns_ok = parsed.0;
  payload_ok = h.payload_ok;
  reason_ok = h.reason_ok;
  raw_ok = h.raw_ok;
}
store_dns-IsPacket buf k n p (truncated, d) h tag parsed = other_status n p d h (parsed h.dns_ok)
store_dns-IsPacket buf k n p (malformed, d) h tag parsed = other_status n p d h (parsed h.dns_ok)
store_dns-IsPacket buf k n p (unsupported, d) h tag parsed = other_status n p d h (parsed h.dns_ok)

pub unknown_tag :
    (network proto : Proto) (t : Transport) → proto ≡ unknown → TransportTag network proto t
unknown_tag network proto t e = rw e tt

no-DnsTag : (flag : Bool) (proto : Proto) → flag ≡ false → DnsTag flag proto
no-DnsTag flag proto e = rw e tt

parse_udp-fits :
    {buf : Bytes} {n : ℕ} (valid : IsBuffer buf n)
    → Returns (parse_udp buf n zero_udp) (λ r. r.0 ≡ ok → 8 ≤ n)
unfolding udp_result
parse_udp-fits valid = rw (parse_udp_lem valid zero_udp) (ground arith)

-- The members of a union that nothing has been written into.
zero_as_tcp : (t : Transport) → t ≡ zero_transport → as_tcp t ≡ done zero_tcp
zero_as_tcp t e = rw e

zero_as_udp : (t : Transport) → t ≡ zero_transport → as_udp t ≡ done zero_udp
zero_as_udp t e = rw e

zero_as_icmp : (t : Transport) → t ≡ zero_transport → as_icmp t ≡ done zero_icmp
zero_as_icmp t e = rw e

zero_as_icmpv6 : (t : Transport) → t ≡ zero_transport → as_icmpv6 t ≡ done zero_icmpv6
zero_as_icmpv6 t e = rw e

-- A bare packet whose transport header is refused, or accepted.
module _ {n : ℕ} (p : Packet) (h : IsPacket n p) (bare : IsBare p) where
  refused :
      (t : Transport) (reason : String)
      → IsPacket n (mark_malformed (record p { transport = t }) reason)
  refused t reason = record {
    captured = h.captured;
    net_tag = h.net_tag;
    transport_tag = unknown_tag p.network_proto p.transport_proto t bare.no_transport;
    dns_tag = h.dns_tag;
    dns_ok = h.dns_ok;
    payload_ok = h.payload_ok;
    reason_ok = tt;
    raw_ok = h.raw_ok;
  }

  accepted :
      (proto : Proto) (t : Transport) (payload : Option ℕ) (len : ℕ)
      → TransportTag p.network_proto proto t
      → IsPayload n payload len
      → IsPacket n (record p {
        transport_proto = proto;
        transport = t;
        payload = payload;
        payload_length = len;
      })
  accepted proto t payload len tag inside = record {
    captured = h.captured;
    net_tag = h.net_tag;
    transport_tag = tag;
    dns_tag = no-DnsTag p.has_dns proto bare.no_dns;
    dns_ok = h.dns_ok;
    payload_ok = inside;
    reason_ok = h.reason_ok;
    raw_ok = h.raw_ok;
  }

module _ {buf : Bytes} {n : ℕ} (valid : IsBuffer buf n) where
  parse_dns_if_applicable-IsPacket :
      (offset : ℕ) (p : Packet) (src dst : ℕ)
      → IsPacket n p
      → DnsTag true p.transport_proto
      → Returns (parse_dns_if_applicable p buf n offset src dst) (IsPacket n)
  unfolding parse_dns_if_applicable
  parse_dns_if_applicable-IsPacket offset p src dst h tag =
      if-Returns _ _ (IsPacket n) (not (src == 53) && not (dst == 53)) h (elim (dec_le offset n) [
        | no out ↦ rw (lt→ltb n offset (omega arith)) h
        | yes inside ↦
            rw (le→ltb n offset inside, sub_size_exact n offset inside valid.small)
              (Returns-bind (parse_dns (drop offset buf) (n - offset) p.dns_info) _
                (DnsParsed (drop offset buf) (n - offset) p.dns_info) (IsPacket n)
                (parse_dns-DnsParsed (IsBuffer-drop offset valid inside) p.dns_info)
                (λ r. store_dns-IsPacket (drop offset buf) (n - offset) n p r h tag))
      ])

  -- What is known when a transport parser has answered.
  module _ (offset : ℕ) (p : Packet) (h : IsPacket n p) (bare : IsBare p)
      (ip : IsIp p.network_proto) (inside : offset ≤ n) where
    tcp_parsed-IsPacket :
        (info : TcpInfo) (status : Status) (header_len : Option ℕ)
        → HeaderFits (n - offset) status header_len
        → Returns
            (tcp_parsed
              (record p { transport = transport_tcp info })
              buf
              n
              offset
              info
              status
              header_len)
            (IsPacket n)
    unfolding tcp_parsed
    tcp_parsed-IsPacket info ok none fits = absurd fits
    tcp_parsed-IsPacket info ok (some k) fits =
        rw
          (
            add_size_exact offset k (omega (arith, valid.small)),
            set_payload_inside _ n (offset + k) valid.small (omega arith),
          )
          (parse_dns_if_applicable-IsPacket (offset + k) _ info.source_port info.destination_port
            (accepted p h bare tcp (transport_tcp info) (some (offset + k)) (n - (offset + k)) ip
              (omega arith, refl))
            tt)
    tcp_parsed-IsPacket info truncated header_len fits = refused p h bare _ _
    tcp_parsed-IsPacket info malformed header_len fits = refused p h bare _ _
    tcp_parsed-IsPacket info unsupported header_len fits = refused p h bare _ _

    udp_parsed-IsPacket :
        (info : UdpInfo) (status : Status)
        → (status ≡ ok → 8 ≤ n - offset)
        → Returns
            (udp_parsed (record p { transport = transport_udp info }) buf n offset info status)
            (IsPacket n)
    unfolding udp_parsed
    udp_parsed-IsPacket info ok fits =
        let header = fits refl in
        rw
          (
            add_size_exact offset 8 (omega (arith, valid.small)),
            set_payload_inside _ n (offset + 8) valid.small (omega arith),
          )
          (parse_dns_if_applicable-IsPacket (offset + 8) _ info.source_port info.destination_port
            (accepted p h bare udp (transport_udp info) (some (offset + 8)) (n - (offset + 8)) ip
              (omega arith, refl))
            tt)
    udp_parsed-IsPacket info truncated fits = refused p h bare _ _
    udp_parsed-IsPacket info malformed fits = refused p h bare _ _
    udp_parsed-IsPacket info unsupported fits = refused p h bare _ _

    icmp_parsed-IsPacket :
        (info : IcmpInfo) (status : Status)
        → IsPacket n (icmp_parsed (record p { transport = transport_icmp info }) status)
    icmp_parsed-IsPacket info ok =
        accepted p h bare icmp _ p.payload p.payload_length ip h.payload_ok
    icmp_parsed-IsPacket info truncated = refused p h bare _ _
    icmp_parsed-IsPacket info malformed = refused p h bare _ _
    icmp_parsed-IsPacket info unsupported = refused p h bare _ _

    icmpv6_parsed-IsPacket :
        (info : Icmpv6Info) (status : Status)
        → IsPacket n (icmpv6_parsed (record p { transport = transport_icmpv6 info }) status)
    icmpv6_parsed-IsPacket info ok =
        accepted p h bare icmpv6 _ p.payload p.payload_length ip h.payload_ok
    icmpv6_parsed-IsPacket info truncated = refused p h bare _ _
    icmpv6_parsed-IsPacket info malformed = refused p h bare _ _
    icmpv6_parsed-IsPacket info unsupported = refused p h bare _ _

    -- The transport layer never faults, and keeps a packet well-formed.
    pub parse_transport-IsPacket :
        (proto : ℕ) → Returns (parse_transport p buf n offset proto) (IsPacket n)
    unfolding parse_transport
    parse_transport-IsPacket proto =
        let layer = IsBuffer-drop offset valid inside in
        rw
          (
            sub_size_exact n offset inside valid.small,
            zero_as_tcp p.transport bare.zero_member,
            zero_as_udp p.transport bare.zero_member,
            zero_as_icmp p.transport bare.zero_member,
            zero_as_icmpv6 p.transport bare.zero_member,
          )
          (if-Returns _ _ (IsPacket n) (proto == 6)
            (Returns-bind (parse_tcp (drop offset buf) (n - offset) zero_tcp) _
              (ParsedFits (n - offset)) (IsPacket n) (parse_tcp-ParsedFits layer zero_tcp)
              (λ r. tcp_parsed-IsPacket r.1 r.0 r.2))
            (if-Returns _ _ (IsPacket n) (proto == 17)
              (Returns-bind (parse_udp (drop offset buf) (n - offset) zero_udp) _
                (λ r. r.0 ≡ ok → 8 ≤ n - offset) (IsPacket n) (parse_udp-fits layer)
                (λ r. udp_parsed-IsPacket r.1 r.0))
              (if-Returns _ _ (IsPacket n) (proto == 1)
                (rw (parse_icmp_lem layer zero_icmp) (icmp_parsed-IsPacket _ _))
                (if-Returns _ _ (IsPacket n) (proto == 58)
                  (rw (parse_icmpv6_lem layer zero_icmpv6) (icmpv6_parsed-IsPacket _ _)) h))))
