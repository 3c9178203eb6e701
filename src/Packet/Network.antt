-- ===== src/Packet/Network.antt =====
-- The network layer of src/packet.c and well-formed packets.
use Prim.Native.String.{String}
use netscope.Base.{
  ℕ, ◌+◌, ◌-◌, ◌≤◌, Bytes, true, false, not, ◌&&◌, Option, none, some, ◌≡◌, refl, ◌==◌, drop, arith,
}
use netscope.Run.{done, Returns, Returns-bind, if-Returns}
use netscope.Word.{add_size_exact, sub_size_exact}
use netscope.Util.Buffer.{IsBuffer, IsBuffer-drop}
use netscope.Protocols.Status.{Status, ok, truncated, malformed, unsupported}
use netscope.Protocols.Arp.{ArpInfo, zero_arp}
use netscope.Protocols.Arp.Parse.{parse_arp_lem}
use netscope.Protocols.Ipv4.{Ipv4Info, parse_ipv4}
use netscope.Protocols.Ipv6.{Ipv6Info, Skip, parse_ipv6, skip_extension_headers}
use netscope.Protocols.Ipv6.Extensions.{Sound, skip_extension_headers-Sound}
use netscope.Packet.Data.{
  Proto, unknown, arp, ipv4, ipv6, Net, zero_net, net_arp, net_ipv4, net_ipv6, Packet, zero_ipv4,
  zero_ipv6, as_arp, as_ipv4, as_ipv6,
}
use netscope.Packet.Dissect.{
  mark_malformed, ipv4_parsed, packet_parse_ipv4, ipv6_skipped, ipv6_parsed, packet_parse_ipv6,
  arp_parsed, packet_parse_arp, parse_network,
}
use netscope.Packet.WellFormed.{
  NetTag, IsPacket, IsBare, IsPayload, HeaderFits, ParsedFits, set_payload_inside,
  parse_ipv4-ParsedFits, parse_ipv6-ParsedFits,
}
use netscope.Packet.Transport.{unknown_tag, parse_transport-IsPacket}

-- A packet of which only the Ethernet header has been looked at.
pub record IsFresh (p : Packet) : Type 0 where
  pub no_network : p.network_proto ≡ unknown
  pub zero_member : p.net ≡ zero_net
  pub bare : IsBare p

unknown-NetTag : (proto : Proto) (net : Net) → proto ≡ unknown → NetTag proto net
unknown-NetTag proto net e = rw e tt

zero_as_arp : (t : Net) → t ≡ zero_net → as_arp t ≡ done zero_arp
zero_as_arp t e = rw e

zero_as_ipv4 : (t : Net) → t ≡ zero_net → as_ipv4 t ≡ done zero_ipv4
zero_as_ipv4 t e = rw e

zero_as_ipv6 : (t : Net) → t ≡ zero_net → as_ipv6 t ≡ done zero_ipv6
zero_as_ipv6 t e = rw e

module _ {n : ℕ} (p : Packet) (h : IsPacket n p) (fresh : IsFresh p) where
  refused : (t : Net) (reason : String) → IsPacket n (mark_malformed (record p { net = t }) reason)
  refused t reason = record {
    captured = h.captured;
    net_tag = unknown-NetTag p.network_proto t fresh.no_network;
    transport_tag =
        unknown_tag p.network_proto p.transport_proto p.transport fresh.bare.no_transport;
    dns_tag = h.dns_tag;
    dns_ok = h.dns_ok;
    payload_ok = h.payload_ok;
    reason_ok = tt;
    raw_ok = h.raw_ok;
  }

  accepted :
      (proto : Proto) (t : Net) (payload : Option ℕ) (len : ℕ)
      → NetTag proto t
      → IsPayload n payload len
      → IsPacket n
          (record p { network_proto = proto; net = t; payload = payload; payload_length = len })
  accepted proto t payload len tag inside = record {
    captured = h.captured;
    net_tag = tag;
    transport_tag = unknown_tag proto p.transport_proto p.transport fresh.bare.no_transport;
    dns_tag = h.dns_tag;
    dns_ok = h.dns_ok;
    payload_ok = inside;
    reason_ok = h.reason_ok;
    raw_ok = h.raw_ok;
  }

  -- A member that is left behind without a tag.
  ignored : (t : Net) → IsPacket n (record p { net = t })
  ignored t = record {
    captured = h.captured;
    net_tag = unknown-NetTag p.network_proto t fresh.no_network;
    transport_tag = h.transport_tag;
    dns_tag = h.dns_tag;
    dns_ok = h.dns_ok;
    payload_ok = h.payload_ok;
    reason_ok = h.reason_ok;
    raw_ok = h.raw_ok;
  }

  arp_parsed-IsPacket :
      (info : ArpInfo) (status : Status)
      → IsPacket n (arp_parsed (record p { net = net_arp info }) status)
  arp_parsed-IsPacket info ok =
      accepted arp (net_arp info) p.payload p.payload_length tt h.payload_ok
  arp_parsed-IsPacket info truncated = refused (net_arp info) _
  arp_parsed-IsPacket info malformed = ignored (net_arp info)
  arp_parsed-IsPacket info unsupported = ignored (net_arp info)

marked :
    {n : ℕ} (p : Packet) (reason : String) → IsPacket n p → IsPacket n (mark_malformed p reason)
marked p reason h = record {
  captured = h.captured;
  net_tag = h.net_tag;
  transport_tag = h.transport_tag;
  dns_tag = h.dns_tag;
  dns_ok = h.dns_ok;
  payload_ok = h.payload_ok;
  reason_ok = tt;
  raw_ok = h.raw_ok;
}

payload-IsPacket :
    {n : ℕ} (p : Packet) (payload : Option ℕ) (len : ℕ)
    → IsPacket n p
    → IsPayload n payload len
    → IsPacket n (record p { payload = payload; payload_length = len })
payload-IsPacket p payload len h inside = record {
  captured = h.captured;
  net_tag = h.net_tag;
  transport_tag = h.transport_tag;
  dns_tag = h.dns_tag;
  dns_ok = h.dns_ok;
  payload_ok = inside;
  reason_ok = h.reason_ok;
  raw_ok = h.raw_ok;
}

module _ {buf : Bytes} {n : ℕ} (valid : IsBuffer buf n) (offset : ℕ) (p : Packet) (h : IsPacket n p)
    (fresh : IsFresh p) (inside : offset ≤ n) where
  packet_parse_arp-IsPacket : Returns (packet_parse_arp p buf n offset) (IsPacket n)
  unfolding packet_parse_arp
  packet_parse_arp-IsPacket =
      rw
        (
          sub_size_exact n offset inside valid.small,
          zero_as_arp p.net fresh.zero_member,
          parse_arp_lem (IsBuffer-drop offset valid inside) zero_arp,
          set_payload_inside _ n offset valid.small inside,
        )
        (payload-IsPacket _ (some offset) (n - offset) (arp_parsed-IsPacket p h fresh _ _)
          (inside, refl))

  ipv4_parsed-IsPacket :
      (info : Ipv4Info) (status : Status) (header_len : Option ℕ)
      → HeaderFits (n - offset) status header_len
      → Returns
          (ipv4_parsed (record p { net = net_ipv4 info }) buf n offset info status header_len)
          (IsPacket n)
  unfolding ipv4_parsed
  ipv4_parsed-IsPacket info ok none fits = absurd fits
  ipv4_parsed-IsPacket info ok (some k) fits =
      let good =
        accepted p h fresh ipv4 (net_ipv4 info) (some (offset + k)) (n - (offset + k)) tt
          (omega arith, refl) in
      rw
        (
          add_size_exact offset k (omega (arith, valid.small)),
          set_payload_inside _ n (offset + k) valid.small (omega arith),
        )
        (if-Returns _ _ (IsPacket n) (info.is_fragment && not info.is_initial_fragment) good (
          parse_transport-IsPacket valid (offset + k) _ good
            (record {
              no_transport = fresh.bare.no_transport;
              zero_member = fresh.bare.zero_member;
              no_dns = fresh.bare.no_dns;
            })
            tt (omega arith) info.protocol))
  ipv4_parsed-IsPacket info truncated header_len fits = refused p h fresh _ _
  ipv4_parsed-IsPacket info malformed header_len fits = refused p h fresh _ _
  ipv4_parsed-IsPacket info unsupported header_len fits = refused p h fresh _ _

  packet_parse_ipv4-IsPacket : Returns (packet_parse_ipv4 p buf n offset) (IsPacket n)
  unfolding packet_parse_ipv4
  packet_parse_ipv4-IsPacket =
      rw (sub_size_exact n offset inside valid.small, zero_as_ipv4 p.net fresh.zero_member)
        (Returns-bind (parse_ipv4 (drop offset buf) (n - offset) zero_ipv4) _
          (ParsedFits (n - offset)) (IsPacket n)
          (parse_ipv4-ParsedFits (IsBuffer-drop offset valid inside) zero_ipv4)
          (λ r. ipv4_parsed-IsPacket r.1 r.0 r.2))

  ipv6_skipped-IsPacket :
      (info : Ipv6Info) (rounds start next : ℕ) (r : Skip)
      → Sound rounds buf n start next r
      → Returns
          (ipv6_skipped (record p { network_proto = ipv6; net = net_ipv6 info }) buf n r)
          (IsPacket n)
  unfolding ipv6_skipped
  ipv6_skipped-IsPacket info rounds start next (false, end, last) sound =
      rw (set_payload_inside _ n end valid.small sound.1) (
        marked _ _
          (accepted p h fresh ipv6 (net_ipv6 info) (some end) (n - end) tt (sound.1, refl)))
  ipv6_skipped-IsPacket info rounds start next (true, end, last) sound =
      let good = accepted p h fresh ipv6 (net_ipv6 info) (some end) (n - end) tt (sound.1, refl) in
      rw (set_payload_inside _ n end valid.small sound.1) (
        parse_transport-IsPacket valid end _ good
          (record {
            no_transport = fresh.bare.no_transport;
            zero_member = fresh.bare.zero_member;
            no_dns = fresh.bare.no_dns;
          })
          tt sound.1 last)

  ipv6_parsed-IsPacket :
      (info : Ipv6Info) (status : Status) (header_len : Option ℕ)
      → HeaderFits (n - offset) status header_len
      → Returns
          (ipv6_parsed (record p { net = net_ipv6 info }) buf n offset info status header_len)
          (IsPacket n)
  unfolding ipv6_parsed
  ipv6_parsed-IsPacket info ok none fits = absurd fits
  ipv6_parsed-IsPacket info ok (some k) fits =
      rw (add_size_exact offset k (omega (arith, valid.small))) (
        Returns-bind (skip_extension_headers buf n (offset + k) info.next_header) _
          (Sound 8 buf n (offset + k) info.next_header) (IsPacket n)
          (skip_extension_headers-Sound valid (offset + k) info.next_header (omega arith))
          (ipv6_skipped-IsPacket info 8 (offset + k) info.next_header))
  ipv6_parsed-IsPacket info truncated header_len fits = refused p h fresh _ _
  ipv6_parsed-IsPacket info malformed header_len fits = refused p h fresh _ _
  ipv6_parsed-IsPacket info unsupported header_len fits = refused p h fresh _ _

  packet_parse_ipv6-IsPacket : Returns (packet_parse_ipv6 p buf n offset) (IsPacket n)
  unfolding packet_parse_ipv6
  packet_parse_ipv6-IsPacket =
      rw (sub_size_exact n offset inside valid.small, zero_as_ipv6 p.net fresh.zero_member)
        (Returns-bind (parse_ipv6 (drop offset buf) (n - offset) zero_ipv6) _
          (ParsedFits (n - offset)) (IsPacket n)
          (parse_ipv6-ParsedFits (IsBuffer-drop offset valid inside) zero_ipv6)
          (λ r. ipv6_parsed-IsPacket r.1 r.0 r.2))

  pub parse_network-IsPacket : Returns (parse_network p buf n offset) (IsPacket n)
  unfolding parse_network
  parse_network-IsPacket =
      if-Returns _ _ (IsPacket n) (p.eth.ethertype == 0x0800) packet_parse_ipv4-IsPacket (
        if-Returns _ _ (IsPacket n) (p.eth.ethertype == 0x86DD) packet_parse_ipv6-IsPacket
          (if-Returns _ _ (IsPacket n) (p.eth.ethertype == 0x0806) packet_parse_arp-IsPacket h))
