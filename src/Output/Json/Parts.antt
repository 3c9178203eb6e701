-- ===== src/Output/Json/Parts.antt =====
-- The parts of the line that `print_json_line` writes, each as the fields that it adds.
use netscope.Base.{
  ℕ, bit_and, Bytes, Bool, true, false, ◌&&◌, Option, none, some, List, [], ◌∷◌, ◌++◌, ◌==◌, ltb,
  get_or, if◌then◌else◌, ◌≡◌, refl, sym, ap, ◌∙◌, append_assoc, append-nil, Bool-cases, inl, inr,
  length, ◌<◌, ◌≤◌, lt→leb, le→leb, arith, ◌+◌, length-append,
}
use netscope.Run.{Run, done, fault, Returns}
use netscope.Util.Text.{c_str, decimal, printed}
use netscope.Util.Format.{codes, format_ipv6}
use netscope.Util.Format.Ipv6.{Printed, format_ipv6-Printed}
use netscope.Protocols.Dns.Rdata.{dns_type_name}
use netscope.Protocols.Dns.Message.{DnsInfo, DnsQuestion, zero_question, slot_at}
use netscope.Protocols.Dns.Parse.Questions.{IsDns}
use netscope.Protocols.Tcp.Flags.{tcp_flag_names}
use netscope.Packet.Data.{
  Proto, unknown, arp, ipv4, ipv6, tcp, udp, icmp, icmpv6, Net, net_ipv4, net_ipv6, Transport,
  transport_tcp, transport_udp, transport_icmp, transport_icmpv6,
}
use netscope.Packet.WellFormed.{NetTag, TransportTag}
use netscope.Output.Escape.{escape_char, escape_chars, json_write_escaped}
use netscope.Output.Text.{format_network_addrs}
use netscope.Output.Json.{json_ports, json_ends, json_addresses, json_flags, json_tcp, json_dns}
use netscope.Output.Json.Value.{
  Fields, no_fields, field, object, text, show_json, show_items, show_more_items, show_fields,
  show_more_fields, text_of, addresses_of, ports_of, address_fields, flag_items, tcp_fields,
  dns_fields,
}

-- The keys, which have nothing to escape.
pub key_timestamp : json_write_escaped (codes "timestamp") ≡ codes "\"timestamp\""
unfolding json_write_escaped escape_chars escape_char c_str
key_timestamp = refl

pub key_captured_length : json_write_escaped (codes "captured_length") ≡ codes "\"captured_length\""
unfolding json_write_escaped escape_chars escape_char c_str
key_captured_length = refl

pub key_malformed : json_write_escaped (codes "malformed") ≡ codes "\"malformed\""
unfolding json_write_escaped escape_chars escape_char c_str
key_malformed = refl

pub key_protocol : json_write_escaped (codes "protocol") ≡ codes "\"protocol\""
unfolding json_write_escaped escape_chars escape_char c_str
key_protocol = refl

pub key_source : json_write_escaped (codes "source") ≡ codes "\"source\""
unfolding json_write_escaped escape_chars escape_char c_str
key_source = refl

pub key_destination : json_write_escaped (codes "destination") ≡ codes "\"destination\""
unfolding json_write_escaped escape_chars escape_char c_str
key_destination = refl

pub key_ip : json_write_escaped (codes "ip") ≡ codes "\"ip\""
unfolding json_write_escaped escape_chars escape_char c_str
key_ip = refl

pub key_port : json_write_escaped (codes "port") ≡ codes "\"port\""
unfolding json_write_escaped escape_chars escape_char c_str
key_port = refl

pub key_dns : json_write_escaped (codes "dns") ≡ codes "\"dns\""
unfolding json_write_escaped escape_chars escape_char c_str
key_dns = refl

pub key_question : json_write_escaped (codes "question") ≡ codes "\"question\""
unfolding json_write_escaped escape_chars escape_char c_str
key_question = refl

pub key_type : json_write_escaped (codes "type") ≡ codes "\"type\""
unfolding json_write_escaped escape_chars escape_char c_str
key_type = refl

pub ruleset json_laws = (
  append_assoc, key_timestamp, key_captured_length, key_malformed, key_protocol, key_source,
  key_destination, key_ip, key_port, key_dns, key_question, key_type,
)

-- A part of the line that has come out as `part`, and adds the fields of `add` to those that follow.
abbrev pub Adds : Run Bytes → (Fields → Fields) → Type 0
Adds m add =
    (part : Bytes) × (m ≡ done part)
    × ((more : Fields) (rest : Bytes)
        → part ++ show_more_fields more rest ≡ show_more_fields (add more) rest)

-- Nothing written, nothing added.
nothing-Adds : Adds (done []) (λ more. more)
nothing-Adds = ([], refl, λ more rest. refl)

flags_after :
    (table : List (ℕ × Bytes)) (flags : ℕ) (rest : Bytes)
    → json_flags table flags false ++ rest ≡ show_more_items (flag_items table flags) rest
unfolding flag_items json_flags show_more_items show_json
flags_after [] flags rest = refl
flags_after ((bit, name) ∷ table) flags rest = elim (Bool-cases (bit_and flags bit == 0)) [
  | inl e ↦ rw e (flags_after table flags rest)
  | inr e ↦ rw e (
      ap (λ (t : Bytes). b',' ∷ t)
        (append_assoc (json_write_escaped name) (json_flags table flags false) rest
          ∙ ap (λ (t : Bytes). json_write_escaped name ++ t) (flags_after table flags rest)))
]

flags_first :
    (table : List (ℕ × Bytes)) (flags : ℕ) (rest : Bytes)
    → json_flags table flags true ++ rest ≡ show_items (flag_items table flags) rest
unfolding flag_items json_flags show_items show_json
flags_first [] flags rest = refl
flags_first ((bit, name) ∷ table) flags rest = elim (Bool-cases (bit_and flags bit == 0)) [
  | inl e ↦ rw e (flags_first table flags rest)
  | inr e ↦ rw e (
      append_assoc (json_write_escaped name) (json_flags table flags false) rest
      ∙ ap (λ (t : Bytes). json_write_escaped name ++ t) (flags_after table flags rest))
]

pub json_tcp-Adds :
    (network proto : Proto) (t : Transport)
    → TransportTag network proto t
    → Adds (json_tcp proto t) (tcp_fields proto t)
unfolding json_tcp printed show_more_fields show_fields show_json json_write_escaped escape_chars
    escape_char c_str
json_tcp-Adds network unknown t h = nothing-Adds
json_tcp-Adds network tcp (transport_tcp i) h = (
  _,
  refl,
  λ more rest.
      ap (λ (t : Bytes). codes ",\"tcp\":{\"flags\":[" ++ t)
        (append_assoc (json_flags tcp_flag_names i.flags true) (codes "]}")
            (show_more_fields more rest)
          ∙ flags_first tcp_flag_names i.flags (codes "]}" ++ show_more_fields more rest)),
)
json_tcp-Adds network udp (transport_udp i) h = nothing-Adds
json_tcp-Adds network icmp (transport_icmp i) h = nothing-Adds
json_tcp-Adds network icmpv6 (transport_icmpv6 i) h = nothing-Adds
json_tcp-Adds network proto t h = absurd h

-- The first slot of an array that has one.
first_slot :
    (qs : List DnsQuestion) (q : DnsQuestion) → 0 < length qs → slot_at qs 0 ≡ done (get_or qs 0 q)
unfolding slot_at
first_slot [] q h = absurd (omega arith)
first_slot (x ∷ qs) q h = refl

pub json_dns-Adds :
    (has_dns : Bool) (dns : DnsInfo)
    → IsDns dns
    → Adds (json_dns has_dns dns) (dns_fields has_dns dns)
unfolding json_dns printed show_more_fields show_fields show_json
json_dns-Adds has_dns dns h = elim (Bool-cases (has_dns && ltb 0 dns.decoded_question_count)) [
  | inr e ↦ rw e nothing-Adds
  | inl e ↦
      rw (e, first_slot dns.questions zero_question (omega (arith, h.question_slots)))
        (question_Adds (get_or dns.questions 0 zero_question).name
          (dns_type_name (get_or dns.questions 0 zero_question).type 16))
]
  where
    question_Adds :
        (name type : Bytes)
        → Adds
            (done (
              printed (
                codes ",\"dns\":{\"question\":"
                ∷ json_write_escaped name
                ∷ codes ",\"type\":"
                ∷ json_write_escaped type
                ∷ codes "}"
                ∷ [])))
            (λ more.
              field
                (codes "dns")
                (object (
                  field
                    (codes "question")
                    (text name)
                    (field (codes "type") (text type) no_fields)))
                more)
    question_Adds name type = (_, refl, λ more rest. simp json_laws)

abbrev port_texts : Option (ℕ × ℕ) → Bytes × Bytes
port_texts none = ([], [])
port_texts (some (s, d)) = (codes ",\"port\":" ++ decimal s, codes ",\"port\":" ++ decimal d)

abbrev ends_text : Bytes → Bytes → Bytes × Bytes → Bytes
ends_text src dst (src_port, dst_port) = printed (
    codes ",\"source\":{\"ip\":"
    ∷ json_write_escaped src
    ∷ src_port
    ∷ codes "}"
    ∷ codes ",\"destination\":{\"ip\":"
    ∷ json_write_escaped dst
    ∷ dst_port
    ∷ codes "}"
    ∷ [])

ports_lem :
    (network proto : Proto) (t : Transport)
    → TransportTag network proto t
    → json_ports proto t ≡ done (port_texts (ports_of proto t))
unfolding json_ports
ports_lem network unknown t h = refl
ports_lem network tcp (transport_tcp i) h = refl
ports_lem network udp (transport_udp i) h = refl
ports_lem network icmp (transport_icmp i) h = refl
ports_lem network icmpv6 (transport_icmpv6 i) h = refl
ports_lem network proto t h = absurd h

ends_Adds :
    (src dst : Bytes) (ports : Option (ℕ × ℕ))
    → Adds (done (ends_text src dst (port_texts ports))) (address_fields (some (src, dst)) ports)
unfolding printed show_more_fields show_fields show_json
ends_Adds src dst none = (_, refl, λ more rest. simp json_laws)
ends_Adds src dst (some (s, d)) = (_, refl, λ more rest. simp json_laws)

pub text_of_Returns : (m : Run Bytes) (P : Bytes → Type 0) → Returns m P → m ≡ done (text_of m)
text_of_Returns (done s) P h = refl
text_of_Returns (fault e) P h = absurd h

text_of-done : (addr : Bytes) → format_ipv6 addr 46 ≡ done (text_of (format_ipv6 addr 46))
text_of-done addr = text_of_Returns (format_ipv6 addr 46) (Printed 46) (format_ipv6-Printed addr 46)

pub json_addresses-Adds :
    (network : Proto) (net : Net) (proto : Proto) (t : Transport)
    → NetTag network net
    → TransportTag network proto t
    → Adds
        (json_addresses network net proto t)
        (address_fields (addresses_of network net) (ports_of proto t))
unfolding json_ends format_network_addrs
json_addresses-Adds unknown net proto t h k = nothing-Adds
json_addresses-Adds arp net proto t h k = nothing-Adds
json_addresses-Adds ipv4 (net_ipv4 i) proto t h k =
    rw (ports_lem ipv4 proto t k) (ends_Adds _ _ (ports_of proto t))
json_addresses-Adds ipv6 (net_ipv6 i) proto t h k =
    rw (ports_lem ipv6 proto t k, text_of-done i.source, text_of-done i.destination)
      (ends_Adds _ _ (ports_of proto t))
json_addresses-Adds network net proto t h k = absurd h
