-- ===== src/Stats/Flow.antt =====
-- `extract_endpoints`, `hash_flow` and `record_flow` of src/stats.c. An address is its text before
-- the terminator.
use Prim.Native.Nat.{compare, Ordering}
use netscope.Base.{
  ℕ, zero, suc, ◌+◌, ◌*◌, ◌/◌, ◌%◌, ◌^◌, ◌==◌, ltb, bit_and, bit_xor, Bytes, Bool, true, false, not,
  ◌&&◌, Option, none, some, [], ◌∷◌, if◌then◌else◌,
}
use netscope.Run.{Run, done, ◌>>=◌}
use netscope.Word.{add_size}
use netscope.Util.Text.{snprintf}
use netscope.Util.Format.{format_ipv4, format_ipv6}
use netscope.Protocols.Dns.Message.{slot_at, set}
use netscope.Packet.Data.{
  Proto, arp, ipv4, ipv6, tcp, udp, icmp, icmpv6, Net, Transport, Packet, as_arp, as_ipv4, as_ipv6,
  as_tcp, as_udp,
}
use netscope.Stats.Data.{Flow, Stats, max_flows, add_u64, proto_code}

-- What a flow is keyed on.
pub record Endpoints : Type 0 where
  pub proto : Proto
  pub addr_a : Bytes
  pub port_a : ℕ
  pub addr_b : Bytes
  pub port_b : ℕ

-- The switch over the transport protocol, with the addresses that the network layer gave.
unfoldable pub transport_endpoints : Proto → Transport → Bytes → Bytes → Run (Option Endpoints)
transport_endpoints tcp member a b = as_tcp member >>= (λ t. done (
    some (record {
      proto = tcp;
      addr_a = a;
      port_a = t.source_port;
      addr_b = b;
      port_b = t.destination_port;
    })))
transport_endpoints udp member a b = as_udp member >>= (λ t. done (
    some (record {
      proto = udp;
      addr_a = a;
      port_a = t.source_port;
      addr_b = b;
      port_b = t.destination_port;
    })))
transport_endpoints icmp member a b =
    done (some (record { proto = icmp; addr_a = a; port_a = 0; addr_b = b; port_b = 0 }))
transport_endpoints icmpv6 member a b =
    done (some (record { proto = icmpv6; addr_a = a; port_a = 0; addr_b = b; port_b = 0 }))
transport_endpoints other member a b = done none

unfoldable pub network_endpoints : Proto → Net → Proto → Transport → Run (Option Endpoints)
network_endpoints arp member proto transport = as_arp member >>= (λ t. done (
    some (record {
      proto = arp;
      addr_a = format_ipv4 t.sender_ip 46;
      port_a = 0;
      addr_b = format_ipv4 t.target_ip 46;
      port_b = 0;
    })))
network_endpoints ipv4 member proto transport = as_ipv4 member >>= (λ t.
    transport_endpoints proto transport (format_ipv4 t.source 46) (format_ipv4 t.destination 46))
network_endpoints ipv6 member proto transport = as_ipv6 member >>= (λ t.
    format_ipv6 t.source 46
    >>= (λ a. format_ipv6 t.destination 46 >>= (λ b. transport_endpoints proto transport a b)))
network_endpoints other member proto transport = done none

-- `none` where the code returns false.
unfoldable pub extract_endpoints : Packet → Run (Option Endpoints)
extract_endpoints pkt =
    network_endpoints pkt.network_proto pkt.net pkt.transport_proto pkt.transport

-- FNV-1a on uint32_t. The enum is hashed as its four bytes in memory, the low one first.
unfoldable pub hash_byte : ℕ → ℕ → ℕ
hash_byte h b = bit_xor h b * 16777619 % 2 ^ 32

unfoldable pub hash_text : ℕ → Bytes → ℕ
hash_text h [] = h
hash_text h (c ∷ s) = hash_text (hash_byte h c) s

unfoldable pub hash_flow : Endpoints → ℕ
hash_flow e =
    let h = hash_text 2166136261 (proto_code e.proto ∷ 0 ∷ 0 ∷ 0 ∷ []) in
    let h = hash_text (hash_text h e.addr_a) e.addr_b in
    hash_text h (
      bit_and e.port_a 0xff
      ∷ e.port_a / 2 ^ 8 % 2 ^ 8
      ∷ bit_and e.port_b 0xff
      ∷ e.port_b / 2 ^ 8 % 2 ^ 8
      ∷ [])

-- `strcmp` on texts without a zero: which is the smaller one.
unfoldable pub strcmp : Bytes → Bytes → Ordering
strcmp [] [] = Ordering.eq
strcmp [] (d ∷ t) = Ordering.lt
strcmp (c ∷ s) [] = Ordering.gt
strcmp (c ∷ s) (d ∷ t) = elim (compare c d) [
  | Ordering.lt ↦ Ordering.lt
  | Ordering.gt ↦ Ordering.gt
  | Ordering.eq ↦ strcmp s t
]

abbrev pub swap : Endpoints → Endpoints
swap e = record {
  proto = e.proto;
  addr_a = e.addr_b;
  port_a = e.port_b;
  addr_b = e.addr_a;
  port_b = e.port_a;
}

unfoldable pub canonical : Endpoints → Endpoints
canonical e = elim (strcmp e.addr_a e.addr_b) [
  | Ordering.gt ↦ swap e
  | Ordering.eq ↦ if ltb e.port_b e.port_a then swap e else e
  | Ordering.lt ↦ e
]

abbrev pub same_text : Bytes → Bytes → Bool
same_text s t = elim (strcmp s t) [ Ordering.eq ↦ true | _ ↦ false ]

unfoldable pub is_flow : Flow → Endpoints → Bool
is_flow slot e =
    proto_code slot.protocol == proto_code e.proto
    && same_text slot.addr_a e.addr_a
    && same_text slot.addr_b e.addr_b
    && slot.port_a == e.port_a
    && slot.port_b == e.port_b

abbrev pub new_flow : Endpoints → ℕ → Flow
new_flow e size = record {
  in_use = true;
  protocol = e.proto;
  addr_a = snprintf 46 e.addr_a;
  addr_b = snprintf 46 e.addr_b;
  port_a = e.port_a;
  port_b = e.port_b;
  packets = 1;
  bytes = size;
}

-- What a turn of the loop does with its slot: `none` where the loop goes on.
unfoldable pub flow_turn : Endpoints → ℕ → Stats → ℕ → Flow → Option Stats
flow_turn e size stats idx slot =
    if slot.in_use && is_flow slot e
    then some (record stats {
      flows =
          set stats.flows idx
            (record slot { packets = add_u64 slot.packets 1; bytes = add_u64 slot.bytes size });
    })
    else if not slot.in_use
    then some (record stats {
      flows = set stats.flows idx (new_flow e size);
      flow_count = add_size stats.flow_count 1;
    })
    else none

-- The loop over the table, on the turns that are left.
unfoldable pub flow_loop : ℕ → ℕ → ℕ → Endpoints → ℕ → Stats → Run Stats
flow_loop zero start i e size stats = done stats
flow_loop (suc turns) start i e size stats = do
  let idx = (start + i) % 2 ^ 32 % max_flows
  slot ← slot_at stats.flows idx
  elim (flow_turn e size stats idx slot) [
    | some stats' ↦ done stats'
    | none ↦ flow_loop turns start (suc i) e size stats
  ]

unfoldable pub record_flow : Stats → Endpoints → ℕ → Run Stats
record_flow stats e size =
    let e' = canonical e in flow_loop max_flows (hash_flow e' % max_flows) 0 e' size stats
