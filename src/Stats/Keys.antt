-- ===== src/Stats/Keys.antt =====
-- A flow and its key, and stores into the table of flows.
use Prim.Native.Nat.{Ordering}
use mathlib.Core.Path.{subst}
use netscope.Base.{
  ℕ, zero, suc, ◌<◌, Bytes, Bool, true, false, ◌&&◌, List, [], ◌∷◌, ◌≡◌, refl, sym, ap, ◌∙◌, ◌==◌,
  length, ==_iff, if◌then◌else◌, arith,
}
use netscope.Run.{done}
use netscope.Protocols.Dns.Message.{slot_at, set}
use netscope.Packet.Data.{Proto, unknown, arp, ipv4, ipv6, tcp, udp, icmp, icmpv6}
use netscope.Stats.Data.{Flow, proto_code}
use netscope.Stats.Flow.{Endpoints, strcmp, same_text, is_flow}
use netscope.Stats.Direction.{strcmp-eq, strcmp-same}

-- What a slot is found by.
abbrev pub key : Flow → Endpoints
key f = record {
  proto = f.protocol;
  addr_a = f.addr_a;
  port_a = f.port_a;
  addr_b = f.addr_b;
  port_b = f.port_b;
}

proto_of : ℕ → Proto
proto_of n =
    if n == 1
    then arp
    else if n == 2
    then ipv4
    else if n == 3
    then ipv6
    else if n == 4
    then tcp
    else if n == 5
    then udp
    else if n == 6
    then icmp
    else if n == 7
    then icmpv6
    else if n == 8
    then Proto.dns
    else unknown

proto_of-proto_code : (p : Proto) → proto_of (proto_code p) ≡ p
unfolding proto_of proto_code
proto_of-proto_code unknown = refl
proto_of-proto_code arp = refl
proto_of-proto_code ipv4 = refl
proto_of-proto_code ipv6 = refl
proto_of-proto_code tcp = refl
proto_of-proto_code udp = refl
proto_of-proto_code icmp = refl
proto_of-proto_code icmpv6 = refl
proto_of-proto_code Proto.dns = refl

eq_case : (o : Ordering) → elim o [ Ordering.eq ↦ true | _ ↦ false ] ≡ true → o ≡ Ordering.eq
eq_case Ordering.lt h = absurd (ground arith)
eq_case Ordering.eq h = refl
eq_case Ordering.gt h = absurd (ground arith)

both : (a b : Bool) → (a && b) ≡ true → (a ≡ true) × (b ≡ true)
both true b h = (refl, h)
both false b h = absurd (ground arith)

proto_code-injective : (p q : Proto) → proto_code p ≡ proto_code q → p ≡ q
proto_code-injective p q h = sym (proto_of-proto_code p) ∙ ap proto_of h ∙ proto_of-proto_code q

same_text-eq : (s t : Bytes) → same_text s t ≡ true → s ≡ t
same_text-eq s t h = strcmp-eq s t (eq_case (strcmp s t) h)

same_text-same : (s : Bytes) → same_text s s ≡ true
same_text-same s = rw (same_text, strcmp-same s) refl

-- A slot that is found holds that key.
pub is_flow-key : (f : Flow) (e : Endpoints) → is_flow f e ≡ true → key f ≡ e
unfolding is_flow
is_flow-key f e h =
    let h4 = both _ (f.port_b == e.port_b) h in
    let h3 = both _ (f.port_a == e.port_a) h4.0 in
    let h2 = both _ (same_text f.addr_b e.addr_b) h3.0 in
    let h1 = both (proto_code f.protocol == proto_code e.proto) _ h2.0 in
    λ i. record {
      proto =
          proto_code-injective f.protocol e.proto
            ((==_iff (proto_code f.protocol) (proto_code e.proto)).0 h1.0) i;
      addr_a = same_text-eq f.addr_a e.addr_a h1.1 i;
      port_a = (==_iff f.port_a e.port_a).0 h3.1 i;
      addr_b = same_text-eq f.addr_b e.addr_b h2.1 i;
      port_b = (==_iff f.port_b e.port_b).0 h4.1 i;
    }

is_flow-own : (f : Flow) → is_flow f (key f) ≡ true
unfolding is_flow
is_flow-own f = simp (
  same_text-same f.addr_a,
  same_text-same f.addr_b,
  own (proto_code f.protocol),
  own f.port_a,
  own f.port_b,
)
  where
    own : (n : ℕ) → (n == n) ≡ true
    own n = (==_iff n n).1 refl

pub key-is_flow : (f : Flow) (e : Endpoints) → key f ≡ e → is_flow f e ≡ true
unfolding is_flow
key-is_flow f e h = subst (λ e. is_flow f e ≡ true) h (is_flow-own f)

module _ {ℓ} {A : Type ℓ} where
  pub slot_at-set_same :
      (xs : List A) (i : ℕ) (v w : A) → slot_at xs i ≡ done w → slot_at (set xs i v) i ≡ done v
  unfolding slot_at set
  slot_at-set_same [] i v w h = absurd (ground arith)
  slot_at-set_same (x ∷ xs) zero v w h = refl
  slot_at-set_same (x ∷ xs) (suc i) v w h = slot_at-set_same xs i v w h

  pub slot_at-set_other :
      (xs : List A) (i j : ℕ) (v : A) → ¬ (i ≡ j) → slot_at (set xs i v) j ≡ slot_at xs j
  unfolding slot_at set
  slot_at-set_other [] i j v h = refl
  slot_at-set_other (x ∷ xs) zero zero v h = absurd (h refl)
  slot_at-set_other (x ∷ xs) zero (suc j) v h = refl
  slot_at-set_other (x ∷ xs) (suc i) zero v h = refl
  slot_at-set_other (x ∷ xs) (suc i) (suc j) v h = slot_at-set_other xs i j v (λ e. h (ap suc e))

  pub slot_at-bound : (xs : List A) (i : ℕ) (v : A) → slot_at xs i ≡ done v → i < length xs
  unfolding slot_at
  slot_at-bound [] i v h = absurd (ground arith)
  slot_at-bound (x ∷ xs) zero v h = omega arith
  slot_at-bound (x ∷ xs) (suc i) v h = omega (arith, slot_at-bound xs i v h)
