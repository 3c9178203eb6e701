-- ===== src/Stats/Direction.antt =====
-- The two directions of a conversation in `record_flow` of src/stats.c.
use Prim.Native.Nat.{Ordering}
use netscope.Base.{ℕ, Bytes, [], ◌∷◌, ◌≡◌, ◌⊎◌, inl, inr, refl, sym, ltb, if◌then◌else◌, arith}
use netscope.Stats.Data.{Stats}
use netscope.Stats.Flow.{Endpoints, strcmp, swap, canonical, record_flow}

abbrev flip : Ordering → Ordering
flip Ordering.lt = Ordering.gt
flip Ordering.eq = Ordering.eq
flip Ordering.gt = Ordering.lt

Ordering-cases : (o : Ordering) → (o ≡ Ordering.lt) ⊎ (o ≡ Ordering.eq) ⊎ (o ≡ Ordering.gt)
Ordering-cases Ordering.lt = inl refl
Ordering-cases Ordering.eq = inr (inl refl)
Ordering-cases Ordering.gt = inr (inr refl)

strcmp-flip : (s t : Bytes) → strcmp t s ≡ flip (strcmp s t)
unfolding strcmp
strcmp-flip [] [] = refl
strcmp-flip [] (d ∷ t) = refl
strcmp-flip (c ∷ s) [] = refl
strcmp-flip (c ∷ s) (d ∷ t) = ground (arith, strcmp-flip s t)

pub strcmp-eq : (s t : Bytes) → strcmp s t ≡ Ordering.eq → s ≡ t
unfolding strcmp
strcmp-eq [] [] h = refl
strcmp-eq [] (d ∷ t) h = ground arith
strcmp-eq (c ∷ s) [] h = ground arith
strcmp-eq (c ∷ s) (d ∷ t) h = ground (arith, strcmp-eq s t)

pub strcmp-same : (s : Bytes) → strcmp s s ≡ Ordering.eq
unfolding strcmp
strcmp-same [] = refl
strcmp-same (c ∷ s) = ground (arith, strcmp-same s)

swap-same : (e : Endpoints) → e.addr_a ≡ e.addr_b → e.port_a ≡ e.port_b → swap e ≡ e
swap-same e addr port = λ i. record {
  proto = e.proto;
  addr_a = sym addr i;
  port_a = sym port i;
  addr_b = addr i;
  port_b = port i;
}

-- Between equal addresses the port decides.
by_port :
    (e : Endpoints)
    → e.addr_a ≡ e.addr_b
    → (if ltb e.port_a e.port_b then e else swap e) ≡ (if ltb e.port_b e.port_a then swap e else e)
by_port e addr = ground (arith, swap-same e addr)

canonical-swap : (e : Endpoints) → canonical (swap e) ≡ canonical e
unfolding canonical
canonical-swap e = elim (Ordering-cases (strcmp e.addr_a e.addr_b)) [
  | inl h ↦ rw (canonical, strcmp-flip e.addr_a e.addr_b, h) refl
  | inr (inl h) ↦
      rw (canonical, strcmp-flip e.addr_a e.addr_b, h) (by_port e (strcmp-eq e.addr_a e.addr_b h))
  | inr (inr h) ↦ rw (canonical, strcmp-flip e.addr_a e.addr_b, h) refl
]

-- A packet and one in the other direction, with both addresses and both ports exchanged, are
-- recorded the same way, in every table.
pub record_flow-swap :
    (stats : Stats) (e : Endpoints) (size : ℕ)
    → record_flow stats (swap e) size ≡ record_flow stats e size
unfolding record_flow
record_flow-swap stats e size = rw (canonical-swap e) refl
