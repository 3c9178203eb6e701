-- ===== src/Stats/Entries.antt =====
-- `record_flow` of src/stats.c against a map from flows to counters.
use mathlib.Core.Path.{subst}
use netscope.Base.{ℕ, ◌+◌, ◌<◌, ◌%◌, ◌^◌, true, List, ◌≡◌, refl, sym, ap, ◌∙◌, inl, inr, clash}
use netscope.Run.{done, Returns, Returns-mono}
use netscope.Util.Text.Digits.{snprintf-fits}
use netscope.Protocols.Dns.Message.{slot_at, set}
use netscope.Stats.Data.{Flow, Stats, max_flows, add_u64}
use netscope.Stats.Flow.{Endpoints, canonical, is_flow, new_flow, record_flow}
use netscope.Stats.Table.{IsTable, home, IsOther, Outcome, hit, fresh, full, record_flow-Outcome}
use netscope.Stats.Keys.{
  key, key-is_flow, is_flow-key, slot_at-set_same, slot_at-set_other, slot_at-bound,
}
use netscope.Stats.Unique.{
  Holds, IsMap, Fits, InUse, same_or_other, done_injective, value_of, slot_at-set, absent,
  new_flow-key, canonical-Fits,
}

-- The map has the entry `f` for the flow `e`.
abbrev pub Entry : List Flow → Endpoints → Flow → Type 0
Entry fs e f = (j : ℕ) × Holds fs j f × (key f ≡ e)

-- The entry after one more packet of `size` bytes, on 64-bit counters.
abbrev pub once_more : Flow → ℕ → Flow
once_more f size = record f {
  packets = (f.packets + 1) % 2 ^ 64;
  bytes = (f.bytes + size) % 2 ^ 64;
}

-- The entry of a flow that has had one packet, of `size` bytes.
abbrev pub one_packet : Endpoints → ℕ → Flow
one_packet e size = record {
  in_use = true;
  protocol = e.proto;
  addr_a = e.addr_a;
  addr_b = e.addr_b;
  port_a = e.port_a;
  port_b = e.port_b;
  packets = 1;
  bytes = size;
}

-- A flow has its entry counted up, or gets one, or has none and finds all slots in use.
pub data Counted (before : List Flow) (e : Endpoints) (size : ℕ) : List Flow → Type 0 where
  again :
      {after : List Flow} (f : Flow)
      → Entry before e f
      → Entry after e (once_more f size)
      → Counted before e size after
  first :
      {after : List Flow}
      → ((f : Flow) → ¬ (Entry before e f))
      → Entry after e (one_packet e size)
      → Counted before e size after
  no_room :
      ((f : Flow) → ¬ (Entry before e f))
      → ((j : ℕ) → j < max_flows → InUse before j)
      → Counted before e size before

-- What recording a packet does to the map: nothing to the entries of other flows.
pub record Recorded (before : List Flow) (e : Endpoints) (size : ℕ) (after : List Flow)
    : Type 0 where
  pub counted : Counted before e size after
  pub others :
      (e' : Endpoints) (f : Flow)
      → ¬ (e' ≡ e)
      → (Entry before e' f → Entry after e' f) × (Entry after e' f → Entry before e' f)

module _ (fs : List Flow) (p : ℕ) (old v : Flow) (read : slot_at fs p ≡ done old)
    (taken : v.in_use ≡ true) (e : Endpoints) (named : key v ≡ e)
    (same : old.in_use ≡ true → key old ≡ e) where
  Entry-set : Entry (set fs p v) e v
  Entry-set = (p, (slot_at-set_same fs p v old read, taken), named)

  others-kept : (e' : Endpoints) (f : Flow) → ¬ (e' ≡ e) → Entry fs e' f → Entry (set fs p v) e' f
  others-kept e' f ne (j, (h, on), k) = elim (same_or_other p j) [
    | inl here ↦
        let stored = done_injective (sym read ∙ ap (slot_at fs) here ∙ h) in
        absurd (ne (sym k ∙ ap key (sym stored) ∙ same (ap (λ f. f.in_use) stored ∙ on)))
    | inr other ↦ (j, (slot_at-set_other fs p j v other ∙ h, on), k)
  ]

  others-old : (e' : Endpoints) (f : Flow) → ¬ (e' ≡ e) → Entry (set fs p v) e' f → Entry fs e' f
  others-old e' f ne (j, (h, on), k) = elim (slot_at-set fs p old v read taken j f h) [
    | inl (here, new) ↦ absurd (ne (sym k ∙ ap key (sym new) ∙ named))
    | inr (other, there) ↦ (j, (there, on), k)
  ]

  Recorded-set : (size : ℕ) → Counted fs e size (set fs p v) → Recorded fs e size (set fs p v)
  Recorded-set size c = record {
    counted = c;
    others = λ e' f ne. (others-kept e' f ne, others-old e' f ne);
  }

absent_when_full :
    (stats : Stats) (e : Endpoints)
    → ((j : ℕ) → j < max_flows → Returns (slot_at stats.flows j) (IsOther e))
    → IsTable stats
    → (f : Flow) → ¬ (Entry stats.flows e f)
absent_when_full stats e others table f (j, (h, on), k) =
    clash (is_flow f e) (key-is_flow f e k)
      (value_of (IsOther e) h
        (others j (subst (λ n. j < n) table.slots (slot_at-bound stats.flows j f h)))).1

new_flow_lem : (e : Endpoints) (size : ℕ) → Fits e → new_flow e size ≡ one_packet e size
new_flow_lem e size (a, b) = λ i. record {
  in_use = true;
  protocol = e.proto;
  addr_a = snprintf-fits 46 e.addr_a a i;
  addr_b = snprintf-fits 46 e.addr_b b i;
  port_a = e.port_a;
  port_b = e.port_b;
  packets = 1;
  bytes = size;
}

Outcome-Recorded :
    {stats : Stats} {e : Endpoints} {size : ℕ} (s : Stats)
    → IsTable stats
    → Fits e
    → IsMap stats.flows
    → Outcome stats e size (home e) s
    → Recorded stats.flows e size s.flows
unfolding add_u64
Outcome-Recorded {stats} {e} {size} s table fits map (hit i f read taken same) =
    let k = is_flow-key f e same in
    Recorded-set stats.flows i f (once_more f size) read taken e k (λ u. k) size
      (again f (i, (read, taken), k)
        (Entry-set stats.flows i f (once_more f size) read taken e k (λ u. k)))
Outcome-Recorded {stats} {e} {size} s table fits map (fresh k f small passed read free) =
    let p = (home e + k) % max_flows in
    let v = new_flow e size in
    let named = new_flow-key e size fits in
    Recorded-set stats.flows p f v read refl e named (λ on. absurd (clash f.in_use on free)) size
      (first (λ g (j, at, h). absent stats e k f v read free refl named small passed map j g at h)
        (subst (Entry (set stats.flows p v) e) (new_flow_lem e size fits)
          (Entry-set stats.flows p f v read refl e named (λ on. absurd (clash f.in_use on free)))))
Outcome-Recorded {stats} {e} {size} s table fits map (full others) = record {
  counted = no_room (absent_when_full stats e others table) (λ j lt.
      Returns-mono (slot_at stats.flows j) (IsOther e) (λ f. f.in_use ≡ true) (others j lt)
        (λ f o. o.0));
  others = λ e' f ne. (λ h. h, λ h. h);
}

-- The table of flows behaves like a map from flows, in their canonical direction, to counters. This
-- is for a table of 1024 slots whose count of flows is the number of slots in use, where the
-- probing for the flow of each slot in use gets to that slot, through slots in use, and no flow has
-- two slots; and for addresses whose texts are shorter than 46 characters. If the flow has an
-- entry, that entry counts one packet and its bytes more, on 64-bit counters; if it has none, it
-- gets one, with its protocol, addresses and ports, one packet and the bytes of that packet, unless
-- all 1024 slots are in use, and then nothing changes. The entries of all other flows stay what
-- they are, and no entry is made for them.
pub record_flow-Recorded :
    (stats : Stats) (e : Endpoints) (size : ℕ)
    → IsTable stats
    → Fits e
    → IsMap stats.flows
    → Returns (record_flow stats e size) (λ s. Recorded stats.flows (canonical e) size s.flows)
record_flow-Recorded stats e size table fits map =
    Returns-mono (record_flow stats e size) (Outcome stats (canonical e) size (home (canonical e)))
      (λ s. Recorded stats.flows (canonical e) size s.flows)
      (record_flow-Outcome stats e size table)
      (λ s. Outcome-Recorded s table (canonical-Fits e fits) map)
