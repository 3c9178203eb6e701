-- ===== src/Stats/Unique.antt =====
-- The table of flows of src/stats.c as a map: reachable slots and keys.
use native.Mathlib.Decide.{dec_lt}
use mathlib.Core.Path.{subst}
use netscope.Base.{
  ℕ, zero, suc, replicate, ◌+◌, ◌<◌, ◌%◌, true, false, List, ◌≡◌, ◌⊎◌, clash, refl, sym, ap, ◌∙◌,
  inl, inr, length, arith,
}
use netscope.Run.{Run, done, Returns, Returns-mono, Returns-done}
use netscope.Util.Text.Digits.{snprintf-fits}
use netscope.Protocols.Dns.Message.{slot_at, set}
use netscope.Stats.Data.{Flow, Stats, zero_flow, stats_init, max_flows, add_u64}
use netscope.Stats.Flow.{Endpoints, canonical, is_flow, swap, new_flow, record_flow}
use netscope.Stats.Table.{
  IsTable, home, IsOther, Passed, Outcome, hit, fresh, full, record_flow-Outcome,
}
use netscope.Stats.Keys.{key, key-is_flow, slot_at-set_same, slot_at-set_other}

pub same_or_other : (i j : ℕ) → (i ≡ j) ⊎ ¬ (i ≡ j)
same_or_other i j = ground arith

pub done_injective : {f g : Flow} → done f ≡ done g → f ≡ g
done_injective {f} {g} e = subst (λ r. Returns r (λ x. f ≡ x)) e refl

abbrev pub InUse : List Flow → ℕ → Type 0
InUse fs i = Returns (slot_at fs i) (λ f. f.in_use ≡ true)

-- A used slot that the probing for `e` gets to: all slots on the way are in use.
abbrev Reached : List Flow → Endpoints → ℕ → Type 0
Reached fs e j =
    (d : ℕ) × (d < max_flows)
    × ((home e + d) % max_flows ≡ j)
    × ((k : ℕ) → k < d → InUse fs ((home e + k) % max_flows))

-- A slot in use, with its contents.
abbrev pub Holds : List Flow → ℕ → Flow → Type 0
Holds fs j f = (slot_at fs j ≡ done f) × (f.in_use ≡ true)

pub record IsMap (fs : List Flow) : Type 0 where
  pub probed : (j : ℕ) (f : Flow) → Holds fs j f → Reached fs (key f) j
  pub unique : (i j : ℕ) (f g : Flow) → Holds fs i f → Holds fs j g → key f ≡ key g → i ≡ j

-- The texts fit the members they are copied to.
abbrev pub Fits : Endpoints → Type 0
Fits e = (length e.addr_a < 46) × (length e.addr_b < 46)

module _ (fs : List Flow) (p : ℕ) (old v : Flow) (read : slot_at fs p ≡ done old)
    (taken : v.in_use ≡ true) where
  InUse-set : (x : ℕ) → InUse fs x → InUse (set fs p v) x
  InUse-set x used = elim (same_or_other p x) [
    | inl same ↦
        subst (InUse (set fs p v)) same
          (Returns-done (λ f. f.in_use ≡ true) (slot_at-set_same fs p v old read) taken)
    | inr other ↦
        subst (λ r. Returns r (λ f. f.in_use ≡ true)) (sym (slot_at-set_other fs p x v other)) used
  ]

  Reached-set : (e : Endpoints) (j : ℕ) → Reached fs e j → Reached (set fs p v) e j
  Reached-set e j (d, lt, there, before) =
      (d, lt, there, λ k less. InUse-set ((home e + k) % max_flows) (before k less))

  -- A slot after the store holds what was stored, or is another one and holds what it did.
  pub slot_at-set :
      (j : ℕ) (g : Flow)
      → slot_at (set fs p v) j ≡ done g
      → ((p ≡ j) × (v ≡ g)) ⊎ (¬ (p ≡ j) × (slot_at fs j ≡ done g))
  slot_at-set j g h = elim (same_or_other p j) [
    | inl same ↦ inl (
      same,
      done_injective (sym (slot_at-set_same fs p v old read) ∙ ap (slot_at (set fs p v)) same ∙ h),
    )
    | inr other ↦ inr (other, sym (slot_at-set_other fs p j v other) ∙ h)
  ]

pub value_of : {r : Run Flow} {f : Flow} (P : Flow → Type 0) → r ≡ done f → Returns r P → P f
value_of P e h = subst (λ r. Returns r P) e h

-- A store that keeps the key of a slot in use.
module _ (fs : List Flow) (p : ℕ) (old v : Flow) (read : slot_at fs p ≡ done old)
    (taken : v.in_use ≡ true) (was : old.in_use ≡ true) (same : key old ≡ key v)
    (map : IsMap fs) where
  slot_before :
      (j : ℕ) (g : Flow) → Holds (set fs p v) j g → (f : Flow) × Holds fs j f × (key f ≡ key g)
  slot_before j g (h, on) = elim (slot_at-set fs p old v read taken j g h) [
    | inl (here, new) ↦ (old, (ap (slot_at fs) (sym here) ∙ read, was), same ∙ ap key new)
    | inr (other, there) ↦ (g, (there, on), refl)
  ]

  update-IsMap : IsMap (set fs p v)
  update-IsMap = record {
    probed = λ j g h.
        let f = slot_before j g h in
        subst (λ e. Reached (set fs p v) e j) f.2
          (Reached-set fs p old v read taken (key f.0) j (map.probed j f.0 f.1));
    unique = λ i j f g h k e.
        let a = slot_before i f h in
        let b = slot_before j g k in map.unique i j a.0 b.0 a.1 b.1 (a.2 ∙ e ∙ sym b.2);
  }

-- A store into the first free slot on the way.
module _ (stats : Stats) (e : Endpoints) (k : ℕ) (old v : Flow)
    (read : slot_at stats.flows ((home e + k) % max_flows) ≡ done old) (free : old.in_use ≡ false)
    (taken : v.in_use ≡ true) (named : key v ≡ e) (small : k < max_flows)
    (passed : Passed stats e (home e) k) (map : IsMap stats.flows) where
  absent_at :
      (j d : ℕ) (g : Flow)
      → Holds stats.flows j g
      → key g ≡ e
      → (home e + d) % max_flows ≡ j
      → ((k : ℕ) → k < d → InUse stats.flows ((home e + k) % max_flows))
      → ⊥
  absent_at j d g (at, on) h there before = elim (dec_lt d k) [
    | yes less ↦
        clash (is_flow g e) (key-is_flow g e h)
          (value_of (IsOther e) (ap (slot_at stats.flows) there ∙ at) (passed d less)).1
    | no no_less ↦ elim (dec_lt k d) [
      | yes more ↦ clash old.in_use (value_of (λ f. f.in_use ≡ true) read (before k more)) free
      | no no_more ↦ clash g.in_use on (
          ap (λ f. f.in_use)
            (done_injective (sym at ∙ ap (slot_at stats.flows) (sym (last no_less no_more)) ∙ read))
          ∙ free)
    ]
  ]
    where
      last : ¬ (d < k) → ¬ (k < d) → (home e + k) % max_flows ≡ j
      last a b = subst (λ d. (home e + d) % max_flows ≡ j) (equal a b) there
        where
          equal : ¬ (d < k) → ¬ (k < d) → d ≡ k
          equal a b = omega arith

  pub absent : (j : ℕ) (g : Flow) → Holds stats.flows j g → key g ≡ e → ⊥
  absent j g at h =
      let way = subst (λ e. Reached stats.flows e j) h (map.probed j g at) in
      absent_at j way.0 g at h way.2 way.3

  slot_after :
      (j : ℕ) (g : Flow)
      → Holds (set stats.flows ((home e + k) % max_flows) v) j g
      → (((home e + k) % max_flows ≡ j) × (key g ≡ e)) ⊎ Holds stats.flows j g
  slot_after j g (h, on) =
      elim (slot_at-set stats.flows ((home e + k) % max_flows) old v read taken j g h) [
        | inl (here, new) ↦ inl (here, ap key (sym new) ∙ named)
        | inr (other, there) ↦ inr (there, on)
      ]

  insert-IsMap : IsMap (set stats.flows ((home e + k) % max_flows) v)
  insert-IsMap = record {
    probed = λ j g h. elim (slot_after j g h) [
      | inl (here, new) ↦
          subst (λ e'. Reached (set stats.flows ((home e + k) % max_flows) v) e' j) (sym new)
            (
              k,
              small,
              here,
              λ i less.
                  InUse-set stats.flows ((home e + k) % max_flows) old v read taken
                    ((home e + i) % max_flows)
                    (Returns-mono _ (IsOther e) (λ f. f.in_use ≡ true) (passed i less)
                      (λ f o. o.0)),
            )
      | inr was ↦
          Reached-set stats.flows ((home e + k) % max_flows) old v read taken (key g) j
            (map.probed j g was)
    ];
    unique = λ i j f g h m same. elim (slot_after i f h) [
      | inl (here, new) ↦ elim (slot_after j g m) [
        | inl (there, _) ↦ sym here ∙ there
        | inr was ↦ absurd (absent j g was (sym same ∙ new))
      ]
      | inr was ↦ elim (slot_after j g m) [
        | inl (there, new) ↦ absurd (absent i f was (same ∙ new))
        | inr was' ↦ map.unique i j f g was was' same
      ]
    ];
  }

pub new_flow-key : (e : Endpoints) (size : ℕ) → Fits e → key (new_flow e size) ≡ e
new_flow-key e size (a, b) = λ i. record {
  proto = e.proto;
  addr_a = snprintf-fits 46 e.addr_a a i;
  port_a = e.port_a;
  addr_b = snprintf-fits 46 e.addr_b b i;
  port_b = e.port_b;
}

canonical-cases : (e : Endpoints) → (canonical e ≡ e) ⊎ (canonical e ≡ swap e)
unfolding canonical
canonical-cases e = ground arith

pub canonical-Fits : (e : Endpoints) → Fits e → Fits (canonical e)
canonical-Fits e (a, b) = elim (canonical-cases e) [
  | inl same ↦ subst Fits (sym same) (a, b)
  | inr other ↦ subst Fits (sym other) (b, a)
]

pub Outcome-IsMap :
    {stats : Stats} {e : Endpoints} {size : ℕ} (s : Stats)
    → Fits e
    → IsMap stats.flows
    → Outcome stats e size (home e) s
    → IsMap s.flows
Outcome-IsMap {stats} {e} {size} s fits map (hit i f read taken same) =
    update-IsMap stats.flows i f
      (record f { packets = add_u64 f.packets 1; bytes = add_u64 f.bytes size }) read taken taken
      refl map
Outcome-IsMap {stats} {e} {size} s fits map (fresh k f small passed read free) =
    insert-IsMap stats e k f (new_flow e size) read free refl (new_flow-key e size fits) small
      passed map
Outcome-IsMap s fits map (full others) = map

free_slots : (n j : ℕ) (f : Flow) → Holds (replicate n zero_flow) j f → ⊥
unfolding slot_at
free_slots zero j f (h, on) = absurd (ground arith)
free_slots (suc n) zero f (h, on) = clash f.in_use on (ap (λ f. f.in_use) (sym (done_injective h)))
free_slots (suc n) (suc j) f at = free_slots n j f at

pub stats_init-IsMap : IsMap stats_init.flows
unfolding stats_init
stats_init-IsMap = record {
  probed = λ j f h. absurd (free_slots max_flows j f h);
  unique = λ i j f g h k e. absurd (free_slots max_flows i f h);
}

-- The table of flows is a map from flows to counters. In a table of 1024 slots whose count of flows
-- is the number of slots in use: if every slot in use can be reached by the
-- probing for its key, through slots in use, and no two slots in use have one key, then both still
-- hold after a packet is recorded, for addresses whose texts are shorter than 46 characters; so a
-- conversation never gets a second slot.
pub record_flow-IsMap :
    (stats : Stats) (e : Endpoints) (size : ℕ)
    → IsTable stats
    → Fits e
    → IsMap stats.flows
    → Returns (record_flow stats e size) (λ s. IsMap s.flows)
record_flow-IsMap stats e size table fits map =
    Returns-mono (record_flow stats e size) (Outcome stats (canonical e) size (home (canonical e)))
      (λ s. IsMap s.flows) (record_flow-Outcome stats e size table)
      (λ s. Outcome-IsMap s (canonical-Fits e fits) map)
