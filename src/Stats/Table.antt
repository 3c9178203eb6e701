-- ===== src/Stats/Table.antt =====
-- The table of flows of src/stats.c: its slots, its count, and the probing of `record_flow`.
use native.Mathlib.Decide.{dec_lt}
use mathlib.Core.Path.{subst}
use netscope.Base.{
  ℕ, zero, suc, ◌+◌, ◌-◌, ◌≤◌, ◌<◌, ◌%◌, ◌^◌, true, false, none, some, List, [], ◌∷◌, ◌≡◌, refl,
  ◌∙◌, inl, inr, length, if◌then◌else◌, Bool-cases, arith,
}
use netscope.Run.{Returns-mono, done, Returns, Returns-done}
use netscope.Word.{add_size_exact}
use netscope.Protocols.Dns.Message.{slot_at, set}
use netscope.Protocols.Dns.Message.Total.{length-set}
use netscope.Stats.Data.{Flow, Stats, max_flows, add_u64}
use netscope.Stats.Flow.{
  Endpoints, hash_flow, canonical, is_flow, new_flow, flow_turn, flow_loop, record_flow,
}

-- How many slots of a table are in use.
abbrev pub weight : Flow → ℕ
weight f = if f.in_use then 1 else 0

abbrev pub used : List Flow → ℕ
used [] = 0
used (f ∷ fs) = weight f + used fs

pub record IsTable (stats : Stats) : Type 0 where
  pub slots : length stats.flows ≡ max_flows
  pub counted : stats.flow_count ≡ used stats.flows

used-le : (fs : List Flow) → used fs ≤ length fs
used-le [] = omega arith
used-le (f ∷ fs) = ground (arith, used-le fs)

slot_at-in : (fs : List Flow) (i : ℕ) → i < length fs → (f : Flow) × (slot_at fs i ≡ done f)
unfolding slot_at
slot_at-in [] i h = absurd (omega arith)
slot_at-in (f ∷ fs) zero h = (f, refl)
slot_at-in (f ∷ fs) (suc i) h = slot_at-in fs i (omega arith)

-- A store changes the number of slots in use by what was in the slot and by what is now.
used-set :
    (fs : List Flow) (i : ℕ) (f g : Flow)
    → slot_at fs i ≡ done f
    → used (set fs i g) + weight f ≡ used fs + weight g
unfolding slot_at set
used-set [] i f g e = ground arith
used-set (x ∷ fs) zero f g e = ground arith
used-set (x ∷ fs) (suc i) f g e = omega (arith, used-set fs i f g e)

abbrev pub bumped : Stats → ℕ → Flow → ℕ → Stats
bumped stats i f size = record stats {
  flows =
      set stats.flows i (record f { packets = add_u64 f.packets 1; bytes = add_u64 f.bytes size });
}

abbrev pub added : Stats → ℕ → Endpoints → ℕ → Stats
added stats i e size = record stats {
  flows = set stats.flows i (new_flow e size);
  flow_count = stats.flow_count + 1;
}

-- Where the probing for a flow starts.
abbrev pub home : Endpoints → ℕ
home e = hash_flow e % max_flows

abbrev pub IsOther : Endpoints → Flow → Type 0
IsOther e f = (f.in_use ≡ true) × (is_flow f e ≡ false)

-- The slots that the loop has passed are in use by other flows.
abbrev pub Passed : Stats → Endpoints → ℕ → ℕ → Type 0
Passed stats e start i =
    (k : ℕ) → k < i → Returns (slot_at stats.flows ((start + k) % max_flows)) (IsOther e)

-- What becomes of a table when a packet of flow `e` is recorded: the flow has a slot, and its
-- counters go up; or it is put into the first free slot behind the slots that the loop starts with,
-- which other flows use; or nothing changes, and then all slots are in use by other flows.
pub data Outcome (stats : Stats) (e : Endpoints) (size start : ℕ) : Stats → Type 0 where
  hit :
      (i : ℕ) (f : Flow)
      → slot_at stats.flows i ≡ done f
      → f.in_use ≡ true
      → is_flow f e ≡ true
      → Outcome stats e size start (bumped stats i f size)
  fresh :
      (k : ℕ) (f : Flow)
      → k < max_flows
      → Passed stats e start k
      → slot_at stats.flows ((start + k) % max_flows) ≡ done f
      → f.in_use ≡ false
      → Outcome stats e size start (added stats ((start + k) % max_flows) e size)
  full :
      ((j : ℕ) → j < max_flows → Returns (slot_at stats.flows j) (IsOther e))
      → Outcome stats e size start stats

-- All slots, when it has made all its turns.
all_turns_made :
    (stats : Stats) (e : Endpoints) (size start : ℕ)
    → start < max_flows
    → Passed stats e start max_flows
    → Outcome stats e size start stats
all_turns_made stats e size start small passed = full (λ j lt.
    subst (λ i. Returns (slot_at stats.flows i) (IsOther e)) (there j lt)
      (passed ((j + max_flows - start) % max_flows) (omega arith)))
  where
    there : (j : ℕ) → j < max_flows → (start + (j + max_flows - start) % max_flows) % max_flows ≡ j
    there j lt = omega arith

module _ (stats : Stats) (e : Endpoints) (size start : ℕ) (table : IsTable stats)
    (small : start < max_flows) where
  count_small : stats.flow_count ≤ 1024
  count_small = omega (arith, table.slots, table.counted, used-le stats.flows)

  flow_turn-hit :
      (i : ℕ) (f : Flow)
      → f.in_use ≡ true
      → is_flow f e ≡ true
      → flow_turn e size stats i f ≡ some (bumped stats i f size)
  unfolding flow_turn set
  flow_turn-hit i f taken same = simp (flow_turn, same, taken)

  flow_turn-fresh :
      (i : ℕ) (f : Flow)
      → f.in_use ≡ false
      → flow_turn e size stats i f ≡ some (added stats i e size)
  unfolding flow_turn
  flow_turn-fresh i f free =
      simp (flow_turn, free, add_size_exact stats.flow_count 1 (omega (arith, count_small)))

  flow_turn-passed : (i : ℕ) (f : Flow) → IsOther e f → flow_turn e size stats i f ≡ none
  unfolding flow_turn
  flow_turn-passed i f other = simp (flow_turn, other.0, other.1)

  Passed-suc :
      (i : ℕ)
      → Returns (slot_at stats.flows ((start + i) % max_flows)) (IsOther e)
      → Passed stats e start i
      → Passed stats e start (suc i)
  Passed-suc i here before k lt = elim (dec_lt k i) [
    | yes less ↦ before k less
    | no more ↦
        subst (λ k. Returns (slot_at stats.flows ((start + k) % max_flows)) (IsOther e)) (last more)
          here
  ]
    where
      last : ¬ (k < i) → i ≡ k
      last more = omega arith

  -- One turn at the slot `f`, if the rest of the loop is right.
  flow_slot :
      (turns i : ℕ) (f : Flow)
      → i < max_flows
      → slot_at stats.flows ((start + i) % max_flows) ≡ done f
      → Passed stats e start i
      → (IsOther e f
          → Returns (flow_loop turns start (suc i) e size stats) (Outcome stats e size start))
      → Returns (flow_loop (suc turns) start i e size stats) (Outcome stats e size start)
  unfolding flow_loop flow_turn
  flow_slot turns i f lt read passed rest =
      rw (index, read)
        (elim (Bool-cases f.in_use) [
          | inr free ↦
              rw (flow_turn-fresh ((start + i) % max_flows) f free) (fresh i f lt passed read free)
          | inl taken ↦ elim (Bool-cases (is_flow f e)) [
            | inl same ↦
                rw (flow_turn-hit ((start + i) % max_flows) f taken same) (hit _ f read taken same)
            | inr other ↦
                rw (flow_turn-passed ((start + i) % max_flows) f (taken, other))
                  (rest (taken, other))
          ]
        ])
    where
      index : (start + i) % 2 ^ 32 % max_flows ≡ (start + i) % max_flows
      index = omega arith

  flow_loop-Outcome :
      (turns i : ℕ)
      → turns + i ≡ max_flows
      → Passed stats e start i
      → Returns (flow_loop turns start i e size stats) (Outcome stats e size start)
  flow_loop-Outcome zero i sum passed =
      unfold flow_loop in
      all_turns_made stats e size start small (subst (Passed stats e start) all_turns passed)
    where
      all_turns : i ≡ max_flows
      all_turns = omega arith
  flow_loop-Outcome (suc turns) i sum passed =
      let slot = slot_at-in stats.flows ((start + i) % max_flows) (omega (arith, table.slots)) in
      flow_slot turns i slot.0 (omega arith) slot.1 passed (λ other.
        flow_loop-Outcome turns (suc i) (omega arith)
          (Passed-suc i (Returns-done (IsOther e) slot.1 other) passed))

-- Recording a packet in a well-formed table never touches memory outside the table, and ends in one
-- of three ways: the flow, in its canonical direction, has a slot, whose counters go up; or it gets
-- the first free slot from its hash on, with a count of one packet, and the slots before that one
-- are in use by other flows; or the table stays as it is, and then every one of
-- its 1024 slots is in use by another flow.
pub record_flow-Outcome :
    (stats : Stats) (e : Endpoints) (size : ℕ)
    → IsTable stats
    → Returns (record_flow stats e size) (Outcome stats (canonical e) size (home (canonical e)))
unfolding record_flow
record_flow-Outcome stats e size table =
    flow_loop-Outcome stats (canonical e) size (hash_flow (canonical e) % max_flows) table
      (omega arith) max_flows 0 (omega arith) (λ k lt. absurd (omega arith))

pub Outcome-IsTable :
    {stats : Stats} {e : Endpoints} {size start : ℕ} (s : Stats)
    → IsTable stats
    → Outcome stats e size start s
    → IsTable s
Outcome-IsTable {stats} {e} {size} {start} s table (hit i f read taken same) = record {
  slots = length-set stats.flows i _ ∙ table.slots;
  counted = ground (
    arith,
    table.counted,
    used-set stats.flows i f
        (record f { packets = add_u64 f.packets 1; bytes = add_u64 f.bytes size }) read,
  );
}
Outcome-IsTable {stats} {e} {size} {start} s table (fresh k f lt passed read free) = record {
  slots = length-set stats.flows ((start + k) % max_flows) _ ∙ table.slots;
  counted = ground (
    arith,
    table.counted,
    used-set stats.flows ((start + k) % max_flows) f (new_flow e size) read,
  );
}
Outcome-IsTable s table (full others) = table

-- In a well-formed table, one of 1024 slots whose count of flows is the number of slots in use, a
-- packet is recorded without a fault, and the table stays well-formed.
pub record_flow-IsTable :
    (stats : Stats) (e : Endpoints) (size : ℕ)
    → IsTable stats
    → Returns (record_flow stats e size) IsTable
record_flow-IsTable stats e size table =
    Returns-mono (record_flow stats e size) (Outcome stats (canonical e) size (home (canonical e)))
      IsTable (record_flow-Outcome stats e size table) (λ s. Outcome-IsTable s table)
