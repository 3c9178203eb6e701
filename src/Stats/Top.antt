-- ===== src/Stats/Top.antt =====
-- The list of top conversations: what `ns_stats_print` of src/stats.c picks from the table of flows,
-- and in which order. `sorted` is a list; the array has room for 1024 entries. `qsort` is a parameter.
pub mod Chosen
use Prim.Native.Nat.{Ordering}
use netscope.Base.{ℕ, ◌≤◌, ltb, ◌==◌, List, [], ◌∷◌, ◌++◌, length, take, if◌then◌else◌, arith}
use netscope.Run.{Run, done, fault, Fault, ◌>>=◌}
use netscope.Stats.Data.{Flow, Stats, max_flows}

-- Which of two flows stands first, `lt` for the first one.
unfoldable pub compare_flow_ptrs_desc : Flow → Flow → Ordering
compare_flow_ptrs_desc a b =
    if ltb b.bytes a.bytes
    then Ordering.lt
    else if ltb a.bytes b.bytes
    then Ordering.gt
    else Ordering.eq

-- `sorted[n++] = &stats->flows[i]`
unfoldable pub push : List Flow → Flow → Run (List Flow)
push sorted f =
    if ltb (length sorted) max_flows then done (sorted ++ (f ∷ [])) else fault Fault.out_of_bounds

-- The loop over the table.
unfoldable pub collect : List Flow → List Flow → Run (List Flow)
collect [] sorted = done sorted
collect (f ∷ fs) sorted =
    (if f.in_use then push sorted f else done sorted) >>= (λ sorted. collect fs sorted)

-- The flows that are printed, the first one first.
unfoldable pub top_flows :
    ((Flow → Flow → Ordering) → List Flow → List Flow) → Stats → Run (List Flow)
top_flows qsort stats = if stats.flow_count == 0 then done [] else (do
  sorted ← collect stats.flows []
  let n = length sorted
  let sorted = qsort compare_flow_ptrs_desc sorted
  done (take (if ltb n 10 then n else 10) sorted))
