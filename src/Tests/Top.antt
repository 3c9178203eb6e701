-- ===== src/Tests/Top.antt =====
-- The top conversations of a table, with a sort by insertion in place of qsort.
use Prim.Native.Nat.{Ordering}
use netscope.Base.{
  ℕ, ◌≡◌, ◌⊎◌, inl, inr, refl, ap, ◌∙◌, suc, Bool, true, false, List, [], ◌∷◌, length, All,
  replicate, arith,
}
use netscope.Run.{done, Returns}
use netscope.Stats.Data.{Flow, Stats, stats_init, zero_flow}
use netscope.Stats.Table.{IsTable}
use netscope.Stats.Top.{compare_flow_ptrs_desc, push, collect, top_flows}
use netscope.Stats.Top.Chosen.{Among, Ordered, Sorts, Chosen, All-map, top_flows-Chosen}

abbrev is_gt : Ordering → Bool
is_gt Ordering.gt = true
is_gt other = false

abbrev place : Bool → Flow → Flow → List Flow → List Flow → List Flow
place true f g fs rest = g ∷ rest
place false f g fs rest = f ∷ g ∷ fs

abbrev insert : (Flow → Flow → Ordering) → Flow → List Flow → List Flow
insert compar f [] = f ∷ []
insert compar f (g ∷ fs) = place (is_gt (compar f g)) f g fs (insert compar f fs)

abbrev sort : (Flow → Flow → Ordering) → List Flow → List Flow
sort compar [] = []
sort compar (f ∷ fs) = insert compar f (sort compar fs)

length-place :
    (b : Bool) (f g : Flow) (fs rest : List Flow)
    → length rest ≡ suc (length fs)
    → length (place b f g fs rest) ≡ suc (suc (length fs))
length-place true f g fs rest h = ap suc h
length-place false f g fs rest h = refl

place-Among :
    (b : Bool) (x f g : Flow) (fs rest : List Flow)
    → ((x ≡ f) ⊎ Among x fs → Among x rest)
    → (x ≡ f) ⊎ Among x (g ∷ fs)
    → Among x (place b f g fs rest)
place-Among true x f g fs rest h (inl e) = inr (h (inl e))
place-Among true x f g fs rest h (inr (inl e)) = inl e
place-Among true x f g fs rest h (inr (inr m)) = inr (h (inr m))
place-Among false x f g fs rest h m = m

Among-place :
    (b : Bool) (x f g : Flow) (fs rest : List Flow)
    → (Among x rest → (x ≡ f) ⊎ Among x fs)
    → Among x (place b f g fs rest)
    → (x ≡ f) ⊎ Among x (g ∷ fs)
Among-place true x f g fs rest h (inl e) = inr (inl e)
Among-place true x f g fs rest h (inr m) = elim (h m) [ inl e ↦ inl e | inr k ↦ inr (inr k) ]
Among-place false x f g fs rest h m = m

All-place :
    (P : Flow → Type 0) (b : Bool) (f g : Flow) (fs rest : List Flow)
    → P f
    → All P (g ∷ fs)
    → All P rest
    → All P (place b f g fs rest)
All-place P true f g fs rest p (q, qs) r = (q, r)
All-place P false f g fs rest p qs r = (p, qs)

module _ (compar : Flow → Flow → Ordering) where
  length-insert : (f : Flow) (fs : List Flow) → length (insert compar f fs) ≡ suc (length fs)
  length-insert f [] = refl
  length-insert f (g ∷ fs) = length-place (is_gt (compar f g)) f g fs _ (length-insert f fs)

  insert-Among : (x f : Flow) (fs : List Flow) → (x ≡ f) ⊎ Among x fs → Among x (insert compar f fs)
  insert-Among x f [] m = m
  insert-Among x f (g ∷ fs) m = place-Among (is_gt (compar f g)) x f g fs _ (insert-Among x f fs) m

  Among-insert : (x f : Flow) (fs : List Flow) → Among x (insert compar f fs) → (x ≡ f) ⊎ Among x fs
  Among-insert x f [] m = m
  Among-insert x f (g ∷ fs) m = Among-place (is_gt (compar f g)) x f g fs _ (Among-insert x f fs) m

  All-insert :
      (P : Flow → Type 0) (f : Flow) (fs : List Flow) → P f → All P fs → All P (insert compar f fs)
  All-insert P f [] p ps = (p, tt)
  All-insert P f (g ∷ fs) p ps =
      All-place P (is_gt (compar f g)) f g fs _ p ps (All-insert P f fs p ps.1)

  sort-Among : (fs : List Flow) (x : Flow) → Among x fs → Among x (sort compar fs)
  sort-Among [] x m = m
  sort-Among (f ∷ fs) x (inl e) = insert-Among x f (sort compar fs) (inl e)
  sort-Among (f ∷ fs) x (inr m) = insert-Among x f (sort compar fs) (inr (sort-Among fs x m))

  Among-sort : (fs : List Flow) (x : Flow) → Among x (sort compar fs) → Among x fs
  Among-sort [] x m = m
  Among-sort (f ∷ fs) x m = elim (Among-insert x f (sort compar fs) m) [
    | inl e ↦ inl e
    | inr k ↦ inr (Among-sort fs x k)
  ]

  length-sort : (fs : List Flow) → length (sort compar fs) ≡ length fs
  length-sort [] = refl
  length-sort (f ∷ fs) = length-insert f (sort compar fs) ∙ ap suc (length-sort fs)

gt_flip :
    (f g : Flow)
    → is_gt (compare_flow_ptrs_desc f g) ≡ true
    → ¬ (compare_flow_ptrs_desc g f ≡ Ordering.gt)
unfolding compare_flow_ptrs_desc
gt_flip f g h = ground arith

gt_trans :
    (f g y : Flow)
    → is_gt (compare_flow_ptrs_desc f g) ≡ false
    → ¬ (compare_flow_ptrs_desc g y ≡ Ordering.gt)
    → ¬ (compare_flow_ptrs_desc f y ≡ Ordering.gt)
unfolding compare_flow_ptrs_desc
gt_trans f g y h k = ground arith

not_gt :
    (f g : Flow)
    → is_gt (compare_flow_ptrs_desc f g) ≡ false
    → ¬ (compare_flow_ptrs_desc f g ≡ Ordering.gt)
unfolding compare_flow_ptrs_desc
not_gt f g h = ground arith

place-Ordered :
    (b : Bool) (f g : Flow) (fs rest : List Flow)
    → is_gt (compare_flow_ptrs_desc f g) ≡ b
    → Ordered compare_flow_ptrs_desc (g ∷ fs)
    → Ordered compare_flow_ptrs_desc rest
    → (¬ (compare_flow_ptrs_desc g f ≡ Ordering.gt)
        → All (λ y. ¬ (compare_flow_ptrs_desc g y ≡ Ordering.gt)) rest)
    → Ordered compare_flow_ptrs_desc (place b f g fs rest)
place-Ordered true f g fs rest e h r k = (k (gt_flip f g e), r)
place-Ordered false f g fs rest e h r k =
    ((not_gt f g e, All-map fs (λ y. gt_trans f g y e) h.0), h)

insert-Ordered :
    (f : Flow) (fs : List Flow)
    → Ordered compare_flow_ptrs_desc fs
    → Ordered compare_flow_ptrs_desc (insert compare_flow_ptrs_desc f fs)
insert-Ordered f [] h = (tt, tt)
insert-Ordered f (g ∷ fs) h =
    place-Ordered (is_gt (compare_flow_ptrs_desc f g)) f g fs _ refl h (insert-Ordered f fs h.1)
      (λ n. All-insert compare_flow_ptrs_desc _ f fs n h.0)

sort-Ordered : (fs : List Flow) → Ordered compare_flow_ptrs_desc (sort compare_flow_ptrs_desc fs)
sort-Ordered [] = tt
sort-Ordered (f ∷ fs) = insert-Ordered f _ (sort-Ordered fs)

sort-Sorts : Sorts sort compare_flow_ptrs_desc
sort-Sorts = record {
  same_length = length-sort compare_flow_ptrs_desc;
  kept_in = sort-Among compare_flow_ptrs_desc;
  taken_from = Among-sort compare_flow_ptrs_desc;
  ordered = sort-Ordered;
}

abbrev flow_of : ℕ → ℕ → Flow
flow_of port bytes = record zero_flow { in_use = true; port_b = port; bytes = bytes }

-- A table with two flows, the second one with more bytes.
abbrev two_flows : Stats
two_flows = record stats_init {
  flows = flow_of 80 60 ∷ flow_of 443 100 ∷ replicate 1022 zero_flow;
  flow_count = 2;
}

two_flows-IsTable : IsTable two_flows
unfolding stats_init
two_flows-IsTable = record { slots = refl; counted = refl }

two_flows_chosen : top_flows sort two_flows ≡ done (flow_of 443 100 ∷ flow_of 80 60 ∷ [])
unfolding top_flows collect push compare_flow_ptrs_desc
two_flows_chosen = refl

top_flows-Chosen_example : Returns (top_flows sort two_flows) (Chosen two_flows.flows)
top_flows-Chosen_example = top_flows-Chosen sort two_flows sort-Sorts two_flows-IsTable
