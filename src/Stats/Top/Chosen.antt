-- ===== src/Stats/Top/Chosen.antt =====
-- Which flows of the table `ns_stats_print` of src/stats.c lists as top conversations.
use Prim.Native.Nat.{Ordering}
use mathlib.Core.Path.{subst}
use netscope.Base.{
  lt→ltb, if-intro, ==_iff, length-append, ℕ, zero, suc, ◌+◌, ◌≤◌, ◌≡◌, ◌⊎◌, inl, inr, refl, sym,
  ap, ◌∙◌, Bool, true, false, ◌<◌, ltb, ◌==◌, List, [], ◌∷◌, ◌++◌, length, take, All, append_assoc,
  append-nil, if◌then◌else◌, arith,
}
use netscope.Run.{done, ◌>>=◌, Returns, Returns-bind, Returns-done}
use netscope.Stats.Data.{Flow, Stats, max_flows}
use netscope.Stats.Table.{used, IsTable}
use netscope.Stats.Top.{compare_flow_ptrs_desc, push, collect, top_flows}

-- The flows in use, in the order of the table.
abbrev pub keep : Bool → Flow → List Flow → List Flow
keep true f rest = f ∷ rest
keep false f rest = rest

abbrev pub kept : List Flow → List Flow
kept [] = []
kept (f ∷ fs) = keep f.in_use f (kept fs)

length-keep :
    (b : Bool) (f : Flow) (rest : List Flow)
    → length (keep b f rest) ≡ (if b then 1 else 0) + length rest
length-keep true f rest = omega arith
length-keep false f rest = omega arith

length-kept : (fs : List Flow) → length (kept fs) ≡ used fs
length-kept [] = refl
length-kept (f ∷ fs) = omega (arith, length-keep f.in_use f (kept fs), length-kept fs)

push-keep :
    (b : Bool) (f : Flow) (fs sorted : List Flow)
    → length sorted < max_flows
    → ((s : List Flow) → length s ≤ length sorted + 1 → collect fs s ≡ done (s ++ kept fs))
    → ((if b then push sorted f else done sorted) >>= (λ s. collect fs s))
      ≡ done (sorted ++ keep b f (kept fs))
unfolding push
push-keep true f fs sorted h rest = rw (lt→ltb (length sorted) max_flows h) (
    rest (sorted ++ (f ∷ [])) (omega (arith, length-append sorted (f ∷ [])))
    ∙ ap done (append_assoc sorted (f ∷ []) (kept fs)))
push-keep false f fs sorted h rest = rest sorted (omega arith)

collect-kept :
    (fs sorted : List Flow)
    → length sorted + length fs ≤ max_flows
    → collect fs sorted ≡ done (sorted ++ kept fs)
unfolding collect
collect-kept [] sorted h = ap done (sym (append-nil sorted))
collect-kept (f ∷ fs) sorted h =
    push-keep f.in_use f fs sorted (omega arith) (λ s le. collect-kept fs s (omega arith))

abbrev pub Among : Flow → List Flow → Type 0
Among f [] = ⊥
Among f (g ∷ fs) = (f ≡ g) ⊎ Among f fs

-- The first one has at least the bytes of each behind it.
abbrev pub Descending : List Flow → Type 0
Descending [] = Unit
Descending (f ∷ fs) = All (λ g. g.bytes ≤ f.bytes) fs × Descending fs

-- No flow stands behind one that is to stand after it.
abbrev pub Ordered : (Flow → Flow → Ordering) → List Flow → Type 0
Ordered compar [] = Unit
Ordered compar (f ∷ fs) = All (λ g. ¬ (compar f g ≡ Ordering.gt)) fs × Ordered compar fs

-- What qsort is documented to do with an array, for the order `compar`: it keeps the elements and
-- puts them in order.
pub record Sorts (qsort : (Flow → Flow → Ordering) → List Flow → List Flow)
    (compar : Flow → Flow → Ordering) : Type 0 where
  pub same_length : (fs : List Flow) → length (qsort compar fs) ≡ length fs
  pub kept_in : (fs : List Flow) (f : Flow) → Among f fs → Among f (qsort compar fs)
  pub taken_from : (fs : List Flow) (f : Flow) → Among f (qsort compar fs) → Among f fs
  pub ordered : (fs : List Flow) → Ordered compar (qsort compar fs)

not_gt : (a b : Flow) → ¬ (compare_flow_ptrs_desc a b ≡ Ordering.gt) → b.bytes ≤ a.bytes
unfolding compare_flow_ptrs_desc
not_gt a b h = ground arith

pub All-map :
    {P Q : Flow → Type 0} (fs : List Flow) → ((f : Flow) → P f → Q f) → All P fs → All Q fs
All-map [] k h = tt
All-map (f ∷ fs) k (h, hs) = (k f h, All-map fs k hs)

All-Among : (P : Flow → Type 0) (fs : List Flow) (f : Flow) → All P fs → Among f fs → P f
All-Among P [] f h m = absurd m
All-Among P (g ∷ fs) f (h, hs) (inl e) = subst P (sym e) h
All-Among P (g ∷ fs) f (h, hs) (inr m) = All-Among P fs f hs m

Ordered-Descending : (fs : List Flow) → Ordered compare_flow_ptrs_desc fs → Descending fs
Ordered-Descending [] h = tt
Ordered-Descending (f ∷ fs) (h, hs) = (All-map fs (λ g. not_gt f g) h, Ordered-Descending fs hs)

All-take : (P : Flow → Type 0) (n : ℕ) (fs : List Flow) → All P fs → All P (take n fs)
All-take P zero fs h = tt
All-take P (suc n) [] h = tt
All-take P (suc n) (f ∷ fs) (h, hs) = (h, All-take P n fs hs)

Descending-take : (n : ℕ) (fs : List Flow) → Descending fs → Descending (take n fs)
Descending-take zero fs h = tt
Descending-take (suc n) [] h = tt
Descending-take (suc n) (f ∷ fs) (h, hs) =
    (All-take (λ g. g.bytes ≤ f.bytes) n fs h, Descending-take n fs hs)

take-Among : (n : ℕ) (fs : List Flow) (f : Flow) → Among f (take n fs) → Among f fs
take-Among zero fs f m = absurd m
take-Among (suc n) [] f m = absurd m
take-Among (suc n) (g ∷ fs) f (inl e) = inl e
take-Among (suc n) (g ∷ fs) f (inr m) = inr (take-Among n fs f m)

-- What is not at the front has no more bytes than all that is.
left_out :
    (n : ℕ) (fs : List Flow) (f : Flow)
    → Descending fs
    → Among f fs
    → Among f (take n fs) ⊎ All (λ g. f.bytes ≤ g.bytes) (take n fs)
left_out zero fs f h m = inr tt
left_out (suc n) [] f h m = absurd m
left_out (suc n) (g ∷ fs) f h (inl e) = inl (inl e)
left_out (suc n) (g ∷ fs) f (h, hs) (inr m) = elim (left_out n fs f hs m) [
  | inl front ↦ inl (inr front)
  | inr more ↦ inr (All-Among (λ y. y.bytes ≤ g.bytes) fs f h m, more)
]

keep-head : (b : Bool) (f g : Flow) (rest : List Flow) → b ≡ true → f ≡ g → Among f (keep b g rest)
keep-head true f g rest h e = inl e
keep-head false f g rest h e = absurd (ground arith)

keep-tail : (b : Bool) (f g : Flow) (rest : List Flow) → Among f rest → Among f (keep b g rest)
keep-tail true f g rest m = inr m
keep-tail false f g rest m = m

kept-Among : (fs : List Flow) (f : Flow) → f.in_use ≡ true → Among f fs → Among f (kept fs)
kept-Among [] f on m = absurd m
kept-Among (g ∷ fs) f on (inl e) =
    keep-head g.in_use f g (kept fs) (ap (λ f. f.in_use) (sym e) ∙ on) e
kept-Among (g ∷ fs) f on (inr m) = keep-tail g.in_use f g (kept fs) (kept-Among fs f on m)

-- What is printed of a table: ten flows or all, of the table and in use, the ones with more bytes
-- first, and no flow with more bytes is left out.
pub record Chosen (flows chosen : List Flow) : Type 0 where
  pub count : length chosen ≡ (if ltb (used flows) 10 then used flows else 10)
  pub from_table : (f : Flow) → Among f chosen → Among f (kept flows)
  pub descending : Descending chosen
  pub most :
      (f : Flow)
      → Among f flows
      → f.in_use ≡ true
      → Among f chosen ⊎ All (λ g. f.bytes ≤ g.bytes) chosen

length-take-min : (n : ℕ) (fs : List Flow) → n ≤ length fs → length (take n fs) ≡ n
length-take-min zero fs h = refl
length-take-min (suc n) [] h = absurd (omega arith)
length-take-min (suc n) (f ∷ fs) h = omega (arith, length-take-min n fs (omega arith))

module _ (qsort : (Flow → Flow → Ordering) → List Flow → List Flow)
    (sorts : Sorts qsort compare_flow_ptrs_desc) (flows : List Flow) where
  abbrev front : ℕ → List Flow
  front n = take (if ltb n 10 then n else 10) (qsort compare_flow_ptrs_desc (kept flows))

  front-Chosen : Chosen flows (front (used flows))
  front-Chosen =
      let down = Ordered-Descending _ (sorts.ordered (kept flows)) in
      record {
        count = length-take-min _ _ (
            subst (λ k. (if ltb (used flows) 10 then used flows else 10) ≤ k)
              (sym (sorts.same_length (kept flows) ∙ length-kept flows)) (ground arith));
        from_table = λ f m. sorts.taken_from (kept flows) f (take-Among _ _ f m);
        descending = Descending-take _ _ down;
        most =
            λ f m on. left_out _ _ f down (sorts.kept_in (kept flows) f (kept-Among flows f on m));
      }

none-Chosen : (flows : List Flow) → used flows ≡ 0 → Chosen flows []
none-Chosen flows h = record {
  count = ap (λ n. if ltb n 10 then n else 10) (sym h);
  from_table = λ f m. absurd m;
  descending = tt;
  most = λ f m on. inr tt;
}

-- In a well-formed table, and for a qsort that sorts, the top conversations are found without
-- writing past the end of the array of pointers. They are ten flows of the table, or all if it has
-- fewer, each of them in use, those with more bytes first; and a flow in use that is not among them
-- has no more bytes than any of them.
pub top_flows-Chosen :
    (qsort : (Flow → Flow → Ordering) → List Flow → List Flow) (stats : Stats)
    → Sorts qsort compare_flow_ptrs_desc
    → IsTable stats
    → Returns (top_flows qsort stats) (Chosen stats.flows)
unfolding top_flows
top_flows-Chosen qsort stats sorts table =
    if-intro (λ m. Returns m (Chosen stats.flows)) (stats.flow_count == 0) _ _
      (λ e. none-Chosen stats.flows (sym table.counted ∙ (==_iff stats.flow_count 0).0 e))
      (λ e.
        Returns-bind (collect stats.flows []) _ (λ s. s ≡ kept stats.flows) (Chosen stats.flows)
          (Returns-done (λ s. s ≡ kept stats.flows)
            (collect-kept stats.flows [] (omega (arith, table.slots))) refl)
          (λ s h.
            subst
              (λ s. Chosen stats.flows (
                take (if ltb (length s) 10 then length s else 10) (qsort compare_flow_ptrs_desc s)))
              (sym h)
              (subst (λ n. Chosen stats.flows (front qsort sorts stats.flows n))
                (sym (length-kept stats.flows)) (front-Chosen qsort sorts stats.flows))))
