-- ===== src/PlanGraph/Depth.antt =====
-- The depth of the search for cycles, against the number of nodes without a mark.
use mathlib.Core.Path.{subst}
use feishu_super_search.Prelude.{
  ℕ, zero, suc, ◌<◌, ◌≤◌, String, ◌≡◌, ◌≢◌, refl, none, some, List, [], ◌∷◌, Dict, lookup, insert,
  lookup-insert, arith, eq_iff, inl, inr, ◌-◌, ◌⊎◌, Option-cases, sym, ◌∙◌, Bool, true, false,
  count,
}
use feishu_super_search.Kernel.Plan.{PlanNode}
use feishu_super_search.PlanGraph.{
  Mark, visiting, visited, Marks, Visit, done, cycle, fuel, dependencies, and_then, visit_each,
  visit,
}
use feishu_super_search.PlanGraph.Search.{
  Extends, Finishes, visit-Finishes, visit-fresh, visit-visiting, visit-visited, search_below,
}

abbrev is_unmarked : Marks → String → Bool
is_unmarked m id = elim (lookup id m) [ none ↦ true | some _ ↦ false ]

-- How many nodes have no mark.
abbrev pub unmarked : Dict PlanNode → Marks → ℕ
unmarked nodes m = count (λ e. is_unmarked m e.0) nodes

unmarked-le :
    (nodes : Dict PlanNode) (m m' : Marks)
    → ((j : String) → is_unmarked m' j ≡ true → is_unmarked m j ≡ true)
    → unmarked nodes m' ≤ unmarked nodes m
unmarked-le [] m m' h = omega arith
unmarked-le ((j, n) ∷ nodes) m m' h = ground (arith, h j, unmarked-le nodes m m' h)

is_unmarked-insert :
    (id j : String) (c : Mark) (m : Marks)
    → is_unmarked (insert id c m) j ≡ true
    → is_unmarked m j ≡ true
is_unmarked-insert id j c m h = ground (arith, lookup-insert id j c m)

-- Marking a node of the graph leaves fewer unmarked ones.
unmarked-insert :
    (id : String) (c : Mark) (m : Marks) (nodes : Dict PlanNode) {n : PlanNode}
    → lookup id nodes ≡ some n
    → lookup id m ≡ none
    → unmarked nodes (insert id c m) < unmarked nodes m
unfolding lookup
unmarked-insert id c m [] known fresh = cc
unmarked-insert id c m ((j, x) ∷ nodes) {n} known fresh = ground (
  arith,
  lookup-insert id j c m,
  eq_iff j id,
  eq_iff id j,
  unmarked-le nodes m (insert id c m) (λ i. is_unmarked-insert id i c m),
  λ (p : lookup id nodes ≡ some n). unmarked-insert id c m nodes p fresh,
)

pub dependencies-unknown :
    (nodes : Dict PlanNode) (id : String) → lookup id nodes ≡ none → dependencies nodes id ≡ []
unfolding dependencies
dependencies-unknown nodes id h = ground arith

module _ (nodes : Dict PlanNode) where
  Extends-unmarked :
      (m m' : Marks)
      → Extends nodes m m'
      → (j : String) → is_unmarked m' j ≡ true
      → is_unmarked m j ≡ true
  Extends-unmarked m m' e j h = elim (Option-cases (lookup j m)) [
    | inl none_here ↦ rw (none_here, is_unmarked)
    | inr (visiting, here) ↦ absurd (cc (e.keeps_visiting j here))
    | inr (visited, here) ↦ absurd (cc (e.keeps_visited j here))
  ]

  and_then-eq-fuel :
      (v : Visit) (f : Marks → Visit)
      → and_then v f ≡ fuel
      → (v ≡ fuel) ⊎ ((a : Marks) × (v ≡ done a) × (f a ≡ fuel))
  and_then-eq-fuel (done a) f h = inr (a, refl, h)
  and_then-eq-fuel (cycle id) f h = inl cc
  and_then-eq-fuel fuel f h = inl refl

  -- A call that never runs out of depth from marks with at most `bound` nodes left.
  abbrev pub Ends : ℕ → (String → Marks → Visit) → Type 0
  Ends bound v = (id : String) (m : Marks) → unmarked nodes m ≤ bound → v id m ≢ fuel

  pub visit_each-Ends :
      (bound : ℕ) (v : String → Marks → Visit)
      → Finishes nodes v
      → Ends bound v
      → (ds : List String) (m : Marks) → unmarked nodes m ≤ bound
      → visit_each v ds m ≢ fuel
  unfolding visit_each
  visit_each-Ends bound v fin ends [] m h e = cc
  visit_each-Ends bound v fin ends (d ∷ ds) m h e =
      elim (and_then-eq-fuel (v d m) (visit_each v ds) e) [
        | inl first ↦ ends d m h first
        | inr (a, first, rest) ↦
            let (ext, _) = fin d m a first in
            let le = unmarked-le nodes m a (Extends-unmarked m a ext) in
            visit_each-Ends bound v fin ends ds a (omega (arith, le)) rest
      ]

  -- The search below a node, where every search of a smaller depth ends.
  search_below-Ends :
      (k : ℕ) (id : String) (m : Marks)
      → unmarked nodes m ≤ k
      → lookup id m ≡ none
      → ((j : ℕ) → k ≡ suc j → Ends j (visit nodes k))
      → search_below nodes k id m ≢ fuel
  unfolding dependencies visit_each
  search_below-Ends k id m h fresh ih e = elim (Option-cases (lookup id nodes)) [
    | inl unknown ↦
        let e' : visit_each (visit nodes k) [] (insert id visiting m) ≡ fuel =
          subst (λ ds. visit_each (visit nodes k) ds (insert id visiting m) ≡ fuel)
            (dependencies-unknown nodes id unknown) e in
        cc
    | inr (n, known) ↦
        let lt = unmarked-insert id visiting m nodes known fresh in
        visit_each-Ends (k - 1) (visit nodes k) (visit-Finishes nodes k) (ih (k - 1) (omega arith))
          (dependencies nodes id) (insert id visiting m) (omega arith) e
  ]

  visit-Ends_step :
      (k : ℕ) → ((j : ℕ) → k ≡ suc j → Ends j (visit nodes k)) → Ends k (visit nodes (suc k))
  visit-Ends_step k ih id m h e = elim (Option-cases (lookup id m)) [
    | inl fresh ↦
        elim (and_then-eq-fuel (search_below nodes k id m) (λ a. done (insert id visited a))
          (sym (visit-fresh nodes k id m fresh) ∙ e)) [
            | inl below ↦ search_below-Ends k id m h fresh ih below
            | inr (a, _, last) ↦ cc
          ]
    | inr (visiting, here) ↦ cc (visit-visiting nodes k id m here)
    | inr (visited, here) ↦ cc (visit-visited nodes k id m here)
  ]

  pub visit-Ends : (k : ℕ) → Ends k (visit nodes (suc k))
  visit-Ends zero = visit-Ends_step zero (λ j e. absurd (omega arith))
  visit-Ends (suc k) = visit-Ends_step (suc k) (λ j e.
      let same : k ≡ j = omega arith in
      subst (λ i. Ends i (visit nodes (suc k))) same (visit-Ends k))
