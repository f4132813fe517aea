-- ===== src/PlanGraph/Acyclic.antt =====
-- The search for cycles in a graph whose nodes are ranked above their dependencies.
use feishu_super_search.Prelude.{
  ℕ, zero, suc, ◌<◌, String, ◌≡◌, ◌≢◌, refl, some, List, [], ◌∷◌, Dict, lookup, insert,
  lookup-insert, arith, eq_iff, inl, inr, ◌⊎◌, Option-cases, sym, ◌∙◌, All, All-imp,
}
use feishu_super_search.Kernel.Plan.{PlanNode}
use feishu_super_search.PlanGraph.{
  visiting, visited, Marks, Visit, done, cycle, fuel, dependencies, and_then, visit_each, visit,
}
use feishu_super_search.PlanGraph.Search.{
  Finishes, visit-Finishes, visit-fresh, visit-visited, search_below,
}

-- Every dependency of a node has a lower rank.
abbrev pub Descends : Dict PlanNode → (String → ℕ) → Type 0
Descends nodes rank = (id : String) → All (λ d. rank d < rank id) (dependencies nodes id)

module _ (nodes : Dict PlanNode) (rank : String → ℕ) (descends : Descends nodes rank) where
  -- The nodes on the way from the root are ranked above what is searched.
  abbrev pub Above : Marks → ℕ → Type 0
  Above m bound = (j : String) → lookup j m ≡ some visiting → bound < rank j

  abbrev pub NoCycle : (String → Marks → Visit) → Type 0
  NoCycle v = (id : String) (m : Marks) → Above m (rank id) → (c : String) → v id m ≢ cycle c

  and_then-eq-cycle :
      (v : Visit) (f : Marks → Visit) (c : String)
      → and_then v f ≡ cycle c
      → (v ≡ cycle c) ⊎ ((a : Marks) × (v ≡ done a) × (f a ≡ cycle c))
  and_then-eq-cycle (done a) f c h = inr (a, refl, h)
  and_then-eq-cycle (cycle id) f c h = inl h
  and_then-eq-cycle fuel f c h = inl h

  pub visit_each-NoCycle :
      (v : String → Marks → Visit)
      → Finishes nodes v
      → NoCycle v
      → (ds : List String) (m : Marks) → All (λ d. Above m (rank d)) ds
      → (c : String) → visit_each v ds m ≢ cycle c
  unfolding visit_each
  visit_each-NoCycle v fin nc [] m h c e = cc
  visit_each-NoCycle v fin nc (d ∷ ds) m h c e =
      elim (and_then-eq-cycle (v d m) (visit_each v ds) c e) [
        | inl first ↦ nc d m h.0 c first
        | inr (a, first, rest) ↦
            let (ext, _) = fin d m a first in
            visit_each-NoCycle v fin nc ds a
              (All-imp (λ x. Above m (rank x)) (λ x. Above a (rank x))
                (λ x above j open_. above j (ext.opens_none j open_)) ds h.1)
              c rest
      ]

  below-Above :
      (id : String) (m : Marks)
      → Above m (rank id)
      → (ds : List String) → All (λ d. rank d < rank id) ds
      → All (λ d. Above (insert id visiting m) (rank d)) ds
  below-Above id m above [] lower = tt
  below-Above id m above (d ∷ ds) lower = (
    λ j open_. ground (arith, lookup-insert id j visiting m, eq_iff id j, above j, lower.0),
    below-Above id m above ds lower.1,
  )

  pub visit-NoCycle : (k : ℕ) → NoCycle (visit nodes k)
  unfolding visit
  visit-NoCycle zero id m above c e = cc
  visit-NoCycle (suc k) id m above c e = elim (Option-cases (lookup id m)) [
    | inl fresh ↦
        elim (and_then-eq-cycle (search_below nodes k id m) (λ a. done (insert id visited a)) c
          (sym (visit-fresh nodes k id m fresh) ∙ e)) [
            | inl below ↦
                visit_each-NoCycle (visit nodes k) (visit-Finishes nodes k) (visit-NoCycle k)
                  (dependencies nodes id) (insert id visiting m)
                  (below-Above id m above (dependencies nodes id) (descends id)) c below
            | inr (a, _, last) ↦ cc
          ]
    | inr (visiting, here) ↦ absurd (omega (arith, above id here))
    | inr (visited, here) ↦ cc (visit-visited nodes k id m here)
  ]
