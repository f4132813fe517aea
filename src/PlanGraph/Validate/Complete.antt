-- ===== src/PlanGraph/Validate/Complete.antt =====
-- validatePlan of internal/planexec/executor.go on runnable plans.
use mathlib.Core.Path.{subst}
use feishu_super_search.Prelude.{
  ℕ, suc, ◌<◌, ◌≤◌, String, ◌≡◌, ◌≢◌, refl, sym, true, some, List, [], ◌∷◌, length, Dict, lookup,
  ◌==◌, ok, All, contains, arith, eq_iff, Bool-cases, Option-cases, inl, inr,
}
use feishu_super_search.Kernel.Plan.{PlanNode, RetrievalPlan}
use feishu_super_search.PlanGraph.{
  Mark, visiting, Marks, Visit, done, cycle, fuel, visit_each, visit, dependencies,
}
use feishu_super_search.PlanGraph.Search.{visit-Finishes}
use feishu_super_search.PlanGraph.Depth.{
  unmarked, visit_each-Ends, visit-Ends, dependencies-unknown,
}
use feishu_super_search.PlanGraph.Acyclic.{Above, Descends, visit_each-NoCycle, visit-NoCycle}
use feishu_super_search.PlanGraph.Validate.{
  check_dependencies, check_all_dependencies, check_acyclic, check_shape, validate_plan,
}
use feishu_super_search.PlanGraph.Validate.Index.{
  ids, IsIndex, index_nodes-IsIndex, index_nodes-total, AreFresh-nil,
}
use feishu_super_search.PlanGraph.Validate.Sound.{IsRanking, IsRunnable, lookup-contains}

-- The depth that the check gives is enough for every search.
unmarked-le-length : (nodes : Dict PlanNode) (m : Marks) → unmarked nodes m ≤ length nodes
unmarked-le-length [] m = omega arith
unmarked-le-length (e ∷ nodes) m = ground (arith, unmarked-le-length nodes m)

no_marks : (j : String) → ¬ (lookup {V = Mark} j [] ≡ some visiting)
unfolding lookup
no_marks j h = cc

-- From no marks, the search from every node of a ranked graph ends and reports no cycle.
search_all-done :
    (m : Dict PlanNode) (rank : String → ℕ)
    → Descends m rank
    → (order : List String)
    → (M : Marks) × (visit_each (visit m (suc (length m))) order [] ≡ done M)
search_all-done m rank descends order = go (visit_each (visit m (suc (length m))) order []) refl
  where
    v : String → Marks → Visit
    v = visit m (suc (length m))

    ends : visit_each v order [] ≢ fuel
    ends =
        visit_each-Ends m (length m) v (visit-Finishes m (suc (length m))) (visit-Ends m (length m))
          order [] (unmarked-le-length m [])

    none_above : (xs : List String) → All (λ d. Above m rank descends [] (rank d)) xs
    none_above [] = tt
    none_above (x ∷ xs) = (λ j h. absurd (no_marks j h), none_above xs)

    go : (r : Visit) → visit_each v order [] ≡ r → (M : Marks) × (r ≡ done M)
    go (done M) e = (M, refl)
    go (cycle c) e = absurd (
        visit_each-NoCycle m rank descends v (visit-Finishes m (suc (length m)))
          (visit-NoCycle m rank descends (suc (length m))) order [] (none_above order) c e)
    go fuel e = absurd (ends e)

module _ (m : Dict PlanNode) where
  indexed_id :
      (xs : List PlanNode)
      → All (λ n. lookup n.id m ≡ some n) xs
      → (d : String) → contains d (ids xs) ≡ true
      → (x : PlanNode) × (lookup d m ≡ some x)
  indexed_id [] holds d h = cc
  indexed_id (n ∷ xs) holds d h = elim (Bool-cases (n.id == d)) [
    | inl same ↦ (n, subst (λ k. lookup k m ≡ some n) ((eq_iff n.id d).0 same) holds.0)
    | inr apart ↦ indexed_id xs holds.1 d (ground arith)
  ]

  check_dependencies-ok :
      (xs : List PlanNode)
      → All (λ n. lookup n.id m ≡ some n) xs
      → (id : String) (ds : List String) → All (λ d. contains d (ids xs) ≡ true) ds
      → check_dependencies m id ds ≡ ok tt
  unfolding check_dependencies
  check_dependencies-ok xs holds id [] known = refl
  check_dependencies-ok xs holds id (d ∷ ds) known =
      let (x, e) = indexed_id xs holds d known.0 in
      ground (arith, e, check_dependencies-ok xs holds id ds known.1)

  check_all_dependencies-ok :
      (xs : List PlanNode)
      → All (λ n. lookup n.id m ≡ some n) xs
      → (ns : List PlanNode) → All (λ n. All (λ d. contains d (ids xs) ≡ true) n.depends_on) ns
      → check_all_dependencies m ns ≡ ok tt
  unfolding check_all_dependencies
  check_all_dependencies-ok xs holds [] known = refl
  check_all_dependencies-ok xs holds (n ∷ ns) known = ground (
    arith,
    check_dependencies-ok xs holds n.id n.depends_on known.0,
    check_all_dependencies-ok xs holds ns known.1,
  )

  -- The node that a key finds is one of the list, so what holds of the list holds of it.
  ranked_at :
      (rank : String → ℕ) (xs : List PlanNode)
      → All (λ n. lookup n.id m ≡ some n) xs
      → IsRanking rank xs
      → (id : String) (x : PlanNode) → contains id (ids xs) ≡ true
      → lookup id m ≡ some x
      → All (λ d. rank d < rank id) x.depends_on
  ranked_at rank [] holds ranked id x h e = cc
  ranked_at rank (n ∷ xs) holds ranked id x h e = elim (Bool-cases (n.id == id)) [
    | inl same ↦
        let p : n.id ≡ id = (eq_iff n.id id).0 same in
        let at_id = subst (λ k. lookup k m ≡ some n) p holds.0 in
        let q : n ≡ x = cc in
        subst (λ y. All (λ d. rank d < rank id) y.depends_on) q
          (subst (λ k. All (λ d. rank d < rank k) n.depends_on) p ranked.0)
    | inr apart ↦ ranked_at rank xs holds.1 ranked.1 id x (ground arith) e
  ]

dependencies-known :
    (m : Dict PlanNode) (id : String) (x : PlanNode)
    → lookup id m ≡ some x
    → dependencies m id ≡ x.depends_on
unfolding dependencies
dependencies-known m id x h = ground arith

index-Descends :
    (ns : List PlanNode) (m : Dict PlanNode)
    → IsIndex ns [] m
    → (rank : String → ℕ) → IsRanking rank ns
    → Descends m rank
index-Descends ns m index rank ranked id = elim (Option-cases (lookup id m)) [
  | inl unknown ↦ subst (All (λ d. rank d < rank id)) (sym (dependencies-unknown m id unknown)) tt
  | inr (x, known) ↦
      subst (All (λ d. rank d < rank id)) (sym (dependencies-known m id x known))
        (ranked_at m rank ns index.holds ranked id x (lookup-contains ns m index id x known) known)
]

check_shape-total : (plan : RetrievalPlan) → IsRunnable plan → check_shape plan ≡ ok tt
unfolding check_shape
check_shape-total plan r = ground (
  arith,
  r.version,
  r.some_nodes,
  r.few_nodes,
  eq_iff plan.version "",
  eq_iff plan.version "retrieval-plan/v1",
)

-- The check accepts every runnable plan, in whatever order the nodes are searched: the search
-- needs no more depth than it is given, and finds no cycle.
pub validate_plan_complete :
    (order : List String) (plan : RetrievalPlan)
    → IsRunnable plan
    → validate_plan order plan ≡ ok tt
unfolding validate_plan check_acyclic
validate_plan_complete order plan r =
    let (m, indexed) = index_nodes-total plan.nodes [] r.named (AreFresh-nil plan.nodes) in
    let index = index_nodes-IsIndex plan.nodes [] m indexed in
    let (M, ended) =
      search_all-done m r.rank (index-Descends plan.nodes m index r.rank r.ranked) order in
    ground (
      arith,
      check_shape-total plan r,
      indexed,
      check_all_dependencies-ok m plan.nodes index.holds plan.nodes r.known,
      ended,
    )
