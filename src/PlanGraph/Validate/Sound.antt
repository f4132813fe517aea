-- ===== src/PlanGraph/Validate/Sound.antt =====
-- The plans that validatePlan of internal/planexec/executor.go accepts.
use mathlib.Core.Path.{subst}
use feishu_super_search.Prelude.{
  ℕ, suc, ◌<◌, ◌≤◌, String, ◌≡◌, refl, true, some, List, [], ◌∷◌, length, Dict, lookup, ok,
  >>=-eq-ok, All, All-imp, contains, arith, eq_iff, Option-cases, inl, inr, ◌⊎◌,
}
use feishu_super_search.Kernel.Plan.{PlanNode, RetrievalPlan}
use feishu_super_search.PlanGraph.{
  visited, Marks, Visit, done, cycle, fuel, visit_each, visit, dependencies,
}
use feishu_super_search.PlanGraph.Ranks.{IsRanked}
use feishu_super_search.PlanGraph.Search.{visit_each-Finishes, visit-Finishes}
use feishu_super_search.PlanGraph.Validate.{
  index_nodes, check_dependencies, check_all_dependencies, visit_outcome, check_acyclic,
  check_shape, validate_plan,
}
use feishu_super_search.PlanGraph.Validate.Index.{ids, AreNamed, IsIndex, index_nodes-IsIndex}

-- Every dependency stands below its node.
abbrev pub IsRanking : (String → ℕ) → List PlanNode → Type 0
IsRanking rank ns = All (λ n. All (λ d. rank d < rank n.id) n.depends_on) ns

abbrev pub AreKnown : List PlanNode → Type 0
AreKnown ns = All (λ n. All (λ d. contains d (ids ns) ≡ true) n.depends_on) ns

-- A plan that the executor can run.
pub record IsRunnable (plan : RetrievalPlan) : Type 0 where
  pub version : (plan.version ≡ "") ⊎ (plan.version ≡ "retrieval-plan/v1")
  pub some_nodes : 0 < length plan.nodes
  pub few_nodes : length plan.nodes ≤ 200
  pub named : AreNamed plan.nodes
  pub known : AreKnown plan.nodes
  pub rank : String → ℕ
  pub ranked : IsRanking rank plan.nodes

-- The order in which the program's map is walked names every node.
abbrev pub Covers : List String → List PlanNode → Type 0
Covers order ns = All (λ n. contains n.id order ≡ true) ns

visit_outcome-ok : (v : Visit) → visit_outcome v ≡ ok tt → (M : Marks) × (v ≡ done M)
visit_outcome-ok (done M) h = (M, refl)
visit_outcome-ok (cycle id) h = cc
visit_outcome-ok fuel h = cc

module _ (ns : List PlanNode) (m : Dict PlanNode) (index : IsIndex ns [] m) where
  pub lookup-contains :
      (d : String) (x : PlanNode) → lookup d m ≡ some x → contains d (ids ns) ≡ true
  unfolding lookup
  lookup-contains d x h = elim (index.only d x h) [ inl e ↦ absurd cc | inr e ↦ e ]

  check_dependencies-known :
      (id : String) (ds : List String)
      → check_dependencies m id ds ≡ ok tt
      → All (λ d. contains d (ids ns) ≡ true) ds
  unfolding check_dependencies
  check_dependencies-known id [] h = tt
  check_dependencies-known id (d ∷ ds) h = elim (Option-cases (lookup d m)) [
    | inl unknown ↦ absurd (ground arith)
    | inr (x, known) ↦ (lookup-contains d x known, check_dependencies-known id ds (ground arith))
  ]

  check_all_dependencies-known :
      (xs : List PlanNode)
      → check_all_dependencies m xs ≡ ok tt
      → All (λ n. All (λ d. contains d (ids ns) ≡ true) n.depends_on) xs
  unfolding check_all_dependencies
  check_all_dependencies-known [] h = tt
  check_all_dependencies-known (n ∷ xs) h =
      let (a, first, rest) =
        >>=-eq-ok (check_dependencies m n.id n.depends_on) (λ _. check_all_dependencies m xs) h in
      (
        check_dependencies-known n.id n.depends_on (ground (arith, first)),
        check_all_dependencies-known xs rest,
      )

  All-contains :
      (M : Marks) (order : List String)
      → All (λ d. lookup d M ≡ some visited) order
      → (k : String) → contains k order ≡ true
      → lookup k M ≡ some visited
  All-contains M [] all k h = cc
  All-contains M (d ∷ order) all k h =
      ground
        (arith, all.0, eq_iff d k, λ (p : contains k order ≡ true). All-contains M order all.1 k p)

  pub dependencies-of : (n : PlanNode) → lookup n.id m ≡ some n → dependencies m n.id ≡ n.depends_on
  unfolding dependencies
  dependencies-of n h = ground arith

  IsRanking-of :
      (M : Marks) (rank : String → ℕ)
      → ((j : String)
          → lookup j M ≡ some visited
          → All (λ d. (lookup d M ≡ some visited) × (rank d < rank j)) (dependencies m j))
      → (xs : List PlanNode) → All (λ n. lookup n.id m ≡ some n) xs
      → All (λ n. lookup n.id M ≡ some visited) xs
      → IsRanking rank xs
  IsRanking-of M rank h [] holds seen = tt
  IsRanking-of M rank h (n ∷ xs) holds seen = (
    subst (λ ds. All (λ d. rank d < rank n.id) ds) (dependencies-of n holds.0)
        (All-imp _ (λ d. rank d < rank n.id) (λ d p. p.1) (dependencies m n.id) (h n.id seen.0)),
    IsRanking-of M rank h xs holds.1 seen.1,
  )

  no_marks-IsRanked : IsRanked m []
  unfolding lookup
  no_marks-IsRanked = (λ _. 0, 0, λ j h. cc)

  -- A search from every node that reports no error ranks the nodes.
  check_acyclic-IsRanking :
      (order : List String)
      → Covers order ns
      → check_acyclic m order ≡ ok tt
      → (rank : String → ℕ) × IsRanking rank ns
  unfolding check_acyclic
  check_acyclic-IsRanking order covers h =
      let (M, ended) = visit_outcome-ok (visit_each (visit m (suc (length m))) order []) h in
      let (ext, seen) =
        visit_each-Finishes m (visit m (suc (length m))) (visit-Finishes m (suc (length m))) order
          [] M ended in
      let (rank, bound, ranks) = ext.ranks no_marks-IsRanked in
      (
        rank,
        IsRanking-of M rank (λ j there. (ranks j there).1) ns index.holds
            (All-imp (λ n. contains n.id order ≡ true) (λ n. lookup n.id M ≡ some visited)
              (λ n. All-contains M order seen n.id) ns covers),
      )

check_shape-ok :
    (plan : RetrievalPlan)
    → check_shape plan ≡ ok tt
    → ((plan.version ≡ "") ⊎ (plan.version ≡ "retrieval-plan/v1"))
      × (0 < length plan.nodes)
      × (length plan.nodes ≤ 200)
unfolding check_shape
check_shape-ok plan h = (
  ground (arith, eq_iff plan.version "", eq_iff plan.version "retrieval-plan/v1"),
  ground arith,
  ground arith,
)

-- A plan that passes the check, made in an order that covers its nodes, is runnable: its
-- version is supported, it has between 1 and 200 nodes, with distinct names that are not empty,
-- their dependencies are nodes of the plan, and a rank falls along every dependency, so no
-- chain of them is a cycle.
pub validate_plan-IsRunnable :
    (order : List String) (plan : RetrievalPlan)
    → Covers order plan.nodes
    → validate_plan order plan ≡ ok tt
    → IsRunnable plan
unfolding validate_plan
validate_plan-IsRunnable order plan covers h =
    let (_, shape, h₁) = >>=-eq-ok (check_shape plan) _ h in
    let (m, indexed, h₂) = >>=-eq-ok (index_nodes plan.nodes []) _ h₁ in
    let (_, known, searched) = >>=-eq-ok (check_all_dependencies m plan.nodes) _ h₂ in
    let index = index_nodes-IsIndex plan.nodes [] m indexed in
    let (version, some_nodes, few_nodes) = check_shape-ok plan (ground (arith, shape)) in
    let (rank, ranked) = check_acyclic-IsRanking plan.nodes m index order covers searched in
    record {
      version = version;
      some_nodes = some_nodes;
      few_nodes = few_nodes;
      named = index.named;
      known = check_all_dependencies-known plan.nodes m index plan.nodes (ground (arith, known));
      rank = rank;
      ranked = ranked;
    }
