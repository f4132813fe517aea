-- ===== src/PlanValidate/Agreement.antt =====
-- validateSemantics of internal/planvalidate/validate.go beside validatePlan of
-- internal/planexec/executor.go.
use mathlib.Core.Path.{subst}
use feishu_super_search.Prelude.{
  ℕ, suc, String, ◌≡◌, refl, sym, ◌∙◌, Bool, false, none, some, List, [], ◌∷◌, length, Dict, lookup,
  insert, ◌==◌, eq_iff, is_blank, Result, ok, err, refuse, wrap_error, ◌>>◌, >>=-eq-ok, arith,
  Option-cases, Bool-cases, inl, inr,
}
use feishu_super_search.Kernel.Plan.{PlanNode, RetrievalPlan}
use feishu_super_search.PlanGraph.{
  Mark, visiting, visited, Marks, Visit, done, cycle, fuel, and_then, visit_each, visit,
}
use feishu_super_search.PlanGraph.Search.{visit-Finishes, visit-visited}
use feishu_super_search.PlanGraph.Validate.{
  index_nodes, check_all_dependencies, visit_outcome, check_acyclic, check_shape, validate_plan,
}
use feishu_super_search.PlanGraph.Validate.Index.{ids}
use feishu_super_search.PlanGraph.Validate.Sound.{Covers, validate_plan-IsRunnable}
use feishu_super_search.PlanGraph.Validate.Complete.{validate_plan_complete}
use feishu_super_search.PlanValidate.NodeRequest.{Decoders, validate_node_request}
use feishu_super_search.PlanValidate.{
  in_graph, check_own, check_node, index_checked, check_outputs, visit_unvisited,
  validate_semantics,
}

blank-empty : (s : String) → is_blank s ≡ false → (s == "") ≡ false
unfolding is_blank
blank-empty s h = elim (Bool-cases (s == "")) [
  | inr other ↦ other
  | inl same ↦
      let e : s ≡ "" = (eq_iff s "").0 same in
      absurd (subst (λ x. (is_blank x ≡ false) → ⊥) (sym e) (λ f. cc f) h)
]

refuse-ok : {E : Type 0} (b : Bool) (e : E) → refuse b e ≡ ok tt → b ≡ false
refuse-ok b e h = ground arith

check_node-named :
    (decoders : Decoders) (i : ℕ) (n : PlanNode)
    → check_node decoders i n ≡ ok tt
    → (n.id == "") ≡ false
unfolding check_node
check_node-named decoders i n h =
    let (_, _, h₁) = >>=-eq-ok (wrap_error _ (validate_node_request decoders n)) _ h in
    let (_, _, last) = >>=-eq-ok (check_own n.id 0 n.depends_on) _ h₁ in
    blank-empty n.id (refuse-ok (is_blank n.id) _ last)

index_checked-fresh :
    (decoders : Decoders) (i : ℕ) (n : PlanNode) (ns : List PlanNode) (m : Dict PlanNode)
    → lookup n.id m ≡ none
    → index_checked decoders i (n ∷ ns) m
      ≡ (check_node decoders i n >> index_checked decoders (suc i) ns (insert n.id n m))
unfolding index_checked
index_checked-fresh decoders i n ns m fresh = rw (fresh, index_checked) refl

index_checked-index_nodes :
    (decoders : Decoders) (i : ℕ) (ns : List PlanNode) (m m' : Dict PlanNode)
    → index_checked decoders i ns m ≡ ok m'
    → index_nodes ns m ≡ ok m'
unfolding index_checked index_nodes
index_checked-index_nodes decoders i [] m m' h = ground arith
index_checked-index_nodes decoders i (n ∷ ns) m m' h = elim (Option-cases (lookup n.id m)) [
  | inr (x, taken) ↦ absurd (ground arith)
  | inl fresh ↦
      let (_, first, rest) =
        >>=-eq-ok (check_node decoders i n)
          (λ _. index_checked decoders (suc i) ns (insert n.id n m))
          (sym (index_checked-fresh decoders i n ns m fresh) ∙ h) in
      ground (
        arith,
        check_node-named decoders i n (ground (arith, first)),
        index_checked-index_nodes decoders (suc i) ns (insert n.id n m) m' rest,
      )
]

and_then-done :
    (v : Visit) (f : Marks → Visit) (m : Marks)
    → and_then v f ≡ done m
    → (a : Marks) × (v ≡ done a) × (f a ≡ done m)
and_then-done (done a) f m h = (a, refl, h)
and_then-done (cycle id) f m h = cc
and_then-done fuel f m h = cc

-- While no search is under way, passing over a marked node is what a search from it does.
visit_unvisited-visit_each :
    (nodes : Dict PlanNode) (k : ℕ) (order : List String) (m m' : Marks)
    → ((j : String) → ¬ (lookup j m ≡ some visiting))
    → visit_unvisited (visit nodes (suc k)) order m ≡ done m'
    → visit_each (visit nodes (suc k)) order m ≡ done m'
unfolding visit_unvisited visit_each
visit_unvisited-visit_each nodes k [] m m' open_ h = h
visit_unvisited-visit_each nodes k (id ∷ order) m m' open_ h = elim (Option-cases (lookup id m)) [
  | inl fresh ↦
      let v = visit nodes (suc k) in
      let e : visit_unvisited v (id ∷ order) m ≡ and_then (v id m) (visit_unvisited v order) =
        rw (fresh, visit_unvisited) refl in
      let (a, first, rest) = and_then-done (v id m) (visit_unvisited v order) m' (sym e ∙ h) in
      let (ext, _) = visit-Finishes nodes (suc k) id m a first in
      let later =
        visit_unvisited-visit_each nodes k order a m' (λ j here. open_ j (ext.opens_none j here))
          rest in
      rw first later
  | inr (visiting, here) ↦ absurd (open_ id here)
  | inr (visited, here) ↦
      let v = visit nodes (suc k) in
      let e : visit_unvisited v (id ∷ order) m ≡ visit_unvisited v order m =
        rw (here, visit_unvisited) refl in
      rw (visit-visited nodes k id m here)
        (visit_unvisited-visit_each nodes k order m m' open_ (sym e ∙ h))
]

wrap_error-ok :
    {E F A : Type 0} (f : E → F) (r : Result E A) (a : A) → wrap_error f r ≡ ok a → r ≡ ok a
wrap_error-ok f (ok b) a h = ground (arith, h)
wrap_error-ok f (err e) a h = cc

visit_outcome-done : (v : Visit) → visit_outcome v ≡ ok tt → (m : Marks) × (v ≡ done m)
visit_outcome-done (done m) h = (m, refl)
visit_outcome-done (cycle id) h = cc
visit_outcome-done fuel h = cc

Covers-more :
    (id : String) (order : List String) (ns : List PlanNode)
    → Covers order ns
    → Covers (id ∷ order) ns
Covers-more id order [] h = tt
Covers-more id order (n ∷ ns) h = (ground (arith, h.0), Covers-more id order ns h.1)

Covers-ids : (ns : List PlanNode) → Covers (ids ns) ns
Covers-ids [] = tt
Covers-ids (n ∷ ns) =
    (ground (arith, eq_iff n.id n.id), Covers-more n.id (ids ns) ns (Covers-ids ns))

no_marks : (j : String) → ¬ (lookup {V = Mark} j [] ≡ some visiting)
unfolding lookup
no_marks j h = cc

-- The executor's check in the order of the plan's nodes.
validate_semantics-own_order :
    (decoders : Decoders) (plan : RetrievalPlan)
    → check_shape plan ≡ ok tt
    → validate_semantics decoders plan ≡ ok tt
    → validate_plan (ids plan.nodes) plan ≡ ok tt
unfolding validate_semantics validate_plan check_acyclic
validate_semantics-own_order decoders plan shape h =
    let (m, indexed, h₁) = >>=-eq-ok (index_checked decoders 0 plan.nodes []) _ h in
    let (_, known, h₂) =
      >>=-eq-ok (wrap_error in_graph (check_all_dependencies m plan.nodes)) _ h₁ in
    let (_, outputs, h₃) = >>=-eq-ok (check_outputs m plan.output) _ h₂ in
    let (M, searched) = visit_outcome-done _ (wrap_error-ok in_graph _ tt h₃) in
    let all = visit_unvisited-visit_each m (length m) (ids plan.nodes) [] M no_marks searched in
    ground (
      arith,
      shape,
      index_checked-index_nodes decoders 0 plan.nodes [] m indexed,
      wrap_error-ok in_graph (check_all_dependencies m plan.nodes) tt,
      known,
      all,
    )

-- A plan of a supported version, with between 1 and 200 nodes, that passes the validator's
-- semantic check also passes the executor's check, in whatever order that one walks its map of
-- nodes.
pub validate_semantics-validate_plan :
    (decoders : Decoders) (plan : RetrievalPlan)
    → check_shape plan ≡ ok tt
    → validate_semantics decoders plan ≡ ok tt
    → (order : List String) → validate_plan order plan ≡ ok tt
validate_semantics-validate_plan decoders plan shape h order = validate_plan_complete order plan (
    validate_plan-IsRunnable (ids plan.nodes) plan (Covers-ids plan.nodes)
      (validate_semantics-own_order decoders plan shape h))
