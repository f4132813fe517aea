-- ===== src/PlanValidate.antt =====
-- internal/planvalidate/validate.go: the semantic check of a plan that a client submits. The check
-- of its JSON against a schema comes before it, and is not modelled.
pub mod NodeRequest
pub mod Agreement
pub mod Examples
use feishu_super_search.Prelude.{
  ℕ, suc, String, none, some, List, [], ◌∷◌, length, Dict, lookup, insert, ◌==◌, is_blank, Result,
  ok, err, refuse, wrap_error, ◌>>=◌, ◌>>◌,
}
use feishu_super_search.Kernel.Plan.{PlanNode, RetrievalPlan}
use feishu_super_search.PlanGraph.{Marks, Visit, done, and_then, visit}
use feishu_super_search.PlanGraph.Validate.{
  PlanError, duplicate_node, check_all_dependencies, visit_outcome,
}
use feishu_super_search.PlanGraph.Validate.Index.{ids}
use feishu_super_search.PlanValidate.NodeRequest.{Decoders, NodeError, validate_node_request}

-- The errors, by the message that each carries; `in_graph` holds those that the executor's check
-- also has, in other words.
pub data SemanticError : Type 0 where
  in_graph : PlanError → SemanticError
  in_request : String → NodeError → SemanticError
  depends_on_itself : String → SemanticError
  empty_dependency : String → ℕ → SemanticError
  blank_id : ℕ → SemanticError
  unknown_output : String → SemanticError

-- The loop over the dependencies of one node, from index `j` on.
unfoldable pub check_own : String → ℕ → List String → Result SemanticError (Unit {0})
check_own id j [] = ok tt
check_own id j (d ∷ ds) = do
  refuse (d == id) (depends_on_itself id)
  refuse (is_blank d) (empty_dependency id j)
  check_own id (suc j) ds

unfoldable pub check_node : Decoders → ℕ → PlanNode → Result SemanticError (Unit {0})
check_node decoders i n = do
  wrap_error (in_request n.id) (validate_node_request decoders n)
  check_own n.id 0 n.depends_on
  refuse (is_blank n.id) (blank_id i)

-- The loop that fills the map of nodes, from index `i` on.
unfoldable pub index_checked :
    Decoders → ℕ → List PlanNode → Dict PlanNode → Result SemanticError (Dict PlanNode)
index_checked decoders i [] m = ok m
index_checked decoders i (n ∷ ns) m =
    let rest = index_checked decoders (suc i) ns (insert n.id n m) in
    elim (lookup n.id m) [
      | some _ ↦ err (in_graph (duplicate_node n.id))
      | none ↦ check_node decoders i n >> rest
    ]

unfoldable pub check_outputs : Dict PlanNode → List String → Result SemanticError (Unit {0})
check_outputs m [] = ok tt
check_outputs m (id ∷ rest) =
    let others = check_outputs m rest in
    elim (lookup id m) [ none ↦ err (unknown_output id) | some _ ↦ others ]

-- The search from every node that has no mark yet, over any function for one search.
unfoldable pub visit_unvisited : (String → Marks → Visit) → List String → Marks → Visit
visit_unvisited v [] m = done m
visit_unvisited v (id ∷ ids) m =
    let skipped = visit_unvisited v ids m in
    elim (lookup id m) [ some _ ↦ skipped | none ↦ and_then (v id m) (visit_unvisited v ids) ]

-- validateSemantics; the depth of the search is one more than there are nodes.
unfoldable pub validate_semantics : Decoders → RetrievalPlan → Result SemanticError (Unit {0})
validate_semantics decoders plan = do
  m ← index_checked decoders 0 plan.nodes []
  wrap_error in_graph (check_all_dependencies m plan.nodes)
  check_outputs m plan.output
  wrap_error in_graph
      (visit_outcome (visit_unvisited (visit m (suc (length m))) (ids plan.nodes) []))
