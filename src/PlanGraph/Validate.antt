-- ===== src/PlanGraph/Validate.antt =====
-- validatePlan of internal/planexec/executor.go, the check that the executor makes of every plan.
pub mod Index
pub mod Sound
pub mod Complete
use feishu_super_search.Prelude.{
  suc, String, not, ◌&&◌, none, some, List, [], ◌∷◌, length, Dict, lookup, insert, ltb, eqb, ◌==◌,
  if◌then◌else◌, Result, ok, err, ◌>>=◌, ◌>>◌,
}
use feishu_super_search.Kernel.Plan.{PlanNode, RetrievalPlan}
use feishu_super_search.PlanGraph.{Visit, done, cycle, fuel, visit_each, visit}

-- The errors, by the message that each carries. `too_deep` is the model's own: the search was cut
-- off, which it never is.
pub data PlanError : Type 0 where
  unsupported_version : String → PlanError
  no_nodes too_many_nodes empty_id too_deep : PlanError
  duplicate_node cyclic : String → PlanError
  unknown_dependency : String → String → PlanError

abbrev pub Check : Type 0
Check = Result PlanError (Unit {0})

-- The loop that fills the map of nodes.
unfoldable pub index_nodes : List PlanNode → Dict PlanNode → Result PlanError (Dict PlanNode)
index_nodes [] m = ok m
index_nodes (n ∷ ns) m =
    let rest = index_nodes ns (insert n.id n m) in
    if n.id == ""
    then err empty_id
    else elim (lookup n.id m) [ some _ ↦ err (duplicate_node n.id) | none ↦ rest ]

unfoldable pub check_dependencies : Dict PlanNode → String → List String → Check
check_dependencies m id [] = ok tt
check_dependencies m id (d ∷ ds) =
    let rest = check_dependencies m id ds in
    elim (lookup d m) [ none ↦ err (unknown_dependency id d) | some _ ↦ rest ]

unfoldable pub check_all_dependencies : Dict PlanNode → List PlanNode → Check
check_all_dependencies m [] = ok tt
check_all_dependencies m (n ∷ ns) =
    check_dependencies m n.id n.depends_on >> check_all_dependencies m ns

abbrev pub visit_outcome : Visit → Check
visit_outcome (done _) = ok tt
visit_outcome (cycle id) = err (cyclic id)
visit_outcome fuel = err too_deep

-- The search from every node, in the order in which the program's map gives them; the depth is
-- one more than there are nodes.
unfoldable pub check_acyclic : Dict PlanNode → List String → Check
check_acyclic m order = visit_outcome (visit_each (visit m (suc (length m))) order [])

-- The tests of the version and the size.
unfoldable pub check_shape : RetrievalPlan → Check
check_shape plan =
    if not (plan.version == "") && not (plan.version == "retrieval-plan/v1")
    then err (unsupported_version plan.version)
    else if eqb (length plan.nodes) 0
    then err no_nodes
    else if ltb 200 (length plan.nodes)
    then err too_many_nodes
    else ok tt

unfoldable pub validate_plan : List String → RetrievalPlan → Check
validate_plan order plan = do
  check_shape plan
  m ← index_nodes plan.nodes []
  check_all_dependencies m plan.nodes
  check_acyclic m order
