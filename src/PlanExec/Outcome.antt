-- ===== src/PlanExec/Outcome.antt =====
-- The end of Executor.run: what the plan returns once its loop is left.
use feishu_super_search.Prelude.{
  String, Bool, true, false, none, some, List, [], ◌∷◌, ◌++◌, map, any, Dict, lookup, insert,
  if◌then◌else◌,
}
use feishu_super_search.Kernel.Limits.{BudgetState}
use feishu_super_search.Kernel.Plan.{
  NodeState, failed, partial, skipped, cancelled, NodeResult, RetrievalPlan, PlanResult,
}
use feishu_super_search.PlanExec.Nodes.{RuntimeNode}
use feishu_super_search.PlanExec.Run.{Run, session_partial, session_completed}

-- The states of a result that make the plan's result a partial one.
abbrev pub is_short : NodeState → Bool
is_short failed = true
is_short partial = true
is_short skipped = true
is_short cancelled = true
is_short _ = false

abbrev pub is_short_result : RuntimeNode → Bool
is_short_result n = is_short n.result.state

abbrev entry : RuntimeNode → String × NodeResult
entry n = (n.node.id, n.result)

-- The loop over the ids of the plan's output; an id that is no node is passed over.
unfoldable pub select_output : List String → Dict NodeResult → Dict NodeResult
select_output [] nodes = []
select_output (id ∷ ids) nodes =
    let rest = select_output ids nodes in
    elim (lookup id nodes) [ none ↦ rest | some r ↦ insert id r rest ]

abbrev pub output_of : List String → Dict NodeResult → Dict NodeResult
output_of [] nodes = nodes
output_of (id ∷ ids) nodes = select_output (id ∷ ids) nodes

unfoldable pub conclude : RetrievalPlan → BudgetState → Run → PlanResult
conclude plan budget r = record {
  session_id = r.session_id;
  nodes = map entry r.nodes;
  output = output_of plan.output (map entry r.nodes);
  partial = any is_short_result r.nodes;
  budget = budget;
}

-- The last event.
unfoldable pub announce : Run → Run
announce r = record r {
  events =
      r.events ++ (if any is_short_result r.nodes then session_partial else session_completed) ∷ [];
}
