-- ===== src/PlanGraph.antt =====
-- The dependency graph of a plan: the depth-first search for cycles that
-- internal/planvalidate/validate.go and internal/planexec/executor.go both make.
pub mod Ranks
pub mod Search
pub mod Depth
pub mod Acyclic
pub mod Validate
pub mod Examples
use feishu_super_search.Prelude.{
  ℕ, zero, suc, String, none, some, List, [], ◌∷◌, Dict, lookup, insert,
}
use feishu_super_search.Kernel.Plan.{PlanNode}

-- The two marks of a node that was reached; one without a mark is unvisited.
pub data Mark : Type 0 where
  visiting visited : Mark

abbrev pub Marks : Type 0
Marks = Dict Mark

-- `fuel` is the model's own outcome: the recursion was cut off.
pub data Visit : Type 0 where
  done : Marks → Visit
  cycle : String → Visit
  fuel : Visit

-- `nodes[id].DependsOn`: a missing node has none.
unfoldable pub dependencies : Dict PlanNode → String → List String
dependencies nodes id = elim (lookup id nodes) [ none ↦ [] | some n ↦ n.depends_on ]

abbrev pub and_then : Visit → (Marks → Visit) → Visit
and_then (done m) f = f m
and_then (cycle id) f = cycle id
and_then fuel f = fuel

-- The loop over the dependencies, over any function for the recursive call.
unfoldable pub visit_each : (String → Marks → Visit) → List String → Marks → Visit
visit_each v [] m = done m
visit_each v (d ∷ ds) m = and_then (v d m) (visit_each v ds)

abbrev pub mark_visited : String → Visit → Visit
mark_visited id v = and_then v (λ m. done (insert id visited m))

-- `visit`, by recursion on the depth that is left.
unfoldable pub visit : Dict PlanNode → ℕ → String → Marks → Visit
visit nodes zero id m = fuel
visit nodes (suc k) id m = elim (lookup id m) [
  | some mark ↦ elim mark [ visiting ↦ cycle id | visited ↦ done m ]
  | none ↦
      mark_visited id (visit_each (visit nodes k) (dependencies nodes id) (insert id visiting m))
]
