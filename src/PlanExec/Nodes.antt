-- ===== src/PlanExec/Nodes.antt =====
-- The map `runtime` of the executor: the nodes of the plan with their states, each under its id.
pub mod Laws
use feishu_super_search.Prelude.{ℕ, String, Option, none, some, List, [], ◌∷◌, ◌==◌, if◌then◌else◌}
use feishu_super_search.Kernel.Plan.{PlanNode, NodeState, NodeResult, planned}

-- runtimeNode; its `index` is read nowhere and is left out.
pub record RuntimeNode : Type 0 where
  pub node : PlanNode
  pub state : NodeState
  pub result : NodeResult
  pub attempt : ℕ

abbrev pub Nodes : Type 0
Nodes = List RuntimeNode

-- `runtime[id]`
unfoldable pub find : String → Nodes → Option RuntimeNode
find id [] = none
find id (n ∷ ns) = let rest = find id ns in if n.node.id == id then some n else rest

-- A write to the fields of `runtime[id]`.
unfoldable pub update : String → (RuntimeNode → RuntimeNode) → Nodes → Nodes
update id f [] = []
update id f (n ∷ ns) = let rest = update id f ns in if n.node.id == id then f n ∷ ns else n ∷ rest

-- The state of a node; the program reads no node that is not in the plan.
abbrev pub state_at : Nodes → String → NodeState
state_at ns id = elim (find id ns) [ none ↦ planned | some n ↦ n.state ]
