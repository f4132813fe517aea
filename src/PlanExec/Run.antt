-- ===== src/PlanExec/Run.antt =====
-- The loop of the executor: its state, and what each part of a round does to it.
use feishu_super_search.Prelude.{
  ℕ, zero, suc, ◌+◌, String, Bool, true, false, not, ◌&&◌, Option, none, some, List, [], ◌∷◌, ◌++◌,
  map, length, count, ltb, leb, eqb, ℤ, ◌==◌, if◌then◌else◌,
}
use feishu_super_search.Kernel.Errors.{ErrorDetail, new_error, internal}
use feishu_super_search.Kernel.Errors
use feishu_super_search.Kernel.Objects.{Candidate, Artifact}
use feishu_super_search.Kernel.Plan.{
  PlanOp, NodeState, blocked, retry_wait, failed, skipped, cancelled, NodeResult,
}
use feishu_super_search.PlanExec.Rules.{is_terminal}
use feishu_super_search.PlanExec.Nodes.{RuntimeNode, Nodes, find, update}
use feishu_super_search.PlanExec.Queue.{
  FloatOrder, ReadyItem, RetryItem, ready_less, retry_less, pop,
}

-- What `emit` sends, in order; the delay of a retry is in nanoseconds here. The channel may drop
-- events once the context is done.
pub data Event : Type 0 where
  session_started : (version : String) → Event
  node_started : String → PlanOp → ℕ → Event
  node_retrying : String → ℕ → ℤ → Option ErrorDetail → Event
  node_completed : String → NodeState → ℕ → Option ErrorDetail → Event
  candidate_upsert : String → Candidate → Event
  artifact_upsert : String → Artifact → Event
  session_partial session_completed : Event

-- The variables of the loop. A goroutine is under way exactly for each node in state `running`.
pub record Run : Type 0 where
  pub nodes : Nodes
  pub ready : List ReadyItem
  pub retries : List RetryItem
  pub seq : ℕ
  pub running : ℕ
  pub terminal : ℕ
  pub session_id : String
  pub events : List Event

abbrev pub is_blocked : NodeState → Bool
is_blocked blocked = true
is_blocked _ = false

abbrev pub is_ready : NodeState → Bool
is_ready NodeState.ready = true
is_ready _ = false

abbrev pub is_running : NodeState → Bool
is_running NodeState.running = true
is_running _ = false

abbrev pub is_waiting : NodeState → Bool
is_waiting retry_wait = true
is_waiting _ = false

abbrev pub is_failed : NodeState → Bool
is_failed failed = true
is_failed _ = false

abbrev pub set_state : NodeState → RuntimeNode → RuntimeNode
set_state s n = record n { state = s }

-- The node becomes ready and goes onto the heap with the next sequence number.
unfoldable pub make_ready : String → ℕ → Run → Run
make_ready id priority r = record r {
  nodes = update id (set_state NodeState.ready) r.nodes;
  ready = r.ready ++ record { id = id; priority = priority; seq = r.seq } ∷ [];
  seq = r.seq + 1;
}

-- A retry that is due: its node becomes ready, if it still waits.
unfoldable pub promote_item : String → Run → Run
promote_item id r = elim (find id r.nodes) [
  | none ↦ r
  | some n ↦ if is_waiting n.state then make_ready id n.node.priority r else r
]

-- The loop over the due retries, for at most `rounds` of them.
unfoldable pub promote_rounds : ℕ → ℕ → Run → Run
promote_rounds zero now r = r
promote_rounds (suc rounds) now r = elim (pop retry_less r.retries) [
  | none ↦ r
  | some (x, rest) ↦ elim (leb x.due now) [
    | true ↦ promote_rounds rounds now (promote_item x.id (record r { retries = rest }))
    | false ↦ r
  ]
]

unfoldable pub promote : ℕ → Run → Run
promote now r = promote_rounds (length r.retries) now r

abbrev pub begin_attempt : RuntimeNode → RuntimeNode
begin_attempt n = record n { state = NodeState.running; attempt = n.attempt + 1 }

unfoldable pub start_node : String → RuntimeNode → Run → Run
start_node id n r = record r {
  nodes = update id begin_attempt r.nodes;
  running = r.running + 1;
  events = r.events ++ node_started id n.node.op (n.attempt + 1) ∷ [];
}

unfoldable pub launch_item : String → Run → Run
launch_item id r = elim (find id r.nodes) [
  | none ↦ r
  | some n ↦ if is_ready n.state then start_node id n r else r
]

-- The bound on the concurrency, and the serial start of a plan that has no session yet.
unfoldable pub may_launch : ℕ → Run → Bool
may_launch concurrency r = ltb r.running concurrency && not (r.session_id == "" && ltb 0 r.running)

-- The dispatch loop, for at most `rounds` items of the heap.
unfoldable pub launch_rounds : FloatOrder → ℕ → ℕ → Run → Run
launch_rounds order concurrency zero r = r
launch_rounds order concurrency (suc rounds) r = elim (may_launch concurrency r) [
  | false ↦ r
  | true ↦ elim (pop (ready_less order) r.ready) [
    | none ↦ r
    | some (x, rest) ↦
        launch_rounds order concurrency rounds (launch_item x.id (record r { ready = rest }))
  ]
]

unfoldable pub launch : FloatOrder → ℕ → Run → Run
launch order concurrency r = launch_rounds order concurrency (length r.ready) r

abbrev pub is_empty {ℓ} : {A : Type ℓ} → List A → Bool
is_empty [] = true
is_empty (_ ∷ _) = false

unfoldable pub is_stuck : Run → Bool
is_stuck r = eqb r.running 0 && is_empty r.ready && is_empty r.retries

abbrev pub is_open : RuntimeNode → Bool
is_open n = not (is_terminal n.state)

-- The result of a node that the executor itself ends.
abbrev pub closed_result : NodeState → ErrorDetail → RuntimeNode → NodeResult
closed_result s e n = record {
  node_id = n.node.id;
  state = s;
  attempts = n.attempt;
  candidates = [];
  artifacts = [];
  relations = [];
  value = none;
  error = some e;
}

abbrev pub close : NodeState → ErrorDetail → RuntimeNode → RuntimeNode
close s e n = record n { state = s; result = closed_result s e n }

abbrev pub close_open : NodeState → ErrorDetail → RuntimeNode → RuntimeNode
close_open s e n = if is_open n then close s e n else n

abbrev pub unschedulable : ErrorDetail
unschedulable = new_error internal "node could not be scheduled"

-- The remaining nodes cannot be scheduled: all are skipped, and the loop is left.
unfoldable pub skip_stuck : Run → Run
skip_stuck r = record r {
  nodes = map (close_open skipped unschedulable) r.nodes;
  terminal = r.terminal + count is_open r.nodes;
}

-- The context is done: all open nodes are cancelled.
unfoldable pub cancel_all : String → Run → Run
cancel_all reason r = record r {
  nodes = map (close_open cancelled (new_error Errors.cancelled reason)) r.nodes;
  running = 0;
  terminal = r.terminal + count is_open r.nodes;
}

-- The part of a round before its `select`.
unfoldable pub dispatch : FloatOrder → ℕ → ℕ → Run → Run
dispatch order concurrency now r = launch order concurrency (promote now r)
