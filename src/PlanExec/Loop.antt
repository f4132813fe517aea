-- ===== src/PlanExec/Loop.antt =====
-- The loop of `run`: its start, its rounds, and the runs that the environment can make it take.
use feishu_super_search.Prelude.{
  ℕ, ◌<◌, ◌+◌, String, ◌≡◌, true, false, none, some, List, [], ◌∷◌, ◌++◌, map, length,
  if◌then◌else◌,
}
use feishu_super_search.Kernel.Plan.{
  NodeState, blocked, planned, PlanNode, NodeResult, RetrievalPlan,
}
use feishu_super_search.PlanExec.Nodes.{RuntimeNode, find}
use feishu_super_search.PlanExec.Queue.{FloatOrder}
use feishu_super_search.PlanExec.Run.{
  Run, session_started, is_ready, is_empty, is_stuck, skip_stuck, dispatch,
}
use feishu_super_search.PlanExec.Receive.{Signal, retry_timer, context_done, completed, receive}
use feishu_super_search.PlanExec.Moves.{
  Move, Moves, all_skipped, all_cancelled, here, next, Moves-trans, Moves-keep,
}
use feishu_super_search.PlanExec.Rounds.{IsDelivery, dispatch-Moves, complete-Moves}

-- The zero NodeResult.
abbrev pub no_result : NodeResult
no_result = record {
  node_id = "";
  state = planned;
  attempts = 0;
  candidates = [];
  artifacts = [];
  relations = [];
  value = none;
  error = none;
}

abbrev pub first_state : List String → NodeState
first_state [] = NodeState.ready
first_state (_ ∷ _) = blocked

abbrev pub start_of : PlanNode → RuntimeNode
start_of n = record { node = n; state = first_state n.depends_on; result = no_result; attempt = 0 }

abbrev pub empty_run : RetrievalPlan → Run
empty_run plan = record {
  nodes = map start_of plan.nodes;
  ready = [];
  retries = [];
  seq = 0;
  running = 0;
  terminal = 0;
  session_id = plan.session_id;
  events = session_started plan.version ∷ [];
}

-- One node of the loop that fills the heap: a ready node goes onto it with its number.
unfoldable pub enqueue : String → Run → Run
enqueue id r = elim (find id r.nodes) [
  | none ↦ r
  | some n ↦
      if is_ready n.state
      then record r {
        ready = r.ready ++ record { id = id; priority = n.node.priority; seq = r.seq } ∷ [];
        seq = r.seq + 1;
      }
      else r
]

unfoldable pub enqueue_all : List String → Run → Run
enqueue_all [] r = r
enqueue_all (id ∷ ids) r = enqueue_all ids (enqueue id r)

-- The state before the first round; `order` is the order in which the program's map is walked.
unfoldable pub initial : List String → RetrievalPlan → Run
initial order plan = enqueue_all order (empty_run plan)

module _ (order : FloatOrder) (concurrency : ℕ) where
  -- What the `select` can receive. Its timer runs only if a retry waits.
  abbrev pub CanReceive : Signal → Run → Type 0
  CanReceive retry_timer r = is_empty r.retries ≡ false
  CanReceive (context_done reason) r = Unit
  CanReceive (completed id res sid) r = IsDelivery order concurrency r id res

  -- One round, at two readings of the clock and in some order of the map.
  pub data Round (r : Run) : Run → Type 0 where
    left :
        (now : ℕ)
        → is_stuck (dispatch order concurrency now r) ≡ true
        → Round r (skip_stuck (dispatch order concurrency now r))
    received :
        (now later : ℕ) (ids : List String) (signal : Signal)
        → is_stuck (dispatch order concurrency now r) ≡ false
        → CanReceive signal (dispatch order concurrency now r)
        → Round r (receive signal later ids (dispatch order concurrency now r))

  -- The states at the head of the loop, while its condition holds.
  pub data Reach (start : Run) : Run → Type 0 where
    begin : Reach start start
    again : {r s : Run} → Reach start r → r.terminal < length r.nodes → Round r s → Reach start s

  receive-Moves :
      (signal : Signal) (now : ℕ) (ids : List String) (r : Run)
      → CanReceive signal r
      → Moves order concurrency r (receive signal now ids r)
  unfolding receive
  receive-Moves retry_timer now ids r h = here
  receive-Moves (context_done reason) now ids r h = next here (all_cancelled reason)
  receive-Moves (completed id res sid) now ids r h =
      complete-Moves order concurrency id res sid now ids r h

  pub Round-Moves : {r s : Run} → Round r s → Moves order concurrency r s
  Round-Moves {r} (left now stuck) =
      next (dispatch-Moves order concurrency now r) (all_skipped stuck)
  Round-Moves {r} (received now later ids signal free can) =
      Moves-trans order concurrency (dispatch-Moves order concurrency now r)
        (receive-Moves signal later ids (dispatch order concurrency now r) can)

  pub Reach-Moves : {start r : Run} → Reach start r → Moves order concurrency start r
  Reach-Moves begin = here
  Reach-Moves (again path open_ round) =
      Moves-trans order concurrency (Reach-Moves path) (Round-Moves round)

  -- What every step keeps holds at the head of every round.
  pub Reach-keep :
      (P : Run → Type 0)
      → ((r s : Run) → Move order concurrency r s → P r → P s)
      → {start r : Run} → Reach start r
      → P start
      → P r
  Reach-keep P step path p = Moves-keep order concurrency P step (Reach-Moves path) p
