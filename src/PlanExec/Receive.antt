-- ===== src/PlanExec/Receive.antt =====
-- What a round of the loop does with what its `select` receives.
use feishu_super_search.Prelude.{
  ℕ, ◌-◌, ◌+◌, String, Bool, true, false, not, ◌&&◌, none, some, List, [], ◌∷◌, ◌++◌, map, ltb,
  pos_part, neg_part, ◌==◌, if◌then◌else◌,
}
use feishu_super_search.Kernel.Errors.{new_error, upstream_permanent}
use feishu_super_search.Kernel.Plan.{retry_wait, skipped, PlanNode, NodeResult}
use feishu_super_search.PlanExec.Rules.{
  is_terminal, is_lost, accepts_partial, max_attempts, should_retry, retry_delay,
}
use feishu_super_search.PlanExec.Nodes.{RuntimeNode, Nodes, find, update, state_at}
use feishu_super_search.PlanExec.Queue.{RetryItem}
use feishu_super_search.PlanExec.Run.{
  Run, Event, node_retrying, node_completed, candidate_upsert, artifact_upsert, is_blocked,
  is_failed, make_ready, close, cancel_all,
}

-- dependencyState: whether the node is ready, and whether it is to be skipped.
unfoldable pub dependency_state : PlanNode → List String → Nodes → Bool × Bool
dependency_state n [] ns = (true, false)
dependency_state n (d ∷ ds) ns =
    let rest = dependency_state n ds ns in
    if not (is_terminal (state_at ns d))
    then (false, false)
    else if is_lost (state_at ns d) && not n.optional && not (accepts_partial n.op)
    then (false, true)
    else rest

abbrev pub skip_blocked : RuntimeNode → RuntimeNode
skip_blocked = close skipped (new_error upstream_permanent "required dependency failed")

unfoldable pub skip_node : String → Run → Run
skip_node id r = record r {
  nodes = update id skip_blocked r.nodes;
  terminal = r.terminal + 1;
  events = r.events ++ node_completed id skipped 0 none ∷ [];
}

-- A blocked node, by what `dependency_state` says of it.
unfoldable pub settle_blocked : String → RuntimeNode → Bool × Bool → Run → Run
settle_blocked id n (now_ready, skip) r =
    if skip then skip_node id r else if now_ready then make_ready id n.node.priority r else r

-- One node of the loop after a completion.
unfoldable pub settle : String → Run → Run
settle id r = elim (find id r.nodes) [
  | none ↦ r
  | some n ↦
      if is_blocked n.state
      then settle_blocked id n (dependency_state n.node n.node.depends_on r.nodes) r
      else r
]

-- The loop over the map of nodes, in the order in which the program's map gives them.
unfoldable pub settle_all : List String → Run → Run
settle_all [] r = r
settle_all (id ∷ order) r = settle_all order (settle id r)

abbrev pub await_retry : NodeResult → RuntimeNode → RuntimeNode
await_retry res n = record n { state = retry_wait; result = res }

abbrev pub end_with : NodeResult → RuntimeNode → RuntimeNode
end_with res n = record n { state = res.state; result = res }

-- The item that brings the node back after its delay.
abbrev pub retry_item : String → RuntimeNode → ℕ → ℕ → RetryItem
retry_item id n now seq =
    let delay = retry_delay n.node n.attempt in
    record { id = id; due = now + pos_part delay - neg_part delay; seq = seq }

-- A failed attempt that is tried again.
unfoldable pub schedule_retry : String → RuntimeNode → NodeResult → ℕ → Run → Run
schedule_retry id n res now r = record r {
  nodes = update id (await_retry res) r.nodes;
  retries = r.retries ++ retry_item id n now r.seq ∷ [];
  seq = r.seq + 1;
  running = r.running - 1;
  events = r.events ++ node_retrying id n.attempt (retry_delay n.node n.attempt) res.error ∷ [];
}

-- The events of a completed node.
unfoldable pub completion_events : String → NodeResult → List Event
completion_events id res =
    node_completed id res.state res.attempts res.error
    ∷ (map (candidate_upsert id) res.candidates ++ map (artifact_upsert id) res.artifacts)

unfoldable pub finish : String → NodeResult → Run → Run
finish id res r = record r {
  nodes = update id (end_with res) r.nodes;
  running = r.running - 1;
  terminal = r.terminal + 1;
  events = r.events ++ completion_events id res;
}

-- The first session id that a node returns becomes that of the plan.
unfoldable pub open_session : String → Run → Run
open_session sid r = record r {
  session_id = if r.session_id == "" && not (sid == "") then sid else r.session_id;
}

unfoldable pub tries_again : RuntimeNode → NodeResult → Bool
tries_again n res =
    is_failed res.state && should_retry res.error && ltb n.attempt (max_attempts n.node)

-- The result of the node, after the session is known.
unfoldable pub deliver : String → RuntimeNode → NodeResult → ℕ → List String → Run → Run
deliver id n res now order r =
    if tries_again n res then schedule_retry id n res now r else settle_all order (finish id res r)

-- A goroutine has delivered its result, and perhaps the id of a session.
unfoldable pub complete : String → NodeResult → String → ℕ → List String → Run → Run
complete id res sid now order r = elim (find id r.nodes) [
  | none ↦ r
  | some n ↦ deliver id n (record res { attempts = n.attempt }) now order (open_session sid r)
]

-- What the `select` of a round receives.
pub data Signal : Type 0 where
  retry_timer : Signal
  context_done : (reason : String) → Signal
  completed : (id : String) (result : NodeResult) (session_id : String) → Signal

unfoldable pub receive : Signal → ℕ → List String → Run → Run
receive retry_timer now order r = r
receive (context_done reason) now order r = cancel_all reason r
receive (completed id res sid) now order r = complete id res sid now order r
