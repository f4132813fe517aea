-- ===== src/PlanExec/Counts.antt =====
-- The two counters of the loop, the bound on the concurrency, and the serial start.
use feishu_super_search.Prelude.{
  ℕ, ◌≤◌, ◌+◌, ◌≡◌, refl, Bool, true, false, [], ◌∷◌, map, ◌==◌, count, arith,
}
use feishu_super_search.Kernel.Errors.{ErrorDetail, new_error}
use feishu_super_search.Kernel.Errors
use feishu_super_search.Kernel.Plan.{NodeState, cancelled, skipped}
use feishu_super_search.PlanExec.Rules.{is_terminal}
use feishu_super_search.PlanExec.Nodes.{RuntimeNode, Nodes}
use feishu_super_search.PlanExec.Nodes.Laws.{count-update}
use feishu_super_search.PlanExec.Queue.{FloatOrder}
use feishu_super_search.PlanExec.Run.{
  Run, is_running, is_open, is_stuck, set_state, make_ready, begin_attempt, start_node, may_launch,
  skip_stuck, cancel_all, unschedulable, close_open,
}
use feishu_super_search.PlanExec.Receive.{
  skip_blocked, skip_node, schedule_retry, finish, await_retry, end_with,
}
use feishu_super_search.PlanExec.Moves.{
  Move, Moves, retry_dropped, retry_promoted, ready_dropped, ready_launched, unblocked,
  session_opened, retried, finished, all_skipped, all_cancelled,
}
use feishu_super_search.PlanExec.Moves

abbrev pub runs : RuntimeNode → Bool
runs n = is_running n.state

abbrev pub ended : RuntimeNode → Bool
ended n = is_terminal n.state

pub record Counts (concurrency : ℕ) (r : Run) : Type 0 where
  pub running : r.running ≡ count runs r.nodes
  pub terminal : r.terminal ≡ count ended r.nodes
  pub bounded : r.running ≤ concurrency
  pub serial : (r.session_id == "") ≡ true → r.running ≤ 1

terminal-not_running : (s : NodeState) → is_terminal s ≡ true → is_running s ≡ false
terminal-not_running s h = ground arith

module _ (s : NodeState) (e : ErrorDetail) (final : is_terminal s ≡ true) where
  -- Closing all open nodes leaves none running and all ended.
  count-close_open :
      (ns : Nodes)
      → (count runs (map (close_open s e) ns) ≡ 0)
        × (count ended (map (close_open s e) ns) ≡ count ended ns + count is_open ns)
  count-close_open [] = (refl, refl)
  count-close_open (n ∷ ns) =
      ground (arith, count-close_open ns, terminal-not_running n.state, terminal-not_running s)

pub Move-Counts :
    (order : FloatOrder) (concurrency : ℕ) (r s : Run)
    → Move order concurrency r s
    → Counts concurrency r
    → Counts concurrency s
unfolding make_ready start_node may_launch skip_stuck cancel_all skip_node schedule_retry finish
    is_stuck
Move-Counts order concurrency r _ (retry_dropped x rest popped idle) c = ground arith
Move-Counts order concurrency r _ (retry_promoted x rest n popped found waits) c = ground (
  arith,
  count-update runs x.id (set_state NodeState.ready) r.nodes n found,
  count-update ended x.id (set_state NodeState.ready) r.nodes n found,
)
Move-Counts order concurrency r _ (ready_dropped x rest popped idle) c = ground arith
Move-Counts order concurrency r _ (ready_launched x rest n popped found waits free) c = ground (
  arith,
  count-update runs x.id begin_attempt r.nodes n found,
  count-update ended x.id begin_attempt r.nodes n found,
)
Move-Counts order concurrency r _ (unblocked id n found blocked e) c = ground (
  arith,
  count-update runs id (set_state NodeState.ready) r.nodes n found,
  count-update ended id (set_state NodeState.ready) r.nodes n found,
)
Move-Counts order concurrency r _ (Moves.skipped id n found blocked e) c = ground (
  arith,
  count-update runs id skip_blocked r.nodes n found,
  count-update ended id skip_blocked r.nodes n found,
)
Move-Counts order concurrency r _ (session_opened sid old new) c = ground arith
Move-Counts order concurrency r _ (retried id n res now found under failed again few) c = ground (
  arith,
  count-update runs id (await_retry res) r.nodes n found,
  count-update ended id (await_retry res) r.nodes n found,
  terminal-not_running n.state,
)
Move-Counts order concurrency r _ (finished id n res found under done) c = ground (
  arith,
  count-update runs id (end_with res) r.nodes n found,
  count-update ended id (end_with res) r.nodes n found,
  terminal-not_running res.state done,
  terminal-not_running n.state,
)
Move-Counts order concurrency r _ (all_skipped stuck) c =
    ground (arith, count-close_open skipped unschedulable refl r.nodes)
Move-Counts order concurrency r _ (all_cancelled reason) c =
    ground (arith, count-close_open cancelled (new_error Errors.cancelled reason) refl r.nodes)
