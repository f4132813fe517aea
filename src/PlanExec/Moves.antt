-- ===== src/PlanExec/Moves.antt =====
-- The steps of a round as a relation: each change that the loop makes to its variables, with what
-- the code has tested before it.
use feishu_super_search.Prelude.{ℕ, ◌<◌, String, ◌≡◌, true, false, some, List, ◌==◌}
use feishu_super_search.Kernel.Plan.{NodeResult}
use feishu_super_search.PlanExec.Rules.{is_terminal, max_attempts, should_retry}
use feishu_super_search.PlanExec.Nodes.{RuntimeNode, find, state_at}
use feishu_super_search.PlanExec.Queue.{
  FloatOrder, ReadyItem, RetryItem, ready_less, retry_less, pop,
}
use feishu_super_search.PlanExec.Run.{
  Run, is_blocked, is_ready, is_running, is_waiting, is_failed, make_ready, start_node, may_launch,
  is_stuck, skip_stuck, cancel_all,
}
use feishu_super_search.PlanExec.Receive.{skip_node, dependency_state, schedule_retry, finish}

-- A retry that left the heap, and the node that it names.
abbrev pub popped_retry : List RetryItem → Run → Run
popped_retry rest r = record r { retries = rest }

abbrev pub popped_ready : List ReadyItem → Run → Run
popped_ready rest r = record r { ready = rest }

module _ (order : FloatOrder) (concurrency : ℕ) where
  pub data Move (r : Run) : Run → Type 0 where
    retry_dropped :
        (x : RetryItem) (rest : List RetryItem)
        → pop retry_less r.retries ≡ some (x, rest)
        → is_waiting (state_at r.nodes x.id) ≡ false
        → Move r (popped_retry rest r)
    retry_promoted :
        (x : RetryItem) (rest : List RetryItem) (n : RuntimeNode)
        → pop retry_less r.retries ≡ some (x, rest)
        → find x.id r.nodes ≡ some n
        → is_waiting n.state ≡ true
        → Move r (make_ready x.id n.node.priority (popped_retry rest r))
    ready_dropped :
        (x : ReadyItem) (rest : List ReadyItem)
        → pop (ready_less order) r.ready ≡ some (x, rest)
        → is_ready (state_at r.nodes x.id) ≡ false
        → Move r (popped_ready rest r)
    ready_launched :
        (x : ReadyItem) (rest : List ReadyItem) (n : RuntimeNode)
        → pop (ready_less order) r.ready ≡ some (x, rest)
        → find x.id r.nodes ≡ some n
        → is_ready n.state ≡ true
        → may_launch concurrency r ≡ true
        → Move r (start_node x.id n (popped_ready rest r))
    unblocked :
        (id : String) (n : RuntimeNode)
        → find id r.nodes ≡ some n
        → is_blocked n.state ≡ true
        → dependency_state n.node n.node.depends_on r.nodes ≡ (true, false)
        → Move r (make_ready id n.node.priority r)
    skipped :
        (id : String) (n : RuntimeNode)
        → find id r.nodes ≡ some n
        → is_blocked n.state ≡ true
        → dependency_state n.node n.node.depends_on r.nodes ≡ (false, true)
        → Move r (skip_node id r)
    session_opened :
        (sid : String)
        → (r.session_id == "") ≡ true
        → (sid == "") ≡ false
        → Move r (record r { session_id = sid })
    retried :
        (id : String) (n : RuntimeNode) (res : NodeResult) (now : ℕ)
        → find id r.nodes ≡ some n
        → is_running n.state ≡ true
        → is_failed res.state ≡ true
        → should_retry res.error ≡ true
        → n.attempt < max_attempts n.node
        → Move r (schedule_retry id n res now r)
    finished :
        (id : String) (n : RuntimeNode) (res : NodeResult)
        → find id r.nodes ≡ some n
        → is_running n.state ≡ true
        → is_terminal res.state ≡ true
        → Move r (finish id res r)
    all_skipped : is_stuck r ≡ true → Move r (skip_stuck r)
    all_cancelled : (reason : String) → Move r (cancel_all reason r)

  pub data Moves (r : Run) : Run → Type 0 where
    here : Moves r r
    next : {s t : Run} → Moves r s → Move s t → Moves r t

  pub Moves-trans : {r s t : Run} → Moves r s → Moves s t → Moves r t
  Moves-trans p here = p
  Moves-trans p (next q m) = next (Moves-trans p q) m

  pub Moves-first : {r s t : Run} → Move r s → Moves s t → Moves r t
  Moves-first m q = Moves-trans (next here m) q

  -- A property that every step keeps is kept by any number of steps.
  pub Moves-keep :
      (P : Run → Type 0)
      → ((r s : Run) → Move r s → P r → P s)
      → {r s : Run} → Moves r s
      → P r
      → P s
  Moves-keep P step here p = p
  Moves-keep P step (next {s = s} {t = t} ms m) p = step s t m (Moves-keep P step ms p)
