-- ===== src/PlanExec/Rounds.antt =====
-- The parts of a round of Executor.run as sequences of steps.
use feishu_super_search.Prelude.{
  ℕ, zero, suc, String, ◌≡◌, refl, Bool, true, false, not, ◌&&◌, some, List, [], ◌∷◌, ◌==◌, length,
  leb, arith, Bool-cases, Option-cases, inl, inr,
}
use feishu_super_search.Kernel.Plan.{NodeResult, PlanNode}
use feishu_super_search.PlanExec.Rules.{is_terminal}
use feishu_super_search.PlanExec.Nodes.{RuntimeNode, Nodes, find, state_at}
use feishu_super_search.PlanExec.Queue.{
  FloatOrder, ReadyItem, RetryItem, ready_less, retry_less, pop,
}
use feishu_super_search.PlanExec.Run.{
  Run, is_blocked, is_ready, is_running, is_waiting, promote_item, promote_rounds, promote,
  launch_item, may_launch, launch_rounds, launch, dispatch,
}
use feishu_super_search.PlanExec.Receive.{
  settle_blocked, dependency_state, settle, settle_all, finish, complete, open_session, tries_again,
  deliver,
}
use feishu_super_search.PlanExec.Moves.{
  Move, Moves, popped_retry, popped_ready, retry_dropped, retry_promoted, ready_dropped,
  ready_launched, unblocked, skipped, session_opened, retried, finished, here, next, Moves-trans,
  Moves-first,
}

-- No node is both ready and to be skipped.
dependency_state-exclusive :
    (n : PlanNode) (ds : List String) (ns : Nodes)
    → ((dependency_state n ds ns).0 && (dependency_state n ds ns).1) ≡ false
unfolding dependency_state
dependency_state-exclusive n [] ns = refl
dependency_state-exclusive n (d ∷ ds) ns = ground (arith, dependency_state-exclusive n ds ns)

module _ (order : FloatOrder) (concurrency : ℕ) where
  promote_item-Moves :
      (x : RetryItem) (rest : List RetryItem) (r : Run)
      → pop retry_less r.retries ≡ some (x, rest)
      → Move order concurrency r (promote_item x.id (popped_retry rest r))
  unfolding promote_item
  promote_item-Moves x rest r popped = elim (Option-cases (find x.id r.nodes)) [
    | inl absent ↦
        rw (absent, promote_item) (retry_dropped x rest popped (rw (absent, state_at) refl))
    | inr (n, found) ↦ elim (Bool-cases (is_waiting n.state)) [
      | inl waits ↦ rw (found, promote_item, waits) (retry_promoted x rest n popped found waits)
      | inr not_waiting ↦
          rw (found, promote_item, not_waiting)
            (retry_dropped x rest popped (rw (found, state_at) not_waiting))
    ]
  ]

  promote_rounds-Moves : (k now : ℕ) (r : Run) → Moves order concurrency r (promote_rounds k now r)
  unfolding promote_rounds
  promote_rounds-Moves zero now r = here
  promote_rounds-Moves (suc k) now r = elim (Option-cases (pop retry_less r.retries)) [
    | inl none_left ↦ rw (none_left, promote_rounds) here
    | inr ((x, rest), popped) ↦ elim (Bool-cases (leb x.due now)) [
      | inl due ↦
          rw (popped, promote_rounds, due)
            (Moves-first order concurrency (promote_item-Moves x rest r popped)
              (promote_rounds-Moves k now (promote_item x.id (popped_retry rest r))))
      | inr later ↦ rw (popped, promote_rounds, later) here
    ]
  ]

  launch_item-Moves :
      (x : ReadyItem) (rest : List ReadyItem) (r : Run)
      → may_launch concurrency r ≡ true
      → pop (ready_less order) r.ready ≡ some (x, rest)
      → Move order concurrency r (launch_item x.id (popped_ready rest r))
  unfolding launch_item
  launch_item-Moves x rest r free popped = elim (Option-cases (find x.id r.nodes)) [
    | inl absent ↦
        rw (absent, launch_item) (ready_dropped x rest popped (rw (absent, state_at) refl))
    | inr (n, found) ↦ elim (Bool-cases (is_ready n.state)) [
      | inl waits ↦ rw (found, launch_item, waits) (ready_launched x rest n popped found waits free)
      | inr not_ready ↦
          rw (found, launch_item, not_ready)
            (ready_dropped x rest popped (rw (found, state_at) not_ready))
    ]
  ]

  launch_rounds-Moves :
      (k : ℕ) (r : Run) → Moves order concurrency r (launch_rounds order concurrency k r)
  unfolding launch_rounds
  launch_rounds-Moves zero r = here
  launch_rounds-Moves (suc k) r = elim (Bool-cases (may_launch concurrency r)) [
    | inr full ↦ rw (launch_rounds, full) here
    | inl free ↦ elim (Option-cases (pop (ready_less order) r.ready)) [
      | inl none_left ↦ rw (launch_rounds, free, none_left) here
      | inr ((x, rest), popped) ↦
          rw (launch_rounds, free, popped)
            (Moves-first order concurrency (launch_item-Moves x rest r free popped)
              (launch_rounds-Moves k (launch_item x.id (popped_ready rest r))))
    ]
  ]

  pub dispatch-Moves :
      (now : ℕ) (r : Run) → Moves order concurrency r (dispatch order concurrency now r)
  unfolding dispatch promote launch
  dispatch-Moves now r =
      Moves-trans order concurrency (promote_rounds-Moves (length r.retries) now r)
        (launch_rounds-Moves _ _)

  settle_blocked-Moves :
      (id : String) (n : RuntimeNode) (r : Run) (d : Bool × Bool)
      → find id r.nodes ≡ some n
      → is_blocked n.state ≡ true
      → dependency_state n.node n.node.depends_on r.nodes ≡ d
      → (d.0 && d.1) ≡ false
      → Moves order concurrency r (settle_blocked id n d r)
  unfolding settle_blocked
  settle_blocked-Moves id n r (true, false) found blocked e x =
      next here (unblocked id n found blocked e)
  settle_blocked-Moves id n r (false, true) found blocked e x =
      next here (skipped id n found blocked e)
  settle_blocked-Moves id n r (false, false) found blocked e x = here
  settle_blocked-Moves id n r (true, true) found blocked e x = cc

  settle-Moves : (id : String) (r : Run) → Moves order concurrency r (settle id r)
  unfolding settle
  settle-Moves id r = elim (Option-cases (find id r.nodes)) [
    | inl absent ↦ rw (absent, settle) here
    | inr (n, found) ↦ elim (Bool-cases (is_blocked n.state)) [
      | inr other ↦ rw (found, settle, other) here
      | inl blocked ↦
          rw (found, settle, blocked)
            (settle_blocked-Moves id n r _ found blocked refl
              (dependency_state-exclusive n.node n.node.depends_on r.nodes))
    ]
  ]

  pub settle_all-Moves :
      (ids : List String) (r : Run) → Moves order concurrency r (settle_all ids r)
  unfolding settle_all
  settle_all-Moves [] r = here
  settle_all-Moves (id ∷ ids) r =
      Moves-trans order concurrency (settle-Moves id r) (settle_all-Moves ids (settle id r))

  open_session-Moves : (sid : String) (r : Run) → Moves order concurrency r (open_session sid r)
  unfolding open_session
  open_session-Moves sid r = elim (Bool-cases (r.session_id == "" && not (sid == ""))) [
    | inl opens ↦ rw opens (next here (session_opened sid (ground arith) (ground arith)))
    | inr stays ↦ rw stays here
  ]

  deliver-Moves :
      (id : String) (n : RuntimeNode) (res : NodeResult) (now : ℕ) (ids : List String) (r : Run)
      → find id r.nodes ≡ some n
      → is_running n.state ≡ true
      → is_terminal res.state ≡ true
      → Moves order concurrency r (deliver id n res now ids r)
  unfolding deliver tries_again
  deliver-Moves id n res now ids r found under_way ended = elim (Bool-cases (tries_again n res)) [
    | inl again ↦ rw again (
        next here
          (retried id n res now found under_way (ground arith) (ground arith) (ground arith)))
    | inr over ↦ rw over (
        Moves-first order concurrency (finished id n res found under_way ended)
          (settle_all-Moves ids (finish id res r)))
  ]

  -- A result that a goroutine can deliver: its node is running, and the result ends it.
  pub record IsDelivery (r : Run) (id : String) (res : NodeResult) : Type 0 where
    pub node : RuntimeNode
    pub found : find id r.nodes ≡ some node
    pub under_way : is_running node.state ≡ true
    pub ended : is_terminal res.state ≡ true

  pub complete-Moves :
      (id : String) (res : NodeResult) (sid : String) (now : ℕ) (ids : List String) (r : Run)
      → IsDelivery r id res
      → Moves order concurrency r (complete id res sid now ids r)
  unfolding complete open_session
  complete-Moves id res sid now ids r d =
      rw (d.found, complete)
        (Moves-trans order concurrency (open_session-Moves sid r) (
          deliver-Moves id d.node (record res { attempts = d.node.attempt }) now ids
            (open_session sid r) d.found d.under_way d.ended))
