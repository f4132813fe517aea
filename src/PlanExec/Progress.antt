-- ===== src/PlanExec/Progress.antt =====
-- The heaps of Executor.run beside the states of the nodes.
use feishu_super_search.Prelude.{
  ℕ, String, ◌≡◌, refl, Bool, true, false, some, List, [], ◌∷◌, map, arith, ◌==◌, eq_iff,
  Option-cases, inl, inr, ◌⊎◌,
}
use feishu_super_search.Kernel.Errors.{ErrorDetail, new_error}
use feishu_super_search.Kernel.Errors
use feishu_super_search.Kernel.Plan.{NodeState, NodeResult, skipped, cancelled}
use feishu_super_search.PlanExec.Rules.{is_terminal}
use feishu_super_search.PlanExec.Nodes.{RuntimeNode, find, update}
use feishu_super_search.PlanExec.Nodes.Laws.{KeepsNode, find-update, find-map}
use feishu_super_search.PlanExec.Queue.{
  FloatOrder, ReadyItem, RetryItem, ready_less, retry_less, pop, queued, queued-pop, queued-append,
}
use feishu_super_search.PlanExec.Run.{
  Run, is_ready, is_waiting, set_state, make_ready, begin_attempt, start_node, skip_stuck,
  cancel_all, close_open, unschedulable,
}
use feishu_super_search.PlanExec.Receive.{
  skip_blocked, skip_node, retry_item, schedule_retry, finish, await_retry, end_with,
}
use feishu_super_search.PlanExec.Moves.{
  Move, popped_retry, popped_ready, retry_dropped, retry_promoted, ready_dropped, ready_launched,
  unblocked, session_opened, retried, finished, all_skipped, all_cancelled,
}
use feishu_super_search.PlanExec.Moves
use feishu_super_search.PlanExec.Transitions.{close_open-KeepsNode}

abbrev pub on_ready : String → Run → Bool
on_ready j r = queued (λ (x : ReadyItem). x.id) j r.ready

abbrev pub on_retries : String → Run → Bool
on_retries j r = queued (λ (x : RetryItem). x.id) j r.retries

-- One node stands on the heap that its state asks for.
pub record IsQueued (r : Run) (j : String) (n : RuntimeNode) : Type 0 where
  pub ready : is_ready n.state ≡ true → on_ready j r ≡ true
  pub waiting : is_waiting n.state ≡ true → on_retries j r ≡ true

abbrev pub AreQueued : Run → Type 0
AreQueued r = (j : String) (n : RuntimeNode) → find j r.nodes ≡ some n → IsQueued r j n

-- All nodes but `id` stand on their heaps.
abbrev pub AreQueuedBut : String → Run → Type 0
AreQueuedBut id r =
    (j : String) (n : RuntimeNode) → (id == j) ≡ false → find j r.nodes ≡ some n → IsQueued r j n

module _ (id : String) (r : Run) (h : AreQueuedBut id r) where
  -- A write after which the node is neither ready nor waiting.
  IsQueued-update_idle :
      (f : RuntimeNode → RuntimeNode)
      → KeepsNode f
      → ((n : RuntimeNode) → (is_ready (f n).state ≡ false) × (is_waiting (f n).state ≡ false))
      → (j : String) (n' : RuntimeNode) → find j (update id f r.nodes) ≡ some n'
      → IsQueued r j n'
  IsQueued-update_idle f keeps idle j n' e = elim (Option-cases (find j r.nodes)) [
    | inl absent ↦ absurd (ground (arith, find-update id j f keeps r.nodes))
    | inr (n, found) ↦
        ground (
          arith,
          find-update id j f keeps r.nodes,
          idle n,
          λ (p : (id == j) ≡ false). h j n p found,
        )
  ]

  queued-make_ready : (priority : ℕ) → AreQueued (make_ready id priority r)
  unfolding make_ready
  queued-make_ready priority j n' e = elim (Option-cases (find j r.nodes)) [
    | inl absent ↦
        absurd (ground (arith, find-update id j (set_state NodeState.ready) (λ m. refl) r.nodes))
    | inr (n, found) ↦ ground (
      arith,
      find-update id j (set_state NodeState.ready) (λ m. refl) r.nodes,
      queued-append (λ (x : ReadyItem). x.id) j r.ready
          (record { id = id; priority = priority; seq = r.seq } ∷ []),
      λ (p : (id == j) ≡ false). h j n p found,
    )
  ]

  queued-schedule_retry :
      (m : RuntimeNode) (res : NodeResult) (now : ℕ) → AreQueued (schedule_retry id m res now r)
  unfolding schedule_retry
  queued-schedule_retry m res now j n' e = elim (Option-cases (find j r.nodes)) [
    | inl absent ↦ absurd (ground (arith, find-update id j (await_retry res) (λ m. refl) r.nodes))
    | inr (n, found) ↦ ground (
      arith,
      find-update id j (await_retry res) (λ m. refl) r.nodes,
      queued-append (λ (x : RetryItem). x.id) j r.retries (retry_item id m now r.seq ∷ []),
      λ (p : (id == j) ≡ false). h j n p found,
    )
  ]

module _ (r : Run) (h : AreQueued r) where
  queued-but : (id : String) → AreQueuedBut id r
  queued-but id j n apart found = h j n found

  queued-popped_retry :
      (x : RetryItem) (rest : List RetryItem)
      → pop retry_less r.retries ≡ some (x, rest)
      → AreQueuedBut x.id (popped_retry rest r)
  queued-popped_retry x rest popped j n apart found =
      ground (arith, h j n found, queued-pop retry_less (λ (y : RetryItem). y.id) j r.retries)

  queued-popped_ready :
      (order : FloatOrder) (x : ReadyItem) (rest : List ReadyItem)
      → pop (ready_less order) r.ready ≡ some (x, rest)
      → AreQueuedBut x.id (popped_ready rest r)
  queued-popped_ready order x rest popped j n apart found =
      ground (arith, h j n found, queued-pop (ready_less order) (λ (y : ReadyItem). y.id) j r.ready)

  IsQueued-close_open :
      (s : NodeState) (e : ErrorDetail)
      → (s ≡ skipped) ⊎ (s ≡ cancelled)
      → (j : String) (n' : RuntimeNode) → find j (map (close_open s e) r.nodes) ≡ some n'
      → IsQueued r j n'
  IsQueued-close_open s e lost j n' there = elim (Option-cases (find j r.nodes)) [
    | inl absent ↦
        absurd (ground (arith, find-map j (close_open s e) (close_open-KeepsNode s e lost) r.nodes))
    | inr (n, found) ↦ ground (
      arith,
      h j n found,
      lost,
      find-map j (close_open s e) (close_open-KeepsNode s e lost) r.nodes,
    )
  ]

terminal-idle :
    (s : NodeState) → is_terminal s ≡ true → (is_ready s ≡ false) × (is_waiting s ≡ false)
terminal-idle s h = (ground arith, ground arith)

pub Move-AreQueued :
    (order : FloatOrder) (concurrency : ℕ) (r s : Run)
    → Move order concurrency r s
    → AreQueued r
    → AreQueued s
unfolding start_node skip_stuck cancel_all skip_node finish
Move-AreQueued order concurrency r _ (retry_dropped x rest popped idle) h j n found =
    ground (
      arith,
      h j n found,
      eq_iff x.id j,
      queued-pop retry_less (λ (y : RetryItem). y.id) j r.retries,
    )
Move-AreQueued order concurrency r _ (retry_promoted x rest n popped found waits) h j n' e =
    queued-make_ready x.id (popped_retry rest r) (queued-popped_retry r h x rest popped)
      n.node.priority j n' e
Move-AreQueued order concurrency r _ (ready_dropped x rest popped idle) h j n found = ground (
  arith,
  h j n found,
  eq_iff x.id j,
  queued-pop (ready_less order) (λ (y : ReadyItem). y.id) j r.ready,
)
Move-AreQueued order concurrency r _ (ready_launched x rest n popped found waits free) h j n' e =
    let q =
      IsQueued-update_idle x.id (popped_ready rest r) (queued-popped_ready r h order x rest popped)
        begin_attempt (λ m. refl) (λ m. (refl, refl)) j n' e in
    record { ready = q.ready; waiting = q.waiting }
Move-AreQueued order concurrency r _ (unblocked id n found blocked free) h j n' e =
    queued-make_ready id r (queued-but r h id) n.node.priority j n' e
Move-AreQueued order concurrency r _ (Moves.skipped id n found blocked e) h j n' there =
    let q =
      IsQueued-update_idle id r (queued-but r h id) skip_blocked (λ m. refl) (λ m. (refl, refl)) j
        n' there in
    record { ready = q.ready; waiting = q.waiting }
Move-AreQueued order concurrency r _ (session_opened sid old new) h j n found = record {
  ready = (h j n found).ready;
  waiting = (h j n found).waiting;
}
Move-AreQueued order concurrency r _ (retried id n res now found under failed again few) h j n' e =
    queued-schedule_retry id r (queued-but r h id) n res now j n' e
Move-AreQueued order concurrency r _ (finished id n res found under done) h j n' there =
    let q =
      IsQueued-update_idle id r (queued-but r h id) (end_with res) (λ m. refl)
        (λ m. terminal-idle res.state done) j n' there in
    record { ready = q.ready; waiting = q.waiting }
Move-AreQueued order concurrency r _ (all_skipped stuck) h j n' there =
    let q = IsQueued-close_open r h skipped unschedulable (inl refl) j n' there in
    record { ready = q.ready; waiting = q.waiting }
Move-AreQueued order concurrency r _ (all_cancelled reason) h j n' there =
    let q =
      IsQueued-close_open r h cancelled (new_error Errors.cancelled reason) (inr refl) j n' there in
    record { ready = q.ready; waiting = q.waiting }
