-- ===== src/PlanExec/Transitions.antt =====
-- What a step of the loop does to one node: the state machine of a node.
use mathlib.Core.Path.{subst}
use feishu_super_search.Prelude.{
  ℕ, ◌<◌, String, ◌≡◌, refl, true, false, some, map, ◌==◌, arith, eq_iff, Bool-cases, Option-cases,
  inl, inr, ◌⊎◌,
}
use feishu_super_search.Kernel.Errors.{ErrorDetail, new_error}
use feishu_super_search.Kernel.Errors
use feishu_super_search.Kernel.Plan.{NodeState, NodeResult, cancelled, skipped}
use feishu_super_search.PlanExec.Rules.{is_terminal, max_attempts}
use feishu_super_search.PlanExec.Nodes.{RuntimeNode, Nodes, find, update}
use feishu_super_search.PlanExec.Nodes.Laws.{KeepsNode, find-update, find-map}
use feishu_super_search.PlanExec.Queue.{FloatOrder}
use feishu_super_search.PlanExec.Run.{
  Run, is_running, is_blocked, is_ready, is_waiting, is_open, set_state, make_ready, begin_attempt,
  start_node, skip_stuck, cancel_all, close, close_open, unschedulable,
}
use feishu_super_search.PlanExec.Receive.{
  skip_blocked, skip_node, schedule_retry, finish, await_retry, end_with, dependency_state,
}
use feishu_super_search.PlanExec.Moves.{
  Move, retry_dropped, retry_promoted, ready_dropped, ready_launched, unblocked, session_opened,
  retried, finished, all_skipped, all_cancelled,
}
use feishu_super_search.PlanExec.Moves

-- The transitions of a node among the nodes `ns`.
pub data Transition (ns : Nodes) (n : RuntimeNode) (n' : RuntimeNode) : Type 0 where
  stays : n' ≡ n → Transition ns n n'
  wakes : is_waiting n.state ≡ true → n' ≡ set_state NodeState.ready n → Transition ns n n'
  unblocks :
      is_blocked n.state ≡ true
      → dependency_state n.node n.node.depends_on ns ≡ (true, false)
      → n' ≡ set_state NodeState.ready n
      → Transition ns n n'
  starts : is_ready n.state ≡ true → n' ≡ begin_attempt n → Transition ns n n'
  retries :
      (res : NodeResult)
      → is_running n.state ≡ true
      → n.attempt < max_attempts n.node
      → n' ≡ await_retry res n
      → Transition ns n n'
  ends :
      (res : NodeResult)
      → is_running n.state ≡ true
      → is_terminal res.state ≡ true
      → n' ≡ end_with res n
      → Transition ns n n'
  closes :
      (s : NodeState) (e : ErrorDetail)
      → is_open n ≡ true
      → (s ≡ skipped) ⊎ (s ≡ cancelled)
      → n' ≡ close s e n
      → Transition ns n n'

-- A node of the new state was there before, and made a transition.
abbrev pub Came : Nodes → String → RuntimeNode → Type 0
Came ns id n' = (n : RuntimeNode) × (find id ns ≡ some n) × Transition ns n n'

Came-same : (ns : Nodes) (id : String) (n' : RuntimeNode) → find id ns ≡ some n' → Came ns id n'
Came-same ns id n' h = (n', h, stays refl)

-- After a write to one node, every other node stays.
Came-update :
    (ns : Nodes) (id : String) (f : RuntimeNode → RuntimeNode)
    → KeepsNode f
    → (n : RuntimeNode) → find id ns ≡ some n
    → Transition ns n (f n)
    → (j : String) (n' : RuntimeNode) → find j (update id f ns) ≡ some n'
    → Came ns j n'
Came-update ns id f keeps n found t j n' h = elim (Bool-cases (id == j)) [
  | inl same ↦
      let e : id ≡ j = (eq_iff id j).0 same in
      let here : find j ns ≡ some n = subst (λ k. find k ns ≡ some n) e found in
      let out : f n ≡ n' = ground (arith, find-update id j f keeps ns) in
      (n, here, subst (Transition ns n) out t)
  | inr apart ↦ Came-same ns j n' (ground (arith, find-update id j f keeps ns))
]

module _ (s : NodeState) (e : ErrorDetail) (lost : (s ≡ skipped) ⊎ (s ≡ cancelled)) where
  pub close_open-KeepsNode : KeepsNode (close_open s e)
  close_open-KeepsNode n = ground arith

  Came-close_open :
      (ns : Nodes) (j : String) (n' : RuntimeNode)
      → find j (map (close_open s e) ns) ≡ some n'
      → Came ns j n'
  Came-close_open ns j n' h = elim (Option-cases (find j ns)) [
    | inl absent ↦ absurd (ground (arith, find-map j (close_open s e) close_open-KeepsNode ns))
    | inr (n, found) ↦ elim (Bool-cases (is_open n)) [
      | inl opened ↦ (
        n,
        found,
        closes s e opened lost
            (ground (arith, find-map j (close_open s e) close_open-KeepsNode ns)),
      )
      | inr shut ↦
          (n, found, stays (ground (arith, find-map j (close_open s e) close_open-KeepsNode ns)))
    ]
  ]

blocked-open : (n : RuntimeNode) → is_blocked n.state ≡ true → is_open n ≡ true
blocked-open n h = ground arith

-- Every step of the loop moves each node by a transition of the state machine.
pub Move-Came :
    (order : FloatOrder) (concurrency : ℕ) (r s : Run)
    → Move order concurrency r s
    → (j : String) (n' : RuntimeNode) → find j s.nodes ≡ some n'
    → Came r.nodes j n'
unfolding make_ready start_node skip_stuck cancel_all skip_node schedule_retry finish
Move-Came order concurrency r _ (retry_dropped x rest popped idle) j n' = Came-same r.nodes j n'
Move-Came order concurrency r _ (retry_promoted x rest n popped found waits) j n' =
    Came-update r.nodes x.id (set_state NodeState.ready) (λ m. refl) n found (wakes waits refl) j n'
Move-Came order concurrency r _ (ready_dropped x rest popped idle) j n' = Came-same r.nodes j n'
Move-Came order concurrency r _ (ready_launched x rest n popped found waits free) j n' =
    Came-update r.nodes x.id begin_attempt (λ m. refl) n found (starts waits refl) j n'
Move-Came order concurrency r _ (unblocked id n found blocked e) j n' =
    Came-update r.nodes id (set_state NodeState.ready) (λ m. refl) n found (unblocks blocked e refl)
      j n'
Move-Came order concurrency r _ (Moves.skipped id n found blocked e) j n' =
    Came-update r.nodes id skip_blocked (λ m. refl) n found
      (closes skipped _ (blocked-open n blocked) (inl refl) refl) j n'
Move-Came order concurrency r _ (session_opened sid old new) j n' = Came-same r.nodes j n'
Move-Came order concurrency r _ (retried id n res now found under failed again few) j n' =
    Came-update r.nodes id (await_retry res) (λ m. refl) n found (retries res under few refl) j n'
Move-Came order concurrency r _ (finished id n res found under done) j n' =
    Came-update r.nodes id (end_with res) (λ m. refl) n found (ends res under done refl) j n'
Move-Came order concurrency r _ (all_skipped stuck) j n' =
    Came-close_open skipped unschedulable (inl refl) r.nodes j n'
Move-Came order concurrency r _ (all_cancelled reason) j n' =
    Came-close_open cancelled (new_error Errors.cancelled reason) (inr refl) r.nodes j n'
