-- ===== src/PlanExec/Stable.antt =====
-- The nodes of Executor.run that have ended, over the rest of the run.
use mathlib.Core.Path.{subst}
use feishu_super_search.Prelude.{
  ℕ, String, ◌≡◌, refl, Bool, true, false, none, some, map, arith, Option-cases, inl, inr,
}
use feishu_super_search.Kernel.Errors.{new_error}
use feishu_super_search.Kernel.Errors
use feishu_super_search.Kernel.Plan.{NodeState, cancelled, skipped}
use feishu_super_search.PlanExec.Nodes.{RuntimeNode, Nodes, find, update}
use feishu_super_search.PlanExec.Nodes.Laws.{KeepsNode, find-update, find-map}
use feishu_super_search.PlanExec.Queue.{FloatOrder}
use feishu_super_search.PlanExec.Run.{
  Run, set_state, make_ready, begin_attempt, start_node, skip_stuck, cancel_all, close_open,
  unschedulable,
}
use feishu_super_search.PlanExec.Receive.{
  skip_blocked, skip_node, schedule_retry, finish, await_retry, end_with,
}
use feishu_super_search.PlanExec.Moves.{
  Move, Moves-keep, retry_dropped, retry_promoted, ready_dropped, ready_launched, unblocked,
  session_opened, retried, finished, all_skipped, all_cancelled,
}
use feishu_super_search.PlanExec.Moves
use feishu_super_search.PlanExec.Counts.{ended}
use feishu_super_search.PlanExec.Loop.{Reach, Reach-Moves}
use feishu_super_search.PlanExec.Transitions.{
  Transition, stays, wakes, unblocks, starts, retries, ends, closes, Move-Came,
  close_open-KeepsNode,
}

abbrev known : String → Nodes → Bool
known j ns = elim (find j ns) [ none ↦ false | some _ ↦ true ]

known-update :
    (j id : String) (f : RuntimeNode → RuntimeNode)
    → KeepsNode f
    → (ns : Nodes) → known j (update id f ns) ≡ known j ns
known-update j id f keeps ns = ground (arith, find-update id j f keeps ns)

known-map :
    (j : String) (f : RuntimeNode → RuntimeNode)
    → KeepsNode f
    → (ns : Nodes) → known j (map f ns) ≡ known j ns
known-map j f keeps ns = ground (arith, find-map j f keeps ns)

module _ (order : FloatOrder) (concurrency : ℕ) where
  -- No step adds or removes a node.
  Move-known :
      (j : String) (r s : Run) → Move order concurrency r s → known j s.nodes ≡ known j r.nodes
  unfolding make_ready start_node skip_stuck cancel_all skip_node schedule_retry finish
  Move-known j r _ (retry_dropped x rest popped idle) = refl
  Move-known j r _ (retry_promoted x rest n popped found waits) =
      known-update j x.id (set_state NodeState.ready) (λ m. refl) r.nodes
  Move-known j r _ (ready_dropped x rest popped idle) = refl
  Move-known j r _ (ready_launched x rest n popped found waits free) =
      known-update j x.id begin_attempt (λ m. refl) r.nodes
  Move-known j r _ (unblocked id n found blocked e) =
      known-update j id (set_state NodeState.ready) (λ m. refl) r.nodes
  Move-known j r _ (Moves.skipped id n found blocked e) =
      known-update j id skip_blocked (λ m. refl) r.nodes
  Move-known j r _ (session_opened sid old new) = refl
  Move-known j r _ (retried id n res now found under failed again few) =
      known-update j id (await_retry res) (λ m. refl) r.nodes
  Move-known j r _ (finished id n res found under done) =
      known-update j id (end_with res) (λ m. refl) r.nodes
  Move-known j r _ (all_skipped stuck) =
      known-map j (close_open skipped unschedulable)
        (close_open-KeepsNode skipped unschedulable (inl refl)) r.nodes
  Move-known j r _ (all_cancelled reason) =
      known-map j (close_open cancelled (new_error Errors.cancelled reason))
        (close_open-KeepsNode cancelled (new_error Errors.cancelled reason) (inr refl)) r.nodes

  -- A step makes a transition of each node.
  pub Move-goes :
      (r s : Run)
      → Move order concurrency r s
      → (j : String) (n : RuntimeNode) → find j r.nodes ≡ some n
      → (n' : RuntimeNode) × (find j s.nodes ≡ some n') × Transition r.nodes n n'
  Move-goes r s m j n found = elim (Option-cases (find j s.nodes)) [
    | inl absent ↦ absurd (ground (arith, Move-known j r s m))
    | inr (n', there) ↦
        let (n₀, found₀, t) = Move-Came order concurrency r s m j n' there in
        let same : n₀ ≡ n = ground arith in (n', there, subst (λ x. Transition r.nodes x n') same t)
  ]

  Transition-ended :
      (ns : Nodes) (n n' : RuntimeNode) → ended n ≡ true → Transition ns n n' → n' ≡ n
  Transition-ended ns n n' e (stays same) = same
  Transition-ended ns n n' e (wakes waits same) = ground arith
  Transition-ended ns n n' e (unblocks blocked free same) = ground arith
  Transition-ended ns n n' e (starts waits same) = ground arith
  Transition-ended ns n n' e (retries res under few same) = ground arith
  Transition-ended ns n n' e (ends res under done same) = ground arith
  Transition-ended ns n n' e (closes s err open_ lost same) = ground arith

  pub Move-ended :
      (r s : Run)
      → Move order concurrency r s
      → (j : String) (n : RuntimeNode) → find j r.nodes ≡ some n
      → ended n ≡ true
      → find j s.nodes ≡ some n
  Move-ended r s m j n found e =
      let (n', there, t) = Move-goes r s m j n found in
      let same : n' ≡ n = Transition-ended r.nodes n n' e t in
      subst (λ x. find j s.nodes ≡ some x) same there

  -- Once a node has ended, every later round finds the very same record for it.
  pub Reach-ended :
      {r s : Run}
      → Reach order concurrency r s
      → (j : String) (n : RuntimeNode) → find j r.nodes ≡ some n
      → ended n ≡ true
      → find j s.nodes ≡ some n
  Reach-ended path j n found e =
      Moves-keep order concurrency (λ x. find j x.nodes ≡ some n)
        (λ x y m h. Move-ended x y m j n h e) (Reach-Moves order concurrency path) found
