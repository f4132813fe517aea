-- ===== src/PlanExec/Dependencies.antt =====
-- The dependencies of the nodes that Executor.run releases.
use mathlib.Core.Path.{subst}
use feishu_super_search.Prelude.{
  ℕ, String, ◌≡◌, refl, sym, ◌∙◌, ap, Bool, true, false, not, ◌&&◌, some, List, [], ◌∷◌, map, arith,
  ◌==◌, All, All-imp, Option-cases, Bool-cases, inl, inr,
}
use feishu_super_search.Kernel.Plan.{
  NodeState, PlanNode, RetrievalPlan, succeeded, partial, empty, failed, retry_wait,
}
use feishu_super_search.PlanExec.Rules.{is_terminal, is_lost, accepts_partial}
use feishu_super_search.PlanExec.Nodes.{RuntimeNode, Nodes, find, state_at}
use feishu_super_search.PlanExec.Queue.{FloatOrder}
use feishu_super_search.PlanExec.Run.{Run}
use feishu_super_search.PlanExec.Receive.{dependency_state}
use feishu_super_search.PlanExec.Moves.{Move}
use feishu_super_search.PlanExec.Loop.{Reach, Reach-keep, initial, start_of}
use feishu_super_search.PlanExec.Start.{nodes-initial}
use feishu_super_search.PlanExec.Transitions.{
  Transition, stays, wakes, unblocks, starts, retries, ends, closes, Move-Came,
}
use feishu_super_search.PlanExec.Stable.{Move-ended}

-- The states of a node that has been put on the heap, and was not skipped or cancelled.
abbrev pub was_released : NodeState → Bool
was_released NodeState.ready = true
was_released NodeState.running = true
was_released retry_wait = true
was_released succeeded = true
was_released partial = true
was_released empty = true
was_released failed = true
was_released _ = false

-- A dependency has ended, and was not lost unless the node bears that.
abbrev pub IsServed : Nodes → PlanNode → String → Type 0
IsServed ns n d =
    (is_terminal (state_at ns d) ≡ true)
    × ((is_lost (state_at ns d) && not n.optional && not (accepts_partial n.op)) ≡ false)

abbrev pub AreServed : Nodes → PlanNode → Type 0
AreServed ns n = All (IsServed ns n) n.depends_on

dependency_state-IsServed :
    (n : PlanNode) (ds : List String) (ns : Nodes)
    → dependency_state n ds ns ≡ (true, false)
    → All (IsServed ns n) ds
unfolding dependency_state
dependency_state-IsServed n [] ns h = tt
dependency_state-IsServed n (d ∷ ds) ns h =
    ((ground arith, ground arith), dependency_state-IsServed n ds ns (ground arith))

module _ (order : FloatOrder) (concurrency : ℕ) where
  -- The state of a node that has ended is read the same after a step.
  state_at-ended :
      (r s : Run)
      → Move order concurrency r s
      → (d : String) → is_terminal (state_at r.nodes d) ≡ true
      → state_at s.nodes d ≡ state_at r.nodes d
  state_at-ended r s m d e = elim (Option-cases (find d r.nodes)) [
    | inl absent ↦ absurd (ground arith)
    | inr (n, found) ↦ ground (arith, Move-ended order concurrency r s m d n found)
  ]

  IsServed-Move :
      (r s : Run)
      → Move order concurrency r s
      → (n : PlanNode) (d : String) → IsServed r.nodes n d
      → IsServed s.nodes n d
  IsServed-Move r s m n d (e, fine) =
      let same = state_at-ended r s m d e in
      (
        subst (λ x. is_terminal x ≡ true) (sym same) e,
        subst (λ x. (is_lost x && not n.optional && not (accepts_partial n.op)) ≡ false) (sym same)
            fine,
      )

  abbrev WasServed : Nodes → RuntimeNode → Type 0
  WasServed ns n = was_released n.state ≡ true → AreServed ns n.node

  Transition-WasServed :
      (ns : Nodes) (n n' : RuntimeNode) → Transition ns n n' → WasServed ns n → WasServed ns n'
  Transition-WasServed ns n n' (stays same) h = subst (WasServed ns) (sym same) h
  Transition-WasServed ns n n' (wakes waits same) h =
      subst (WasServed ns) (sym same) (λ _. h (ground arith))
  Transition-WasServed ns n n' (unblocks blocked free same) h =
      subst (WasServed ns) (sym same)
        (λ _. dependency_state-IsServed n.node n.node.depends_on ns free)
  Transition-WasServed ns n n' (starts waits same) h =
      subst (WasServed ns) (sym same) (λ _. h (ground arith))
  Transition-WasServed ns n n' (retries res under few same) h =
      subst (WasServed ns) (sym same) (λ _. h (ground arith))
  Transition-WasServed ns n n' (ends res under done same) h =
      subst (WasServed ns) (sym same) (λ _. h (ground arith))
  Transition-WasServed ns n n' (closes s e opened lost same) h =
      subst (WasServed ns) (sym same) (λ released. absurd (ground arith))

  abbrev AllServed : Run → Type 0
  AllServed r = (j : String) (n : RuntimeNode) → find j r.nodes ≡ some n → WasServed r.nodes n

  Move-AllServed : (r s : Run) → Move order concurrency r s → AllServed r → AllServed s
  Move-AllServed r s m h j n' there released =
      let (n, found, t) = Move-Came order concurrency r s m j n' there in
      All-imp (IsServed r.nodes n'.node) (IsServed s.nodes n'.node)
        (λ d served. IsServed-Move r s m n'.node d served) n'.node.depends_on
        (Transition-WasServed r.nodes n n' t (h j n found) released)

  start-WasServed : (ns : Nodes) (n : PlanNode) → WasServed ns (start_of n)
  start-WasServed ns n = go n.depends_on refl
    where
      go : (ds : List String) → n.depends_on ≡ ds → WasServed ns (start_of n)
      go [] e h = subst (All (IsServed ns n)) (sym e) tt
      go (d ∷ ds) e h = absurd (ground arith)

  start-AllServed :
      (all : Nodes) (ns : List PlanNode) (j : String) (n : RuntimeNode)
      → find j (map start_of ns) ≡ some n
      → WasServed all n
  unfolding find
  start-AllServed all [] j n h = cc
  start-AllServed all (x ∷ ns) j n h = elim (Bool-cases (x.id == j)) [
    | inl same ↦
        let e : start_of x ≡ n = ground arith in subst (WasServed all) e (start-WasServed all x)
    | inr apart ↦ start-AllServed all ns j n (ground arith)
  ]

  -- In every run of a plan, a node that has been released (it is ready, running, waiting for a
  -- retry, or has a result of its own) has only dependencies that have ended, and none of them
  -- failed, was skipped or was cancelled, unless the node itself (the dependent one) is
  -- optional or its operation accepts partial input.
  pub Reach-AreServed :
      (ids : List String) (plan : RetrievalPlan) {r : Run}
      → Reach order concurrency (initial ids plan) r
      → (j : String) (n : RuntimeNode) → find j r.nodes ≡ some n
      → was_released n.state ≡ true
      → AreServed r.nodes n.node
  Reach-AreServed ids plan path =
      Reach-keep order concurrency AllServed Move-AllServed path (λ j n there.
        start-AllServed (initial ids plan).nodes plan.nodes j n
          (ap (find j) (sym (nodes-initial ids plan)) ∙ there))
