-- ===== src/PlanExec/Waiting.antt =====
-- What the `select` of a round of Executor.run can receive, and the nodes that are left when the
-- loop gives up.
use feishu_super_search.Prelude.{
  ℕ, zero, suc, ◌<◌, ◌≤◌, String, ◌≡◌, sym, ◌∙◌, ap, Bool, true, false, ◌||◌, some, List, [], ◌∷◌,
  map, length, count, arith, eq_iff, Option-cases, Bool-cases, inl, inr, ◌⊎◌, contains,
}
use feishu_super_search.Kernel.Plan.{PlanNode, RetrievalPlan}
use feishu_super_search.PlanExec.Nodes.{RuntimeNode, Nodes, find}
use feishu_super_search.PlanExec.Queue.{
  FloatOrder, ReadyItem, ready_less, pop, queued-append, length-pop,
}
use feishu_super_search.PlanExec.Run.{
  Run, is_ready, is_waiting, is_running, is_empty, is_stuck, start_node, may_launch, launch_item,
  launch_rounds, launch, promote, dispatch,
}
use feishu_super_search.PlanExec.Moves.{Moves-keep}
use feishu_super_search.PlanExec.Rounds.{dispatch-Moves}
use feishu_super_search.PlanExec.Loop.{
  Reach, Reach-keep, initial, enqueue, enqueue_all, empty_run, start_of,
}
use feishu_super_search.PlanExec.Start.{nodes-initial, initial-Counts}
use feishu_super_search.PlanExec.Counts.{Counts, Move-Counts, runs}
use feishu_super_search.PlanExec.Progress.{AreQueued, Move-AreQueued, on_ready}

launch_item-ready : (id : String) (r : Run) → (launch_item id r).ready ≡ r.ready
unfolding launch_item start_node
launch_item-ready id r = ground arith

-- With a round for each item, the dispatch loop ends since nothing may be started or is ready.
launch_rounds-stops :
    (order : FloatOrder) (concurrency k : ℕ) (r : Run)
    → length r.ready ≤ k
    → (may_launch concurrency (launch_rounds order concurrency k r) ≡ false)
      ⊎ (is_empty (launch_rounds order concurrency k r).ready ≡ true)
unfolding launch_rounds
launch_rounds-stops order concurrency zero r h = inr (ground arith)
launch_rounds-stops order concurrency (suc k) r h = elim (Bool-cases (may_launch concurrency r)) [
  | inr full ↦ rw (launch_rounds, full) (inl full)
  | inl free ↦ elim (Option-cases (pop (ready_less order) r.ready)) [
    | inl nothing ↦
        rw (launch_rounds, free, nothing)
          (inr (ground (arith, length-pop (ready_less order) r.ready)))
    | inr ((x, rest), popped) ↦
        rw (launch_rounds, free, popped)
          (launch_rounds-stops order concurrency k (launch_item x.id (record r { ready = rest })) (
            ground (
              arith,
              launch_item-ready x.id (record r { ready = rest }),
              length-pop (ready_less order) r.ready,
            )))
  ]
]

-- If the concurrency is positive and the loop goes on after the dispatch of a round, then a
-- node runs or a retry waits: the `select` has something to receive.
pub dispatch-wakes :
    (order : FloatOrder) (concurrency now : ℕ) (r : Run)
    → 0 < concurrency
    → is_stuck (dispatch order concurrency now r) ≡ false
    → (0 < (dispatch order concurrency now r).running)
      ⊎ (is_empty (dispatch order concurrency now r).retries ≡ false)
unfolding dispatch launch is_stuck may_launch
dispatch-wakes order concurrency now r some_slot free =
    ground
      (arith, launch_rounds-stops order concurrency (length (promote now r).ready) (promote now r))

enqueue-nodes : (id : String) (r : Run) → (enqueue id r).nodes ≡ r.nodes
unfolding enqueue
enqueue-nodes id r = ground arith

enqueue-keeps : (id j : String) (r : Run) → on_ready j r ≡ true → on_ready j (enqueue id r) ≡ true
unfolding enqueue
enqueue-keeps id j r h = elim (Option-cases (find id r.nodes)) [
  | inl absent ↦ rw (absent, enqueue) h
  | inr (n, found) ↦
      rw (found, enqueue)
        (ground (
          arith,
          queued-append (λ (x : ReadyItem). x.id) j r.ready
              (record { id = id; priority = n.node.priority; seq = r.seq } ∷ []),
        ))
]

enqueue_all-keeps :
    (ids : List String) (j : String) (r : Run)
    → on_ready j r ≡ true
    → on_ready j (enqueue_all ids r) ≡ true
unfolding enqueue_all
enqueue_all-keeps [] j r h = h
enqueue_all-keeps (id ∷ ids) j r h = enqueue_all-keeps ids j (enqueue id r) (enqueue-keeps id j r h)

enqueue-puts :
    (j : String) (n : RuntimeNode) (r : Run)
    → find j r.nodes ≡ some n
    → is_ready n.state ≡ true
    → on_ready j (enqueue j r) ≡ true
unfolding enqueue
enqueue-puts j n r found ready = ground (
  arith,
  eq_iff j j,
  queued-append (λ (x : ReadyItem). x.id) j r.ready
      (record { id = j; priority = n.node.priority; seq = r.seq } ∷ []),
)

enqueue_all-puts :
    (ids : List String) (j : String) (n : RuntimeNode) (r : Run)
    → contains j ids ≡ true
    → find j r.nodes ≡ some n
    → is_ready n.state ≡ true
    → on_ready j (enqueue_all ids r) ≡ true
unfolding enqueue_all
enqueue_all-puts [] j n r h found ready = ground arith
enqueue_all-puts (id ∷ ids) j n r h found ready = elim (Bool-cases (contains j ids)) [
  | inl later ↦
      enqueue_all-puts ids j n (enqueue id r) later (ap (find j) (enqueue-nodes id r) ∙ found) ready
  | inr here ↦
      enqueue_all-keeps ids j (enqueue id r)
        (ground (arith, eq_iff id j, eq_iff j id, enqueue-puts j n r found ready))
]

-- The order walks every node of the plan.
abbrev pub Walks : List String → RetrievalPlan → Type 0
Walks ids plan =
    (j : String) (n : RuntimeNode)
    → find j (map start_of plan.nodes) ≡ some n
    → contains j ids ≡ true

start-not_waiting :
    (j : String) (ns : List PlanNode) (n : RuntimeNode)
    → find j (map start_of ns) ≡ some n
    → is_waiting n.state ≡ false
unfolding find
start-not_waiting j [] n h = ground arith
start-not_waiting j (m ∷ ns) n h =
    ground (arith, λ (q : find j (map start_of ns) ≡ some n). start-not_waiting j ns n q)

initial-AreQueued :
    (ids : List String) (plan : RetrievalPlan) → Walks ids plan → AreQueued (initial ids plan)
unfolding initial
initial-AreQueued ids plan walks j n found =
    let at_start : find j (map start_of plan.nodes) ≡ some n =
      ap (find j) (sym (nodes-initial ids plan)) ∙ found in
    record {
      ready =
          λ ready. enqueue_all-puts ids j n (empty_run plan) (walks j n at_start) at_start ready;
      waiting = λ waits. absurd (ground (arith, start-not_waiting j plan.nodes n at_start));
    }

-- A node whose state keeps the loop going.
abbrev pub is_active : RuntimeNode → Bool
is_active n = is_ready n.state || is_running n.state || is_waiting n.state

pub count-none :
    (p : RuntimeNode → Bool) (ns : Nodes)
    → count p ns ≡ 0
    → (j : String) (n : RuntimeNode) → find j ns ≡ some n
    → p n ≡ false
unfolding find
count-none p [] h j n found = ground arith
count-none p (m ∷ ns) h j n found =
    ground (arith, λ (q : find j ns ≡ some n). λ (z : count p ns ≡ 0). count-none p ns z j n q)

stuck-inactive :
    (concurrency : ℕ) (r : Run)
    → Counts concurrency r
    → AreQueued r
    → is_stuck r ≡ true
    → (j : String) (n : RuntimeNode) → find j r.nodes ≡ some n
    → is_active n ≡ false
unfolding is_stuck
stuck-inactive concurrency r c q stuck j n found =
    let idle : r.running ≡ 0 = ground arith in
    let one = q j n found in
    ground (arith, one.ready, one.waiting, count-none runs r.nodes (sym c.running ∙ idle) j n found)

module _ (order : FloatOrder) (concurrency : ℕ) where
  -- The loop starts with an order that walks every node of the plan. If a later round gives up
  -- after its dispatch, then no node of the plan is ready, running or waiting for its retry.
  pub Reach-stuck :
      (ids : List String) (plan : RetrievalPlan)
      → Walks ids plan
      → {r : Run} → Reach order concurrency (initial ids plan) r
      → (now : ℕ) → is_stuck (dispatch order concurrency now r) ≡ true
      → (j : String) (n : RuntimeNode) → find j (dispatch order concurrency now r).nodes ≡ some n
      → is_active n ≡ false
  Reach-stuck ids plan walks {r} path now stuck =
      let counts =
        Reach-keep order concurrency (Counts concurrency) (Move-Counts order concurrency) path
          (initial-Counts concurrency ids plan) in
      let queues =
        Reach-keep order concurrency AreQueued (Move-AreQueued order concurrency) path
          (initial-AreQueued ids plan walks) in
      let moves = dispatch-Moves order concurrency now r in
      stuck-inactive concurrency (dispatch order concurrency now r)
        (Moves-keep order concurrency (Counts concurrency) (Move-Counts order concurrency) moves
          counts)
        (Moves-keep order concurrency AreQueued (Move-AreQueued order concurrency) moves queues)
        stuck
