-- ===== src/PlanExec/Totals.antt =====
-- What the counters of the loop say at the head of every round.
use feishu_super_search.Prelude.{ℕ, ◌<◌, ◌+◌, String, ◌≡◌, List, [], ◌∷◌, count, length, arith}
use feishu_super_search.Kernel.Plan.{RetrievalPlan}
use feishu_super_search.PlanExec.Nodes.{Nodes}
use feishu_super_search.PlanExec.Queue.{FloatOrder}
use feishu_super_search.PlanExec.Run.{Run, is_open}
use feishu_super_search.PlanExec.Loop.{Reach, Reach-keep, initial}
use feishu_super_search.PlanExec.Start.{initial-Counts}
use feishu_super_search.PlanExec.Counts.{Counts, Move-Counts, ended}

-- If every node has ended, the count of the ended ones is the number of nodes, and conversely.
pub count-all : (ns : Nodes) → (count is_open ns + count ended ns ≡ length ns)
count-all [] = omega arith
count-all (n ∷ ns) = ground (arith, count-all ns)

module _ (order : FloatOrder) (concurrency : ℕ) where
  -- At the head of every round that is reached from the start, `running` is the number of
  -- running nodes and at most the concurrency, it is at most one while no session is open, and
  -- `terminal` is the number of ended nodes.
  pub Reach-Counts :
      (ids : List String) (plan : RetrievalPlan) {r : Run}
      → Reach order concurrency (initial ids plan) r
      → Counts concurrency r
  Reach-Counts ids plan path =
      Reach-keep order concurrency (Counts concurrency) (Move-Counts order concurrency) path
        (initial-Counts concurrency ids plan)

  -- In every run of a plan, the loop's condition holds exactly if some node has not ended.
  pub Reach-ends :
      (ids : List String) (plan : RetrievalPlan) {r : Run}
      → Reach order concurrency (initial ids plan) r
      → ((r.terminal < length r.nodes) → 0 < count is_open r.nodes)
        × ((0 < count is_open r.nodes) → r.terminal < length r.nodes)
  Reach-ends ids plan {r} path =
      let c = Reach-Counts ids plan path in
      (
        λ h. omega (arith, h, c.terminal, count-all r.nodes),
        λ h. omega (arith, h, c.terminal, count-all r.nodes),
      )
