-- ===== src/PlanExec/Attempts.antt =====
-- The attempts of a node in Executor.run, against its retry policy.
use feishu_super_search.Prelude.{
  ℕ, zero, suc, ℤ, pos, negsuc, if◌then◌else◌, refl, ◌<◌, ◌≤◌, String, ◌≡◌, Bool, true, false, ◌||◌,
  some, List, [], ◌∷◌, map, arith, ap, sym, ◌∙◌,
}
use feishu_super_search.Kernel.Plan.{
  PlanOp, resolve, search, query, fetch, expand, map_fetch, PlanNode, RetrievalPlan,
}
use feishu_super_search.PlanExec.Rules.{max_attempts, default_attempts}
use feishu_super_search.PlanExec.Nodes.{RuntimeNode, Nodes, find}
use feishu_super_search.PlanExec.Queue.{FloatOrder}
use feishu_super_search.PlanExec.Run.{Run, is_blocked, is_ready, is_waiting}
use feishu_super_search.PlanExec.Loop.{Reach, Reach-keep, initial, start_of}
use feishu_super_search.PlanExec.Start.{nodes-initial}
use feishu_super_search.PlanExec.Transitions.{
  Transition, stays, wakes, unblocks, starts, retries, ends, closes, Move-Came,
}

-- A node that may still be started has an attempt left.
pub record IsTried (n : RuntimeNode) : Type 0 where
  pub within : n.attempt ≤ max_attempts n.node
  pub spare :
      is_blocked n.state || is_ready n.state || is_waiting n.state ≡ true
      → n.attempt < max_attempts n.node

max_attempts-pos : (n : PlanNode) → 0 < max_attempts n
unfolding max_attempts default_attempts
max_attempts-pos n = ground arith

Transition-IsTried : (ns : Nodes) (n n' : RuntimeNode) → Transition ns n n' → IsTried n → IsTried n'
Transition-IsTried ns n n' (stays same) h = ground arith
Transition-IsTried ns n n' (wakes waits same) h = ground arith
Transition-IsTried ns n n' (unblocks blocked free same) h = ground arith
Transition-IsTried ns n n' (starts waits same) h = ground arith
Transition-IsTried ns n n' (retries res under few same) h = ground arith
Transition-IsTried ns n n' (ends res under done same) h = ground arith
Transition-IsTried ns n n' (closes s err opened lost same) h = ground arith

abbrev AreTried : Run → Type 0
AreTried r = (j : String) (n : RuntimeNode) → find j r.nodes ≡ some n → IsTried n

initial-IsTried :
    (ns : List PlanNode) (j : String) (n : RuntimeNode)
    → find j (map start_of ns) ≡ some n
    → IsTried n
unfolding find
initial-IsTried [] j n h = cc
initial-IsTried (x ∷ ns) j n h =
    ground (
      arith,
      max_attempts-pos x,
      λ (p : find j (map start_of ns) ≡ some n). initial-IsTried ns j n p,
    )

-- The operations that call the kernel.
abbrev pub calls_kernel : PlanOp → Bool
calls_kernel resolve = true
calls_kernel search = true
calls_kernel query = true
calls_kernel fetch = true
calls_kernel expand = true
calls_kernel map_fetch = true
calls_kernel _ = false

-- How often a node may be started, by the limit that its policy sets.
abbrev pub allowed : (limit : ℤ) → PlanOp → ℕ
allowed (pos (suc m)) op = suc m
allowed _ op = if calls_kernel op then 2 else 1

default_attempts-allowed : (op : PlanOp) → default_attempts op ≡ (if calls_kernel op then 2 else 1)
unfolding default_attempts
default_attempts-allowed op = ground arith

max_attempts-allowed :
    (n : PlanNode) (limit : ℤ) → n.retry.max_attempts ≡ limit → max_attempts n ≡ allowed limit n.op
unfolding max_attempts
max_attempts-allowed n (pos zero) h = ground (arith, h, default_attempts-allowed n.op)
max_attempts-allowed n (pos (suc m)) h = ground (arith, h)
max_attempts-allowed n (negsuc m) h = ground (arith, h, default_attempts-allowed n.op)

-- In every run of a plan, no node is started more often than its retry policy allows: the limit
-- that it sets, else two for the operations that call the kernel, else one.
pub Reach-attempts :
    (order : FloatOrder) (concurrency : ℕ) (ids : List String) (plan : RetrievalPlan) {r : Run}
    → Reach order concurrency (initial ids plan) r
    → (j : String) (n : RuntimeNode) → find j r.nodes ≡ some n
    → n.attempt ≤ allowed n.node.retry.max_attempts n.node.op
Reach-attempts order concurrency ids plan path j n h =
    let tried : IsTried n =
      Reach-keep order concurrency AreTried
        (λ r s m tried i n' there.
          let (n₀, found, t) = Move-Came order concurrency r s m i n' there in
          Transition-IsTried r.nodes n₀ n' t (tried i n₀ found))
        path
        (λ i x there.
          initial-IsTried plan.nodes i x (ap (find i) (sym (nodes-initial ids plan)) ∙ there))
        j n h in
    omega (arith, tried.within, max_attempts-allowed n.node n.node.retry.max_attempts refl)
