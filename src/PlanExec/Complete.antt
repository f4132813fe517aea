-- ===== src/PlanExec/Complete.antt =====
-- What the result of a plan says of its nodes.
use feishu_super_search.Prelude.{
  ℕ, ◌≤◌, String, ◌≡◌, refl, sym, ◌∙◌, ap, Bool, true, false, none, some, List, [], ◌∷◌, map, any,
  count, length, Dict, lookup, lookup-insert, contains, eq_iff, if◌then◌else◌, arith, inl, inr, ◌⊎◌,
  Option-cases,
}
use feishu_super_search.Kernel.Limits.{BudgetState}
use feishu_super_search.Kernel.Plan.{succeeded, empty, PlanNode, RetrievalPlan, NodeResult}
use feishu_super_search.PlanExec.Nodes.{RuntimeNode, Nodes, find}
use feishu_super_search.PlanExec.Queue.{FloatOrder}
use feishu_super_search.PlanExec.Run.{Run, is_open}
use feishu_super_search.PlanExec.Loop.{Reach, Reach-keep, initial, start_of}
use feishu_super_search.PlanExec.Start.{nodes-initial}
use feishu_super_search.PlanExec.Transitions.{
  Transition, stays, wakes, unblocks, starts, retries, ends, closes, Move-Came,
}
use feishu_super_search.PlanExec.Counts.{ended}
use feishu_super_search.PlanExec.Totals.{Reach-Counts, count-all}
use feishu_super_search.PlanExec.Waiting.{count-none}
use feishu_super_search.PlanExec.Outcome.{is_short_result, select_output, conclude}

-- The result of an ended node carries the state of the node.
abbrev IsRecorded : RuntimeNode → Type 0
IsRecorded n = ended n ≡ true → n.result.state ≡ n.state

Transition-IsRecorded :
    (ns : Nodes) (n n' : RuntimeNode) → Transition ns n n' → IsRecorded n → IsRecorded n'
Transition-IsRecorded ns n n' (stays same) h e = ground (arith, h)
Transition-IsRecorded ns n n' (wakes waits same) h e = ground arith
Transition-IsRecorded ns n n' (unblocks blocked free same) h e = ground arith
Transition-IsRecorded ns n n' (starts waits same) h e = ground arith
Transition-IsRecorded ns n n' (retries res under few same) h e = ground arith
Transition-IsRecorded ns n n' (ends res under done same) h e = ground arith
Transition-IsRecorded ns n n' (closes s err opened lost same) h e = ground arith

abbrev AreRecorded : Run → Type 0
AreRecorded r = (j : String) (n : RuntimeNode) → find j r.nodes ≡ some n → IsRecorded n

start-IsRecorded :
    (ns : List PlanNode) (j : String) (n : RuntimeNode)
    → find j (map start_of ns) ≡ some n
    → IsRecorded n
unfolding find
start-IsRecorded [] j n h e = cc
start-IsRecorded (x ∷ ns) j n h e =
    ground (arith, λ (p : find j (map start_of ns) ≡ some n). start-IsRecorded ns j n p e)

any-none :
    (p : RuntimeNode → Bool) (ns : Nodes) (j : String) (n : RuntimeNode)
    → any p ns ≡ false
    → find j ns ≡ some n
    → p n ≡ false
unfolding find
any-none p [] j n h found = ground arith
any-none p (m ∷ ns) j n h found =
    ground (arith, λ (q : find j ns ≡ some n). λ (z : any p ns ≡ false). any-none p ns j n z q)

long-well :
    (n : RuntimeNode)
    → ended n ≡ true
    → n.result.state ≡ n.state
    → is_short_result n ≡ false
    → (n.state ≡ succeeded) ⊎ (n.state ≡ empty)
long-well n e same long = ground arith

module _ (order : FloatOrder) (concurrency : ℕ) (ids : List String) (plan : RetrievalPlan) where
  recorded : {r : Run} → Reach order concurrency (initial ids plan) r → AreRecorded r
  recorded path =
      Reach-keep order concurrency AreRecorded
        (λ r s m h i n' there.
          let (n₀, found, t) = Move-Came order concurrency r s m i n' there in
          Transition-IsRecorded r.nodes n₀ n' t (h i n₀ found))
        path
        (λ i x there.
          start-IsRecorded plan.nodes i x (ap (find i) (sym (nodes-initial ids plan)) ∙ there))

  -- In every run of a plan: when the loop's condition no longer holds and the result of the
  -- plan is not marked as partial, then every node of the plan has succeeded or was empty.
  pub Reach-complete :
      {r : Run}
      → Reach order concurrency (initial ids plan) r
      → length r.nodes ≤ r.terminal
      → (budget : BudgetState) → (conclude plan budget r).partial ≡ false
      → (j : String) (n : RuntimeNode) → find j r.nodes ≡ some n
      → (n.state ≡ succeeded) ⊎ (n.state ≡ empty)
  unfolding conclude
  Reach-complete {r} path over budget whole j n found =
      let terminal = (Reach-Counts order concurrency ids plan path).terminal in
      let none_open : count is_open r.nodes ≡ 0 = omega (arith, terminal, count-all r.nodes) in
      let shut = count-none is_open r.nodes none_open j n found in
      let done : ended n ≡ true = ground arith in
      long-well n done (recorded path j n found done)
        (any-none is_short_result r.nodes j n whole found)

-- The output of a plan that names some ids holds under each of them what the results of the
-- nodes hold, and nothing under another id.
pub lookup-select_output :
    (ids : List String) (nodes : Dict NodeResult) (j : String)
    → lookup j (select_output ids nodes) ≡ (if contains j ids then lookup j nodes else none)
unfolding lookup select_output
lookup-select_output [] nodes j = refl
lookup-select_output (id ∷ ids) nodes j = elim (Option-cases (lookup id nodes)) [
  | inl absent ↦
      rw (select_output, absent) (ground (arith, lookup-select_output ids nodes j, eq_iff id j))
  | inr (x, found) ↦
      rw (select_output, found)
        (ground (
          arith,
          lookup-select_output ids nodes j,
          lookup-insert id j x (select_output ids nodes),
          eq_iff id j,
        ))
]
