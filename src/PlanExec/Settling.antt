-- ===== src/PlanExec/Settling.antt =====
-- The walk of Executor.run over the blocked nodes after a completion, in two orders.
pub mod Walk
use feishu_super_search.Prelude.{
  String, ◌≡◌, refl, ◌∙◌, true, false, some, List, [], ◌∷◌, ◌++◌, contains, Bool-cases, inl, inr,
  arith, ◌==◌, eq_iff,
}
use feishu_super_search.Kernel.Plan.{NodeState}
use feishu_super_search.PlanExec.Rules.{accepts_partial}
use feishu_super_search.PlanExec.Nodes.{RuntimeNode, find, state_at}
use feishu_super_search.PlanExec.Run.{Run, is_blocked, set_state}
use feishu_super_search.PlanExec.Receive.{
  dependency_state, skip_blocked, skip_node, settle_blocked, settle, settle_all,
}
use feishu_super_search.PlanExec.Settling.Walk.{
  find-make_ready, find-skip_node, settle-by, settle-other, settle-unblocked, settle_all-unblocked,
  settle_all-other, settle_all-append, lost-settled,
}

module _ (b c : String) (nb nc : RuntimeNode) (apart : (b == c) ≡ false)
    (waits_b : is_blocked nb.state ≡ true) (waits_c : is_blocked nc.state ≡ true)
    (needs : nc.node.depends_on ≡ b ∷ []) (accepts : accepts_partial nc.node.op ≡ true) where
  -- Once `b` is skipped, `c` is free.
  ready_after :
      (r : Run)
      → find b r.nodes ≡ some (skip_blocked nb)
      → dependency_state nc.node nc.node.depends_on r.nodes ≡ (true, false)
  unfolding dependency_state
  ready_after r ended = rw (needs, dependency_state, ended, state_at) (ground arith)

  -- Until then it waits.
  waits_before :
      (r : Run)
      → find b r.nodes ≡ some nb
      → dependency_state nc.node nc.node.depends_on r.nodes ≡ (false, false)
  unfolding dependency_state
  waits_before r found = rw (needs, dependency_state, found, state_at) (ground arith)

  settle-ready :
      (r : Run)
      → find b r.nodes ≡ some (skip_blocked nb)
      → find c r.nodes ≡ some nc
      → find c (settle c r).nodes ≡ some (set_state NodeState.ready nc)
  unfolding settle_blocked
  settle-ready r ended found =
      rw (settle-by c nc r (true, false) found waits_c (ready_after r ended))
        (find-make_ready c nc.node.priority nc r found)

  -- After `b` is skipped, the walk makes `c` ready when it meets it.
  settle_all-ready :
      (order : List String) (r : Run)
      → find b r.nodes ≡ some (skip_blocked nb)
      → find c r.nodes ≡ some nc
      → contains c order ≡ true
      → find c (settle_all order r).nodes ≡ some (set_state NodeState.ready nc)
  unfolding settle_all
  settle_all-ready [] r ended found met = cc
  settle_all-ready (id ∷ order) r ended found met = elim (Bool-cases (id == c)) [
    | inl same ↦
        let e : id ≡ c = (eq_iff id c).0 same in
        rw e (
          settle_all-unblocked order c (set_state NodeState.ready nc) (settle c r)
            (settle-ready r ended found) refl)
    | inr other ↦
        settle_all-ready order (settle id r) (settle-unblocked id b (skip_blocked nb) r ended refl)
          (settle-other id c r other ∙ found) (ground arith)
  ]

  module _ (r : Run) (found_b : find b r.nodes ≡ some nb) (found_c : find c r.nodes ≡ some nc)
      (lost_b : dependency_state nb.node nb.node.depends_on r.nodes ≡ (false, true)) where
    settle_all-first :
        (before after : List String)
        → contains b before ≡ false
        → contains c before ≡ false
        → contains c after ≡ true
        → find c (settle_all (before ++ b ∷ after) r).nodes ≡ some (set_state NodeState.ready nc)
    unfolding settle_all settle_blocked
    settle_all-first before after new_b new_c met =
        let s = settle_all before r in
        let here_b : find b s.nodes ≡ some nb = settle_all-other before b r new_b ∙ found_b in
        let here_c : find c s.nodes ≡ some nc = settle_all-other before c r new_c ∙ found_c in
        let skip : settle b s ≡ skip_node b s =
          settle-by b nb s (false, true) here_b waits_b
            (lost-settled before nb.node nb.node.depends_on r lost_b) in
        rw (settle_all-append before (b ∷ after) r, settle_all, skip)
          (settle_all-ready after (skip_node b s)
            (ground (arith, find-skip_node b b nb s here_b, eq_iff b b))
            (ground (arith, find-skip_node b c nc s here_c)) met)

    settle_all-second :
        (before after : List String)
        → contains b before ≡ false
        → contains c before ≡ false
        → contains c after ≡ false
        → find c (settle_all (before ++ c ∷ after) r).nodes ≡ some nc
    unfolding settle_all settle_blocked
    settle_all-second before after new_b new_c last =
        let s = settle_all before r in
        let here_b : find b s.nodes ≡ some nb = settle_all-other before b r new_b ∙ found_b in
        let here_c : find c s.nodes ≡ some nc = settle_all-other before c r new_c ∙ found_c in
        let idle : settle c s ≡ s =
          settle-by c nc s (false, false) here_c waits_c (waits_before s here_b) in
        rw (settle_all-append before (c ∷ after) r, settle_all, idle)
          (settle_all-other after c s last ∙ here_c)

    -- Let a blocked node `b` be one that is to be skipped, and another blocked node `c` depend
    -- on `b` alone and accept partial input. A walk over any nodes that meets `b`, once neither
    -- was met before, and then `c`, makes `c` ready; a walk that meets `c` once, and before `b`
    -- if at all, leaves `c` blocked as it was.
    pub settle_all-order :
        (before after before' after' : List String)
        → contains b before ≡ false
        → contains c before ≡ false
        → contains c after ≡ true
        → contains b before' ≡ false
        → contains c before' ≡ false
        → contains c after' ≡ false
        → (find c (settle_all (before ++ b ∷ after) r).nodes ≡ some (set_state NodeState.ready nc))
          × (find c (settle_all (before' ++ c ∷ after') r).nodes ≡ some nc)
    settle_all-order before after before' after' new_b new_c met new_b' new_c' last' = (
      settle_all-first before after new_b new_c met,
      settle_all-second before' after' new_b' new_c' last',
    )
