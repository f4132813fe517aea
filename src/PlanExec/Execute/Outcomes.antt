-- ===== src/PlanExec/Execute/Outcomes.antt =====
-- What executeNode returns, whatever the kernel answers.
use feishu_super_search.Prelude.{String, ◌≡◌, Bool, true, false, ◌⊎◌}
use feishu_super_search.Kernel.Errors.{ErrorDetail}
use feishu_super_search.Kernel.Plan.{NodeState, succeeded, partial, failed, NodeResult}
use feishu_super_search.PlanExec.Execute.{failed_detail}

abbrev pub is_failure : NodeState → Bool
is_failure failed = true
is_failure _ = false

abbrev pub is_short_or_whole : NodeState → Bool
is_short_or_whole succeeded = true
is_short_or_whole partial = true
is_short_or_whole _ = false

-- The node is named, and it succeeded, whole or in part, or failed with an error and no output.
pub record IsOutcome (id : String) (r : NodeResult) : Type 0 where
  pub named : r.node_id ≡ id
  pub ended : (is_short_or_whole r.state ≡ true) ⊎ ((e : ErrorDetail) × (r ≡ failed_detail id e))

module _ (id : String) where
  -- The loop over the items keeps a result that has not failed from failing.
  abbrev HasOutput : NodeResult → Type 0
  HasOutput r = (r.node_id ≡ id) × (is_short_or_whole r.state ≡ true)
