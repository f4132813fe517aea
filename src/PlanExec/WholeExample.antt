-- ===== src/PlanExec/WholeExample.antt =====
-- A run of the plan of Examples in which every node succeeds, up to its result.
use feishu_super_search.Prelude.{
  ◌≡◌, refl, none, [], ◌∷◌, pos, arith, ◌⊎◌, lookup, Dict, contains, if◌then◌else◌,
}
use feishu_super_search.Kernel.Limits.{BudgetState}
use feishu_super_search.Kernel.Plan.{NodeState, merge, succeeded, empty, NodeResult}
use feishu_super_search.PlanExec.Rules.{retry_delay}
use feishu_super_search.PlanExec.Delays.{IsDelay, retry_delay-IsDelay}
use feishu_super_search.PlanExec.Nodes.{RuntimeNode}
use feishu_super_search.PlanExec.Run.{Run, dispatch}
use feishu_super_search.PlanExec.Receive.{completed, receive}
use feishu_super_search.PlanExec.Loop.{Reach, again, received, initial, start_of}
use feishu_super_search.PlanExec.Outcome.{conclude, select_output}
use feishu_super_search.PlanExec.Complete.{Reach-complete, lookup-select_output}
use feishu_super_search.PlanExec.Examples.{
  program, node, order, ids, plan, result, merging, to_merging,
}

abbrev whole : Run
whole = receive (completed "c" (result succeeded none) "") 11 ids (dispatch order 2 10 merging)

to_whole : Reach order 2 (initial ids plan) whole
unfolding program
to_whole = again to_merging (omega arith) (
    received 10 11 ids (completed "c" (result succeeded none) "") refl (record {
      node = record (start_of (node "c" merge ("b" ∷ []))) {
        state = NodeState.running;
        attempt = 1;
      };
      found = refl;
      under_way = refl;
      ended = refl;
    }))

abbrev c_merged : RuntimeNode
c_merged = record {
  node = node "c" merge ("b" ∷ []);
  state = succeeded;
  result = record (result succeeded none) { attempts = 1 };
  attempt = 1;
}

abbrev spent : BudgetState
spent = record {
  max_calls = pos 24;
  calls_used = pos 2;
  max_fetches = pos 12;
  fetches_used = pos 0;
  max_expanded = pos 20;
  expanded_used = pos 0;
  max_bytes = pos 100;
  bytes_used = pos 7;
  deadline = 8000000000;
}

Reach-complete_example : (c_merged.state ≡ succeeded) ⊎ (c_merged.state ≡ empty)
unfolding conclude
Reach-complete_example =
    Reach-complete order 2 ids plan to_whole (unfold program in omega arith) spent
      (unfold program in refl) "c" c_merged (unfold program in refl)

abbrev results : Dict NodeResult
results = ("a", result succeeded none) ∷ ("b", result empty none) ∷ []

lookup-select_output_example :
    lookup "b" (select_output ("z" ∷ "b" ∷ []) results)
    ≡ (if contains "b" ("z" ∷ "b" ∷ []) then lookup "b" results else none)
lookup-select_output_example = lookup-select_output ("z" ∷ "b" ∷ []) results "b"

retry_delay-IsDelay_example : IsDelay c_merged.node (retry_delay c_merged.node 3)
retry_delay-IsDelay_example = retry_delay-IsDelay c_merged.node 3 (omega arith) (omega arith)
