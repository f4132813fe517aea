-- ===== src/PlanExec/Examples.antt =====
-- A plan of three nodes, a run of it, and applications of the theorems to that run.
use feishu_super_search.Prelude.{
  ◌<◌, ◌≤◌, String, ◌≡◌, refl, true, false, Option, none, some, List, [], ◌∷◌, pos, arith, ◌⊎◌,
  add64, scale64, eqb, ltb, eq_iff,
}
use feishu_super_search.Kernel.Errors.{ErrorDetail, new_error, upstream_transient}
use feishu_super_search.Kernel.Plan.{
  PlanOp, search, merge, NodeState, failed, succeeded, PlanNode, RetrievalPlan, NodeResult,
}
use feishu_super_search.PlanExec.Rules.{
  max_attempts, default_attempts, should_retry, retryable_type, accepts_partial, delay_ms,
  double_delay, retry_delay,
}
use feishu_super_search.PlanExec.Nodes.{RuntimeNode, find, update}
use feishu_super_search.PlanExec.Queue.{FloatOrder, ready_less, retry_less, pop}
use feishu_super_search.PlanExec.Run.{
  Run, is_empty, set_state, make_ready, promote_item, promote_rounds, promote, start_node,
  launch_item, may_launch, launch_rounds, launch, is_stuck, dispatch,
}
use feishu_super_search.PlanExec.Receive.{
  dependency_state, skip_node, settle_blocked, settle, settle_all, schedule_retry,
  completion_events, finish, open_session, tries_again, deliver, complete, completed, retry_timer,
  receive,
}
use feishu_super_search.PlanExec.Loop.{
  no_result, start_of, enqueue, enqueue_all, initial, Reach, begin, again, received,
}
use feishu_super_search.PlanExec.Counts.{Counts}
use feishu_super_search.PlanExec.Totals.{Reach-Counts}
use feishu_super_search.PlanExec.Stable.{Reach-ended}
use feishu_super_search.PlanExec.Attempts.{allowed, Reach-attempts}
use feishu_super_search.PlanExec.Dependencies.{AreServed, Reach-AreServed}
use feishu_super_search.PlanExec.Waiting.{Walks, dispatch-wakes, Reach-stuck, is_active}
use feishu_super_search.PlanExec.Settling.{settle_all-order}

unfoldable pub program : Unit {0}
unfolding max_attempts default_attempts should_retry retryable_type accepts_partial delay_ms
    double_delay retry_delay find update ready_less retry_less pop make_ready promote_item
    promote_rounds promote start_node launch_item may_launch launch_rounds launch is_stuck
    dependency_state skip_node settle_blocked settle settle_all schedule_retry completion_events
    finish open_session tries_again deliver complete receive dispatch enqueue enqueue_all initial
    new_error add64 scale64
program = tt

-- The order of float64 on the patterns of positive numbers.
abbrev pub order : FloatOrder
order = record { equal = λ a b. eqb a b; greater = λ a b. ltb b a }

abbrev pub node : String → PlanOp → List String → PlanNode
node id op depends_on = record {
  id = id;
  op = op;
  depends_on = depends_on;
  request = "{}";
  priority = 0;
  optional = false;
  max_items = pos 0;
  retry = record { max_attempts = pos 0; backoff_ms = pos 0; max_backoff_ms = pos 0 };
}

abbrev pub plan : RetrievalPlan
plan = record {
  version = "retrieval-plan/v1";
  session_id = "";
  identity = record { profile = ""; mode = ""; scope_key = "" };
  budget = record {
    deadline_ms = pos 0;
    max_calls = pos 0;
    max_pages_per_source = pos 0;
    max_fetches = pos 0;
    max_expanded_nodes = pos 0;
    max_bytes = pos 0;
  };
  nodes = node "a" search [] ∷ node "b" search ("a" ∷ []) ∷ node "c" merge ("b" ∷ []) ∷ [];
  output = [];
}

abbrev pub ids : List String
ids = "c" ∷ "a" ∷ "b" ∷ []

abbrev outage : ErrorDetail
unfolding new_error
outage = new_error upstream_transient "502"

abbrev pub result : NodeState → Option ErrorDetail → NodeResult
result s e = record no_result { state = s; error = e }

abbrev first : Run
first =
    receive (completed "a" (result failed (some outage)) "") 5 ids
      (dispatch order 2 3 (initial ids plan))

abbrev second : Run
second = receive retry_timer 9 ids (dispatch order 2 6 first)

abbrev third : Run
third =
    receive (completed "a" (result failed none) "s1") 300000000 ids
      (dispatch order 2 205000006 second)

first-state : (first.running ≡ 0) × (is_empty first.retries ≡ false)
unfolding program
first-state = (refl, refl)

third-state : (third.running ≡ 0) × (third.terminal ≡ 2) × (third.session_id ≡ "s1")
unfolding program
third-state = (refl, refl, refl)

-- The walk met "c" before "b": "c" is still blocked, and the loop gives up on it.
third-stuck : is_stuck (dispatch order 2 300000001 third) ≡ true
unfolding program
third-stuck = refl

path : Reach order 2 (initial ids plan) third
unfolding program
path =
    again
      (again
        (again begin (omega arith) (
          received 3 5 ids (completed "a" (result failed (some outage)) "") refl (record {
            node = record (start_of (node "a" search [])) {
              state = NodeState.running;
              attempt = 1;
            };
            found = refl;
            under_way = refl;
            ended = refl;
          })))
        (omega arith) (received 6 9 ids retry_timer refl refl))
      (omega arith)
      (received 205000006 300000000 ids (completed "a" (result failed none) "s1") refl (record {
        node = record {
          node = node "a" search [];
          state = NodeState.running;
          result = record (result failed (some outage)) { attempts = 1 };
          attempt = 2;
        };
        found = refl;
        under_way = refl;
        ended = refl;
      }))

abbrev a_failed : RuntimeNode
a_failed = record {
  node = node "a" search [];
  state = failed;
  result = record (result failed none) { attempts = 2 };
  attempt = 2;
}

a-third : find "a" third.nodes ≡ some a_failed
unfolding program
a-third = refl

Reach-Counts_example : Counts 2 third
Reach-Counts_example = Reach-Counts order 2 ids plan path

Reach-attempts_example : 2 ≤ allowed a_failed.node.retry.max_attempts a_failed.node.op
Reach-attempts_example = Reach-attempts order 2 ids plan path "a" a_failed a-third

dispatch-wakes_example :
    (0 < (dispatch order 2 6 first).running) ⊎ (is_empty (dispatch order 2 6 first).retries ≡ false)
dispatch-wakes_example = dispatch-wakes order 2 6 first (omega arith) (unfold program in refl)

walked : Walks ids plan
unfolding find
walked j n found = ground (arith, eq_iff "a" j, eq_iff "b" j, eq_iff "c" j)

abbrev c_blocked : RuntimeNode
c_blocked = start_of (node "c" merge ("b" ∷ []))

Reach-stuck_example : is_active c_blocked ≡ false
Reach-stuck_example =
    Reach-stuck order 2 ids plan walked path 300000001 third-stuck "c" c_blocked
      (unfold program in refl)

-- The other run: both searches succeed.
abbrev searched : Run
searched =
    receive (completed "a" (result succeeded none) "s1") 5 ids
      (dispatch order 2 3 (initial ids plan))

abbrev pub merging : Run
merging = receive (completed "b" (result succeeded none) "s1") 8 ids (dispatch order 2 7 searched)

abbrev pub started : String → List String → RuntimeNode
started id depends_on = record (start_of (node id search depends_on)) {
  state = NodeState.running;
  attempt = 1;
}

abbrev pub ended_well : String → List String → RuntimeNode
ended_well id depends_on = record {
  node = node id search depends_on;
  state = succeeded;
  result = record (result succeeded none) { attempts = 1 };
  attempt = 1;
}

to_searched : Reach order 2 (initial ids plan) searched
unfolding program
to_searched = again begin (omega arith) (
    received 3 5 ids (completed "a" (result succeeded none) "s1") refl
      (record { node = started "a" []; found = refl; under_way = refl; ended = refl }))

pub to_merging : Reach order 2 (initial ids plan) merging
unfolding program
to_merging = again to_searched (omega arith) (
    received 7 8 ids (completed "b" (result succeeded none) "s1") refl
      (record { node = started "b" ("a" ∷ []); found = refl; under_way = refl; ended = refl }))

searched-merging : Reach order 2 searched merging
unfolding program
searched-merging = again begin (omega arith) (
    received 7 8 ids (completed "b" (result succeeded none) "s1") refl
      (record { node = started "b" ("a" ∷ []); found = refl; under_way = refl; ended = refl }))

Reach-ended_example : find "a" merging.nodes ≡ some (ended_well "a" [])
Reach-ended_example =
    Reach-ended order 2 searched-merging "a" (ended_well "a" []) (unfold program in refl) refl

Reach-AreServed_example : AreServed merging.nodes (node "b" search ("a" ∷ []))
Reach-AreServed_example =
    Reach-AreServed order 2 ids plan to_merging "b" (ended_well "b" ("a" ∷ []))
      (unfold program in refl) refl

abbrev b_blocked : RuntimeNode
b_blocked = start_of (node "b" search ("a" ∷ []))

-- The state in which the loop walks the blocked nodes after "a" has failed for good.
abbrev failed_run : Run
failed_run = finish "a" (result failed none) (dispatch order 2 205000006 second)

settle_all-order_example :
    (find "c" (settle_all ("a" ∷ "b" ∷ "c" ∷ []) failed_run).nodes
      ≡ some (set_state NodeState.ready c_blocked))
    × (find "c" (settle_all ("c" ∷ "a" ∷ "b" ∷ []) failed_run).nodes ≡ some c_blocked)
settle_all-order_example =
    settle_all-order "b" "c" b_blocked c_blocked refl refl refl refl (unfold program in refl)
      failed_run (unfold program in refl) (unfold program in refl) (unfold program in refl)
      ("a" ∷ []) ("c" ∷ []) [] ("a" ∷ "b" ∷ []) refl refl refl refl refl refl
