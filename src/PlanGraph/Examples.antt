-- ===== src/PlanGraph/Examples.antt =====
-- Checks of three plans, and applications of the theorems on the check.
use feishu_super_search.Prelude.{
  ℕ, String, ◌≡◌, refl, false, List, [], ◌∷◌, pos, arith, ok, err, lookup, insert, inr,
  if◌then◌else◌, ◌==◌,
}
use feishu_super_search.Kernel.Plan.{PlanOp, search, merge, PlanNode, RetrievalPlan}
use feishu_super_search.PlanGraph.{visit_each, visit, dependencies}
use feishu_super_search.PlanGraph.Validate.{
  cyclic, unknown_dependency, index_nodes, check_dependencies, check_all_dependencies,
  check_acyclic, check_shape, validate_plan,
}
use feishu_super_search.PlanGraph.Validate.Sound.{IsRunnable, validate_plan-IsRunnable}
use feishu_super_search.PlanGraph.Validate.Complete.{validate_plan_complete}

unfoldable pub program : Unit {0}
unfolding visit_each visit dependencies index_nodes check_dependencies check_all_dependencies
    check_acyclic check_shape validate_plan lookup insert
program = tt

abbrev pub node : String → PlanOp → List String → PlanNode
node id op depends_on = record {
  id = id;
  op = op;
  depends_on = depends_on;
  request = "{}";
  priority = 0;
  optional = false;
  max_items = pos 0;
  retry = record { max_attempts = pos 0; backoff_ms = pos 0; max_backoff_ms = pos 0 };
}

abbrev pub plan_of : List PlanNode → RetrievalPlan
plan_of nodes = record {
  version = "retrieval-plan/v1";
  session_id = "";
  identity = record { profile = ""; mode = ""; scope_key = "" };
  budget = record {
    deadline_ms = pos 0;
    max_calls = pos 0;
    max_pages_per_source = pos 0;
    max_fetches = pos 0;
    max_expanded_nodes = pos 0;
    max_bytes = pos 0;
  };
  nodes = nodes;
  output = [];
}

abbrev pub diamond : RetrievalPlan
diamond = plan_of (
    node "a" search []
    ∷ node "b" search ("a" ∷ [])
    ∷ node "c" search ("a" ∷ [])
    ∷ node "d" merge ("b" ∷ "c" ∷ [])
    ∷ [])

abbrev pub order : List String
order = "d" ∷ "b" ∷ "a" ∷ "c" ∷ []

diamond-ok : validate_plan order diamond ≡ ok tt
unfolding program
diamond-ok = refl

loop-cyclic :
    validate_plan
      ("a" ∷ "b" ∷ [])
      (plan_of (node "a" search ("b" ∷ []) ∷ node "b" search ("a" ∷ []) ∷ []))
    ≡ err (cyclic "a")
unfolding program
loop-cyclic = refl

stray-unknown :
    validate_plan ("a" ∷ []) (plan_of (node "a" search ("z" ∷ []) ∷ []))
    ≡ err (unknown_dependency "a" "z")
unfolding program
stray-unknown = refl

validate_plan-IsRunnable_example : IsRunnable diamond
validate_plan-IsRunnable_example =
    validate_plan-IsRunnable order diamond (refl, (refl, (refl, (refl, tt)))) diamond-ok

abbrev height : String → ℕ
height id = if id == "a" then 0 else if id == "d" then 2 else 1

diamond-IsRunnable : IsRunnable diamond
diamond-IsRunnable = record {
  version = inr refl;
  some_nodes = omega arith;
  few_nodes = omega arith;
  named = (refl, refl, (refl, refl, (refl, refl, (refl, refl, tt))));
  known = (tt, ((refl, tt), ((refl, tt), ((refl, (refl, tt)), tt))));
  rank = height;
  ranked = (tt, ((omega arith, tt), ((omega arith, tt), ((omega arith, (omega arith, tt)), tt))));
}

validate_plan_complete_example : validate_plan order diamond ≡ ok tt
validate_plan_complete_example = validate_plan_complete order diamond diamond-IsRunnable
