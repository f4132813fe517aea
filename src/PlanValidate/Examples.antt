-- ===== src/PlanValidate/Examples.antt =====
-- The diamond of PlanGraph/Examples under the validator, and an application of the theorem on both
-- checks to it.
use feishu_super_search.Prelude.{
  ◌≡◌, refl, false, none, some, [], ◌∷◌, pos, negsuc, ok, err, is_blank,
}
use feishu_super_search.Kernel.Requests.{
  SearchStrategy, request_defaults, validate_request, strategy_defaults, float_neg, float_nonpos,
}
use feishu_super_search.Kernel.Plan.{search, limit}
use feishu_super_search.PlanGraph.Validate.{validate_plan}
use feishu_super_search.PlanGraph.Examples.{diamond, order, node, plan_of}
use feishu_super_search.PlanGraph.Examples
use feishu_super_search.PlanValidate.NodeRequest.{
  SearchNode, Decoders, negative_top_k, validate_node_request, decode_optional, decode_required,
  check_search, require_empty,
}
use feishu_super_search.PlanValidate.{
  in_request, depends_on_itself, check_own, check_node, index_checked, check_outputs,
  visit_unvisited, validate_semantics,
}
use feishu_super_search.PlanValidate.Agreement.{validate_semantics-validate_plan}

program : Unit {0}
unfolding Examples.program is_blank request_defaults validate_request strategy_defaults float_neg
    float_nonpos validate_node_request decode_optional decode_required check_search require_empty
    check_own check_node index_checked check_outputs visit_unvisited validate_semantics
program = tt

abbrev strategy : SearchStrategy
strategy = record {
  profile = "fast";
  fusion = "";
  pagination = "";
  source_quota = false;
  disable_source_quota = false;
  weights = [];
  quotas = [];
  k0 = 0;
}

abbrev search_request : SearchNode
search_request = record {
  source = "docs";
  query = "q";
  source_queries = [];
  sources = [];
  filters = record {
    after = none;
    before = none;
    sender_ids = [];
    person_ids = [];
    chat_ids = [];
    doc_types = [];
    folder_tokens = [];
    space_ids = [];
    mine = false;
    completed = none;
    only_title = false;
    extra = [];
  };
  limit = pos 0;
  limit_per_source = pos 0;
  strategy = strategy;
}

-- A decoder that reads every text as one and the same request.
abbrev decoders : Decoders
decoders = record {
  texts = record { to_lower = λ s. s; digest = λ s. s };
  search_node = λ _. some search_request;
  query_node = λ _. none;
  fetch_node = λ _. none;
  expand_node = λ _. none;
  resolve_node = λ _. none;
  rank_node = λ _. none;
  top_k = λ _. some (negsuc 0);
  map_fetch_node = λ _. none;
  fields = λ _. some [];
}

diamond-valid : validate_semantics decoders diamond ≡ ok tt
unfolding program
diamond-valid = refl

loop-refused :
    validate_semantics decoders (plan_of (node "a" search ("a" ∷ []) ∷ []))
    ≡ err (depends_on_itself "a")
unfolding program
loop-refused = refl

limit-refused :
    validate_semantics decoders (plan_of (node "a" limit [] ∷ []))
    ≡ err (in_request "a" negative_top_k)
unfolding program
limit-refused = refl

validate_semantics-validate_plan_example : validate_plan order diamond ≡ ok tt
validate_semantics-validate_plan_example =
    validate_semantics-validate_plan decoders diamond (unfold program in refl) diamond-valid order
