-- ===== src/PlanExec/Execute/Examples.antt =====
-- Nodes that are executed against a kernel that answers in a fixed way.
use feishu_super_search.Prelude.{
  map, take, String, ◌≡◌, refl, true, false, none, some, List, [], ◌∷◌, pos, All, lookup, sort_by,
  sort_into, ok, err,
}
use feishu_super_search.Kernel.Errors.{ErrorDetail, new_error, upstream_transient}
use feishu_super_search.Kernel.Objects.{Candidate}
use feishu_super_search.Kernel.Plan.{
  PlanOp, query, map_fetch, failed, succeeded, PlanNode, RetrievalPlan, NodeResult,
}
use feishu_super_search.Kernel.Requests.{FetchRequest}
use feishu_super_search.Kernel.Snapshots.{SourceStatus, SourceRun}
use feishu_super_search.Session.{no_budget_state}
use feishu_super_search.PlanExec.Loop.{no_result}
use feishu_super_search.PlanExec.Execute.{
  Services, MapFetchRequest, RankRequest, add_items, merge_deps, gather_deps, sorted_deps,
  dep_candidates, dep_artifacts, dep_relations, default_projection, fetch_limit, fetch_top,
  projection_for, fetch_items, map_fetch_items,
}
use feishu_super_search.PlanExec.Execute.Node.{execute_op, execute_node}
use feishu_super_search.PlanExec.Execute.Items.{map_fetch_items-take, HasProjection, cap, top_cap}

program : Unit {0}
unfolding new_error lookup sort_by sort_into add_items merge_deps gather_deps sorted_deps
    dep_candidates dep_artifacts dep_relations default_projection fetch_limit fetch_top
    projection_for fetch_items map_fetch_items execute_op execute_node
program = tt

abbrev busy : ErrorDetail
busy = new_error upstream_transient "busy"

abbrev no_rank : RankRequest
no_rank = record {
  query = "";
  limit = pos 0;
  k0 = 0;
  weights = [];
  quotas = [];
  source_quota = false;
}

abbrev run_of_source : SourceRun
run_of_source = record {
  provider_id = "p";
  source = "docs";
  status = SourceStatus.failed;
  pages = 1;
  hit_count = 0;
  elapsed_ms = pos 0;
  error = some busy;
}

-- Every text is refused but that of a query node, and every call of the kernel fails.
abbrev services : Services
services = record {
  search_node = λ s. err "bad";
  query_node = λ s. ok record {
    source = "docs";
    container = none;
    filter = [];
    sort = [];
    limit = pos 0;
    cursor = "";
    identity = record { profile = ""; mode = ""; scope_key = "" };
    session_id = "";
    budget = record {
      deadline_ms = pos 0;
      max_calls = pos 0;
      max_pages_per_source = pos 0;
      max_fetches = pos 0;
      max_expanded_nodes = pos 0;
      max_bytes = pos 0;
    };
  };
  fetch_node = λ s. err "bad";
  expand_node = λ s. err "bad";
  resolve_node = λ s. err "bad";
  rank_node = λ s. no_rank;
  top_k = λ s. pos 0;
  map_fetch_node = λ s. err "bad";
  dedup_all = λ cs i. cs;
  fuse = λ r cs i. cs;
  do_search = λ r. (
    record {
      session_id = "rs_1";
      query = "";
      candidates = [];
      sources = [];
      continuations = [];
      partial = true;
      budget = no_budget_state;
      stats = record {
        raw_candidates = 0;
        unique_candidates = 0;
        returned = 0;
        sources_completed = 0;
        sources_failed = 1;
        elapsed_ms = pos 0;
      };
    },
    some busy,
  );
  do_query = λ r. (
    record {
      session_id = "rs_1";
      source = "docs";
      candidates = [];
      continuation = none;
      source_run = run_of_source;
      budget = no_budget_state;
    },
    some busy,
  );
  do_fetch = λ r. (
    record { session_id = "rs_1"; items = []; partial = true; budget = no_budget_state },
    some busy,
  );
  do_expand = λ r. (
    record {
      session_id = "rs_1";
      relations = [];
      partial = true;
      error = some busy;
      budget = no_budget_state;
    },
    some busy,
  );
  do_resolve = λ r. ([], some busy);
}

abbrev node : PlanOp → PlanNode
node op = record {
  id = "n";
  op = op;
  depends_on = "a" ∷ [];
  request = "{}";
  priority = 0;
  optional = false;
  max_items = pos 1;
  retry = record { max_attempts = pos 0; backoff_ms = pos 0; max_backoff_ms = pos 0 };
}

abbrev plan : RetrievalPlan
plan = record {
  version = "";
  session_id = "";
  identity = record { profile = ""; mode = ""; scope_key = "" };
  budget = record {
    deadline_ms = pos 0;
    max_calls = pos 0;
    max_pages_per_source = pos 0;
    max_fetches = pos 0;
    max_expanded_nodes = pos 0;
    max_bytes = pos 0;
  };
  nodes = node query ∷ [];
  output = [];
}

-- The error of the kernel is that of the node, and the session is the one it ran in.
query-failed :
    execute_node services plan (node query) [] ""
    ≡ (record no_result { node_id = "n"; state = failed; error = some busy }, "rs_1")
unfolding program
query-failed = refl

abbrev found : String → Candidate
found id = record {
  ref = record {
    platform = "feishu";
    scope_key = "tenant";
    kind = "document";
    native_id = id;
    canonical_id = id;
    provider_id = "p";
    source = "docs";
    url = "";
  };
  source = "docs";
  kind = "document";
  title = "";
  snippet = "";
  url = "";
  timestamp = none;
  actors = [];
  container = none;
  native_rank = pos 1;
  native_score = none;
  fused_score = 0;
  projection = 1;
  available_projection = 1;
  relation_hints = [];
  discovered_by = [];
  provenance = record {
    provider_id = "p";
    backend = "";
    operation = "";
    retrieved_at = 0;
    source_rank = pos 0;
    raw_ref = none;
  };
}

abbrev deps : List (String × NodeResult)
deps = ("a", record no_result { state = succeeded; candidates = found "d1" ∷ found "d2" ∷ [] }) ∷ []

abbrev mapped : MapFetchRequest
mapped = record {
  top_k = pos 5;
  max_items = pos 0;
  projection_by_kind = [];
  default_projection = 0;
}

-- The node allows one item, of the structure and the content of the document.
one-item :
    map_fetch_items (node map_fetch) mapped deps
    ≡ record { ref = (found "d1").ref; projection = 24 } ∷ []
unfolding program
one-item = refl

map_fetch_items-take_example :
    (map (λ (i : FetchRequest). i.ref) (map_fetch_items (node map_fetch) mapped deps)
      ≡ map
          (λ (c : Candidate). c.ref)
          (take
            (top_cap mapped.top_k (cap mapped.max_items (node map_fetch).max_items))
            (dep_candidates deps)))
    × All HasProjection (map_fetch_items (node map_fetch) mapped deps)
map_fetch_items-take_example = map_fetch_items-take (node map_fetch) mapped deps
