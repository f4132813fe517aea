-- ===== src/Engine/Search/Examples.antt =====
-- A search of one source that has two pages, and applications of the theorems to it.
use feishu_super_search.Prelude.{
  String, ℕ, ◌≤◌, ◌≡◌, refl, true, false, none, List, [], ◌∷◌, pos, pos_part, lookup, insert, eqb,
  trim_space, sort_by, sort_into, add64,
}
use feishu_super_search.Kernel.Errors.{new_error}
use feishu_super_search.Kernel.Objects.{Candidate}
use feishu_super_search.Kernel.Provider.{ProviderDescriptor, supports}
use feishu_super_search.Kernel.Requests.{SearchRequest}
use feishu_super_search.Kernel.Snapshots.{SourceStatus, SourceRun}
use feishu_super_search.Registry.{
  Registry, for_operation, candidate as route_candidate, text_at, dict_at, operation_available,
}
use feishu_super_search.Engine.Access.{
  status_for_error, compatible_identity, validate_provider_operation, ordered_sources,
  distinct_sources,
}
use feishu_super_search.Engine.Search.{Answers, Reply, label, label_all, search_with, search_one}
use feishu_super_search.Engine.Search.Runs.{
  collect_candidates, runs_from_results, frontiers_from_results, run_at, frontier_at, merge_run,
  merge_runs, merge_frontiers, choose_next_sources, open_sources, wanted_sources, wants_more,
  next_quota, number_at, partial_from_runs, failed_runs,
}
use feishu_super_search.Engine.Search.Rounds.{
  cursors_of, search_each, search_wave, start_search, add_wave, next_wave, search_rounds,
  further_rounds, search_pages,
}
use feishu_super_search.Engine.Search.Coherent.{IsCoherent, search_one-IsCoherent}
use feishu_super_search.Engine.Search.Pages.{search_pages-le}

abbrev descriptor : ProviderDescriptor
descriptor = record {
  id = "p";
  source = "docs";
  object_kinds = [];
  operations = ("search", true) ∷ [];
  required_identity = [];
  required_scopes = [];
  search_limits = record { max_query_runes = pos 0; max_page_size = pos 0; max_pages = pos 0 };
  batch_limit = pos 0;
  returned_projection = 1;
  fetchable_projection = 16;
  supports_pagination = true;
  supports_streaming = false;
  backend = "";
  version = "";
}

abbrev registry : Registry
registry = record {
  by_id = ("p", descriptor) ∷ [];
  by_source = ("docs", "p" ∷ []) ∷ [];
  preferred = ("docs", "p") ∷ [];
  preferred_by_op = [];
  unavailable = [];
  unavailable_op = [];
}

abbrev request : SearchRequest
request = record {
  query = "budget";
  source_queries = [];
  sources = [];
  filters = record {
    after = none;
    before = none;
    sender_ids = [];
    person_ids = [];
    chat_ids = [];
    doc_types = [];
    folder_tokens = [];
    space_ids = [];
    mine = false;
    completed = none;
    only_title = false;
    extra = [];
  };
  identity = record { profile = "p"; mode = "auto"; scope_key = "tenant" };
  limit = pos 10;
  limit_per_source = pos 5;
  budget = record {
    deadline_ms = pos 8000;
    max_calls = pos 24;
    max_pages_per_source = pos 2;
    max_fetches = pos 12;
    max_expanded_nodes = pos 20;
    max_bytes = pos 1000;
  };
  strategy = record {
    profile = "balanced";
    fusion = "weighted_rrf";
    pagination = "adaptive";
    source_quota = true;
    disable_source_quota = false;
    weights = [];
    quotas = [];
    k0 = 0;
  };
  session_id = "rs_1";
}

abbrev sample : String → Candidate
sample id = record {
  ref = record {
    platform = "";
    scope_key = "";
    kind = "document";
    native_id = id;
    canonical_id = "";
    provider_id = "";
    source = "";
    url = "";
  };
  source = "";
  kind = "document";
  title = id;
  snippet = "";
  url = "";
  timestamp = none;
  actors = [];
  container = none;
  native_rank = pos 0;
  native_score = none;
  fused_score = 0;
  projection = 1;
  available_projection = 1;
  relation_hints = [];
  discovered_by = [];
  provenance = record {
    provider_id = "p";
    backend = "";
    operation = "search";
    retrieved_at = 0;
    source_rank = pos 0;
    raw_ref = none;
  };
}

abbrev page : List Candidate → Reply
page cs = (record { candidates = cs; next_cursor = "next"; has_more = true }, none)

-- The second page goes beyond the byte budget.
abbrev answer : ℕ → Answers
answer round = record {
  implements = true;
  reserved = true;
  first = page (sample "d" ∷ []);
  waited = true;
  reserved_again = true;
  second = page [];
  fits = eqb round 1;
  elapsed = pos 7;
}

abbrev rank : SearchRequest → List Candidate → List Candidate
rank req all = all

program : Unit {0}
unfolding lookup insert trim_space sort_by sort_into add64 supports for_operation route_candidate
    text_at dict_at operation_available new_error status_for_error compatible_identity
    validate_provider_operation ordered_sources distinct_sources label label_all search_with
    search_one collect_candidates runs_from_results frontiers_from_results run_at frontier_at
    merge_run merge_runs merge_frontiers choose_next_sources open_sources wanted_sources wants_more
    next_quota number_at partial_from_runs failed_runs cursors_of search_each search_wave
    start_search add_wave next_wave search_rounds further_rounds search_pages
program = tt

abbrev searched : SourceRun
searched =
    run_at "docs" (search_pages registry rank (λ round s. answer round) request ("docs" ∷ [])).runs

-- The page that was lost to the budget leaves no trace in the status.
hidden : (searched.pages ≡ 2) × (searched.status ≡ SourceStatus.ok) × (searched.error ≡ none)
unfolding program
hidden = (refl, refl, refl)

search_pages-le_example :
    (run_at "docs"
      (search_pages registry rank (λ round s. answer round) request ("docs" ∷ [])).runs).pages
    ≤ pos_part (pos 2)
search_pages-le_example =
    search_pages-le registry rank (λ round s. answer round) request "docs" ("docs" ∷ []) refl

search_one-IsCoherent_example :
    IsCoherent "docs" (search_one registry request (answer 2) "docs" "next")
search_one-IsCoherent_example = search_one-IsCoherent registry request (answer 2) "docs" "next"
