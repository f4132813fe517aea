-- ===== src/Engine/Search/Runs.antt =====
-- internal/engine/search.go: the runs and the frontiers of the sources over several pages.
use feishu_super_search.Prelude.{
  ℕ, suc, ◌+◌, ℤ, pos, add64, is_nonpos, ltb, pos_part, eqb, Bool, true, false, not, ◌&&◌, ◌||◌,
  none, some, List, [], ◌∷◌, ◌++◌, Dict, lookup, insert, sort_by, length, count, ◌==◌,
  if◌then◌else◌,
}
use feishu_super_search.Kernel.Errors.{
  ErrorType, ErrorDetail, new_error, missing_scope, budget_exhausted, deadline_exceeded,
  upstream_transient, upstream_permanent,
}
use feishu_super_search.Kernel.Refs.{SourceId}
use feishu_super_search.Kernel.Objects.{Candidate}
use feishu_super_search.Kernel.Requests.{SearchRequest}
use feishu_super_search.Kernel.Snapshots.{SourceStatus, SourceRun, Continuation}
use feishu_super_search.Fusion.Discoveries.{text_less}
use feishu_super_search.Session.{values}
use feishu_super_search.Engine.Access.{ordered_sources}
use feishu_super_search.Engine.Search.{PageResult, is_transient}

unfoldable pub collect_candidates : List PageResult → List Candidate
collect_candidates [] = []
collect_candidates (r ∷ results) = r.page.candidates ++ collect_candidates results

unfoldable pub runs_from_results : List PageResult → Dict SourceRun → Dict SourceRun
runs_from_results [] m = m
runs_from_results (r ∷ results) m = runs_from_results results (insert r.source r.run m)

abbrev pub frontier_of : PageResult → Continuation
frontier_of r = record {
  provider_id = r.provider;
  source = r.source;
  cursor = r.page.next_cursor;
  has_more = r.page.has_more;
  pages_fetched = r.run.pages;
}

unfoldable pub frontiers_from_results : List PageResult → Dict Continuation → Dict Continuation
frontiers_from_results [] m = m
frontiers_from_results (r ∷ results) m =
    frontiers_from_results results (insert r.source (frontier_of r) m)

-- A missing key reads as the zero value.
unfoldable pub run_at : SourceId → Dict SourceRun → SourceRun
run_at s m = elim (lookup s m) [
  | some r ↦ r
  | none ↦ record {
    provider_id = "";
    source = "";
    status = SourceStatus.unset;
    pages = 0;
    hit_count = 0;
    elapsed_ms = pos 0;
    error = none;
  }
]

unfoldable pub frontier_at : SourceId → Dict Continuation → Continuation
frontier_at s m = elim (lookup s m) [
  | some f ↦ f
  | none ↦ record {
    provider_id = "";
    source = "";
    cursor = "";
    has_more = false;
    pages_fetched = 0;
  }
]

-- The statuses of a page that replace the one of the earlier pages.
abbrev pub overrides : SourceStatus → Bool
overrides SourceStatus.failed = true
overrides SourceStatus.missing_scope = true
overrides SourceStatus.deadline_exceeded = true
overrides _ = false

abbrev pub is_open_status : SourceStatus → Bool
is_open_status SourceStatus.unset = true
is_open_status SourceStatus.empty = true
is_open_status _ = false

-- The turn of mergeRuns for one result.
unfoldable pub merge_run : PageResult → SourceRun → SourceRun
merge_run r old = record {
  provider_id = r.run.provider_id;
  source = r.source;
  status =
      if overrides r.run.status
      then r.run.status
      else if is_open_status old.status
      then r.run.status
      else old.status;
  pages = old.pages + r.run.pages;
  hit_count = old.hit_count + r.run.hit_count;
  elapsed_ms = add64 old.elapsed_ms r.run.elapsed_ms;
  error = if overrides r.run.status then r.run.error else old.error;
}

unfoldable pub merge_runs : Dict SourceRun → List PageResult → Dict SourceRun
merge_runs m [] = m
merge_runs m (r ∷ results) =
    merge_runs (insert r.source (merge_run r (run_at r.source m)) m) results

abbrev pub merge_frontier : PageResult → Continuation → Continuation
merge_frontier r old = record {
  provider_id = r.provider;
  source = r.source;
  cursor = r.page.next_cursor;
  has_more = r.page.has_more;
  pages_fetched = suc old.pages_fetched;
}

unfoldable pub merge_frontiers : Dict Continuation → List PageResult → Dict Continuation
merge_frontiers m [] = m
merge_frontiers m (r ∷ results) =
    merge_frontiers (insert r.source (merge_frontier r (frontier_at r.source m)) m) results

unfoldable pub sorted_runs : Dict SourceRun → List SourceRun
sorted_runs m = sort_by (λ a b. text_less a.source b.source) (values m)

unfoldable pub with_more : Dict Continuation → List Continuation
with_more [] = []
with_more ((_, f) ∷ m) = let rest = with_more m in if f.has_more then f ∷ rest else rest

unfoldable pub sorted_continuations : Dict Continuation → List Continuation
sorted_continuations m = sort_by (λ a b. text_less a.source b.source) (with_more m)

abbrev pub is_whole : SourceStatus → Bool
is_whole SourceStatus.ok = true
is_whole SourceStatus.empty = true
is_whole _ = false

-- The number of failed sources in partialFromRuns.
unfoldable pub failed_runs : Dict SourceRun → ℕ
failed_runs m = count (λ r. not (is_whole r.status)) (values m)

unfoldable pub partial_from_runs : Dict SourceRun → Bool × ℕ
partial_from_runs m = (ltb 0 (failed_runs m), failed_runs m)

-- The sources that chooseNextSources takes under the pagination `fixed` or `all`.
unfoldable pub open_sources : Dict Continuation → List SourceId
open_sources [] = []
open_sources ((s, f) ∷ m) = let rest = open_sources m in if f.has_more then s ∷ rest else rest

-- fusion.DefaultQuotas
abbrev pub default_quotas : Dict ℤ
default_quotas =
    ("docs", pos 10)
    ∷ ("messages", pos 12)
    ∷ ("minutes", pos 6)
    ∷ ("meetings", pos 4)
    ∷ ("tasks", pos 6)
    ∷ ("people", pos 4)
    ∷ ("chats", pos 4)
    ∷ ("calendar", pos 5)
    ∷ ("mail", pos 6)
    ∷ ("base", pos 6)
    ∷ ("sheets", pos 6)
    ∷ []

unfoldable pub number_at : SourceId → Dict ℤ → ℤ
number_at s m = elim (lookup s m) [ none ↦ pos 0 | some q ↦ q ]

unfoldable pub next_quota : Dict ℤ → SourceId → ℤ
next_quota quotas s =
    if is_nonpos (number_at s quotas) then number_at s default_quotas else number_at s quotas

-- `f.HasMore && (top[source] || counts[source] < quota)`
unfoldable pub wants_more : SearchRequest → List Candidate → Dict Continuation → SourceId → Bool
wants_more req selected frontiers s =
    let n = count (λ c. c.source == s) selected in
    (frontier_at s frontiers).has_more
    && (ltb 0 n || ltb n (pos_part (next_quota req.strategy.quotas s)))

unfoldable pub wanted_sources :
    SearchRequest → List Candidate → Dict Continuation → List PageResult → List SourceId
wanted_sources req selected frontiers [] = []
wanted_sources req selected frontiers (r ∷ last) =
    let rest = wanted_sources req selected frontiers last in
    if wants_more req selected frontiers r.source then r.source ∷ rest else rest

unfoldable pub choose_next_sources :
    SearchRequest → List Candidate → List PageResult → Dict Continuation → List SourceId
choose_next_sources req selected last frontiers =
    if req.strategy.pagination == "fixed" || req.strategy.pagination == "all"
    then ordered_sources (open_sources frontiers)
    else ordered_sources (wanted_sources req selected frontiers last)

abbrev pub add_error : SourceRun → List ErrorDetail → List ErrorDetail
add_error r out = elim r.error [ none ↦ out | some e ↦ e ∷ out ]

unfoldable pub errors_of : List SourceRun → List ErrorDetail
errors_of [] = []
errors_of (r ∷ runs) = add_error r (errors_of runs)

abbrev pub has_type : (ErrorType → Bool) → ErrorDetail → Bool
has_type p e = p e.kind

abbrev pub is_missing_scope : ErrorType → Bool
is_missing_scope missing_scope = true
is_missing_scope _ = false

abbrev pub is_budget : ErrorType → Bool
is_budget budget_exhausted = true
is_budget _ = false

abbrev pub is_deadline : ErrorType → Bool
is_deadline deadline_exceeded = true
is_deadline _ = false

abbrev pub is_retryable : ErrorDetail → Bool
is_retryable e = e.retryable || is_transient e.kind

-- All of the `total` runs failed with an error of one type.
abbrev pub all_of : ℕ → (ErrorType → Bool) → List ErrorDetail → Bool
all_of total p errors = ltb 0 total && eqb (count (has_type p) errors) total

-- aggregateSearchFailure; the details, which list the errors, are left out.
unfoldable pub aggregate_search_failure : Dict SourceRun → ErrorDetail
aggregate_search_failure m =
    let errors = errors_of (values m) in
    let total = length (values m) in
    let retryable = ltb 0 (count is_retryable errors) in
    let kind : ErrorType =
      if all_of total is_missing_scope errors
      then missing_scope
      else if all_of total is_budget errors
      then budget_exhausted
      else if all_of total is_deadline errors
      then deadline_exceeded
      else if retryable
      then upstream_transient
      else upstream_permanent in
    record (new_error kind "all search sources failed") { retryable = retryable }
