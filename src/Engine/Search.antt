-- ===== src/Engine/Search.antt =====
-- searchOne of internal/engine/search.go: one page of one source. The provider and the ledger answer
-- through `Answers`; the events that it records are left out.
pub mod Runs
pub mod Rounds
pub mod Coherent
pub mod Pages
pub mod Examples
use feishu_super_search.Prelude.{
  String, ℕ, suc, ◌+◌, ℤ, pos, pos_part, is_positive, is_nonpos, Bool, true, false, not, ◌&&◌,
  Option, none, some, List, [], ◌∷◌, lookup, length, ltb, ◌==◌, if◌then◌else◌, trim_space, chars,
}
use feishu_super_search.Kernel.Errors.{
  ErrorType, ErrorDetail, new_error, unsupported, invalid_request, budget_exhausted, rate_limited,
  upstream_transient,
}
use feishu_super_search.Kernel.Refs.{SourceId, ProviderId}
use feishu_super_search.Kernel.Objects.{Candidate, Discovery}
use feishu_super_search.Kernel.Provider.{ProviderDescriptor}
use feishu_super_search.Kernel.Requests.{SearchRequest}
use feishu_super_search.Kernel.Snapshots.{SourceStatus, SourceRun}
use feishu_super_search.Registry.{Registry, for_operation}
use feishu_super_search.Engine.Access.{status_for_error, validate_provider_operation}

pub record CandidatePage : Type 0 where
  pub candidates : List Candidate
  pub next_cursor : String
  pub has_more : Bool

abbrev pub no_page : CandidatePage
no_page = record { candidates = []; next_cursor = ""; has_more = false }

-- sourcePageResult
pub record PageResult : Type 0 where
  pub source : SourceId
  pub provider : ProviderId
  pub page : CandidatePage
  pub run : SourceRun
  pub err : Option ErrorDetail

-- What a call of a provider returns: a page, and the error or nil.
abbrev pub Reply : Type 0
Reply = CandidatePage × Option ErrorDetail

-- `implements` is the type assertion, `reserved`, `reserved_again` and `fits` are the answers of
-- the ledger, `waited` says that the timer ended before the context did, and `elapsed` is the time
-- that the call took.
pub record Answers : Type 0 where
  pub implements : Bool
  pub reserved : Bool
  pub first : Reply
  pub waited : Bool
  pub reserved_again : Bool
  pub second : Reply
  pub fits : Bool
  pub elapsed : ℤ

abbrev pub is_transient : ErrorType → Bool
is_transient rate_limited = true
is_transient upstream_transient = true
is_transient _ = false

abbrev pub retry_once : Answers → Reply → Reply
retry_once a (page, none) = (page, none)
retry_once a (page, some d) =
    if is_transient d.kind && a.waited && a.reserved_again then a.second else (page, some d)

-- A page that exceeds the byte budget is an error, and ends the paging.
abbrev pub metered : Bool → ErrorDetail → Reply → Reply
metered fits e (page, some d) = (page, some d)
metered fits e (page, none) =
    if fits then (page, none) else (record page { has_more = false; next_cursor = "" }, some e)

abbrev pub no_candidates : List Candidate → Bool
no_candidates [] = true
no_candidates (_ ∷ _) = false

abbrev pub status_of : Reply → SourceStatus
status_of (page, some d) = status_for_error d.kind
status_of (page, none) =
    if no_candidates page.candidates then SourceStatus.empty else SourceStatus.ok

abbrev pub or_else_text : String → String → String
or_else_text s d = if s == "" then d else s

abbrev pub or_discovery : List Discovery → Discovery → List Discovery
or_discovery [] d = d ∷ []
or_discovery (x ∷ xs) d = x ∷ xs

-- The turn of the last loop for the candidate at position `i`.
unfoldable pub label : SourceId → ProviderId → String → ℕ → Candidate → Candidate
label source provider cursor i c =
    let rank = if is_nonpos c.native_rank then pos (i + 1) else c.native_rank in
    record c {
      ref = record c.ref {
        provider_id = or_else_text c.ref.provider_id provider;
        source = or_else_text c.ref.source source;
      };
      source = or_else_text c.source source;
      native_rank = rank;
      discovered_by = or_discovery c.discovered_by record {
        provider_id = provider;
        source = source;
        rank = rank;
        score = c.native_score;
        cursor = cursor;
      };
    }

unfoldable pub label_all : SourceId → ProviderId → String → ℕ → List Candidate → List Candidate
label_all source provider cursor i [] = []
label_all source provider cursor i (c ∷ cs) =
    label source provider cursor i c ∷ label_all source provider cursor (suc i) cs

-- The result where no call was made.
abbrev pub refusal : SourceId → ProviderId → SourceStatus → ErrorDetail → PageResult
refusal source provider status e = record {
  source = source;
  provider = provider;
  page = no_page;
  run = record {
    provider_id = provider;
    source = source;
    status = status;
    pages = 0;
    hit_count = 0;
    elapsed_ms = pos 0;
    error = some e;
  };
  err = some e;
}

abbrev pub answered : SourceId → ProviderId → String → ℤ → Reply → PageResult
answered source provider cursor elapsed reply = record {
  source = source;
  provider = provider;
  page = record reply.0 { candidates = label_all source provider cursor 0 reply.0.candidates };
  run = record {
    provider_id = provider;
    source = source;
    status = status_of reply;
    pages = 1;
    hit_count = length reply.0.candidates;
    elapsed_ms = elapsed;
    error = reply.1;
  };
  err = reply.1;
}

abbrev pub error_of : ProviderDescriptor → SourceId → ErrorType → String → ErrorDetail
error_of d source kind message = record (new_error kind message) {
  provider_id = d.id;
  source = source;
}

-- The query for a source: its own one, if that is not blank.
abbrev pub provider_query : SearchRequest → SourceId → String
provider_query req source =
    or_else_text (elim (lookup source req.source_queries) [ none ↦ "" | some q ↦ trim_space q ])
      req.query

abbrev pub is_too_long : ProviderDescriptor → String → Bool
is_too_long d query =
    is_positive d.search_limits.max_query_runes
    && ltb (pos_part d.search_limits.max_query_runes) (length (chars query))

unfoldable pub search_with :
    ProviderDescriptor → SearchRequest → Answers → SourceId → String → PageResult
search_with d req a source cursor = elim (validate_provider_operation d "search" req.identity) [
  | some e ↦ refusal source d.id (status_for_error e.kind) e
  | none ↦
      if not a.implements
      then refusal source d.id SourceStatus.unavailable
          (error_of d source unsupported "provider does not implement search")
      else if is_too_long d (provider_query req source)
      then refusal source d.id SourceStatus.failed
          (error_of d source invalid_request "query exceeds provider limit")
      else if not a.reserved
      then refusal source d.id SourceStatus.budget_exhausted
          (error_of d source budget_exhausted "search call budget exhausted")
      else answered source d.id cursor a.elapsed (
          metered a.fits (error_of d source budget_exhausted "search response exceeded byte budget")
            (retry_once a a.first))
]

unfoldable pub search_one : Registry → SearchRequest → Answers → SourceId → String → PageResult
search_one registry req a source cursor = elim (for_operation source "search" registry) [
  | none ↦
      refusal source "" SourceStatus.unavailable
        (record (new_error unsupported "provider not registered") { source = source })
  | some d ↦ search_with d req a source cursor
]
