-- ===== src/PlanValidate/NodeRequest.antt =====
-- validateNodeRequest of internal/planvalidate/validate.go: what the request of each operation must
-- hold. The JSON decoder is a parameter: it gives the request, or `none` if the text is no JSON
-- value of that shape or has unknown fields.
use feishu_super_search.Prelude.{
  ℕ, suc, String, Bool, true, false, not, ◌&&◌, ◌||◌, Option, none, some, List, [], ◌∷◌, Dict, ltb,
  eqb, ℤ, pos, is_neg, pos_part, ◌==◌, trim_space, is_blank, Result, ok, err, refuse, wrap_error,
  ◌>>=◌, ◌>>◌, if◌then◌else◌,
}
use feishu_super_search.Kernel.Refs.{SourceId, ObjectRef, validate}
use feishu_super_search.Kernel.Limits.{SearchBudget}
use feishu_super_search.Kernel.Requests.{
  SearchFilters, SearchStrategy, SearchRequest, QueryRequest, FetchRequest, FetchBatchRequest,
  ExpandRequest, ResolveRequest, TextOps, request_defaults, RequestError, validate_request,
  float_neg,
}
use feishu_super_search.Kernel.Plan.{
  resolve, search, query, fetch, expand, merge, dedup, rank, limit, project, map_fetch, other,
  PlanNode,
}

-- The fields of a search node that the check reads.
pub record SearchNode : Type 0 where
  pub source : SourceId
  pub query : String
  pub source_queries : Dict String
  pub sources : List SourceId
  pub filters : SearchFilters
  pub limit : ℤ
  pub limit_per_source : ℤ
  pub strategy : SearchStrategy

pub record RankNode : Type 0 where
  pub limit : ℤ
  pub k0 : ℕ
  pub weights : Dict ℕ
  pub quotas : Dict ℤ

pub record MapFetchNode : Type 0 where
  pub top_k : ℤ
  pub max_items : ℤ

pub record Decoders : Type 0 where
  pub texts : TextOps
  pub search_node : String → Option SearchNode
  pub query_node : String → Option QueryRequest
  pub fetch_node : String → Option FetchBatchRequest
  pub expand_node : String → Option ExpandRequest
  pub resolve_node : String → Option ResolveRequest
  pub rank_node : String → Option RankNode
  pub top_k : String → Option ℤ
  pub map_fetch_node : String → Option MapFetchNode
  pub fields : String → Option (List String)

pub data NodeError : Type 0 where
  request_required invalid_shape empty_query source_and_sources no_source negative_limit : NodeError
  invalid_search : RequestError → NodeError
  invalid_container invalid_ref : String → NodeError
  no_items : NodeError
  invalid_item : ℕ → String → NodeError
  no_projection : ℕ → NodeError
  bad_depth empty_text negative_rank : NodeError
  negative_weight negative_quota : SourceId → NodeError
  negative_top_k negative_map_fetch large_map_fetch has_fields : NodeError
  unsupported_operation : String → NodeError

abbrev pub NodeCheck : Type 0
NodeCheck = Result NodeError (Unit {0})

-- `ltb` for int64 numbers.
abbrev pub above : ℕ → ℤ → Bool
above n x = ltb n (pos_part x)

abbrev pub no_list {ℓ} : {A : Type ℓ} → List A → Bool
no_list [] = true
no_list (_ ∷ _) = false

-- decodeNodeRequest for a request that may be left out: `none` stands for the zero request, and
-- the check of it.
unfoldable pub decode_optional :
    {A : Type 0} → (String → Option A) → String → Result NodeError (Option A)
decode_optional decode raw =
    if trim_space raw == "" || trim_space raw == "null"
    then ok none
    else elim (decode (trim_space raw)) [ none ↦ err invalid_shape | some a ↦ ok (some a) ]

unfoldable pub decode_required : {A : Type 0} → (String → Option A) → String → Result NodeError A
decode_required decode raw =
    if trim_space raw == "" || trim_space raw == "null"
    then err request_required
    else elim (decode (trim_space raw)) [ none ↦ err invalid_shape | some a ↦ ok a ]

-- `if err := ref.Validate(); err != nil { return … }`
abbrev pub check_ref : (String → NodeError) → ObjectRef → NodeCheck
check_ref f r = elim (validate r) [ none ↦ ok tt | some text ↦ err (f text) ]

abbrev pub no_budget : SearchBudget
no_budget = record {
  deadline_ms = pos 0;
  max_calls = pos 0;
  max_pages_per_source = pos 0;
  max_fetches = pos 0;
  max_expanded_nodes = pos 0;
  max_bytes = pos 0;
}

-- The search request that is built of the node's fields.
abbrev pub request_of : SearchNode → SearchRequest
request_of n = record {
  query = n.query;
  source_queries = n.source_queries;
  sources = n.sources;
  filters = n.filters;
  identity = record { profile = ""; mode = ""; scope_key = "" };
  limit = n.limit;
  limit_per_source = n.limit_per_source;
  budget = no_budget;
  strategy = n.strategy;
  session_id = "";
}

unfoldable pub check_search : TextOps → SearchNode → NodeCheck
check_search texts n = do
  refuse (is_blank n.query) empty_query
  refuse (not (n.source == "") && not (no_list n.sources)) source_and_sources
  wrap_error invalid_search (validate_request (request_defaults texts (request_of n)))

unfoldable pub check_query : QueryRequest → NodeCheck
check_query r = do
  refuse (r.source == "") no_source
  refuse (is_neg r.limit) negative_limit
  elim r.container [ none ↦ ok tt | some c ↦ check_ref invalid_container c ]

-- The loop over the items of a fetch, from index `i` on.
unfoldable pub check_items : ℕ → List FetchRequest → NodeCheck
check_items i [] = ok tt
check_items i (item ∷ items) = do
  check_ref (invalid_item i) item.ref
  refuse (eqb item.projection 0) (no_projection i)
  check_items (suc i) items

unfoldable pub check_fetch : FetchBatchRequest → NodeCheck
check_fetch r = do refuse (no_list r.items) no_items; check_items 0 r.items

unfoldable pub check_expand : ExpandRequest → NodeCheck
check_expand r = do
  check_ref invalid_ref r.ref
  refuse (is_neg r.max_depth || above 2 r.max_depth) bad_depth

unfoldable pub check_resolve : ResolveRequest → NodeCheck
check_resolve r = do refuse (is_blank r.text) empty_text; refuse (is_neg r.limit) negative_limit

-- The loops over the maps of weights and quotas, in the order in which the program walks them.
unfoldable pub check_weights : Dict ℕ → NodeCheck
check_weights [] = ok tt
check_weights ((source, w) ∷ rest) =
    refuse (float_neg w) (negative_weight source) >> check_weights rest

unfoldable pub check_quotas : Dict ℤ → NodeCheck
check_quotas [] = ok tt
check_quotas ((source, q) ∷ rest) = refuse (is_neg q) (negative_quota source) >> check_quotas rest

unfoldable pub check_rank : RankNode → NodeCheck
check_rank r = do
  refuse (is_neg r.limit || float_neg r.k0) negative_rank
  check_weights r.weights
  check_quotas r.quotas

unfoldable pub check_map_fetch : MapFetchNode → NodeCheck
check_map_fetch r = do
  refuse (is_neg r.top_k || is_neg r.max_items) negative_map_fetch
  refuse (above 100 r.max_items || above 100 r.top_k) large_map_fetch

-- A request that may be left out: the zero request passes each of these checks.
abbrev pub if_given {ℓ} : {A : Type ℓ} → (A → NodeCheck) → Option A → NodeCheck
if_given check none = ok tt
if_given check (some a) = check a

-- requireEmptyRequest
unfoldable pub require_empty : Decoders → String → NodeCheck
require_empty d raw = do
  names ← decode_optional d.fields raw
  if_given (λ l. refuse (not (no_list l)) has_fields) names

unfoldable pub validate_node_request : Decoders → PlanNode → NodeCheck
validate_node_request d n = elim n.op [
  | search ↦ decode_required d.search_node n.request >>= check_search d.texts
  | query ↦ decode_required d.query_node n.request >>= check_query
  | fetch ↦ decode_required d.fetch_node n.request >>= check_fetch
  | expand ↦ decode_required d.expand_node n.request >>= check_expand
  | resolve ↦ decode_required d.resolve_node n.request >>= check_resolve
  | rank ↦ decode_optional d.rank_node n.request >>= if_given check_rank
  | limit ↦ decode_optional d.top_k n.request >>= if_given (λ k. refuse (is_neg k) negative_top_k)
  | map_fetch ↦ decode_optional d.map_fetch_node n.request >>= if_given check_map_fetch
  | merge ↦ require_empty d n.request
  | dedup ↦ require_empty d n.request
  | project ↦ require_empty d n.request
  | other text ↦ err (unsupported_operation text)
]
