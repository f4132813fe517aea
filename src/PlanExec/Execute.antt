-- ===== src/PlanExec/Execute.antt =====
-- executeNode of internal/planexec/executor.go: a node becomes calls of the kernel. The calls, the
-- JSON decoder and the ranking of candidates are parameters (Services).
pub mod Node
pub mod Outcomes
pub mod Items
pub mod Examples
use Prim.Native.Nat.{bit_or}
use feishu_super_search.Prelude.{
  String, ℕ, ℤ, pos, pos_part, is_nonpos, ltz, Bool, true, false, eqb, ◌||◌, Option, none, some,
  List, [], ◌∷◌, ◌++◌, Dict, lookup, length, take, sort_by, ltb, ◌==◌, if◌then◌else◌, Result,
}
use feishu_super_search.Kernel.Errors.{ErrorDetail, new_error, invalid_request}
use feishu_super_search.Kernel.Refs.{Identity, ObjectKind, ObjectRef}
use feishu_super_search.Kernel.Objects.{Candidate, Artifact, Relation}
use feishu_super_search.Kernel.Plan.{query, limit, succeeded, partial, failed, PlanNode, NodeResult}
use feishu_super_search.Kernel.Requests.{
  SearchRequest, QueryRequest, FetchRequest, FetchBatchRequest, ExpandRequest, ResolveRequest,
}
use feishu_super_search.Kernel.Snapshots.{
  SearchSnapshot, QuerySnapshot, ArtifactResult, ArtifactBatch, RelationBatch,
}
use feishu_super_search.PlanValidate.NodeRequest.{SearchNode}
use feishu_super_search.PlanExec.Loop.{no_result}
use feishu_super_search.Fusion.Discoveries.{text_less}

pub record RankRequest : Type 0 where
  pub query : String
  pub limit : ℤ
  pub k0 : ℕ
  pub weights : Dict ℕ
  pub quotas : Dict ℤ
  pub source_quota : Bool

pub record MapFetchRequest : Type 0 where
  pub top_k : ℤ
  pub max_items : ℤ
  pub projection_by_kind : Dict ℕ
  pub default_projection : ℕ

-- A decoder gives the value or the message of its error. `rank_node` and `top_k`, whose errors are
-- dropped, give what the variable then holds. `dedup_all` and `fuse` are the two calls of
-- fusion.Fuse, with the identity whose scope is passed. Each call of the kernel returns a value
-- and an error or nil.
pub record Services : Type 0 where
  pub search_node : String → Result String SearchNode
  pub query_node : String → Result String QueryRequest
  pub fetch_node : String → Result String FetchBatchRequest
  pub expand_node : String → Result String ExpandRequest
  pub resolve_node : String → Result String ResolveRequest
  pub rank_node : String → RankRequest
  pub top_k : String → ℤ
  pub map_fetch_node : String → Result String MapFetchRequest
  pub dedup_all : List Candidate → Identity → List Candidate
  pub fuse : RankRequest → List Candidate → Identity → List Candidate
  pub do_search : SearchRequest → SearchSnapshot × Option ErrorDetail
  pub do_query : QueryRequest → QuerySnapshot × Option ErrorDetail
  pub do_fetch : FetchBatchRequest → ArtifactBatch × Option ErrorDetail
  pub do_expand : ExpandRequest → RelationBatch × Option ErrorDetail
  pub do_resolve : ResolveRequest → List ObjectRef × Option ErrorDetail

-- A node's result, and the session that it ran in.
abbrev pub Executed : Type 0
Executed = NodeResult × String

abbrev pub base_result : String → NodeResult
base_result id = record no_result { node_id = id; state = succeeded }

-- `failedDetail`, and `failed` of a message.
abbrev pub failed_detail : String → ErrorDetail → NodeResult
failed_detail id e = record no_result { node_id = id; state = failed; error = some e }

abbrev pub failed_result : String → String → NodeResult
failed_result id message = failed_detail id (new_error invalid_request message)

abbrev pub has_none {ℓ} : {A : Type ℓ} → List A → Bool
has_none [] = true
has_none (_ ∷ _) = false

abbrev pub after_search : String → SearchSnapshot × Option ErrorDetail → Executed
after_search id (snap, none) = (
  record (base_result id) {
    candidates = snap.candidates;
    state = if snap.partial then partial else succeeded;
  },
  snap.session_id,
)
after_search id (snap, some e) =
    if has_none snap.candidates then (failed_detail id e, snap.session_id) else (
      record (base_result id) {
        candidates = snap.candidates;
        state = if snap.partial then partial else succeeded;
      },
      snap.session_id,
    )

abbrev pub after_query : String → QuerySnapshot × Option ErrorDetail → Executed
after_query id (snap, none) =
    (record (base_result id) { candidates = snap.candidates }, snap.session_id)
after_query id (snap, some e) =
    if has_none snap.candidates then (failed_detail id e, snap.session_id) else (
      record (base_result id) { candidates = snap.candidates; state = partial; error = some e },
      snap.session_id,
    )

abbrev pub artifact_list : Option Artifact → List Artifact
artifact_list none = []
artifact_list (some a) = a ∷ []

abbrev pub add_item : ArtifactResult → NodeResult → NodeResult
add_item it base = elim it.error [
  | none ↦ record base { artifacts = base.artifacts ++ artifact_list it.artifact }
  | some e ↦ record base {
    artifacts = base.artifacts ++ artifact_list it.artifact;
    state = partial;
    error = some e;
  }
]

-- The loop over the items of a batch.
unfoldable pub add_items : List ArtifactResult → NodeResult → NodeResult
add_items [] base = base
add_items (it ∷ items) base = add_items items (add_item it base)

abbrev pub after_fetch : String → ArtifactBatch × Option ErrorDetail → Executed
after_fetch id (batch, none) = (add_items batch.items (base_result id), batch.session_id)
after_fetch id (batch, some e) =
    if has_none batch.items
    then (failed_detail id e, batch.session_id)
    else (add_items batch.items (base_result id), batch.session_id)

abbrev pub with_relations : String → RelationBatch → NodeResult
with_relations id batch =
    if batch.partial
    then record (base_result id) {
      relations = batch.relations;
      state = partial;
      error = batch.error;
    }
    else record (base_result id) { relations = batch.relations }

abbrev pub after_expand : String → RelationBatch × Option ErrorDetail → Executed
after_expand id (batch, none) = (with_relations id batch, batch.session_id)
after_expand id (batch, some e) =
    if has_none batch.relations
    then (failed_detail id e, batch.session_id)
    else (with_relations id batch, batch.session_id)

abbrev pub after_resolve : String → String → List ObjectRef × Option ErrorDetail → Executed
after_resolve id session (refs, none) = (record (base_result id) { value = some refs }, session)
after_resolve id session (refs, some e) = (failed_detail id e, session)

-- `for _, d := range deps`, in the order in which the map is walked.
unfoldable pub merge_deps : Dict NodeResult → NodeResult → NodeResult
merge_deps [] base = base
merge_deps ((_, d) ∷ deps) base = merge_deps deps record base {
  candidates = base.candidates ++ d.candidates;
  artifacts = base.artifacts ++ d.artifacts;
  relations = base.relations ++ d.relations;
}

abbrev pub dep_keys : Dict NodeResult → List String
dep_keys [] = []
dep_keys ((k, _) ∷ deps) = k ∷ dep_keys deps

-- `out = append(out, deps[k].F...)` over the keys.
unfoldable pub gather_deps {ℓ} :
    {A : Type ℓ} → (NodeResult → List A) → List String → Dict NodeResult → List A
gather_deps f [] deps = []
gather_deps f (k ∷ keys) deps = elim (lookup k deps) [
  | none ↦ gather_deps f keys deps
  | some d ↦ f d ++ gather_deps f keys deps
]

unfoldable pub sorted_deps {ℓ} : {A : Type ℓ} → (NodeResult → List A) → Dict NodeResult → List A
sorted_deps f deps = gather_deps f (sort_by text_less (dep_keys deps)) deps

-- depCandidates, depArtifacts and depRelations
unfoldable pub dep_candidates : Dict NodeResult → List Candidate
dep_candidates deps = sorted_deps (λ d. d.candidates) deps

unfoldable pub dep_artifacts : Dict NodeResult → List Artifact
dep_artifacts deps = sorted_deps (λ d. d.artifacts) deps

unfoldable pub dep_relations : Dict NodeResult → List Relation
dep_relations deps = sorted_deps (λ d. d.relations) deps

-- `if len(xs) > n { xs = xs[:n] }`, for n that is not negative.
abbrev pub at_most {ℓ} : {A : Type ℓ} → ℤ → List A → List A
at_most n xs = if ltb (pos_part n) (length xs) then take (pos_part n) xs else xs

unfoldable pub default_projection : ObjectKind → ℕ
default_projection kind =
    if kind == "document"
    then bit_or 8 16
    else if kind == "message"
    then bit_or 32 16
    else if kind == "minute"
    then bit_or 4 64
    else if kind == "meeting"
    then bit_or 16 64
    else 16

-- The limits of a map_fetch node.
abbrev pub or_positive : ℤ → ℤ → ℤ
or_positive x d = if is_nonpos x then d else x

unfoldable pub fetch_limit : PlanNode → MapFetchRequest → ℤ
fetch_limit node r = or_positive (or_positive r.max_items node.max_items) (pos 8)

unfoldable pub fetch_top : PlanNode → MapFetchRequest → ℤ
fetch_top node r =
    let most = fetch_limit node r in if is_nonpos r.top_k || ltz most r.top_k then most else r.top_k

abbrev pub or_bits : ℕ → ℕ → ℕ
or_bits p d = if eqb p 0 then d else p

-- `r.ProjectionByKind[kind]`
abbrev pub own_projection : MapFetchRequest → ObjectKind → ℕ
own_projection r kind = elim (lookup kind r.projection_by_kind) [ none ↦ 0 | some p ↦ p ]

unfoldable pub projection_for : MapFetchRequest → ObjectKind → ℕ
projection_for r kind =
    or_bits (or_bits (own_projection r kind) r.default_projection) (default_projection kind)

unfoldable pub fetch_items : MapFetchRequest → List Candidate → List FetchRequest
fetch_items r [] = []
fetch_items r (c ∷ cs) =
    record { ref = c.ref; projection = projection_for r c.kind } ∷ fetch_items r cs

unfoldable pub map_fetch_items : PlanNode → MapFetchRequest → Dict NodeResult → List FetchRequest
map_fetch_items node r deps = fetch_items r (at_most (fetch_top node r) (dep_candidates deps))
