-- ===== src/Engine/Fetch.antt =====
-- internal/engine/fetch.go: the items of a batch, and the match of what a provider returns.
pub mod Grouping
pub mod Matching
pub mod Merge
pub mod Known
pub mod Prepare
use feishu_super_search.Prelude.{
  String, ℕ, suc, ◌+◌, Bool, true, false, not, ◌&&◌, ◌||◌, Option, none, some, List, [], ◌∷◌, ◌++◌,
  Dict, lookup, insert, get_elem?, set, ◌==◌, if◌then◌else◌,
}
use Prim.Native.String.{◌++◌ as cat}
use feishu_super_search.Kernel.Refs.{Identity, ObjectRef}
use feishu_super_search.Kernel.Objects.{Artifact}
use feishu_super_search.Kernel.Projection.{union}
use feishu_super_search.Kernel.Requests.{FetchRequest}

pub record ProviderFetchRequest : Type 0 where
  pub ref : ObjectRef
  pub projection : ℕ
  pub identity : Identity
  pub session_id : String

-- The key of an item in dedupFetchItems.
unfoldable pub fetch_key : FetchRequest → String
fetch_key i =
    if i.ref.canonical_id == ""
    then cat i.ref.kind (cat "|" (cat i.ref.native_id (cat "|" i.ref.source)))
    else i.ref.canonical_id

abbrev pub widen : FetchRequest → FetchRequest → FetchRequest
widen old i = record old { projection = union old.projection i.projection }

-- The loop of dedupFetchItems, on the map and the keys in order.
unfoldable pub group_items :
    List FetchRequest → Dict FetchRequest → List String → Dict FetchRequest × List String
group_items [] m order = (m, order)
group_items (i ∷ items) m order =
    let key = fetch_key i in
    elim (lookup key m) [
      | some old ↦ group_items items (insert key (widen old i) m) order
      | none ↦ group_items items (insert key i m) (order ++ key ∷ [])
    ]

unfoldable pub read_items : List String → Dict FetchRequest → List FetchRequest
read_items [] m = []
read_items (k ∷ order) m =
    let rest = read_items order m in elim (lookup k m) [ none ↦ rest | some i ↦ i ∷ rest ]

abbrev pub read_groups : Dict FetchRequest × List String → List FetchRequest
read_groups (m, order) = read_items order m

unfoldable pub dedup_fetch_items : List FetchRequest → List FetchRequest
dedup_fetch_items items = read_groups (group_items items [] [])

-- The artifact carries an identifier of the request.
unfoldable pub is_identified : ProviderFetchRequest → Artifact → Bool
is_identified req a =
    (not (req.ref.canonical_id == "") && a.ref.canonical_id == req.ref.canonical_id)
    || (not (req.ref.native_id == "") && a.ref.native_id == req.ref.native_id)

-- The first artifact that is not used and is identified, counted from `j`.
unfoldable pub pick : ProviderFetchRequest → List Artifact → List Bool → ℕ → Option ℕ
pick req [] used j = none
pick req (a ∷ artifacts) [] j = none
pick req (a ∷ artifacts) (u ∷ used) j =
    let rest = pick req artifacts used (suc j) in
    if not u && is_identified req a then some j else rest

abbrev pub mark : Option ℕ → List Bool → List Bool
mark none used = used
mark (some j) used = set used j true

abbrev pub assign : Option ℕ → List (Option ℕ) × List Bool → List (Option ℕ) × List Bool
assign o (rest, used) = (o ∷ rest, used)

-- The first loop of matchBatchArtifacts: the position of the artifact of each request.
unfoldable pub match_identified :
    List ProviderFetchRequest → List Artifact → List Bool → List (Option ℕ) × List Bool
match_identified [] artifacts used = ([], used)
match_identified (req ∷ reqs) artifacts used =
    let j = pick req artifacts used 0 in assign j (match_identified reqs artifacts (mark j used))

-- `i < len(artifacts) && !used[i]`
abbrev pub is_free : ℕ → List Bool → Bool
is_free i used = elim (get_elem? used i) [ none ↦ false | some u ↦ not u ]

-- The second loop, from request `i` on.
unfoldable pub match_in_order : ℕ → List (Option ℕ) → List Bool → List (Option ℕ) × List Bool
match_in_order i [] used = ([], used)
match_in_order i (some j ∷ out) used = assign (some j) (match_in_order (suc i) out used)
match_in_order i (none ∷ out) used = elim (is_free i used) [
  | true ↦ assign (some i) (match_in_order (suc i) out (set used i true))
  | false ↦ assign none (match_in_order (suc i) out used)
]

-- `make([]bool, len(artifacts))`
unfoldable pub unused : List Artifact → List Bool
unused [] = []
unused (a ∷ artifacts) = false ∷ unused artifacts

abbrev pub both_loops : List (Option ℕ) × List Bool → List (Option ℕ)
both_loops (out, used) = (match_in_order 0 out used).0

unfoldable pub match_positions : List ProviderFetchRequest → List Artifact → List (Option ℕ)
match_positions reqs artifacts = both_loops (match_identified reqs artifacts (unused artifacts))

unfoldable pub artifacts_at : List (Option ℕ) → List Artifact → List (Option Artifact)
artifacts_at [] artifacts = []
artifacts_at (none ∷ out) artifacts = none ∷ artifacts_at out artifacts
artifacts_at (some j ∷ out) artifacts = get_elem? artifacts j ∷ artifacts_at out artifacts

-- matchBatchArtifacts: what the map holds for each request.
unfoldable pub match_batch_artifacts :
    List ProviderFetchRequest → List Artifact → List (Option Artifact)
match_batch_artifacts reqs artifacts = artifacts_at (match_positions reqs artifacts) artifacts
