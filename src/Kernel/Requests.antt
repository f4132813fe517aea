-- ===== src/Kernel/Requests.antt =====
-- kernel/types.go: the requests, with the defaults and the check of a search request.
pub mod Defaults
pub mod Examples
use feishu_super_search.Prelude.{
  String, ℕ, ℤ, Bool, not, ◌&&◌, ◌||◌, Option, List, [], Dict, ltb, leb, eqb, is_neg, ◌==◌,
  if◌then◌else◌, trim_space, is_blank, Result, refuse, ◌>>=◌, ◌>>◌,
}
use feishu_super_search.Kernel.Refs
use feishu_super_search.Kernel.Refs.{SourceId, ObjectKind, Identity, ObjectRef, normalized}
use feishu_super_search.Kernel.Limits.{SearchBudget, or_default, with_defaults}

-- `x < 0` and `x <= 0` on the pattern of a float64: the sign bit is set, and the pattern is not
-- beyond that of negative infinity, which leaves out the values that are not numbers.
unfoldable pub float_neg : ℕ → Bool
float_neg x = ltb 0x8000000000000000 x && leb x 0xfff0000000000000

unfoldable pub float_nonpos : ℕ → Bool
float_nonpos x = eqb x 0 || eqb x 0x8000000000000000 || float_neg x

pub record SearchFilters : Type 0 where
  pub after : Option ℕ
  pub before : Option ℕ
  pub sender_ids : List String
  pub person_ids : List String
  pub chat_ids : List String
  pub doc_types : List String
  pub folder_tokens : List String
  pub space_ids : List String
  pub mine : Bool
  pub completed : Option Bool
  pub only_title : Bool
  pub extra : Dict String

-- A nil map reads as an empty one everywhere, so both stand as `[]`.
pub record SearchStrategy : Type 0 where
  pub profile : String
  pub fusion : String
  pub pagination : String
  pub source_quota : Bool
  pub disable_source_quota : Bool
  pub weights : Dict ℕ
  pub quotas : Dict ℤ
  pub k0 : ℕ

pub record SearchRequest : Type 0 where
  pub query : String
  pub source_queries : Dict String
  pub sources : List SourceId
  pub filters : SearchFilters
  pub identity : Identity
  pub limit : ℤ
  pub limit_per_source : ℤ
  pub budget : SearchBudget
  pub strategy : SearchStrategy
  pub session_id : String

pub record SortSpec : Type 0 where
  pub field : String
  pub order : String

pub record QueryRequest : Type 0 where
  pub source : SourceId
  pub container : Option ObjectRef
  pub filter : Dict String
  pub sort : List SortSpec
  pub limit : ℤ
  pub cursor : String
  pub identity : Identity
  pub session_id : String
  pub budget : SearchBudget

pub record FetchRequest : Type 0 where
  pub ref : ObjectRef
  pub projection : ℕ

pub record FetchBatchRequest : Type 0 where
  pub session_id : String
  pub identity : Identity
  pub items : List FetchRequest
  pub budget : SearchBudget

pub record ExpandRequest : Type 0 where
  pub session_id : String
  pub identity : Identity
  pub ref : ObjectRef
  pub relations : List String
  pub max_depth : ℤ
  pub budget : SearchBudget

pub record ResolveRequest : Type 0 where
  pub source : SourceId
  pub text : String
  pub kind : ObjectKind
  pub identity : Identity
  pub limit : ℤ

-- `if s == "" { s = d }`
abbrev pub or_text : String → String → String
or_text s d = if s == "" then d else s

-- `strings.ToLower` and the digest of `Identity.Normalized`.
pub record TextOps : Type 0 where
  pub to_lower : String → String
  pub digest : String → String

unfoldable pub strategy_defaults : TextOps → SearchStrategy → SearchStrategy
strategy_defaults ops s =
    let profile = or_text (ops.to_lower (trim_space s.profile)) "balanced" in
    record s {
      profile = profile;
      fusion = or_text s.fusion "weighted_rrf";
      pagination = or_text s.pagination (if profile == "fast" then "none" else "adaptive");
      k0 = if float_nonpos s.k0 then 0x404e000000000000 else s.k0;
      source_quota = not s.disable_source_quota;
    }

-- The defaults that depend on the profile.
pub record Profile : Type 0 where
  pub limit : ℕ
  pub limit_per_source : ℕ
  pub deadline_ms : ℕ
  pub max_pages : ℕ

abbrev pub profile_of : String → Profile
profile_of name =
    if name == "fast"
    then record { limit = 25; limit_per_source = 5; deadline_ms = 4000; max_pages = 1 }
    else if name == "deep"
    then record { limit = 60; limit_per_source = 10; deadline_ms = 15000; max_pages = 2 }
    else record { limit = 40; limit_per_source = 8; deadline_ms = 8000; max_pages = 2 }

abbrev pub profile_budget : String → SearchBudget → SearchBudget
profile_budget name b =
    let p = profile_of name in
    record b {
      deadline_ms = or_default b.deadline_ms p.deadline_ms;
      max_pages_per_source = or_default b.max_pages_per_source p.max_pages;
      max_fetches = if name == "deep" then or_default b.max_fetches 20 else b.max_fetches;
    }

-- SearchRequest.WithDefaults
unfoldable pub request_defaults : TextOps → SearchRequest → SearchRequest
request_defaults ops r =
    let strategy = strategy_defaults ops r.strategy in
    let p = profile_of strategy.profile in
    record r {
      identity = normalized ops.digest r.identity;
      strategy = strategy;
      limit = or_default r.limit p.limit;
      limit_per_source = or_default r.limit_per_source p.limit_per_source;
      budget = with_defaults (profile_budget strategy.profile r.budget);
    }

pub data RequestError : Type 0 where
  empty_query negative_limits : RequestError
  unsupported_profile unsupported_fusion unsupported_pagination : String → RequestError

abbrev pub is_profile : String → Bool
is_profile s = s == "fast" || s == "balanced" || s == "deep"

abbrev pub is_pagination : String → Bool
is_pagination s = s == "none" || s == "adaptive" || s == "fixed"

-- SearchRequest.Validate
unfoldable pub validate_request : SearchRequest → Result RequestError (Unit {0})
validate_request r = do
  refuse (is_blank r.query) empty_query
  refuse (is_neg r.limit || is_neg r.limit_per_source) negative_limits
  refuse (not (is_profile r.strategy.profile)) (unsupported_profile r.strategy.profile)
  refuse (not (r.strategy.fusion == "weighted_rrf")) (unsupported_fusion r.strategy.fusion)
  refuse (not (is_pagination r.strategy.pagination)) (unsupported_pagination r.strategy.pagination)
