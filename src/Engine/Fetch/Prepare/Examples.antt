-- ===== src/Engine/Fetch/Prepare/Examples.antt =====
-- A session that holds one document, and fetches of it.
use feishu_super_search.Prelude.{
  ℕ, ◌≡◌, refl, true, false, none, [], ◌∷◌, pos, err, lookup, insert, chars, from_chars,
}
use feishu_super_search.Kernel.Errors.{new_error, identity_required}
use feishu_super_search.Kernel.Refs.{Identity, ObjectRef, normalized, build_canonical_id}
use feishu_super_search.Kernel.Objects.{Artifact}
use feishu_super_search.Kernel.Projection.{has_bits, missing_bits, no_bits}
use feishu_super_search.Kernel.Provider.{ProviderDescriptor, supports}
use feishu_super_search.Kernel.Requests.{FetchRequest}
use feishu_super_search.Kernel.Snapshots.{SessionSnapshot}
use feishu_super_search.Registry.{
  Registry, explicit_operation_route, available_by_id, for_operation, candidate, text_at, dict_at,
  operation_available,
}
use feishu_super_search.Session.{put_artifacts}
use feishu_super_search.Engine.Access.{compatible_identity, validate_provider_operation}
use feishu_super_search.Engine.Access.Isolation.{caller}
use feishu_super_search.Engine.Fetch.Known.{
  is_known, first_known, known_session_ref, split_colon, canonical_parts, is_feishu,
  check_scope_key, validate_ref_identity,
}
use feishu_super_search.Engine.Fetch.Prepare.{
  Work, provider_supports_kind, provider_for_ref, check_asked, complete_ref, check_source,
  check_kind, check_projection, check_provider, assign_provider, prepare_item, error_result,
  cached_result,
}
use feishu_super_search.Engine.Fetch.Prepare.Servable.{CanFetch, prepare_item-CanFetch}

program : Unit {0}
unfolding normalized build_canonical_id has_bits missing_bits no_bits supports lookup insert
    explicit_operation_route available_by_id for_operation candidate text_at dict_at
    operation_available put_artifacts compatible_identity validate_provider_operation is_known
    first_known known_session_ref split_colon canonical_parts is_feishu check_scope_key
    validate_ref_identity provider_supports_kind provider_for_ref check_asked complete_ref
    check_source check_kind check_projection check_provider assign_provider prepare_item chars
    from_chars new_error
program = tt

abbrev descriptor : ProviderDescriptor
descriptor = record {
  id = "p";
  source = "docs";
  object_kinds = "document" ∷ [];
  operations = ("fetch", true) ∷ [];
  required_identity = [];
  required_scopes = [];
  search_limits = record { max_query_runes = pos 0; max_page_size = pos 0; max_pages = pos 0 };
  batch_limit = pos 0;
  returned_projection = 1;
  fetchable_projection = 17;
  supports_pagination = false;
  supports_streaming = false;
  backend = "";
  version = "";
}

abbrev registry : Registry
registry = record {
  by_id = ("p", descriptor) ∷ [];
  by_source = ("docs", "p" ∷ []) ∷ [];
  preferred = ("docs", "p") ∷ [];
  preferred_by_op = [];
  unavailable = [];
  unavailable_op = [];
}

abbrev ref : ObjectRef
ref = record {
  platform = "feishu";
  scope_key = "tenant";
  kind = "document";
  native_id = "d1";
  canonical_id = "feishu:tenant:document:d1";
  provider_id = "p";
  source = "docs";
  url = "";
}

abbrev stored : Artifact
stored = record {
  ref = ref;
  projection = 1;
  metadata = none;
  chunks = [];
  summary = none;
  relations = [];
  attachments = [];
  version = "";
  provenance = record {
    provider_id = "p";
    backend = "";
    operation = "";
    retrieved_at = 0;
    source_rank = pos 0;
    raw_ref = none;
  };
}

abbrev session : SessionSnapshot
session = record {
  id = "rs_1";
  scope_key = "tenant";
  created_at = 0;
  expires_at = 100;
  request = none;
  candidates = [];
  artifacts = stored ∷ [];
  relations = [];
  frontiers = [];
  source_runs = [];
  budget = record {
    max_calls = pos 0;
    calls_used = pos 0;
    max_fetches = pos 0;
    fetches_used = pos 0;
    max_expanded = pos 0;
    expanded_used = pos 0;
    max_bytes = pos 0;
    bytes_used = pos 0;
    deadline = 0;
  };
  events = [];
}

abbrev owner : Identity
owner = record { profile = "p"; mode = "user"; scope_key = "tenant" }

abbrev stranger : Identity
stranger = record { profile = "p"; mode = "user"; scope_key = "other" }

-- Only the native id is given: the session knows the rest.
abbrev asked : ℕ → FetchRequest
asked projection = record {
  ref = record ref { scope_key = ""; canonical_id = ""; provider_id = ""; source = "" };
  projection = projection;
}

-- Of the two projections, the session already has one.
abbrev work : Work
work = (record { ref = ref; projection = 16; identity = owner; session_id = "rs_1" }, descriptor)

held_projection :
    prepare_item (λ s. s) registry session "rs_1" true owner (asked 1)
    ≡ err (cached_result ref stored)
unfolding program
held_projection = refl

foreign_ref :
    prepare_item (λ s. s) registry session "rs_1" true stranger (asked 17)
    ≡ err (
        error_result ref
          (new_error identity_required "object belongs to a different identity scope"))
unfolding program
foreign_ref = refl

prepare_item-CanFetch_example :
    CanFetch (normalized (λ s. s) owner) work × (work.0.ref.scope_key ≡ caller (λ s. s) owner)
prepare_item-CanFetch_example =
    prepare_item-CanFetch (λ s. s) registry session "rs_1" true owner (asked 17) {w = work}
      (unfold program in refl)
