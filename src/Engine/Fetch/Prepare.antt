-- ===== src/Engine/Fetch/Prepare.antt =====
-- Engine.Fetch of internal/engine/fetch.go: what happens to an item before a provider is called.
pub mod Servable
pub mod Examples
use feishu_super_search.Prelude.{
  String, ℕ, Bool, true, false, not, eqb, ◌&&◌, ◌||◌, Option, none, some, [], lookup, contains,
  ◌==◌, if◌then◌else◌, Result, ok, err, refuse, ◌>>=◌, ◌>>◌,
}
use feishu_super_search.Kernel.Errors.{
  ErrorType, ErrorDetail, new_error, invalid_request, unsupported,
}
use feishu_super_search.Kernel.Refs.{Identity, ObjectKind, ObjectRef, build_canonical_id}
use feishu_super_search.Kernel.Objects.{Artifact}
use feishu_super_search.Kernel.Projection.{has_bits, missing_bits, no_bits}
use feishu_super_search.Kernel.Provider.{ProviderDescriptor, Operation, supports}
use feishu_super_search.Kernel.Requests.{FetchRequest}
use feishu_super_search.Kernel.Snapshots.{ArtifactResult, SessionSnapshot}
use feishu_super_search.Registry.{
  Registry, explicit_operation_route, available_by_id, for_operation,
}
use feishu_super_search.Session.{put_artifacts}
use feishu_super_search.Engine.Access.{no_texts, validate_provider_operation}
use feishu_super_search.Engine.Fetch.{ProviderFetchRequest}
use feishu_super_search.Engine.Fetch.Known.{known_session_ref, validate_ref_identity}

unfoldable pub provider_supports_kind : ProviderDescriptor → ObjectKind → Bool
provider_supports_kind d kind = no_texts d.object_kinds || contains kind d.object_kinds

abbrev pub or_provider :
    Option ProviderDescriptor → Option ProviderDescriptor → Option ProviderDescriptor
or_provider none d = d
or_provider (some p) d = some p

abbrev pub if_supports : Operation → Option ProviderDescriptor → Option ProviderDescriptor
if_supports op none = none
if_supports op (some p) = if supports p op then some p else none

-- providerForRef
unfoldable pub provider_for_ref : Registry → ObjectRef → Operation → Option ProviderDescriptor
provider_for_ref registry ref op =
    or_provider (if ref.source == "" then none else explicit_operation_route ref.source op registry)
      (or_provider
        (if ref.provider_id == ""
          then none
          else if_supports op (available_by_id ref.provider_id registry))
        (if ref.source == "" then none else for_operation ref.source op registry))

-- The request for a provider, and the provider.
abbrev pub Work : Type 0
Work = ProviderFetchRequest × ProviderDescriptor

abbrev pub error_result : ObjectRef → ErrorDetail → ArtifactResult
error_result ref e = record {
  ref = ref;
  artifact = none;
  error = some e;
  cached = false;
  shared = false;
}

abbrev pub cached_result : ObjectRef → Artifact → ArtifactResult
cached_result ref a = record {
  ref = ref;
  artifact = some a;
  error = none;
  cached = true;
  shared = false;
}

abbrev pub resolve_known :
    (reusing : Bool) → ObjectRef → Option ObjectRef → Result ArtifactResult ObjectRef
resolve_known reusing ref (some known) = ok known
resolve_known reusing ref none = do
  refuse reusing (
      error_result ref
        (new_error invalid_request "fetch ref is not present in the selected session"))
  ok ref

abbrev pub or_result : {A : Type 0} → ObjectRef → Result ErrorDetail A → Result ArtifactResult A
or_result ref (ok a) = ok a
or_result ref (err e) = err (error_result ref e)

unfoldable pub check_asked : FetchRequest → Result ArtifactResult (Unit {0})
check_asked item =
    refuse (no_bits item.projection)
      (error_result item.ref (new_error invalid_request "fetch projection is required"))

abbrev pub as_check : Option ErrorDetail → Result ErrorDetail (Unit {0})
as_check none = ok tt
as_check (some e) = err e

abbrev pub found_provider : Option ProviderDescriptor → Result ErrorDetail ProviderDescriptor
found_provider none = err (new_error unsupported "cannot determine provider for object operation")
found_provider (some d) = ok d

-- The scope and the canonical id of a reference that lacks them.
unfoldable pub complete_ref : String → ObjectRef → ObjectRef
complete_ref scope ref =
    let scope_key : String = if ref.scope_key == "" then scope else ref.scope_key in
    record ref {
      scope_key = scope_key;
      canonical_id =
          if ref.canonical_id == "" && not (ref.native_id == "")
          then build_canonical_id scope_key ref.kind ref.native_id
          else ref.canonical_id;
    }

abbrev pub if_cached : ObjectRef → ℕ → Option Artifact → Result ArtifactResult (Unit {0})
if_cached ref projection none = ok tt
if_cached ref projection (some a) = refuse (has_bits a.projection projection) (cached_result ref a)

-- What is left to fetch.
abbrev pub lacking : ℕ → Option Artifact → ℕ
lacking projection none = projection
lacking projection (some a) =
    let p = missing_bits projection a.projection in if eqb p 0 then projection else p

abbrev pub provider_fault : ProviderDescriptor → ErrorType → String → ErrorDetail
provider_fault d kind message = record (new_error kind message) {
  provider_id = d.id;
  source = d.source;
}

unfoldable pub check_source : ProviderDescriptor → ObjectRef → Result ErrorDetail (Unit {0})
check_source d ref =
    refuse (not (ref.source == "") && not (d.source == ref.source))
      (record (provider_fault d invalid_request "object source does not match selected provider") {
        source = ref.source;
      })

unfoldable pub check_kind : ProviderDescriptor → ObjectRef → Result ErrorDetail (Unit {0})
check_kind d ref =
    refuse (not (ref.kind == "") && not (provider_supports_kind d ref.kind))
      (provider_fault d invalid_request "object kind is not supported by selected provider")

unfoldable pub check_projection : ProviderDescriptor → ℕ → Result ErrorDetail (Unit {0})
check_projection d projection =
    refuse (not (no_bits (missing_bits projection d.fetchable_projection)))
      (provider_fault d unsupported "requested projection is not supported by provider")

unfoldable pub check_provider :
    ProviderDescriptor → ObjectRef → Identity → ℕ → Result ErrorDetail (Unit {0})
check_provider d ref i projection = do
  as_check (validate_provider_operation d "fetch" i)
  check_source d ref
  check_kind d ref
  check_projection d projection

-- What the session holds of an object.
abbrev pub held : SessionSnapshot → ObjectRef → Option Artifact
held s ref = lookup ref.canonical_id (put_artifacts s.artifacts [])

module _ (digest : String → String) (registry : Registry) (snapshot : SessionSnapshot)
    (session_id : String) (reusing : Bool) (i : Identity) where
  -- The second half of the turn, on a reference that is complete.
  unfoldable pub assign_provider : ObjectRef → ℕ → Result ArtifactResult Work
  assign_provider ref projection = do
    if_cached ref projection (held snapshot ref)
    d ← or_result ref (found_provider (provider_for_ref registry ref "fetch"))
    or_result ref (check_provider d ref i (lacking projection (held snapshot ref)))
    ok (
      record {
        ref = ref;
        projection = lacking projection (held snapshot ref);
        identity = i;
        session_id = session_id;
      },
      d,
    )

  -- The turn of the first loop of Fetch for an item: a result, or work for a provider.
  unfoldable pub prepare_item : FetchRequest → Result ArtifactResult Work
  prepare_item item = do
    check_asked item
    ref ← resolve_known reusing item.ref (known_session_ref snapshot item.ref)
    or_result ref (validate_ref_identity digest ref i)
    assign_provider (complete_ref i.scope_key ref) item.projection
