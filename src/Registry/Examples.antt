-- ===== src/Registry/Examples.antt =====
-- A registry with two providers of one source, and applications of the theorems to it.
use feishu_super_search.Prelude.{
  String, ◌≡◌, refl, Bool, true, false, some, List, [], ◌∷◌, pos, lookup, insert, remove, All,
}
use feishu_super_search.Kernel.Errors.{ErrorDetail, new_error, unsupported}
use feishu_super_search.Kernel.Provider.{ProviderDescriptor, supports}
use feishu_super_search.Registry.{
  Registry, new_registry, text_at, list_at, dict_at, add_provider, register, validate_route,
  set_preferred, set_preferred_for_operation, set_unavailable, set_operation_unavailable,
  operation_available, candidate, first_candidate, for_operation, explicit_operation_route,
  clear_operation,
}
use feishu_super_search.Registry.Invariant.{IsConsistent}
use feishu_super_search.Registry.Reachable.{
  Write, registering, routing, run_write, run_writes, run_writes-IsConsistent,
}
use feishu_super_search.Registry.Routes.{
  CanServe, Cannot, for_operation-CanServe, for_operation-none,
}
use feishu_super_search.Registry.Availability.{set_operation_unavailable-operation_available}

abbrev provider : String → List (String × Bool) → ProviderDescriptor
provider id operations = record {
  id = id;
  source = "docs";
  object_kinds = [];
  operations = operations;
  required_identity = [];
  required_scopes = [];
  search_limits = record { max_query_runes = pos 0; max_page_size = pos 0; max_pages = pos 0 };
  batch_limit = pos 0;
  returned_projection = 0;
  fetchable_projection = 0;
  supports_pagination = false;
  supports_streaming = false;
  backend = "mock";
  version = "1";
}

abbrev cli : ProviderDescriptor
cli = provider "cli" (("search", true) ∷ ("fetch", true) ∷ [])

abbrev direct : ProviderDescriptor
direct = provider "direct" (("search", true) ∷ [])

abbrev outage : ErrorDetail
unfolding new_error
outage = new_error unsupported "handshake failed"

abbrev writes : List Write
writes =
    registering (some cli) false
    ∷ registering (some direct) false
    ∷ registering (some cli) true
    ∷ routing "docs" "search" "direct"
    ∷ routing "docs" "fetch" "direct"
    ∷ []

program : Unit {0}
unfolding run_writes run_write register add_provider set_preferred set_preferred_for_operation
    validate_route set_unavailable set_operation_unavailable clear_operation for_operation
    explicit_operation_route candidate first_candidate operation_available text_at list_at dict_at
    supports lookup insert remove
program = tt

unfoldable built : Registry
built = run_writes writes new_registry

search_is_direct : for_operation "docs" "search" built ≡ some direct
unfolding program built
search_is_direct = refl

fetch_is_cli : for_operation "docs" "fetch" built ≡ some cli
unfolding program built
fetch_is_cli = refl

search_falls_back :
    for_operation "docs" "search" (set_unavailable "direct" (some outage) built).0 ≡ some cli
unfolding program built
search_falls_back = refl

built-IsConsistent : IsConsistent built
unfolding built
built-IsConsistent = run_writes-IsConsistent writes

run_writes-IsConsistent_example : IsConsistent (run_writes writes new_registry)
run_writes-IsConsistent_example = run_writes-IsConsistent writes

for_operation-CanServe_example : CanServe built "docs" "search" direct
for_operation-CanServe_example =
    for_operation-CanServe built built-IsConsistent "docs" "search" direct search_is_direct

for_operation-none_example : All (Cannot built "docs" "expand") (list_at "docs" built.by_source)
for_operation-none_example = for_operation-none built "docs" "expand" (unfold program built in refl)

-- The fetches of "cli" are out, and its searches are not.
set_operation_unavailable-operation_available_example :
    operation_available "cli" "fetch"
      (set_operation_unavailable "cli" "fetch" (some outage) built).0
    ≡ false
set_operation_unavailable-operation_available_example =
    set_operation_unavailable-operation_available "cli" "fetch" built {d = cli}
      (unfold program built in refl) (unfold program in refl) refl (some outage) "cli" "fetch" refl
