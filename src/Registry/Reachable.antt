-- ===== src/Registry/Reachable.antt =====
-- The registries that a program can build by calls of the methods of provider/registry.go.
use feishu_super_search.Prelude.{◌≡◌, Bool, Option, List, [], ◌∷◌, arith}
use feishu_super_search.Kernel.Errors.{ErrorDetail}
use feishu_super_search.Kernel.Refs.{SourceId, ProviderId}
use feishu_super_search.Kernel.Provider.{ProviderDescriptor, Operation}
use feishu_super_search.Registry.{
  Registry, new_registry, register, set_preferred, set_preferred_for_operation, set_unavailable,
  set_operation_unavailable,
}
use feishu_super_search.Registry.Invariant.{
  IsConsistent, new-IsConsistent, register-IsConsistent, set_preferred-IsConsistent,
  set_preferred_for_operation-IsConsistent,
}

-- A call that writes to the registry.
pub data Write : Type 0 where
  registering : Option ProviderDescriptor → Bool → Write
  preferring : SourceId → ProviderId → Write
  routing : SourceId → Operation → ProviderId → Write
  marking : ProviderId → Option ErrorDetail → Write
  marking_operation : ProviderId → Operation → Option ErrorDetail → Write

unfoldable pub run_write : Write → Registry → Registry
run_write (registering p prefer) r = (register p prefer r).0
run_write (preferring source id) r = (set_preferred source id r).0
run_write (routing source op id) r = (set_preferred_for_operation source op id r).0
run_write (marking id detail) r = (set_unavailable id detail r).0
run_write (marking_operation id op detail) r = (set_operation_unavailable id op detail r).0

unfoldable pub run_writes : List Write → Registry → Registry
run_writes [] r = r
run_writes (w ∷ ws) r = run_writes ws (run_write w r)

-- The two methods that record availability leave everything else alone.
abbrev pub SameRoutes : Registry → Registry → Type 0
SameRoutes r s =
    (r.by_id ≡ s.by_id)
    × (r.by_source ≡ s.by_source)
    × (r.preferred ≡ s.preferred)
    × (r.preferred_by_op ≡ s.preferred_by_op)

marking-SameRoutes :
    (id : ProviderId) (detail : Option ErrorDetail) (r : Registry)
    → SameRoutes (set_unavailable id detail r).0 r
unfolding set_unavailable
marking-SameRoutes id detail r = ground arith

marking_operation-SameRoutes :
    (id : ProviderId) (op : Operation) (detail : Option ErrorDetail) (r : Registry)
    → SameRoutes (set_operation_unavailable id op detail r).0 r
unfolding set_operation_unavailable
marking_operation-SameRoutes id op detail r = ground arith

IsConsistent-SameRoutes : (r s : Registry) → SameRoutes r s → IsConsistent s → IsConsistent r
IsConsistent-SameRoutes r s (ids, sources, routes, op_routes) c = record {
  keyed = rw ids c.keyed;
  listed = rw (ids, sources) c.listed;
  routed = rw (ids, routes) c.routed;
  op_routed = rw (ids, op_routes) c.op_routed;
}

run_write-IsConsistent : (w : Write) (r : Registry) → IsConsistent r → IsConsistent (run_write w r)
unfolding run_write
run_write-IsConsistent (registering p prefer) r c = register-IsConsistent p prefer r c
run_write-IsConsistent (preferring source id) r c = set_preferred-IsConsistent source id r c
run_write-IsConsistent (routing source op id) r c =
    set_preferred_for_operation-IsConsistent source id r c op
run_write-IsConsistent (marking id detail) r c =
    IsConsistent-SameRoutes _ r (marking-SameRoutes id detail r) c
run_write-IsConsistent (marking_operation id op detail) r c =
    IsConsistent-SameRoutes _ r (marking_operation-SameRoutes id op detail r) c

run_writes-from : (ws : List Write) (r : Registry) → IsConsistent r → IsConsistent (run_writes ws r)
unfolding run_writes
run_writes-from [] r c = c
run_writes-from (w ∷ ws) r c = run_writes-from ws (run_write w r) (run_write-IsConsistent w r c)

-- Whatever is written to a new registry, and in whatever order the callers take the lock, every
-- list and every route names registered providers of its source, and a route for an operation
-- names one that supports it.
pub run_writes-IsConsistent : (ws : List Write) → IsConsistent (run_writes ws new_registry)
run_writes-IsConsistent ws = run_writes-from ws new_registry new-IsConsistent
