-- ===== src/Registry/Invariant.antt =====
-- The consistency of the lists and routes of the registry (provider/registry.go), and how single
-- methods keep it.
use feishu_super_search.Prelude.{
  ◌≡◌, ◌||◌, refl, Bool, true, false, Option, none, some, List, [], ◌∷◌, ◌++◌, Dict, lookup, insert,
  lookup-insert, ◌==◌, if◌then◌else◌, arith, eq_iff, All, All-snoc, Bool-cases, Option-cases, inl,
  inr,
}
use feishu_super_search.Kernel.Refs.{SourceId, ProviderId}
use feishu_super_search.Kernel.Provider.{ProviderDescriptor, Operation, supports}
use feishu_super_search.Registry.{
  Registry, list_at, dict_at, add_provider, register, validate_route, set_preferred,
  set_preferred_for_operation, new_registry,
}
use feishu_super_search.Registry.Reads.{
  list_at-insert, dict_at-insert, lookup-insert_fresh, lookup-insert_self,
}

-- `id` is registered as a provider of `source`.
abbrev pub Serves : Dict ProviderDescriptor → SourceId → ProviderId → Type 0
Serves m source id = (d : ProviderDescriptor) × (lookup id m ≡ some d) × (d.source ≡ source)

-- `id` is a provider of `source` that supports `op`.
abbrev pub ServesOp : Dict ProviderDescriptor → SourceId → Operation → ProviderId → Type 0
ServesOp m source op id =
    (d : ProviderDescriptor) × (lookup id m ≡ some d) × (d.source ≡ source) × (supports d op ≡ true)

pub record IsConsistent (r : Registry) : Type 0 where
  pub keyed : (id : ProviderId) (d : ProviderDescriptor) → lookup id r.by_id ≡ some d → d.id ≡ id
  pub listed : (source : SourceId) → All (Serves r.by_id source) (list_at source r.by_source)
  pub routed :
      (source : SourceId) (id : ProviderId)
      → lookup source r.preferred ≡ some id
      → Serves r.by_id source id
  pub op_routed :
      (source : SourceId) (op : Operation) (id : ProviderId)
      → lookup op (dict_at source r.preferred_by_op) ≡ some id
      → ServesOp r.by_id source op id

pub new-IsConsistent : IsConsistent new_registry
unfolding lookup list_at dict_at
new-IsConsistent = record {
  keyed = λ id d e. cc;
  listed = λ source. tt;
  routed = λ source id e. cc;
  op_routed = λ source op id e. cc;
}

module _ (d : ProviderDescriptor) (m : Dict ProviderDescriptor) (fresh : lookup d.id m ≡ none) where
  Serves-insert :
      (source : SourceId) (id : ProviderId)
      → Serves m source id
      → Serves (insert d.id d m) source id
  Serves-insert source id (e, found, same) =
      (e, lookup-insert_fresh d.id id d e m fresh found, same)

  ServesOp-insert :
      (source : SourceId) (op : Operation) (id : ProviderId)
      → ServesOp m source op id
      → ServesOp (insert d.id d m) source op id
  ServesOp-insert source op id (e, found, same, can) =
      (e, lookup-insert_fresh d.id id d e m fresh found, same, can)

  All-Serves-insert :
      (source : SourceId) (ids : List ProviderId)
      → All (Serves m source) ids
      → All (Serves (insert d.id d m) source) ids
  All-Serves-insert source [] h = tt
  All-Serves-insert source (id ∷ ids) h =
      (Serves-insert source id h.0, All-Serves-insert source ids h.1)

  Serves-new : Serves (insert d.id d m) d.source d.id
  Serves-new = (d, lookup-insert_self d.id d m, refl)

module _ (d : ProviderDescriptor) (prefer : Bool) (r : Registry) (c : IsConsistent r)
    (fresh : lookup d.id r.by_id ≡ none) where
  added_keyed :
      (id : ProviderId) (e : ProviderDescriptor)
      → lookup id (insert d.id d r.by_id) ≡ some e
      → e.id ≡ id
  added_keyed id e found =
      ground (arith, lookup-insert d.id id d r.by_id, eq_iff d.id id, c.keyed id e)

  added_listed :
      (source : SourceId)
      → All
          (Serves (insert d.id d r.by_id) source)
          (list_at source (insert d.source (list_at d.source r.by_source ++ d.id ∷ []) r.by_source))
  added_listed source = elim (Bool-cases (d.source == source)) [
    | inl same ↦
        let e : d.source ≡ source = (eq_iff d.source source).0 same in
        rw (list_at-insert, same, ← e)
          (All-snoc (Serves (insert d.id d r.by_id) d.source) (list_at d.source r.by_source) d.id
            (Serves-new d r.by_id fresh)
            (All-Serves-insert d r.by_id fresh d.source _ (c.listed d.source)))
    | inr apart ↦
        rw (list_at-insert, apart) (All-Serves-insert d r.by_id fresh source _ (c.listed source))
  ]

  preferred_routed :
      (source : SourceId) (id : ProviderId)
      → lookup source (insert d.source d.id r.preferred) ≡ some id
      → Serves (insert d.id d r.by_id) source id
  preferred_routed source id found = elim (Bool-cases (d.source == source)) [
    | inl same ↦
        let e : d.source ≡ source = (eq_iff d.source source).0 same in
        let f : d.id ≡ id = ground (arith, lookup-insert d.source source d.id r.preferred) in
        rw (← e, ← f) (Serves-new d r.by_id fresh)
    | inr apart ↦
        Serves-insert d r.by_id fresh source id
          (c.routed source id (ground (arith, lookup-insert d.source source d.id r.preferred)))
  ]

  added_routed :
      (b : Bool) (source : SourceId) (id : ProviderId)
      → lookup source (if b then insert d.source d.id r.preferred else r.preferred) ≡ some id
      → Serves (insert d.id d r.by_id) source id
  added_routed true source id found = preferred_routed source id found
  added_routed false source id found =
      Serves-insert d r.by_id fresh source id (c.routed source id found)

  added-IsConsistent : IsConsistent (add_provider d prefer r).0
  unfolding add_provider
  added-IsConsistent = rw fresh (record {
    keyed = added_keyed;
    listed = added_listed;
    routed = added_routed _;
    op_routed = λ source op id found.
        ServesOp-insert d r.by_id fresh source op id (c.op_routed source op id found);
  })

add_provider-IsConsistent :
    (d : ProviderDescriptor) (prefer : Bool) (r : Registry)
    → IsConsistent r
    → IsConsistent (add_provider d prefer r).0
unfolding add_provider
add_provider-IsConsistent d prefer r c = elim (Option-cases (lookup d.id r.by_id)) [
  | inl fresh ↦ added-IsConsistent d prefer r c fresh
  | inr (e, found) ↦ rw found c
]

pub register-IsConsistent :
    (p : Option ProviderDescriptor) (prefer : Bool) (r : Registry)
    → IsConsistent r
    → IsConsistent (register p prefer r).0
unfolding register
register-IsConsistent none prefer r c = c
register-IsConsistent (some d) prefer r c = elim (Bool-cases (d.id == "" || d.source == "")) [
  | inl bad ↦ rw bad c
  | inr good ↦ rw good (add_provider-IsConsistent d prefer r c)
]

-- A route that passes validation names a registered provider of the source.
validate_route-Serves :
    (source : SourceId) (op : Operation) (id : ProviderId) (r : Registry)
    → validate_route source op id r ≡ none
    → Serves r.by_id source id
unfolding validate_route
validate_route-Serves source op id r valid = elim (Option-cases (lookup id r.by_id)) [
  | inl absent ↦ absurd (ground arith)
  | inr (d, found) ↦ (d, found, ground (arith, eq_iff d.source source))
]

validate_route-ServesOp :
    (source : SourceId) (op : Operation) (id : ProviderId) (r : Registry)
    → (op == "") ≡ false
    → validate_route source op id r ≡ none
    → ServesOp r.by_id source op id
unfolding validate_route
validate_route-ServesOp source op id r named valid = elim (Option-cases (lookup id r.by_id)) [
  | inl absent ↦ absurd (ground arith)
  | inr (d, found) ↦ (d, found, ground (arith, eq_iff d.source source), ground arith)
]

module _ (source : SourceId) (id : ProviderId) (r : Registry) (c : IsConsistent r) where
  preferring_routed :
      Serves r.by_id source id
      → (s : SourceId) (i : ProviderId) → lookup s (insert source id r.preferred) ≡ some i
      → Serves r.by_id s i
  preferring_routed valid s i found = elim (Bool-cases (source == s)) [
    | inl same ↦
        let e : source ≡ s = (eq_iff source s).0 same in
        let f : id ≡ i = ground (arith, lookup-insert source s id r.preferred) in
        rw (← e, ← f) valid
    | inr apart ↦ c.routed s i (ground (arith, lookup-insert source s id r.preferred))
  ]

  pub set_preferred-IsConsistent : IsConsistent (set_preferred source id r).0
  unfolding set_preferred
  set_preferred-IsConsistent = elim (Option-cases (validate_route source "" id r)) [
    | inl valid ↦
        rw (valid, set_preferred)
          (record {
            keyed = c.keyed;
            listed = c.listed;
            routed = preferring_routed (validate_route-Serves source "" id r valid);
            op_routed = c.op_routed;
          })
    | inr (e, refused) ↦ rw (refused, set_preferred) c
  ]

  routing_op_routed :
      (op : Operation)
      → ServesOp r.by_id source op id
      → (s : SourceId) (o : Operation) (i : ProviderId)
      → lookup o (
          dict_at s
            (insert source (insert op id (dict_at source r.preferred_by_op)) r.preferred_by_op))
        ≡ some i
      → ServesOp r.by_id s o i
  routing_op_routed op valid s o i found = elim (Bool-cases (source == s)) [
    | inl same ↦
        let e : source ≡ s = (eq_iff source s).0 same in
        let inner = dict_at source r.preferred_by_op in
        let here : lookup o (insert op id inner) ≡ some i =
          ground (arith, dict_at-insert source s (insert op id inner) r.preferred_by_op) in
        elim (Bool-cases (op == o)) [
          | inl same_op ↦
              let f : op ≡ o = (eq_iff op o).0 same_op in
              let g : id ≡ i = ground (arith, lookup-insert op o id inner) in
              rw (← e, ← f, ← g) valid
          | inr other_op ↦
              rw (← e) (c.op_routed source o i (ground (arith, lookup-insert op o id inner)))
        ]
    | inr apart ↦ c.op_routed s o i (
        ground (
          arith,
          dict_at-insert source s (insert op id (dict_at source r.preferred_by_op))
              r.preferred_by_op,
        ))
  ]

  pub set_preferred_for_operation-IsConsistent :
      (op : Operation) → IsConsistent (set_preferred_for_operation source op id r).0
  unfolding set_preferred_for_operation
  set_preferred_for_operation-IsConsistent op = elim (Bool-cases (op == "")) [
    | inl unnamed ↦ rw unnamed c
    | inr named ↦ elim (Option-cases (validate_route source op id r)) [
      | inl valid ↦
          rw (named, valid)
            (record {
              keyed = c.keyed;
              listed = c.listed;
              routed = c.routed;
              op_routed = routing_op_routed op (validate_route-ServesOp source op id r named valid);
            })
      | inr (e, refused) ↦ rw (named, refused) c
    ]
  ]
