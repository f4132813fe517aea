-- ===== src/Registry/Availability.antt =====
-- The methods of provider/registry.go that record an outage, and the availability that is read.
use feishu_super_search.Prelude.{
  String, ◌≡◌, refl, Bool, true, false, ◌&&◌, Option, none, some, [], ◌∷◌, Dict, lookup, insert,
  remove, lookup-insert, lookup-remove, ◌==◌, if◌then◌else◌, arith, eq_iff, Option-cases, inl, inr,
}
use feishu_super_search.Kernel.Errors.{ErrorDetail}
use feishu_super_search.Kernel.Refs.{ProviderId}
use feishu_super_search.Kernel.Provider.{ProviderDescriptor, Operation, supports}
use feishu_super_search.Registry.{
  Registry, dict_at, operation_available, set_unavailable, set_operation_unavailable,
  clear_operation, is_empty, unavailable_reason,
}
use feishu_super_search.Registry.Reads.{dict_at-insert, dict_at-remove}

-- No outage of the whole provider is recorded.
abbrev pub is_up : ProviderId → Registry → Bool
is_up id r = elim (lookup id r.unavailable) [ none ↦ true | some _ ↦ false ]

-- No outage of the operation alone is recorded.
abbrev pub is_op_up : ProviderId → Operation → Registry → Bool
is_op_up id op r = elim (lookup op (dict_at id r.unavailable_op)) [ none ↦ true | some _ ↦ false ]

abbrev pub is_clear : Option ErrorDetail → Bool
is_clear none = true
is_clear (some _) = false

-- A provider with a name is available for an operation exactly if neither outage is recorded.
pub operation_available-split :
    (id : ProviderId) (op : Operation) (r : Registry)
    → (id == "") ≡ false
    → operation_available id op r ≡ is_up id r && is_op_up id op r
unfolding operation_available
operation_available-split id op r named = ground arith

module _ (id : ProviderId) (r : Registry) {d : ProviderDescriptor}
    (here : lookup id r.by_id ≡ some d) where
  -- SetUnavailable on a registered provider decides the availability of that provider alone,
  -- and touches no outage of a single operation.
  pub set_unavailable-is_up :
      (detail : Option ErrorDetail) (j : ProviderId) (op : Operation)
      → (is_up j (set_unavailable id detail r).0 ≡ (if id == j then is_clear detail else is_up j r))
        × (is_op_up j op (set_unavailable id detail r).0 ≡ is_op_up j op r)
  unfolding set_unavailable
  set_unavailable-is_up none j op = (ground (arith, lookup-remove id j r.unavailable), ground arith)
  set_unavailable-is_up (some e) j op =
      (ground (arith, lookup-insert id j e r.unavailable), ground arith)

lookup-empty {ℓ} : {V : Type ℓ} (o : String) (m : Dict V) → is_empty m ≡ true → lookup o m ≡ none
unfolding lookup
lookup-empty o [] h = refl
lookup-empty o (e ∷ m) h = cc

dict_at-some {ℓ} :
    {V : Type ℓ} (k : String) (v : Dict V) (m : Dict (Dict V))
    → lookup k m ≡ some v
    → dict_at k m ≡ v
unfolding dict_at
dict_at-some k v m h = ground arith

dict_at-none {ℓ} :
    {V : Type ℓ} (k : String) (m : Dict (Dict V)) → lookup k m ≡ none → dict_at k m ≡ []
unfolding dict_at
dict_at-none k m h = ground arith

module _ (id j : ProviderId) (op o : Operation) (m : Dict (Dict ErrorDetail)) where
  cleared_inner :
      (inner : Dict ErrorDetail)
      → lookup id m ≡ some inner
      → lookup o (if id == j then remove op inner else dict_at j m)
        ≡ (if id == j && op == o then none else lookup o (dict_at j m))
  cleared_inner inner here =
      ground (arith, lookup-remove op o inner, eq_iff id j, dict_at-some id inner m here)

  -- Deleting the last outage under a provider deletes its map, which reads no differently.
  clear_operation-lookup :
      lookup o (dict_at j (clear_operation id op m))
      ≡ (if id == j && op == o then none else lookup o (dict_at j m))
  unfolding clear_operation
  clear_operation-lookup = elim (Option-cases (lookup id m)) [
    | inl absent ↦
        ground
          (arith, eq_iff id j, dict_at-none id m absent, lookup-empty {V = ErrorDetail} o [] refl)
    | inr (inner, here) ↦ ground (
      arith,
      cleared_inner inner here,
      dict_at-remove id j (insert id (remove op inner) m),
      dict_at-insert id j (remove op inner) m,
      lookup-empty o (remove op inner),
      lookup-empty {V = ErrorDetail} o [] refl,
    )
  ]

module _ (id : ProviderId) (op : Operation) (r : Registry) {d : ProviderDescriptor}
    (here : lookup id r.by_id ≡ some d) (can : supports d op ≡ true)
    (named : (op == "") ≡ false) where
  -- What is recorded of the operations and of the providers after SetOperationUnavailable.
  set_operation_unavailable-is_op_up :
      (detail : Option ErrorDetail) (j : ProviderId) (o : Operation)
      → (is_op_up j o (set_operation_unavailable id op detail r).0
          ≡ (if id == j && op == o then is_clear detail else is_op_up j o r))
        × (is_up j (set_operation_unavailable id op detail r).0 ≡ is_up j r)
  unfolding set_operation_unavailable
  set_operation_unavailable-is_op_up none j o =
      (ground (arith, clear_operation-lookup id j op o r.unavailable_op), ground arith)
  set_operation_unavailable-is_op_up (some e) j o = (
    ground (
      arith,
      dict_at-insert id j (insert op e (dict_at id r.unavailable_op)) r.unavailable_op,
      lookup-insert op o e (dict_at id r.unavailable_op),
      eq_iff id j,
    ),
    ground arith,
  )

  -- After SetOperationUnavailable, for a named operation that the registered provider supports,
  -- where the provider has a name too: the provider is available for that operation exactly if
  -- no detail of an outage was passed and no outage of the whole provider is recorded, and the
  -- availability of every other provider, and of this one for every other operation, is as
  -- before.
  pub set_operation_unavailable-operation_available :
      (detail : Option ErrorDetail) (j : ProviderId) (o : Operation)
      → (id == "") ≡ false
      → operation_available j o (set_operation_unavailable id op detail r).0 ≡ (
          if id == j && op == o
          then is_clear detail && is_clear (unavailable_reason id r)
          else operation_available j o r)
  unfolding operation_available unavailable_reason
  set_operation_unavailable-operation_available detail j o given =
      let (alone, same) = set_operation_unavailable-is_op_up detail j o in
      ground (arith, alone, same, given, eq_iff id j)
