-- ===== src/Registry/Routes.antt =====
-- The answers of ForOperation in provider/registry.go.
use mathlib.Core.Path.{subst}
use mathlib.Core.Bool.{false≢true}
use feishu_super_search.Registry.Reads.{text_at-cases, operation_available-nameless}
use feishu_super_search.Prelude.{
  sym, ◌∙◌, ◌≡◌, refl, Bool, true, false, none, some, List, [], ◌∷◌, lookup, arith, All,
  Option-cases, inl, inr,
}
use feishu_super_search.Kernel.Refs.{SourceId, ProviderId}
use feishu_super_search.Kernel.Provider.{ProviderDescriptor, Operation, supports}
use feishu_super_search.Registry.{
  Registry, text_at, list_at, dict_at, candidate, first_candidate, for_operation,
  operation_available, explicit_operation_route,
}
use feishu_super_search.Registry.Invariant.{IsConsistent, Serves}

-- `d` is registered under its own id, belongs to `source`, supports `op` and is available for it.
pub record CanServe (r : Registry) (source : SourceId) (op : Operation) (d : ProviderDescriptor)
    : Type 0 where
  pub registered : lookup d.id r.by_id ≡ some d
  pub of_source : d.source ≡ source
  pub can : supports d op ≡ true
  pub available : operation_available d.id op r ≡ true

module _ (r : Registry) (c : IsConsistent r) (source : SourceId) (op : Operation) where
  -- A candidate that is found is registered and available, and supports the operation if asked.
  candidate_inv :
      (b : Bool) (id : ProviderId) (d : ProviderDescriptor)
      → candidate b id op r ≡ some d
      → (lookup id r.by_id ≡ some d)
        × (operation_available id op r ≡ true)
        × (b ≡ true → supports d op ≡ true)
  unfolding candidate
  candidate_inv b id d found = elim (Option-cases (lookup id r.by_id)) [
    | inl absent ↦ absurd (ground arith)
    | inr (e, here) ↦ (ground arith, ground arith, ground arith)
  ]

  CanServe-intro :
      (id : ProviderId) (d : ProviderDescriptor)
      → lookup id r.by_id ≡ some d
      → operation_available id op r ≡ true
      → supports d op ≡ true
      → d.source ≡ source
      → CanServe r source op d
  CanServe-intro id d here free can same =
      let e : d.id ≡ id = c.keyed id d here in
      record {
        registered = subst (λ i. lookup i r.by_id ≡ some d) (sym e) here;
        of_source = same;
        can = can;
        available = subst (λ i. operation_available i op r ≡ true) (sym e) free;
      }

  first_candidate_sound :
      (ids : List ProviderId) (d : ProviderDescriptor)
      → All (Serves r.by_id source) ids
      → first_candidate ids op r ≡ some d
      → CanServe r source op d
  unfolding first_candidate
  first_candidate_sound [] d all found = cc
  first_candidate_sound (id ∷ ids) d all found = elim (Option-cases (candidate true id op r)) [
    | inl absent ↦ first_candidate_sound ids d all.1 (ground arith)
    | inr (e, here) ↦
        let (at_id, free, can) = candidate_inv true id e here in
        let same : e ≡ d = ground arith in
        let (f, at_f, of_source) = all.0 in
        let same' : f ≡ e = ground arith in
        rw (← same) (CanServe-intro id e at_id free (can refl) (rw (← same') of_source))
  ]

  explicit_sound :
      (d : ProviderDescriptor)
      → candidate false (text_at op (dict_at source r.preferred_by_op)) op r ≡ some d
      → CanServe r source op d
  explicit_sound d found =
      let id = text_at op (dict_at source r.preferred_by_op) in
      let (at_id, free, _) = candidate_inv false id d found in
      elim (text_at-cases op (dict_at source r.preferred_by_op)) [
        | inl nameless ↦
            absurd (false≢true (sym (operation_available-nameless id op r nameless) ∙ free))
        | inr route ↦
            let (e, at_e, of_source, can) = c.op_routed source op id route in
            let same : e ≡ d = ground arith in
            CanServe-intro id d at_id free (rw (← same) can) (rw (← same) of_source)
      ]

  preferred_sound :
      (d : ProviderDescriptor)
      → candidate true (text_at source r.preferred) op r ≡ some d
      → CanServe r source op d
  preferred_sound d found =
      let id = text_at source r.preferred in
      let (at_id, free, can) = candidate_inv true id d found in
      elim (text_at-cases source r.preferred) [
        | inl nameless ↦
            absurd (false≢true (sym (operation_available-nameless id op r nameless) ∙ free))
        | inr route ↦
            let (e, at_e, of_source) = c.routed source id route in
            let same : e ≡ d = ground arith in
            CanServe-intro id d at_id free (can refl) (rw (← same) of_source)
      ]

  -- In a consistent registry, the provider that ForOperation returns is registered, belongs to
  -- the source, supports the operation and is available for it.
  pub for_operation-CanServe :
      (d : ProviderDescriptor) → for_operation source op r ≡ some d → CanServe r source op d
  unfolding for_operation
  for_operation-CanServe d found = ground (
    arith,
    explicit_sound d,
    preferred_sound d,
    first_candidate_sound (list_at source r.by_source) d (c.listed source),
  )

module _ (r : Registry) (source : SourceId) (op : Operation) where
  abbrev pub Cannot : ProviderId → Type 0
  Cannot id =
      (d : ProviderDescriptor)
      → lookup id r.by_id ≡ some d
      → supports d op ≡ true
      → operation_available id op r ≡ false

  candidate-none : (id : ProviderId) → candidate true id op r ≡ none → Cannot id
  unfolding candidate
  candidate-none id absent d here can = ground arith

  first_candidate-none : (ids : List ProviderId) → first_candidate ids op r ≡ none → All Cannot ids
  unfolding first_candidate
  first_candidate-none [] absent = tt
  first_candidate-none (id ∷ ids) absent =
      (candidate-none id (ground arith), first_candidate-none ids (ground arith))

  -- ForOperation finds no provider only if each one that is registered for the source either
  -- does not support the operation or is not available for it.
  pub for_operation-none :
      for_operation source op r ≡ none → All Cannot (list_at source r.by_source)
  unfolding for_operation
  for_operation-none absent = first_candidate-none (list_at source r.by_source) (ground arith)

  -- The provider of a configured route for the operation, where that route is available, is the
  -- one that ForOperation returns.
  pub for_operation-explicit :
      (d : ProviderDescriptor)
      → explicit_operation_route source op r ≡ some d
      → for_operation source op r ≡ some d
  unfolding for_operation explicit_operation_route candidate
  for_operation-explicit d found = ground arith
