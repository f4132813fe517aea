-- ===== src/Engine/Fetch/Prepare/Servable.antt =====
-- What reaches a provider: an item of the caller's scope that the provider says it can serve.
use feishu_super_search.Prelude.{
  String, ℕ, ◌≡◌, refl, sym, Bool, true, ◌||◌, ◌==◌, eq_iff, Result, ok, err, >>=-eq-ok, Bool-cases,
  inl, inr, arith,
}
use feishu_super_search.Kernel.Errors.{ErrorDetail}
use feishu_super_search.Kernel.Refs.{Identity, ObjectRef, normalized}
use feishu_super_search.Kernel.Projection.{missing_bits, no_bits}
use feishu_super_search.Kernel.Provider.{ProviderDescriptor, supports}
use feishu_super_search.Kernel.Requests.{FetchRequest}
use feishu_super_search.Kernel.Snapshots.{SessionSnapshot}
use feishu_super_search.Registry.{Registry}
use feishu_super_search.Engine.Access.{compatible_identity, validate_provider_operation}
use feishu_super_search.Engine.Access.Isolation.{normalized_twice}
use feishu_super_search.Engine.Fetch.Known.{
  validate_ref_identity, known_session_ref, check_scope_key,
}
use feishu_super_search.Engine.Fetch.Prepare.{
  Work, provider_supports_kind, provider_for_ref, resolve_known, complete_ref, or_result, as_check,
  check_provider, check_source, check_kind, check_projection, check_asked, found_provider,
  if_cached, held, lacking, assign_provider, prepare_item,
}

or_result-ok :
    {A : Type 0} (ref : ObjectRef) (r : Result ErrorDetail A) {a : A}
    → or_result ref r ≡ ok a
    → r ≡ ok a
or_result-ok ref (ok b) h = cc
or_result-ok ref (err e) h = cc

-- The provider supports the operation for the identity, is of the source and the kind of the
-- object, and can fetch every projection that is asked for.
pub record CanFetch (i : Identity) (w : Work) : Type 0 where
  pub supported : supports w.1 "fetch" ≡ true
  pub compatible : compatible_identity w.1 i ≡ true
  pub same_source : w.0.ref.source == "" || w.1.source == w.0.ref.source ≡ true
  pub kind : w.0.ref.kind == "" || provider_supports_kind w.1 w.0.ref.kind ≡ true
  pub fetchable : no_bits (missing_bits w.0.projection w.1.fetchable_projection) ≡ true

validate-supports :
    (d : ProviderDescriptor) (i : Identity) {u : Unit {0}}
    → as_check (validate_provider_operation d "fetch" i) ≡ ok u
    → (supports d "fetch" ≡ true) × (compatible_identity d i ≡ true)
unfolding validate_provider_operation
validate-supports d i h = ground (arith, h)

check_source-ok :
    (d : ProviderDescriptor) (ref : ObjectRef) {u : Unit {0}}
    → check_source d ref ≡ ok u
    → ref.source == "" || d.source == ref.source ≡ true
unfolding check_source
check_source-ok d ref h = ground (arith, h)

check_kind-ok :
    (d : ProviderDescriptor) (ref : ObjectRef) {u : Unit {0}}
    → check_kind d ref ≡ ok u
    → ref.kind == "" || provider_supports_kind d ref.kind ≡ true
unfolding check_kind
check_kind-ok d ref h = ground (arith, h)

check_projection-ok :
    (d : ProviderDescriptor) (projection : ℕ) {u : Unit {0}}
    → check_projection d projection ≡ ok u
    → no_bits (missing_bits projection d.fetchable_projection) ≡ true
unfolding check_projection
check_projection-ok d projection h = ground (arith, h)

check_scope_key-ok :
    (scope : String) (ref : ObjectRef) {u : Unit {0}}
    → check_scope_key scope ref ≡ ok u
    → ref.scope_key == "" || ref.scope_key == scope ≡ true
unfolding check_scope_key
check_scope_key-ok scope ref h = ground (arith, h)

check_provider-CanFetch :
    (d : ProviderDescriptor) (ref : ObjectRef) (i : Identity) (projection : ℕ) (session : String)
    {u : Unit {0}}
    → check_provider d ref i projection ≡ ok u
    → CanFetch i
        (record { ref = ref; projection = projection; identity = i; session_id = session }, d)
unfolding check_provider
check_provider-CanFetch d ref i projection session h =
    let (_, valid, h1) = >>=-eq-ok (as_check (validate_provider_operation d "fetch" i)) _ h in
    let (_, source, h2) = >>=-eq-ok (check_source d ref) _ h1 in
    let (_, kind, h3) = >>=-eq-ok (check_kind d ref) _ h2 in
    let (supported, compatible) = validate-supports d i valid in
    record {
      supported = supported;
      compatible = compatible;
      same_source = check_source-ok d ref source;
      kind = check_kind-ok d ref kind;
      fetchable = check_projection-ok d projection h3;
    }

validate-scope :
    (digest : String → String) (ref : ObjectRef) (i : Identity) {u : Unit {0}}
    → validate_ref_identity digest ref i ≡ ok u
    → check_scope_key (normalized digest i).scope_key ref ≡ ok tt
unfolding validate_ref_identity
validate-scope digest ref i h =
    (>>=-eq-ok (check_scope_key (normalized digest i).scope_key ref) _ h).1

-- A reference without a scope gets the one of the caller.
complete_ref-scope :
    (scope : String) (ref : ObjectRef) {u : Unit {0}}
    → check_scope_key scope ref ≡ ok u
    → (complete_ref scope ref).scope_key ≡ scope
unfolding check_scope_key complete_ref
complete_ref-scope scope ref h = elim (Bool-cases (ref.scope_key == "")) [
  | inl blank ↦ rw blank refl
  | inr given ↦
      (let same : ref.scope_key == scope ≡ true =
          ground (arith, given, check_scope_key-ok scope ref h) in
        rw given ((eq_iff ref.scope_key scope).0 same))
]

module _ (digest : String → String) (registry : Registry) (snapshot : SessionSnapshot)
    (session_id : String) (reusing : Bool) (i : Identity) where
  assign_provider-CanFetch :
      (ref : ObjectRef) (projection : ℕ) {w : Work}
      → assign_provider digest registry snapshot session_id reusing i ref projection ≡ ok w
      → CanFetch i w × (w.0.ref ≡ ref)
  unfolding assign_provider
  assign_provider-CanFetch ref projection {w} h =
      let before = held snapshot ref in
      let (_, _, h1) = >>=-eq-ok (if_cached ref projection before) _ h in
      let (d, _, h2) =
        >>=-eq-ok (or_result ref (found_provider (provider_for_ref registry ref "fetch"))) _ h1 in
      let (_, fits, last) =
        >>=-eq-ok (or_result ref (check_provider d ref i (lacking projection before))) _ h2 in
      let work : Work = (
        record {
          ref = ref;
          projection = lacking projection before;
          identity = i;
          session_id = session_id;
        },
        d,
      ) in
      let same : w ≡ work = cc last in
      rw same (
        check_provider-CanFetch d ref i (lacking projection before) session_id
            (or_result-ok ref (check_provider d ref i (lacking projection before)) fits),
        refl,
      )

  prepare_item-own :
      (item : FetchRequest) {w : Work}
      → (normalized digest i).scope_key ≡ i.scope_key
      → prepare_item digest registry snapshot session_id reusing i item ≡ ok w
      → CanFetch i w × (w.0.ref.scope_key ≡ i.scope_key)
  unfolding prepare_item
  prepare_item-own item {w} own h =
      let (_, _, h1) = >>=-eq-ok (check_asked item) _ h in
      let (ref, _, h2) =
        >>=-eq-ok (resolve_known reusing item.ref (known_session_ref snapshot item.ref)) _ h1 in
      let (_, valid, h3) = >>=-eq-ok (or_result ref (validate_ref_identity digest ref i)) _ h2 in
      let (fits, same) =
        assign_provider-CanFetch (complete_ref i.scope_key ref) item.projection h3 in
      (
        fits,
        cc (
          same,
          complete_ref-scope i.scope_key ref (
              rw (sym own) (
                validate-scope digest ref i
                  (or_result-ok ref (validate_ref_identity digest ref i) valid))),
        ),
      )

module _ (digest : String → String) (registry : Registry) (snapshot : SessionSnapshot)
    (session_id : String) (reusing : Bool) (i : Identity) where
  -- If the loop of Fetch turns an item into work for a provider, then this provider supports a
  -- fetch for the caller's identity, is of the source and supports the kind of the object where
  -- these are named, and can fetch every projection that is asked of it; and the object is in
  -- the scope of the caller.
  pub prepare_item-CanFetch :
      (item : FetchRequest) {w : Work}
      → prepare_item digest registry snapshot session_id reusing (normalized digest i) item ≡ ok w
      → CanFetch (normalized digest i) w × (w.0.ref.scope_key ≡ (normalized digest i).scope_key)
  prepare_item-CanFetch item h =
      prepare_item-own digest registry snapshot session_id reusing (normalized digest i) item
        (rw (normalized_twice digest i) refl) h
