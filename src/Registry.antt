-- ===== src/Registry.antt =====
-- provider/registry.go: which provider serves a source and an operation. Every method holds the
-- lock for its whole body, so a method is one step on the registry. A provider stands for its
-- descriptor, which is what the registry reads of it.
mod Reads
pub mod Invariant
pub mod Reachable
pub mod Routes
pub mod Availability
mod Examples
use feishu_super_search.Prelude.{
  String, Bool, true, false, not, ◌&&◌, ◌||◌, Option, none, some, List, [], ◌∷◌, ◌++◌, Dict, lookup,
  insert, remove, ◌==◌, if◌then◌else◌,
}
use feishu_super_search.Kernel.Errors.{ErrorDetail}
use feishu_super_search.Kernel.Refs.{SourceId, ProviderId}
use feishu_super_search.Kernel.Provider.{ProviderDescriptor, Operation, supports}

pub record Registry : Type 0 where
  pub by_id : Dict ProviderDescriptor
  pub by_source : Dict (List ProviderId)
  pub preferred : Dict ProviderId
  pub preferred_by_op : Dict (Dict ProviderId)
  pub unavailable : Dict ErrorDetail
  pub unavailable_op : Dict (Dict ErrorDetail)

-- The errors, by the message that each carries.
pub data RegistryError : Type 0 where
  nil_provider incomplete_descriptor operation_required : RegistryError
  already_registered not_registered wrong_source not_supported : ProviderId → RegistryError

-- An operation that can fail returns the new registry, or the error beside the unchanged registry.
abbrev pub Outcome : Type 0
Outcome = Registry × Option RegistryError

abbrev pub new_registry : Registry
new_registry = record {
  by_id = [];
  by_source = [];
  preferred = [];
  preferred_by_op = [];
  unavailable = [];
  unavailable_op = [];
}

-- `m[k]` on a map of texts, of lists and of maps: a missing key reads as the zero value.
unfoldable pub text_at : String → Dict String → String
text_at k m = elim (lookup k m) [ none ↦ "" | some v ↦ v ]

unfoldable pub list_at : String → Dict (List String) → List String
list_at k m = elim (lookup k m) [ none ↦ [] | some v ↦ v ]

unfoldable pub dict_at {ℓ} : {V : Type ℓ} → String → Dict (Dict V) → Dict V
dict_at k m = elim (lookup k m) [ none ↦ [] | some v ↦ v ]

abbrev pub is_some {ℓ} : {A : Type ℓ} → Option A → Bool
is_some none = false
is_some (some _) = true

-- The part of Register under the lock, for a descriptor that has an id and a source.
unfoldable pub add_provider : ProviderDescriptor → Bool → Registry → Outcome
add_provider d prefer r =
    if is_some (lookup d.id r.by_id) then (r, some (already_registered d.id)) else (
      record r {
        by_id = insert d.id d r.by_id;
        by_source = insert d.source (list_at d.source r.by_source ++ d.id ∷ []) r.by_source;
        preferred =
            if prefer || text_at d.source r.preferred == ""
            then insert d.source d.id r.preferred
            else r.preferred;
      },
      none,
    )

unfoldable pub register : Option ProviderDescriptor → Bool → Registry → Outcome
register none prefer r = (r, some nil_provider)
register (some d) prefer r =
    if d.id == "" || d.source == ""
    then (r, some incomplete_descriptor)
    else add_provider d prefer r

-- validateRouteLocked: `none` is the nil error.
unfoldable pub validate_route : SourceId → Operation → ProviderId → Registry → Option RegistryError
validate_route source op id r = elim (lookup id r.by_id) [
  | none ↦ some (not_registered id)
  | some d ↦
      if not (d.source == source)
      then some (wrong_source id)
      else if not (op == "") && not (supports d op)
      then some (not_supported id)
      else none
]

unfoldable pub set_preferred : SourceId → ProviderId → Registry → Outcome
set_preferred source id r = elim (validate_route source "" id r) [
  | some e ↦ (r, some e)
  | none ↦ (record r { preferred = insert source id r.preferred }, none)
]

unfoldable pub set_preferred_for_operation : SourceId → Operation → ProviderId → Registry → Outcome
set_preferred_for_operation source op id r =
    if op == "" then (r, some operation_required) else elim (validate_route source op id r) [
      | some e ↦ (r, some e)
      | none ↦ (
        record r {
          preferred_by_op =
              insert source (insert op id (dict_at source r.preferred_by_op)) r.preferred_by_op;
        },
        none,
      )
    ]

unfoldable pub by_id : ProviderId → Registry → Option ProviderDescriptor
by_id id r = lookup id r.by_id

unfoldable pub available_by_id : ProviderId → Registry → Option ProviderDescriptor
available_by_id id r = if is_some (lookup id r.unavailable) then none else lookup id r.by_id

unfoldable pub for_source : SourceId → Registry → Option ProviderDescriptor
for_source source r = available_by_id (text_at source r.preferred) r

unfoldable pub operation_available : ProviderId → Operation → Registry → Bool
operation_available id op r =
    if id == "" || is_some (lookup id r.unavailable)
    then false
    else not (is_some (lookup op (dict_at id r.unavailable_op)))

unfoldable pub explicit_operation_route :
    SourceId → Operation → Registry → Option ProviderDescriptor
explicit_operation_route source op r =
    let id = text_at op (dict_at source r.preferred_by_op) in
    if operation_available id op r then lookup id r.by_id else none

-- The provider `id`, if it is registered, available for the operation and, where the caller asks,
-- says that it supports it.
unfoldable pub candidate : Bool → ProviderId → Operation → Registry → Option ProviderDescriptor
candidate asks id op r = elim (lookup id r.by_id) [
  | none ↦ none
  | some d ↦ if operation_available id op r && (not asks || supports d op) then some d else none
]

-- The loop of ForOperation over the providers of the source.
unfoldable pub first_candidate : List ProviderId → Operation → Registry → Option ProviderDescriptor
first_candidate [] op r = none
first_candidate (id ∷ ids) op r =
    let rest = first_candidate ids op r in
    elim (candidate true id op r) [ some d ↦ some d | none ↦ rest ]

abbrev or_else {ℓ} : {A : Type ℓ} → Option A → Option A → Option A
or_else (some a) o = some a
or_else none o = o

-- ForOperation. An id that is the empty text is skipped there; here `operation_available` refuses it.
unfoldable pub for_operation : SourceId → Operation → Registry → Option ProviderDescriptor
for_operation source op r =
    or_else (candidate false (text_at op (dict_at source r.preferred_by_op)) op r) (
      or_else (candidate true (text_at source r.preferred) op r)
        (first_candidate (list_at source r.by_source) op r))

unfoldable pub set_unavailable : ProviderId → Option ErrorDetail → Registry → Outcome
set_unavailable id detail r =
    if not (is_some (lookup id r.by_id)) then (r, some (not_registered id)) else elim detail [
      | none ↦ (record r { unavailable = remove id r.unavailable }, none)
      | some e ↦ (record r { unavailable = insert id e r.unavailable }, none)
    ]

abbrev pub is_empty {ℓ} : {A : Type ℓ} → List A → Bool
is_empty [] = true
is_empty (_ ∷ _) = false

-- `delete(m[id], op)`, and `delete(m, id)` once nothing is left under `id`.
unfoldable pub clear_operation :
    ProviderId → Operation → Dict (Dict ErrorDetail) → Dict (Dict ErrorDetail)
clear_operation id op m = elim (lookup id m) [
  | none ↦ m
  | some inner ↦
      let inner' = remove op inner in
      if is_empty inner' then remove id (insert id inner' m) else insert id inner' m
]

unfoldable pub set_operation_unavailable :
    ProviderId → Operation → Option ErrorDetail → Registry → Outcome
set_operation_unavailable id op detail r =
    if op == "" then (r, some operation_required) else elim (lookup id r.by_id) [
      | none ↦ (r, some (not_registered id))
      | some d ↦ if not (supports d op) then (r, some (not_supported id)) else elim detail [
        | none ↦ (record r { unavailable_op = clear_operation id op r.unavailable_op }, none)
        | some e ↦ (
          record r {
            unavailable_op = insert id (insert op e (dict_at id r.unavailable_op)) r.unavailable_op;
          },
          none,
        )
      ]
    ]

unfoldable pub unavailable_reason : ProviderId → Registry → Option ErrorDetail
unavailable_reason id r = lookup id r.unavailable

unfoldable pub operation_unavailable_reason : ProviderId → Operation → Registry → Option ErrorDetail
operation_unavailable_reason id op r = lookup op (dict_at id r.unavailable_op)

-- The providers of `ids` that are registered, in order.
unfoldable pub registered : List ProviderId → Registry → List ProviderDescriptor
registered [] r = []
registered (id ∷ ids) r =
    let rest = registered ids r in elim (lookup id r.by_id) [ none ↦ rest | some d ↦ d ∷ rest ]

unfoldable pub providers_for_source : SourceId → Registry → List ProviderDescriptor
providers_for_source source r = registered (list_at source r.by_source) r
