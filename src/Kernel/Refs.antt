-- ===== src/Kernel/Refs.antt =====
-- kernel/types.go: identities and object references. Sources, providers and object kinds are open
-- sets of texts in the program, and are texts here.
use Prim.Native.String.{◌++◌ as cat}
use feishu_super_search.Prelude.{String, ◌&&◌, ◌==◌, if◌then◌else◌, trim_space, Option, none, some}

abbrev pub SourceId : Type 0
SourceId = String

abbrev pub ProviderId : Type 0
ProviderId = String

abbrev pub ObjectKind : Type 0
ObjectKind = String

pub record Identity : Type 0 where
  pub profile : String
  pub mode : String
  pub scope_key : String

-- `digest` is the hexadecimal text of the first eight bytes of the SHA-256 of its argument.
unfoldable pub normalized : (digest : String → String) → Identity → Identity
normalized digest i =
    let mode : String = if i.mode == "" then "auto" else i.mode in
    let key : String =
      if i.scope_key == "" then digest (cat i.profile (cat ":" mode)) else i.scope_key in
    record { profile = i.profile; mode = mode; scope_key = key }

pub record ObjectRef : Type 0 where
  pub platform : String
  pub scope_key : String
  pub kind : ObjectKind
  pub native_id : String
  pub canonical_id : String
  pub provider_id : ProviderId
  pub source : SourceId
  pub url : String

-- ObjectRef.Validate: `none` is the nil error.
unfoldable pub validate : ObjectRef → Option String
validate r =
    if r.canonical_id == "" && r.native_id == ""
    then some "object ref requires canonical_id or native_id"
    else none

unfoldable pub build_canonical_id : String → ObjectKind → String → String
build_canonical_id scope kind native_id =
    let s : String = if scope == "" then "default" else scope in
    cat "feishu:" (cat s (cat ":" (cat kind (cat ":" (trim_space native_id)))))
