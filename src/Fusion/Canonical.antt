-- ===== src/Fusion/Canonical.antt =====
-- Canonicalize of internal/fusion/fusion.go: the identity under which a candidate is merged.
-- `url.Parse`, the lower-case mapping and the digest are parameters.
use Prim.Native.Char.{Char, code}
use Prim.Native.String.{◌++◌ as cat}
use mathlib.Core.List.{reverse}
use feishu_super_search.Prelude.{
  String, ◌≡◌, Bool, true, false, Option, none, some, List, [], ◌∷◌, eqb, ℤ, pos, is_nonpos,
  is_positive, trim_space, chars, from_chars, ◌==◌, if◌then◌else◌,
}
use feishu_super_search.Kernel.Refs.{SourceId, ObjectKind, build_canonical_id}
use feishu_super_search.Kernel.Objects.{Candidate, Discovery}

-- `path` is the path of the URL that the text is parsed as, or `none` on an error; `digest` is the
-- hexadecimal text of the first twelve bytes of the SHA-256 of a text.
pub record IdentityOps : Type 0 where
  pub to_lower : String → String
  pub path : String → Option String
  pub digest : String → String

unfoldable pub kind_from_source : SourceId → ObjectKind
kind_from_source s =
    if s == "docs"
    then "document"
    else if s == "messages"
    then "message"
    else if s == "chats"
    then "chat"
    else if s == "people"
    then "person"
    else if s == "minutes"
    then "minute"
    else if s == "meetings"
    then "meeting"
    else if s == "calendar"
    then "event"
    else if s == "tasks"
    then "task"
    else if s == "mail"
    then "mail"
    else if s == "base"
    then "record"
    else if s == "sheets"
    then "cell"
    else "unknown"

abbrev pub is_slash : Char → Bool
is_slash c = eqb (code c) 47

unfoldable pub drop_slashes : List Char → List Char
drop_slashes [] = []
drop_slashes (c ∷ cs) = let rest = drop_slashes cs in if is_slash c then rest else c ∷ cs

-- The part behind the last slash; `part` is what was read of it, backwards.
unfoldable pub last_part : List Char → List Char → List Char
last_part [] part = reverse part
last_part (c ∷ cs) part = last_part cs (if is_slash c then [] else c ∷ part)

-- `strings.Split(strings.Trim(path, "/"), "/")`, of which the last part.
unfoldable pub last_segment : String → String
last_segment path =
    from_chars (last_part (reverse (drop_slashes (reverse (drop_slashes (chars path))))) [])

unfoldable pub id_from_url : IdentityOps → String → String
id_from_url ops raw = elim (ops.path raw) [
  | none ↦ ""
  | some path ↦ if path == "" then "" else last_segment path
]

unfoldable pub fingerprint : IdentityOps → Candidate → String
fingerprint ops c = cat "fp_" (
    ops.digest (ops.to_lower (trim_space (cat c.kind (cat "|" (cat c.title (cat "|" c.snippet)))))))

-- `if s == "" { s = d }`
abbrev pub fill_text : String → String → String
fill_text s d = if s == "" then d else s

-- The assignments before the native id is looked for.
unfoldable pub fill_candidate : Candidate → Candidate
fill_candidate c =
    let kind = fill_text c.kind (kind_from_source c.source) in
    let url = fill_text c.url c.ref.url in
    record c {
      kind = kind;
      url = url;
      ref = record c.ref {
        kind = fill_text c.ref.kind kind;
        source = fill_text c.ref.source c.source;
        platform = fill_text c.ref.platform "feishu";
        url = fill_text c.ref.url url;
      };
    }

-- The native id: the provider's, else that of the URL, else the fingerprint.
unfoldable pub native_id_of : IdentityOps → Candidate → String
native_id_of ops c =
    fill_text (fill_text (trim_space c.ref.native_id) (id_from_url ops c.url)) (fingerprint ops c)

abbrev pub first_discovery : Candidate → ℤ → List Discovery
first_discovery c rank =
    record {
      provider_id = c.ref.provider_id;
      source = c.source;
      rank = rank;
      score = c.native_score;
      cursor = "";
    }
    ∷ []

abbrev pub or_first : List Discovery → List Discovery → List Discovery
or_first [] l = l
or_first (d ∷ ds) l = d ∷ ds

-- The assignments after the native id is known.
unfoldable pub identify : String → String → Candidate → Candidate
identify native scope c =
    let rank = if is_nonpos c.native_rank then pos 1 else c.native_rank in
    record c {
      ref = record c.ref {
        scope_key = scope;
        native_id = native;
        canonical_id = build_canonical_id scope c.ref.kind native;
      };
      native_rank = rank;
      discovered_by = or_first c.discovered_by (first_discovery c rank);
    }

unfoldable pub canonicalize : IdentityOps → Candidate → String → Candidate
canonicalize ops c scope =
    let filled = fill_candidate c in identify (native_id_of ops filled) scope filled

-- A candidate that can be merged under its canonical id.
pub record IsCanonical (scope : String) (c : Candidate) : Type 0 where
  pub kind : (c.kind == "") ≡ false
  pub ref_kind : (c.ref.kind == "") ≡ false
  pub platform : (c.ref.platform == "") ≡ false
  pub native : (c.ref.native_id == "") ≡ false
  pub scope_key : c.ref.scope_key ≡ scope
  pub canonical : c.ref.canonical_id ≡ build_canonical_id scope c.ref.kind c.ref.native_id
  pub rank : is_positive c.native_rank ≡ true
  pub discovered : (c.discovered_by ≡ []) → ⊥
