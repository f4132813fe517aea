-- ===== src/Engine/Fetch/Known.antt =====
-- knownSessionRef and validateRefIdentity of internal/engine/fetch.go.
use Prim.Native.Char.{Char, code}
use feishu_super_search.Prelude.{
  String, Bool, false, not, eqb, ◌&&◌, ◌||◌, Option, none, some, List, [], ◌∷◌, ◌++◌, ◌==◌,
  if◌then◌else◌, chars, from_chars, Result, ok, err, refuse, ◌>>◌,
}
use feishu_super_search.Kernel.Errors.{ErrorDetail, new_error, invalid_request, identity_required}
use feishu_super_search.Kernel.Refs.{Identity, ObjectRef, normalized}
use feishu_super_search.Kernel.Objects.{Candidate, Artifact, Relation}
use feishu_super_search.Kernel.Snapshots.{SessionSnapshot}

abbrev pub candidate_refs : List Candidate → List ObjectRef
candidate_refs [] = []
candidate_refs (c ∷ cs) = c.ref ∷ candidate_refs cs

abbrev pub artifact_refs : List Artifact → List ObjectRef
artifact_refs [] = []
artifact_refs (a ∷ artifacts) = a.ref ∷ artifact_refs artifacts

abbrev pub relation_refs : List Relation → List ObjectRef
relation_refs [] = []
relation_refs (r ∷ relations) = r.from ∷ r.to ∷ relation_refs relations

abbrev pub fits_text : String → String → Bool
fits_text wanted s = wanted == "" || wanted == s

-- The two tests of knownSessionRef.
unfoldable pub is_known : ObjectRef → ObjectRef → Bool
is_known wanted known =
    (not (wanted.canonical_id == "") && known.canonical_id == wanted.canonical_id)
    || (not (wanted.native_id == "")
        && wanted.native_id == known.native_id
        && fits_text wanted.source known.source
        && fits_text wanted.kind known.kind)

unfoldable pub first_known : ObjectRef → List ObjectRef → Option ObjectRef
first_known wanted [] = none
first_known wanted (known ∷ refs) =
    let rest = first_known wanted refs in if is_known wanted known then some known else rest

unfoldable pub known_session_ref : SessionSnapshot → ObjectRef → Option ObjectRef
known_session_ref s wanted =
    first_known wanted
      (candidate_refs s.candidates ++ (artifact_refs s.artifacts ++ relation_refs s.relations))

abbrev pub add_char : Char → Option (List Char × List Char) → Option (List Char × List Char)
add_char c none = none
add_char c (some (before, after)) = some (c ∷ before, after)

-- The text before the first colon, and the text after it.
unfoldable pub split_colon : List Char → Option (List Char × List Char)
split_colon [] = none
split_colon (c ∷ cs) =
    let rest = add_char c (split_colon cs) in if eqb (code c) 58 then some ([], cs) else rest

-- The parts of a canonical id from the second on, if there are four.
pub record CanonicalParts : Type 0 where
  pub scope : String
  pub kind : String
  pub native_id : String

abbrev pub parts_from : Option (List Char × List Char) → Option CanonicalParts
parts_from none = none
parts_from (some (_, after)) = elim (split_colon after) [
  | none ↦ none
  | some (scope, rest) ↦ elim (split_colon rest) [
    | none ↦ none
    | some (kind, native_id) ↦ some record {
      scope = from_chars scope;
      kind = from_chars kind;
      native_id = from_chars native_id;
    }
  ]
]

-- `strings.SplitN(id, ":", 4)`
unfoldable pub canonical_parts : String → Option CanonicalParts
canonical_parts id = parts_from (split_colon (chars id))

-- `strings.HasPrefix(id, "feishu:")`
unfoldable pub is_feishu : String → Bool
is_feishu id = elim (split_colon (chars id)) [
  | none ↦ false
  | some (before, _) ↦ from_chars before == "feishu"
]

abbrev pub check_parts : String → ObjectRef → Option CanonicalParts → Result ErrorDetail (Unit {0})
check_parts scope ref none = err (new_error invalid_request "malformed Feishu canonical_id")
check_parts scope ref (some p) = do
  refuse (p.scope == "" || p.kind == "" || p.native_id == "")
      (new_error invalid_request "malformed Feishu canonical_id")
  refuse (not (p.scope == scope))
      (new_error identity_required "canonical object belongs to a different identity scope")
  refuse (not (ref.kind == "") && not (ref.kind == p.kind))
      (new_error invalid_request "canonical_id kind does not match object ref")
  refuse (not (ref.native_id == "") && not (ref.native_id == p.native_id))
      (new_error invalid_request "canonical_id native id does not match object ref")

unfoldable pub check_scope_key : String → ObjectRef → Result ErrorDetail (Unit {0})
check_scope_key scope ref =
    refuse (not (ref.scope_key == "") && not (ref.scope_key == scope))
      (new_error identity_required "object belongs to a different identity scope")

-- validateRefIdentity
unfoldable pub validate_ref_identity :
    (digest : String → String) → ObjectRef → Identity → Result ErrorDetail (Unit {0})
validate_ref_identity digest ref i = do
  check_scope_key (normalized digest i).scope_key ref
  let scope = (normalized digest i).scope_key
  let checked = check_parts scope ref (canonical_parts ref.canonical_id)
  if is_feishu ref.canonical_id then checked else ok tt
