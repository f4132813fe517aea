-- ===== src/Engine/Fetch/Merge.antt =====
-- mergeRef and mergeArtifact of internal/engine/fetch.go: what is known of an object twice.
pub mod Firsts
pub mod Examples
use Prim.Native.String.{◌++◌ as cat}
use feishu_super_search.Prelude.{
  String, Bool, true, false, Option, none, some, List, [], ◌∷◌, ◌++◌, Dict, insert, contains, ◌==◌,
  if◌then◌else◌, sort_by,
}
use feishu_super_search.Kernel.Refs.{ObjectRef}
use feishu_super_search.Kernel.Objects.{ContentChunk, Relation, NativeSummary, Attachment, Artifact}
use feishu_super_search.Kernel.Projection.{union}
use feishu_super_search.Fusion.Discoveries.{text_less}

abbrev pub or_given : String → String → String
or_given s t = if s == "" then t else s

unfoldable pub merge_ref : ObjectRef → ObjectRef → ObjectRef
merge_ref a b = record {
  platform = or_given a.platform b.platform;
  scope_key = or_given a.scope_key b.scope_key;
  kind = or_given a.kind b.kind;
  native_id = or_given a.native_id b.native_id;
  canonical_id = or_given a.canonical_id b.canonical_id;
  provider_id = or_given a.provider_id b.provider_id;
  source = or_given a.source b.source;
  url = or_given a.url b.url;
}

module _ {ℓ} {A : Type ℓ} (key : A → String) where
  -- The loop of the three functions below, after the keys of `seen`.
  unfoldable pub keep_new : List A → (seen : List String) → List A
  keep_new [] seen = []
  keep_new (x ∷ xs) seen = elim (contains (key x) seen) [
    | true ↦ keep_new xs seen
    | false ↦ x ∷ keep_new xs (key x ∷ seen)
  ]

unfoldable pub chunk_key : ContentChunk → String
chunk_key x = or_given x.id (cat x.kind (cat "|" x.text))

unfoldable pub merge_chunks : List ContentChunk → List ContentChunk → List ContentChunk
merge_chunks a b = keep_new chunk_key (a ++ b) []

unfoldable pub relation_key : Relation → String
relation_key x = cat x.kind (cat "|" (cat x.from.canonical_id (cat "|" x.to.canonical_id)))

unfoldable pub merge_relations : List Relation → List Relation → List Relation
merge_relations a b = keep_new relation_key (a ++ b) []

unfoldable pub attachment_key : Attachment → String
attachment_key x = or_given x.id (cat x.name (cat "|" x.url))

abbrev pub id_less : Attachment → Attachment → Bool
id_less x y = text_less x.id y.id

unfoldable pub merge_attachments : List Attachment → List Attachment → List Attachment
merge_attachments a b = sort_by id_less (keep_new attachment_key (a ++ b) [])

abbrev pub set_all : Dict String → Dict String → Dict String
set_all [] m = m
set_all ((k, v) ∷ rest) m = set_all rest (insert k v m)

abbrev pub entries : Option (Dict String) → Dict String
entries none = []
entries (some m) = m

abbrev pub or_summary : Option NativeSummary → Option NativeSummary → Option NativeSummary
or_summary none old = old
or_summary (some new) old = some new

unfoldable pub merge_artifact : Artifact → Artifact → Artifact
merge_artifact a b = record {
  ref = merge_ref a.ref b.ref;
  projection = union a.projection b.projection;
  metadata = some (set_all (entries b.metadata) (entries a.metadata));
  chunks = merge_chunks a.chunks b.chunks;
  summary = or_summary b.summary a.summary;
  relations = merge_relations a.relations b.relations;
  attachments = merge_attachments a.attachments b.attachments;
  version = or_given b.version a.version;
  provenance = b.provenance;
}
