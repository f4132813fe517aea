-- ===== src/Engine/Fetch/Merge/Examples.antt =====
-- Two artifacts of one document, and their merge.
use feishu_super_search.Prelude.{
  String, ◌≡◌, refl, none, List, [], ◌∷◌, ◌++◌, pos, sort_by, sort_into,
}
use feishu_super_search.Kernel.Refs.{ObjectRef}
use feishu_super_search.Kernel.Objects.{ContentChunk, Artifact}
use feishu_super_search.Kernel.Projection.{union}
use feishu_super_search.Engine.Fetch.Merge.{
  merge_ref, keep_new, chunk_key, merge_chunks, relation_key, merge_relations, attachment_key,
  merge_attachments, merge_artifact,
}
use feishu_super_search.Engine.Fetch.Merge.Firsts.{HoldsFirst, first_of, merge_artifact-HoldsFirst}

program : Unit {0}
unfolding merge_ref keep_new chunk_key merge_chunks relation_key merge_relations attachment_key
    merge_attachments merge_artifact union sort_by sort_into first_of
program = tt

abbrev ref : ObjectRef
ref = record {
  platform = "feishu";
  scope_key = "tenant";
  kind = "document";
  native_id = "d1";
  canonical_id = "feishu:tenant:document:d1";
  provider_id = "p";
  source = "docs";
  url = "";
}

abbrev chunk : String → String → ContentChunk
chunk id text = record {
  id = id;
  kind = "text";
  text = text;
  start = pos 0;
  end = pos 0;
  timestamp = none;
  metadata = [];
}

abbrev artifact : List ContentChunk → Artifact
artifact chunks = record {
  ref = ref;
  projection = 1;
  metadata = none;
  chunks = chunks;
  summary = none;
  relations = [];
  attachments = [];
  version = "";
  provenance = record {
    provider_id = "p";
    backend = "";
    operation = "";
    retrieved_at = 0;
    source_rank = pos 0;
    raw_ref = none;
  };
}

abbrev earlier : Artifact
earlier = artifact (chunk "1" "draft" ∷ chunk "" "intro" ∷ [])

abbrev later : Artifact
later = artifact (chunk "1" "final" ∷ chunk "" "intro" ∷ chunk "2" "end" ∷ [])

-- The text of a chunk that both have is the earlier one.
merged_chunks :
    (merge_artifact earlier later).chunks
    ≡ chunk "1" "draft" ∷ chunk "" "intro" ∷ chunk "2" "end" ∷ []
unfolding program
merged_chunks = refl

merge_artifact-HoldsFirst_example :
    HoldsFirst chunk_key "1" (earlier.chunks ++ later.chunks) (merge_artifact earlier later).chunks
    × HoldsFirst relation_key "1"
        (earlier.relations ++ later.relations)
        (merge_artifact earlier later).relations
merge_artifact-HoldsFirst_example = merge_artifact-HoldsFirst earlier later "1"
