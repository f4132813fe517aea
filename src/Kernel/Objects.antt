-- ===== src/Kernel/Objects.antt =====
-- kernel/types.go: candidates, artifacts and relations. A float64 stands as its bit pattern, a time
-- as its nanoseconds, a set of projections as its bits, and a free-form JSON value as its text.
use feishu_super_search.Prelude.{String, ℕ, ℤ, List, Option, Dict}
use feishu_super_search.Kernel.Refs.{SourceId, ProviderId, ObjectKind, ObjectRef}

pub record Actor : Type 0 where
  pub id : String
  pub name : String
  pub email : String
  pub avatar : String

pub record Container : Type 0 where
  pub kind : ObjectKind
  pub id : String
  pub title : String
  pub url : String

pub record Discovery : Type 0 where
  pub provider_id : ProviderId
  pub source : SourceId
  pub rank : ℤ
  pub score : Option ℕ
  pub cursor : String

pub record RelationHint : Type 0 where
  pub kind : String
  pub target_kind : ObjectKind
  pub target_id : String

pub record Provenance : Type 0 where
  pub provider_id : ProviderId
  pub backend : String
  pub operation : String
  pub retrieved_at : ℕ
  pub source_rank : ℤ
  pub raw_ref : Option String

pub record Candidate : Type 0 where
  pub ref : ObjectRef
  pub source : SourceId
  pub kind : ObjectKind
  pub title : String
  pub snippet : String
  pub url : String
  pub timestamp : Option ℕ
  pub actors : List Actor
  pub container : Option Container
  pub native_rank : ℤ
  pub native_score : Option ℕ
  pub fused_score : ℕ
  pub projection : ℕ
  pub available_projection : ℕ
  pub relation_hints : List RelationHint
  pub discovered_by : List Discovery
  pub provenance : Provenance

pub record ContentChunk : Type 0 where
  pub id : String
  pub kind : String
  pub text : String
  pub start : ℤ
  pub end : ℤ
  pub timestamp : Option ℕ
  pub metadata : Dict String

pub record NativeSummary : Type 0 where
  pub text : String
  pub todos : List (Dict String)
  pub chapters : List (Dict String)
  pub keywords : List String

pub record Attachment : Type 0 where
  pub id : String
  pub name : String
  pub mime_type : String
  pub size : ℤ
  pub url : String
  pub local_path : String

pub record Relation : Type 0 where
  pub from : ObjectRef
  pub kind : String
  pub to : ObjectRef
  pub confidence : ℕ
  pub provenance : Provenance

pub record Artifact : Type 0 where
  pub ref : ObjectRef
  pub projection : ℕ
  pub metadata : Option (Dict String)
  pub chunks : List ContentChunk
  pub summary : Option NativeSummary
  pub relations : List Relation
  pub attachments : List Attachment
  pub version : String
  pub provenance : Provenance
