-- ===== src/Kernel/Snapshots.antt =====
-- kernel/types.go and kernel/event.go: what is recorded of a search, and the snapshots handed out.
use feishu_super_search.Prelude.{String, ℕ, ℤ, Bool, Option, List, Dict}
use feishu_super_search.Kernel.Refs.{SourceId, ProviderId, Identity, ObjectRef}
use feishu_super_search.Kernel.Limits.{BudgetState}
use feishu_super_search.Kernel.Errors.{ErrorDetail}
use feishu_super_search.Kernel.Objects.{Candidate, Artifact, Relation}
use feishu_super_search.Kernel.Requests.{SearchRequest}

-- `unset` is the empty text, which the zero value of a run holds.
pub data SourceStatus : Type 0 where
  unset ok partial empty unavailable missing_scope failed : SourceStatus
  deadline_exceeded budget_exhausted : SourceStatus

pub record SourceRun : Type 0 where
  pub provider_id : ProviderId
  pub source : SourceId
  pub status : SourceStatus
  pub pages : ℕ
  pub hit_count : ℕ
  pub elapsed_ms : ℤ
  pub error : Option ErrorDetail

pub record Continuation : Type 0 where
  pub provider_id : ProviderId
  pub source : SourceId
  pub cursor : String
  pub has_more : Bool
  pub pages_fetched : ℕ

-- `payload` is the free-form `Data`, as its text.
pub record RetrievalEvent : Type 0 where
  pub id : String
  pub session_id : String
  pub kind : String
  pub time : ℕ
  pub node_id : String
  pub source : SourceId
  pub payload : String

pub record SearchStats : Type 0 where
  pub raw_candidates : ℕ
  pub unique_candidates : ℕ
  pub returned : ℕ
  pub sources_completed : ℕ
  pub sources_failed : ℕ
  pub elapsed_ms : ℤ

pub record SearchSnapshot : Type 0 where
  pub session_id : String
  pub query : String
  pub candidates : List Candidate
  pub sources : List SourceRun
  pub continuations : List Continuation
  pub partial : Bool
  pub budget : BudgetState
  pub stats : SearchStats

pub record ContinueRequest : Type 0 where
  pub session_id : String
  pub sources : List SourceId
  pub max_additional_pages : ℤ
  pub identity : Identity

pub record ArtifactResult : Type 0 where
  pub ref : ObjectRef
  pub artifact : Option Artifact
  pub error : Option ErrorDetail
  pub cached : Bool
  pub shared : Bool

pub record QuerySnapshot : Type 0 where
  pub session_id : String
  pub source : SourceId
  pub candidates : List Candidate
  pub continuation : Option Continuation
  pub source_run : SourceRun
  pub budget : BudgetState

pub record ArtifactBatch : Type 0 where
  pub session_id : String
  pub items : List ArtifactResult
  pub partial : Bool
  pub budget : BudgetState

pub record RelationBatch : Type 0 where
  pub session_id : String
  pub relations : List Relation
  pub partial : Bool
  pub error : Option ErrorDetail
  pub budget : BudgetState

pub record SessionSnapshot : Type 0 where
  pub id : String
  pub scope_key : String
  pub created_at : ℕ
  pub expires_at : ℕ
  pub request : Option SearchRequest
  pub candidates : List Candidate
  pub artifacts : List Artifact
  pub relations : List Relation
  pub frontiers : Dict Continuation
  pub source_runs : List SourceRun
  pub budget : BudgetState
  pub events : List RetrievalEvent
