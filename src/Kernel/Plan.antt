-- ===== src/Kernel/Plan.antt =====
-- kernel/plan.go: the retrieval plan, its nodes and their states.
use feishu_super_search.Prelude.{String, ℕ, ℤ, Bool, List, Option, Dict}
use feishu_super_search.Kernel.Errors.{ErrorDetail}
use feishu_super_search.Kernel.Refs.{Identity, ObjectRef}
use feishu_super_search.Kernel.Objects.{Candidate, Artifact, Relation}
use feishu_super_search.Kernel.Limits.{SearchBudget, BudgetState}

pub data PlanOp : Type 0 where
  resolve search query fetch expand merge dedup rank limit project map_fetch : PlanOp
  other : String → PlanOp

pub data NodeState : Type 0 where
  planned blocked ready running succeeded partial empty retry_wait failed skipped cancelled :
      NodeState

pub record RetryPolicy : Type 0 where
  pub max_attempts : ℤ
  pub backoff_ms : ℤ
  pub max_backoff_ms : ℤ

-- `priority` is the bit pattern of a float64; `request` is the raw JSON text.
pub record PlanNode : Type 0 where
  pub id : String
  pub op : PlanOp
  pub depends_on : List String
  pub request : String
  pub priority : ℕ
  pub optional : Bool
  pub max_items : ℤ
  pub retry : RetryPolicy

-- The identity is that of the caller; `metadata` is left out, since no code reads it.
pub record RetrievalPlan : Type 0 where
  pub version : String
  pub session_id : String
  pub identity : Identity
  pub budget : SearchBudget
  pub nodes : List PlanNode
  pub output : List String

-- `value` holds the references of a resolve node, the only value that the executor stores.
pub record NodeResult : Type 0 where
  pub node_id : String
  pub state : NodeState
  pub attempts : ℕ
  pub candidates : List Candidate
  pub artifacts : List Artifact
  pub relations : List Relation
  pub value : Option (List ObjectRef)
  pub error : Option ErrorDetail

pub record PlanResult : Type 0 where
  pub session_id : String
  pub nodes : Dict NodeResult
  pub output : Dict NodeResult
  pub partial : Bool
  pub budget : BudgetState
