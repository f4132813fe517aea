-- ===== src/Session.antt =====
-- internal/session/store.go: the record of a session. Its mutex is not modelled: each function
-- here is a critical section of the program.
pub mod Memory
pub mod Get
pub mod Events
pub mod Expiry
pub mod Refinement
pub mod Examples
use feishu_super_search.Prelude.{
  String, ℕ, ◌+◌, ◌-◌, Bool, Option, none, List, [], ◌∷◌, ◌++◌, Dict, insert, length, ltb, eqb,
  ◌==◌, if◌then◌else◌, pos, drop, sort_by, map_option,
}
use feishu_super_search.Kernel.Limits.{BudgetState}
use feishu_super_search.Kernel.Objects.{Candidate, Artifact, Relation}
use feishu_super_search.Kernel.Requests.{SearchRequest}
use feishu_super_search.Kernel.Snapshots.{SourceRun, Continuation, RetrievalEvent, SessionSnapshot}
use feishu_super_search.Fusion.Discoveries.{text_less}

pub record Record : Type 0 where
  pub id : String
  pub scope_key : String
  pub created_at : ℕ
  pub expires_at : ℕ
  pub request : Option SearchRequest
  pub candidates : Dict Candidate
  pub artifacts : Dict Artifact
  pub relations : List Relation
  pub frontiers : Dict Continuation
  pub source_runs : List SourceRun
  pub budget : BudgetState
  pub events : List RetrievalEvent

-- The zero value of a BudgetState.
abbrev pub no_budget_state : BudgetState
no_budget_state = record {
  max_calls = pos 0;
  calls_used = pos 0;
  max_fetches = pos 0;
  fetches_used = pos 0;
  max_expanded = pos 0;
  expanded_used = pos 0;
  max_bytes = pos 0;
  bytes_used = pos 0;
  deadline = 0;
}

-- NewRecord, with the random id and the reading of the clock as arguments.
unfoldable pub new_record : (id : String) (now : ℕ) (scope : String) (ttl : ℕ) → Record
new_record id now scope ttl = record {
  id = id;
  scope_key = scope;
  created_at = now;
  expires_at = now + ttl;
  request = none;
  candidates = [];
  artifacts = [];
  relations = [];
  frontiers = [];
  source_runs = [];
  budget = no_budget_state;
  events = [];
}

unfoldable pub put_candidates : List Candidate → Dict Candidate → Dict Candidate
put_candidates [] m = m
put_candidates (c ∷ cs) m = put_candidates cs (insert c.ref.canonical_id c m)

unfoldable pub put_artifacts : List Artifact → Dict Artifact → Dict Artifact
put_artifacts [] m = m
put_artifacts (a ∷ artifacts) m = put_artifacts artifacts (insert a.ref.canonical_id a m)

unfoldable pub restore : SessionSnapshot → Record
restore s = record {
  id = s.id;
  scope_key = s.scope_key;
  created_at = s.created_at;
  expires_at = s.expires_at;
  request = s.request;
  candidates = put_candidates s.candidates [];
  artifacts = put_artifacts s.artifacts [];
  relations = s.relations;
  frontiers = s.frontiers;
  source_runs = s.source_runs;
  budget = s.budget;
  events = s.events;
}

abbrev pub values {ℓ} : {A : Type ℓ} → Dict A → List A
values [] = []
values ((_, v) ∷ m) = v ∷ values m

-- What the program takes from its platform: `==` and `>` on float64, and CloneJSON of a request.
pub record SnapshotOps : Type 0 where
  pub equal : ℕ → ℕ → Bool
  pub greater : ℕ → ℕ → Bool
  pub clone : SearchRequest → SearchRequest

abbrev pub candidate_less : SnapshotOps → Candidate → Candidate → Bool
candidate_less ops a b =
    if ops.equal a.fused_score b.fused_score
    then text_less a.ref.canonical_id b.ref.canonical_id
    else ops.greater a.fused_score b.fused_score

abbrev pub artifact_less : Artifact → Artifact → Bool
artifact_less a b = text_less a.ref.canonical_id b.ref.canonical_id

-- Record.Snapshot
unfoldable pub snapshot : SnapshotOps → Bool → Record → SessionSnapshot
snapshot ops include_events r = record {
  id = r.id;
  scope_key = r.scope_key;
  created_at = r.created_at;
  expires_at = r.expires_at;
  request = map_option ops.clone r.request;
  candidates = sort_by (candidate_less ops) (values r.candidates);
  artifacts = sort_by artifact_less (values r.artifacts);
  relations = r.relations;
  frontiers = r.frontiers;
  source_runs = r.source_runs;
  budget = r.budget;
  events = if include_events then r.events else [];
}

-- The fields that AddEvent fills in, with the random id and the reading of the clock.
abbrev pub fill_event : (fresh : String) (now : ℕ) → Record → RetrievalEvent → RetrievalEvent
fill_event fresh now r e = record e {
  id = if e.id == "" then fresh else e.id;
  session_id = if e.session_id == "" then r.id else e.session_id;
  time = if eqb e.time 0 then now else e.time;
}

-- `if len(events) > 2000 { events = events[len(events)-2000:] }`
unfoldable pub newest : ℕ → List RetrievalEvent → List RetrievalEvent
newest n events = if ltb n (length events) then drop (length events - n) events else events

-- Record.AddEvent
unfoldable pub add_event : (fresh : String) (now : ℕ) → RetrievalEvent → Record → Record
add_event fresh now e r = record r {
  events = newest 2000 (r.events ++ fill_event fresh now r e ∷ []);
}
