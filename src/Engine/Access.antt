-- ===== src/Engine/Access.antt =====
-- internal/engine/engine.go: which provider and which session a request may use. The session store
-- is the one in memory; the digest of Identity.Normalized is a parameter.
pub mod Isolation
use feishu_super_search.Prelude.{
  String, ℕ, Bool, true, false, not, ◌||◌, Option, none, some, List, [], ◌∷◌, get_elem?, select,
  sort_by, contains, ◌==◌, if◌then◌else◌, Result, ok, err,
}
use feishu_super_search.Kernel.Errors.{
  ErrorType, ErrorDetail, new_error, missing_scope, deadline_exceeded, budget_exhausted,
  unsupported, identity_required,
}
use feishu_super_search.Kernel.Refs.{SourceId, Identity, normalized}
use feishu_super_search.Kernel.Provider.{ProviderDescriptor, Operation, supports}
use feishu_super_search.Kernel.Snapshots.{SourceStatus, SessionSnapshot}
use feishu_super_search.Fusion.Discoveries.{text_less}
use feishu_super_search.Session.{Record, SnapshotOps}
use feishu_super_search.Session.Memory.{MemoryStore, create, get, delete, list}

-- statusForError, of the type of the error.
unfoldable pub status_for_error : ErrorType → SourceStatus
status_for_error missing_scope = SourceStatus.missing_scope
status_for_error deadline_exceeded = SourceStatus.deadline_exceeded
status_for_error budget_exhausted = SourceStatus.budget_exhausted
status_for_error unsupported = SourceStatus.unavailable
status_for_error identity_required = SourceStatus.unavailable
status_for_error _ = SourceStatus.failed

abbrev pub no_texts : List String → Bool
no_texts [] = true
no_texts (_ ∷ _) = false

unfoldable pub compatible_identity : ProviderDescriptor → Identity → Bool
compatible_identity d i =
    i.mode == "auto" || no_texts d.required_identity || contains i.mode d.required_identity

-- The message is left out: it only quotes the operation or the mode.
abbrev pub provider_error : ProviderDescriptor → ErrorType → ErrorDetail
provider_error d kind = record (new_error kind "") { provider_id = d.id; source = d.source }

-- validateProviderOperation: `none` is the nil error.
unfoldable pub validate_provider_operation :
    ProviderDescriptor → Operation → Identity → Option ErrorDetail
validate_provider_operation d op i =
    if not (supports d op)
    then some (provider_error d unsupported)
    else if not (compatible_identity d i)
    then some (provider_error d identity_required)
    else none

-- The loop of orderedSources.
unfoldable pub distinct_sources : List SourceId → (seen : List SourceId) → List SourceId
distinct_sources [] seen = []
distinct_sources (s ∷ rest) seen =
    let skipped = distinct_sources rest seen in
    let taken_in = s ∷ distinct_sources rest (s ∷ seen) in
    if s == "" || contains s seen then skipped else taken_in

unfoldable pub ordered_sources : List SourceId → List SourceId
ordered_sources sources = sort_by text_less (distinct_sources sources [])

abbrev pub other_scope : ErrorDetail
other_scope = new_error identity_required "session belongs to a different identity scope"

abbrev pub scope_at : Option Record → String
scope_at none = ""
scope_at (some r) = r.scope_key

module _ (digest : String → String) where
  abbrev pub check_scope :
      Identity → MemoryStore × Result ErrorDetail ℕ → MemoryStore × Result ErrorDetail ℕ
  check_scope i (s, err e) = (s, err e)
  check_scope i (s, ok p) =
      let scope = scope_at (get_elem? s.heap p) in
      if scope == "" || not (scope == (normalized digest i).scope_key)
      then (s, err other_scope)
      else (s, ok p)

  unfoldable pub session_for_identity :
      (now : ℕ) → String → Identity → MemoryStore → MemoryStore × Result ErrorDetail ℕ
  session_for_identity now id i s = check_scope i (get now id s)

  abbrev pub created : MemoryStore × ℕ → MemoryStore × Result ErrorDetail ℕ
  created (s, p) = (s, ok p)

  -- getOrCreateSession, with the id that a new session is given.
  unfoldable pub get_or_create_session :
      (fresh : String) (now : ℕ)
      → String
      → Identity
      → MemoryStore
      → MemoryStore × Result ErrorDetail ℕ
  get_or_create_session fresh now id i s =
      let i' = normalized digest i in
      if id == ""
      then created (create fresh now i'.scope_key s)
      else session_for_identity now id i' s

  abbrev pub in_scope :
      Identity → MemoryStore × List SessionSnapshot → MemoryStore × List SessionSnapshot
  in_scope i (s, all) = (s, select (λ snap. snap.scope_key == (normalized digest i).scope_key) all)

  -- Engine.Sessions
  unfoldable pub sessions :
      SnapshotOps → (now : ℕ) → Identity → MemoryStore → MemoryStore × List SessionSnapshot
  sessions ops now i s = in_scope i (list ops now s)

  abbrev pub then_delete :
      String → MemoryStore × Result ErrorDetail ℕ → MemoryStore × Option ErrorDetail
  then_delete id (s, err e) = (s, some e)
  then_delete id (s, ok p) = (delete id s, none)

  -- Engine.DeleteSession
  unfoldable pub delete_session :
      (now : ℕ) → String → Identity → MemoryStore → MemoryStore × Option ErrorDetail
  delete_session now id i s = then_delete id (session_for_identity now id i s)
