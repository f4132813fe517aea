-- ===== src/Engine/Access/Isolation.antt =====
-- Sessions of one identity scope are kept from the callers of another.
use mathlib.Core.Path.{subst}
use feishu_super_search.Prelude.{
  ◌≢◌, String, ℕ, ◌≡◌, refl, Bool, true, false, not, ◌||◌, some, List, [], ◌∷◌, All, lookup,
  lookup-remove, length, get_elem?, get_elem?-snoc, select, eqb, ◌==◌, eq_iff, Result, ok, err,
  Option-cases, Bool-cases, inl, inr, arith,
}
use feishu_super_search.Kernel.Errors.{ErrorDetail}
use feishu_super_search.Kernel.Refs.{Identity, normalized}
use feishu_super_search.Kernel.Snapshots.{SessionSnapshot}
use feishu_super_search.Session.{SnapshotOps, new_record}
use feishu_super_search.Session.Memory.{MemoryStore, create, get, delete, list, has_expired}
use feishu_super_search.Session.Get.{get-absent, get-late, get-live}
use feishu_super_search.Engine.Access.{
  scope_at, check_scope, session_for_identity, get_or_create_session, sessions, delete_session,
}

-- The pointer, if there is one, is that of a session of the scope.
abbrev pub IsOwn : String → MemoryStore × Result ErrorDetail ℕ → Type 0
IsOwn scope (s, err e) = Unit
IsOwn scope (s, ok p) = scope_at (get_elem? s.heap p) ≡ scope

module _ (digest : String → String) (i : Identity) where
  abbrev pub caller : String
  caller = (normalized digest i).scope_key

  -- The test of a session that the store hands out.
  abbrev refuses_scope : String → Bool
  refuses_scope scope = scope == "" || not (scope == caller)

  check_scope-IsOwn :
      (r : MemoryStore × Result ErrorDetail ℕ) → IsOwn caller (check_scope digest i r)
  check_scope-IsOwn (s, err e) = tt
  check_scope-IsOwn (s, ok p) = elim (Bool-cases (refuses_scope (scope_at (get_elem? s.heap p)))) [
    | inl refused ↦ rw refused tt
    | inr own ↦ rw own (ground (arith, own, eq_iff (scope_at (get_elem? s.heap p)) caller))
  ]

  select-All :
      (snaps : List SessionSnapshot)
      → All (λ snap. snap.scope_key ≡ caller) (select (λ snap. snap.scope_key == caller) snaps)
  unfolding select
  select-All [] = tt
  select-All (snap ∷ snaps) = elim (Bool-cases (snap.scope_key == caller)) [
    | inl own ↦ rw own ((eq_iff snap.scope_key caller).0 own, select-All snaps)
    | inr other ↦ rw other (select-All snaps)
  ]

  pub normalized_twice : normalized digest (normalized digest i) ≡ normalized digest i
  unfolding normalized
  normalized_twice = ground arith

module _ (digest : String → String) (i : Identity) where
  get_or_create_session-IsOwn :
      (fresh : String) (now : ℕ) (id : String) (s : MemoryStore)
      → IsOwn (caller digest i) (get_or_create_session digest fresh now id i s)
  unfolding get_or_create_session session_for_identity create new_record
  get_or_create_session-IsOwn fresh now id s = elim (Bool-cases (id == "")) [
    | inl new ↦ rw new (
        let self : eqb (length s.heap) (length s.heap) ≡ true = ground arith in
        rw
          (
            get_elem?-snoc s.heap (new_record fresh now (caller digest i) s.ttl) (length s.heap),
            self,
          )
          refl)
    | inr old ↦ rw old (
        subst
          (λ (x : Identity).
            IsOwn x.scope_key (session_for_identity digest now id (normalized digest i) s))
          (normalized_twice digest i)
          (check_scope-IsOwn digest (normalized digest i) (get now id s)))
  ]

  -- The session that a request creates or resumes has the scope of the caller, and so does
  -- every session that Sessions lists.
  pub sessions-IsOwn :
      (ops : SnapshotOps) (now : ℕ) (fresh id : String) (s : MemoryStore)
      → IsOwn (caller digest i) (get_or_create_session digest fresh now id i s)
        × All (λ snap. snap.scope_key ≡ caller digest i) (sessions digest ops now i s).1
  unfolding sessions
  sessions-IsOwn ops now fresh id s =
      (get_or_create_session-IsOwn fresh now id s, select-All digest i (list ops now s).1)

  -- The session `j` of someone else stays in the map.
  module _ (now : ℕ) (id j : String) (s : MemoryStore) (p : ℕ) (held : lookup j s.records ≡ some p)
      (live : has_expired now (get_elem? s.heap p) ≡ false)
      (other : scope_at (get_elem? s.heap p) ≢ caller digest i) where
    delete-held : (id == j) ≡ false → lookup j (delete id s).records ≡ some p
    unfolding delete
    delete-held apart = rw (lookup-remove id j s.records, apart) held

    -- A session that is found expired, or that is the caller's, is another one.
    late_apart :
        (q : ℕ)
        → lookup id s.records ≡ some q
        → has_expired now (get_elem? s.heap q) ≡ true
        → (id == j) ≡ false
    late_apart q at_id late = elim (Bool-cases (id == j)) [
      | inr apart ↦ apart
      | inl same ↦ absurd (cc (held, at_id, (eq_iff id j).0 same, live, late))
    ]

    own_apart :
        (q : ℕ)
        → lookup id s.records ≡ some q
        → scope_at (get_elem? s.heap q) ≡ caller digest i
        → (id == j) ≡ false
    own_apart q at_id own = elim (Bool-cases (id == j)) [
      | inr apart ↦ apart
      | inl same ↦
          let e : q ≡ p = cc (held, at_id, (eq_iff id j).0 same) in
          absurd (other (subst (λ (x : ℕ). scope_at (get_elem? s.heap x) ≡ caller digest i) e own))
    ]

    -- Whatever id is passed to it, DeleteSession leaves in the store every session that has not
    -- expired and whose scope is not that of the caller.
    pub delete_session-others : lookup j (delete_session digest now id i s).0.records ≡ some p
    unfolding delete_session session_for_identity
    delete_session-others = elim (Option-cases (lookup id s.records)) [
      | inl absent ↦ rw (get-absent now id s absent) held
      | inr (q, at_id) ↦ elim (Bool-cases (has_expired now (get_elem? s.heap q))) [
        | inl late ↦ rw (get-late now id s q at_id late) (delete-held (late_apart q at_id late))
        | inr fine ↦
            let scope = scope_at (get_elem? s.heap q) in
            elim (Bool-cases (refuses_scope digest i scope)) [
              | inl refused ↦ rw (get-live now id s q at_id fine, refused) held
              | inr own ↦
                  rw (get-live now id s q at_id fine, own)
                    (delete-held
                      (own_apart q at_id (ground (arith, own, eq_iff scope (caller digest i)))))
            ]
      ]
    ]
