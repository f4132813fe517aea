-- ===== src/Session/Refinement.antt =====
-- The refinement: every schedule of calls on MemoryStore against the store that never forgets.
use mathlib.Core.Path.{subst}
use feishu_super_search.Prelude.{
  ◌∙◌, ap, String, ℕ, ◌<◌, ◌≡◌, refl, sym, true, Option, none, some, List, [], ◌∷◌, ◌++◌, All, Dict,
  lookup, insert, remove, IsMap, insert-IsMap, remove-IsMap, length, get_elem?, set, Result,
  Bool-cases, Option-cases, inl, inr,
}
use feishu_super_search.Kernel.Errors.{ErrorDetail}
use feishu_super_search.Session.{Record, SnapshotOps, new_record}
use feishu_super_search.Session.Memory.{
  MemoryStore, StoreCall, creating, getting, saving, deleting, listing, writing, create, delete,
  has_expired, get, save, sweep, cleanup_expired, list, write, run_store_call, run_store_calls,
}
use feishu_super_search.Session.Get.{get-absent, get-late, get-live}
use feishu_super_search.Session.Expiry.{
  keep_call, keep_calls, view, found, IsQuiet, Agrees, StandsFor, get_elem?-grown,
  get_elem?-written, Agrees-heap, has_expired-later, sweep-IsMap, sweep-Agrees, Agrees-trans,
  Agrees-refl, drop-Agrees, insert-Agrees, remove-Agrees,
}

module _ (ops : SnapshotOps) (t : ℕ) where
  -- One call on both stores.
  abbrev Keeps : ℕ → StoreCall → MemoryStore → Dict ℕ → Type 0
  Keeps now c s m =
      (m' : Dict ℕ) × (keep_call ops now c (record s { records = m })
        ≡ record (run_store_call ops now c s) { records = m' })
      × StandsFor t (run_store_call ops now c s) m'

  creating-Keeps :
      (now : ℕ) (fresh scope : String) (s : MemoryStore) (m : Dict ℕ)
      → StandsFor t s m
      → Keeps now (creating fresh scope) s m
  unfolding keep_call run_store_call create
  creating-Keeps now fresh scope s m h = (
    insert fresh (length s.heap) m,
    refl,
    record {
      is_map = insert-IsMap fresh (length s.heap) s.records h.is_map;
      agrees = λ id.
          insert-Agrees t (s.heap ++ new_record fresh now scope s.ttl ∷ []) fresh id (length s.heap)
            s.records m
            (Agrees-heap t s.heap (s.heap ++ new_record fresh now scope s.ttl ∷ [])
              (lookup id s.records) (lookup id m)
              (λ p. get_elem?-grown s.heap (new_record fresh now scope s.ttl) t p) (h.agrees id));
    },
  )

  -- Get leaves all but the map as it was.
  from_get :
      (now : ℕ) (id : String) (s : MemoryStore) (m : Dict ℕ)
      (outcome : MemoryStore × Result ErrorDetail ℕ)
      → get now id s ≡ outcome
      → outcome.0.heap ≡ s.heap
      → outcome.0.ttl ≡ s.ttl
      → StandsFor t outcome.0 m
      → Keeps now (getting id) s m
  unfolding keep_call run_store_call
  from_get now id s m outcome same heap ttl h = (
    m,
    subst
        (λ (x : MemoryStore × Result ErrorDetail ℕ).
          record s { records = m } ≡ record x.0 { records = m })
        (sym same) (rw (heap, ttl) refl),
    subst (λ (x : MemoryStore × Result ErrorDetail ℕ). StandsFor t x.0 m) (sym same) h,
  )

  getting-Keeps :
      (now : ℕ) (id : String) (s : MemoryStore) (m : Dict ℕ)
      → now < t
      → StandsFor t s m
      → Keeps now (getting id) s m
  unfolding delete
  getting-Keeps now id s m lt h = elim (Option-cases (lookup id s.records)) [
    | inl absent ↦ from_get now id s m _ (get-absent now id s absent) refl refl h
    | inr (p, there) ↦ elim (Bool-cases (has_expired now (get_elem? s.heap p))) [
      | inl late ↦ from_get now id s m _ (get-late now id s p there late) refl refl record {
        is_map = remove-IsMap id s.records h.is_map;
        agrees = λ j.
            Agrees-trans t s.heap (lookup j (remove id s.records)) (lookup j s.records) (lookup j m)
              (drop-Agrees t s.heap id j s.records p there
                (has_expired-later now t (get_elem? s.heap p) lt late))
              (h.agrees j);
      }
      | inr live ↦ from_get now id s m _ (get-live now id s p there live) refl refl h
    ]
  ]

  saving-Keeps :
      (now : ℕ) (p : Option ℕ) (s : MemoryStore) (m : Dict ℕ)
      → StandsFor t s m
      → Keeps now (saving p) s m
  unfolding keep_call run_store_call save
  saving-Keeps now none s m h = (m, refl, h)
  saving-Keeps now (some p) s m h = elim (Option-cases (get_elem? s.heap p)) [
    | inl absent ↦ (m, rw absent refl, rw absent h)
    | inr (r, there) ↦ (
      insert r.id p m,
      rw there refl,
      rw there record {
        is_map = insert-IsMap r.id p s.records h.is_map;
        agrees = λ j. insert-Agrees t s.heap r.id j p s.records m (h.agrees j);
      },
    )
  ]

  listing-Keeps :
      (now : ℕ) (s : MemoryStore) (m : Dict ℕ) → now < t → StandsFor t s m → Keeps now listing s m
  unfolding keep_call run_store_call list cleanup_expired
  listing-Keeps now s m lt h = (
    m,
    refl,
    record {
      is_map = sweep-IsMap s.heap now s.records h.is_map;
      agrees = λ j.
          Agrees-trans t s.heap (lookup j (sweep s.heap now s.records)) (lookup j s.records)
            (lookup j m) (sweep-Agrees s.heap now t j s.records lt h.is_map) (h.agrees j);
    },
  )

  deleting-Keeps :
      (now : ℕ) (id : String) (s : MemoryStore) (m : Dict ℕ)
      → StandsFor t s m
      → Keeps now (deleting id) s m
  unfolding keep_call run_store_call delete
  deleting-Keeps now id s m h = (
    remove id m,
    refl,
    record {
      is_map = remove-IsMap id s.records h.is_map;
      agrees = λ j. remove-Agrees t s.heap id j s.records m (h.agrees j);
    },
  )

  writing-Keeps :
      (now p : ℕ) (f : Record → Record) (s : MemoryStore) (m : Dict ℕ)
      → IsQuiet (writing p f)
      → StandsFor t s m
      → Keeps now (writing p f) s m
  unfolding keep_call run_store_call write
  writing-Keeps now p f s m quiet h = elim (Option-cases (get_elem? s.heap p)) [
    | inl absent ↦ (m, rw (write, absent) refl, rw (write, absent) h)
    | inr (r, there) ↦ (
      m,
      rw (write, there) refl,
      rw (write, there)
          record {
            is_map = h.is_map;
            agrees = λ j.
                Agrees-heap t s.heap (set s.heap p (f r)) (lookup j s.records) (lookup j m)
                  (λ q late. get_elem?-written s.heap p r (f r) t q there (quiet r).1 ∙ late)
                  (h.agrees j);
          },
    )
  ]

  call-Keeps :
      (now : ℕ) (c : StoreCall) (s : MemoryStore) (m : Dict ℕ)
      → now < t
      → IsQuiet c
      → StandsFor t s m
      → Keeps now c s m
  call-Keeps now (creating fresh scope) s m lt quiet h = creating-Keeps now fresh scope s m h
  call-Keeps now (getting id) s m lt quiet h = getting-Keeps now id s m lt h
  call-Keeps now (saving p) s m lt quiet h = saving-Keeps now p s m h
  call-Keeps now (deleting id) s m lt quiet h = deleting-Keeps now id s m h
  call-Keeps now listing s m lt quiet h = listing-Keeps now s m lt h
  call-Keeps now (writing p f) s m lt quiet h = writing-Keeps now p f s m quiet h

  calls-Keep :
      (calls : List (ℕ × StoreCall)) (s : MemoryStore) (m : Dict ℕ)
      → All (λ c. (c.0 < t) × IsQuiet c.1) calls
      → StandsFor t s m
      → (m' : Dict ℕ) × (keep_calls ops calls (record s { records = m })
          ≡ record (run_store_calls ops calls s) { records = m' })
        × StandsFor t (run_store_calls ops calls s) m'
  unfolding keep_calls run_store_calls
  calls-Keep [] s m fair h = (m, refl, h)
  calls-Keep ((now, c) ∷ calls) s m fair h =
      let (m1, same, stands) = call-Keeps now c s m fair.0.0 fair.0.1 h in
      let (m2, rest, last) = calls-Keep calls (run_store_call ops now c s) m1 fair.1 stands in
      (m2, ap (keep_calls ops calls) same ∙ rest, last)

  get-view :
      (id : String) (s : MemoryStore) (m : Dict ℕ)
      → Agrees t s.heap (lookup id s.records) (lookup id m)
      → found (get t id s).1 ≡ view t id (record s { records = m })
  unfolding view
  get-view id s m h = elim (Option-cases (lookup id s.records)) [
    | inl absent ↦ elim (Option-cases (lookup id m)) [
      | inl empty ↦ rw (get-absent t id s absent, view, empty) refl
      | inr (q, there) ↦ rw (get-absent t id s absent, view, there, late_at absent there h) refl
    ]
    | inr (p, here) ↦ elim (Option-cases (lookup id m)) [
      | inl lost ↦ elim (rw here at (rw lost at h)) [ ]
      | inr (q, there) ↦ elim (Bool-cases (has_expired t (get_elem? s.heap p))) [
        | inl late ↦
            rw (get-late t id s p here late, view, there, ← same_at here there h, late) refl
        | inr live ↦
            rw (get-live t id s p here live, view, there, ← same_at here there h, live) refl
      ]
    ]
  ]
    where
      late_at :
          {o k : Option ℕ} {q : ℕ}
          → o ≡ none
          → k ≡ some q
          → Agrees t s.heap o k
          → has_expired t (get_elem? s.heap q) ≡ true
      late_at {o} {k} a b g =
          subst (λ (x : Option ℕ). Agrees t s.heap none x) b
            (subst (λ (x : Option ℕ). Agrees t s.heap x k) a g)

      same_at : {o k : Option ℕ} {p q : ℕ} → o ≡ some p → k ≡ some q → Agrees t s.heap o k → p ≡ q
      same_at {o} {k} {p} a b g =
          subst (λ (x : Option ℕ). Agrees t s.heap (some p) x) b
            (subst (λ (x : Option ℕ). Agrees t s.heap x k) a g)

  -- On a store whose map has each id once: after any schedule of calls whose clock readings are
  -- all earlier than `t`, in which clients change neither the id nor the expiry of a record,
  -- Get at `t` finds what a store that never drops an expired session would hold and show as
  -- not expired.
  pub get-run :
      (calls : List (ℕ × StoreCall)) (s : MemoryStore) (id : String)
      → IsMap s.records
      → All (λ c. (c.0 < t) × IsQuiet c.1) calls
      → found (get t id (run_store_calls ops calls s)).1 ≡ view t id (keep_calls ops calls s)
  get-run calls s id is_map fair =
      let start : StandsFor t s s.records = record {
        is_map = is_map;
        agrees = λ j. Agrees-refl t s.heap (lookup j s.records);
      } in
      let (m, same, stands) = calls-Keep calls s s.records fair start in
      get-view id (run_store_calls ops calls s) m (stands.agrees id) ∙ sym (ap (view t id) same)
