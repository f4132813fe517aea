-- ===== src/Session/Expiry.antt =====
-- MemoryStore against a store that never forgets: that it drops expired sessions cannot be seen.
use mathlib.Core.Path.{subst}
use feishu_super_search.Prelude.{
  ◌∙◌, String, ℕ, zero, suc, ◌<◌, ◌≡◌, refl, true, Option, none, some, List, [], ◌∷◌, ◌++◌, Dict,
  lookup, insert, remove, lookup-insert, lookup-remove, IsMap, get_elem?, set, if◌then◌else◌, ◌==◌,
  Result, ok, err, eq_iff, Bool-cases, inl, inr, arith,
}
use feishu_super_search.Session.{Record, SnapshotOps}
use feishu_super_search.Session.Memory.{
  MemoryStore, StoreCall, creating, getting, saving, deleting, listing, writing, create, delete,
  has_expired, is_stale, save, sweep, write,
}

-- The same calls, where no session is removed unless a client deletes it.
unfoldable pub keep_call : SnapshotOps → ℕ → StoreCall → MemoryStore → MemoryStore
keep_call ops now (getting id) s = s
keep_call ops now listing s = s
keep_call ops now (creating fresh scope) s = (create fresh now scope s).0
keep_call ops now (saving p) s = (save p s).0
keep_call ops now (deleting id) s = delete id s
keep_call ops now (writing p f) s = write p f s

unfoldable pub keep_calls : SnapshotOps → List (ℕ × StoreCall) → MemoryStore → MemoryStore
keep_calls ops [] s = s
keep_calls ops ((now, c) ∷ calls) s = keep_calls ops calls (keep_call ops now c s)

-- What such a store holds under an id, if it has not expired.
unfoldable pub view : ℕ → String → MemoryStore → Option ℕ
view t id s = elim (lookup id s.records) [
  | none ↦ none
  | some p ↦ if has_expired t (get_elem? s.heap p) then none else some p
]

abbrev pub found {ℓ} : {E A : Type ℓ} → Result E A → Option A
found (ok a) = some a
found (err e) = none

-- A client changes neither the id nor the expiry of a record.
abbrev pub IsQuiet : StoreCall → Type 0
IsQuiet (writing p f) = (r : Record) → ((f r).id ≡ r.id) × ((f r).expires_at ≡ r.expires_at)
IsQuiet _ = Unit

-- Under an id, the one store has what the other has, unless that expired before `t`.
abbrev pub Agrees : ℕ → List Record → Option ℕ → Option ℕ → Type 0
Agrees t heap none none = Unit
Agrees t heap (some p) none = ⊥
Agrees t heap (some p) (some q) = p ≡ q
Agrees t heap none (some q) = has_expired t (get_elem? heap q) ≡ true

-- The store `s` stands for the one that holds `m` on the same heap.
pub record StandsFor (t : ℕ) (s : MemoryStore) (m : Dict ℕ) : Type 0 where
  pub is_map : IsMap s.records
  pub agrees : (id : String) → Agrees t s.heap (lookup id s.records) (lookup id m)

pub get_elem?-grown :
    (heap : List Record) (r : Record) (t p : ℕ)
    → has_expired t (get_elem? heap p) ≡ true
    → has_expired t (get_elem? (heap ++ r ∷ []) p) ≡ true
get_elem?-grown [] r t p h = cc
get_elem?-grown (x ∷ heap) r t zero h = h
get_elem?-grown (x ∷ heap) r t (suc p) h = get_elem?-grown heap r t p h

pub get_elem?-written :
    (heap : List Record) (i : ℕ) (old new : Record) (t p : ℕ)
    → get_elem? heap i ≡ some old
    → new.expires_at ≡ old.expires_at
    → has_expired t (get_elem? (set heap i new) p) ≡ has_expired t (get_elem? heap p)
get_elem?-written [] i old new t p h e = refl
get_elem?-written (x ∷ heap) zero old new t zero h e = ground (arith, h, e)
get_elem?-written (x ∷ heap) zero old new t (suc p) h e = refl
get_elem?-written (x ∷ heap) (suc i) old new t zero h e = refl
get_elem?-written (x ∷ heap) (suc i) old new t (suc p) h e =
    get_elem?-written heap i old new t p h e

pub Agrees-heap :
    (t : ℕ) (heap heap' : List Record) (o k : Option ℕ)
    → ((p : ℕ) → has_expired t (get_elem? heap p) ≡ true → has_expired t (get_elem? heap' p) ≡ true)
    → Agrees t heap o k
    → Agrees t heap' o k
Agrees-heap t heap heap' none none f h = tt
Agrees-heap t heap heap' (some p) none f h = h
Agrees-heap t heap heap' (some p) (some q) f h = h
Agrees-heap t heap heap' none (some q) f h = f q h

-- What the test at an earlier time finds expired, the later one does.
pub has_expired-later :
    (now t : ℕ) (r : Option Record) → now < t → has_expired now r ≡ true → has_expired t r ≡ true
has_expired-later now t none lt h = h
has_expired-later now t (some r) lt h = ground arith

is_stale-later :
    (now t : ℕ) (r : Option Record) → now < t → is_stale now r ≡ true → has_expired t r ≡ true
is_stale-later now t none lt h = h
is_stale-later now t (some r) lt h = ground arith

sweep-absent :
    (heap : List Record) (now : ℕ) (id : String) (m : Dict ℕ)
    → lookup id m ≡ none
    → lookup id (sweep heap now m) ≡ none
unfolding sweep lookup
sweep-absent heap now id [] h = h
sweep-absent heap now id ((j, p) ∷ m) h = ground (arith, sweep-absent heap now id m)

pub sweep-IsMap : (heap : List Record) (now : ℕ) (m : Dict ℕ) → IsMap m → IsMap (sweep heap now m)
unfolding sweep
sweep-IsMap heap now [] h = tt
sweep-IsMap heap now ((j, p) ∷ m) h =
    ground (arith, sweep-IsMap heap now m, sweep-absent heap now j m)

-- An entry that is swept away has expired.
pub sweep-Agrees :
    (heap : List Record) (now t : ℕ) (id : String) (m : Dict ℕ)
    → now < t
    → IsMap m
    → Agrees t heap (lookup id (sweep heap now m)) (lookup id m)
unfolding sweep lookup
sweep-Agrees heap now t id [] lt h = tt
sweep-Agrees heap now t id ((j, p) ∷ m) lt h = elim (Bool-cases (is_stale now (get_elem? heap p))) [
  | inl stale ↦ elim (Bool-cases (j == id)) [
    | inl here ↦
        let gone : lookup id (sweep heap now m) ≡ none =
          sweep-absent heap now id m
            (subst (λ (i : String). lookup i m ≡ none) ((eq_iff j id).0 here) h.0) in
        rw (stale, here, gone) (is_stale-later now t (get_elem? heap p) lt stale)
    | inr apart ↦ rw (stale, apart) (sweep-Agrees heap now t id m lt h.1)
  ]
  | inr fresh ↦ elim (Bool-cases (j == id)) [
    | inl here ↦ rw (fresh, lookup, here) refl
    | inr apart ↦ rw (fresh, lookup, apart) (sweep-Agrees heap now t id m lt h.1)
  ]
]

pub Agrees-trans :
    (t : ℕ) (heap : List Record) (o m k : Option ℕ)
    → Agrees t heap o m
    → Agrees t heap m k
    → Agrees t heap o k
Agrees-trans t heap none none k h g = g
Agrees-trans t heap (some p) none k h g = elim h [ ]
Agrees-trans t heap o (some p) none h g = elim g [ ]
Agrees-trans t heap none (some p) (some q) h g =
    subst (λ (i : ℕ). has_expired t (get_elem? heap i) ≡ true) g h
Agrees-trans t heap (some o) (some p) (some q) h g = h ∙ g

pub Agrees-refl : (t : ℕ) (heap : List Record) (o : Option ℕ) → Agrees t heap o o
Agrees-refl t heap none = tt
Agrees-refl t heap (some p) = refl

-- The session that Get finds expired may go.
pub drop-Agrees :
    (t : ℕ) (heap : List Record) (id j : String) (m : Dict ℕ) (p : ℕ)
    → lookup id m ≡ some p
    → has_expired t (get_elem? heap p) ≡ true
    → Agrees t heap (lookup j (remove id m)) (lookup j m)
drop-Agrees t heap id j m p h late = elim (Bool-cases (id == j)) [
  | inl here ↦
      let e : lookup j m ≡ some p =
        subst (λ (i : String). lookup i m ≡ some p) ((eq_iff id j).0 here) h in
      rw (lookup-remove id j m, here, e) late
  | inr apart ↦ rw (lookup-remove id j m, apart) (Agrees-refl t heap (lookup j m))
]

pub insert-Agrees :
    (t : ℕ) (heap : List Record) (id j : String) (p : ℕ) (m k : Dict ℕ)
    → Agrees t heap (lookup j m) (lookup j k)
    → Agrees t heap (lookup j (insert id p m)) (lookup j (insert id p k))
insert-Agrees t heap id j p m k h = elim (Bool-cases (id == j)) [
  | inl here ↦ rw (lookup-insert id j p m, lookup-insert id j p k, here) refl
  | inr apart ↦ rw (lookup-insert id j p m, lookup-insert id j p k, apart) h
]

pub remove-Agrees :
    (t : ℕ) (heap : List Record) (id j : String) (m k : Dict ℕ)
    → Agrees t heap (lookup j m) (lookup j k)
    → Agrees t heap (lookup j (remove id m)) (lookup j (remove id k))
remove-Agrees t heap id j m k h = elim (Bool-cases (id == j)) [
  | inl here ↦ rw (lookup-remove id j m, lookup-remove id j k, here) tt
  | inr apart ↦ rw (lookup-remove id j m, lookup-remove id j k, apart) h
]
