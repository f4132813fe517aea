-- ===== src/Session/Memory.antt =====
-- MemoryStore of internal/session/store.go. Records are shared by pointers: the heap is a list, and
-- a pointer is the position of its record, which the store and its clients both hold.
use feishu_super_search.Prelude.{
  String, ℕ, ℤ, Bool, false, not, Option, none, some, List, [], ◌∷◌, ◌++◌, Dict, lookup, insert,
  remove, length, get_elem?, set, sort_by, ltb, is_nonpos, pos_part, if◌then◌else◌, Result, ok, err,
}
use feishu_super_search.Kernel.Errors.{ErrorDetail, new_error, not_found}
use feishu_super_search.Kernel.Snapshots.{SessionSnapshot}
use feishu_super_search.Session.{Record, SnapshotOps, new_record, snapshot}

pub record MemoryStore : Type 0 where
  pub heap : List Record
  pub ttl : ℕ
  pub records : Dict ℕ

-- NewMemoryStore; 45 minutes in nanoseconds.
unfoldable pub new_memory_store : List Record → ℤ → MemoryStore
new_memory_store heap ttl = record {
  heap = heap;
  ttl = if is_nonpos ttl then 2700000000000 else pos_part ttl;
  records = [];
}

unfoldable pub create : (fresh : String) (now : ℕ) (scope : String) → MemoryStore → MemoryStore × ℕ
create fresh now scope s = (
  record s {
    heap = s.heap ++ new_record fresh now scope s.ttl ∷ [];
    records = insert fresh (length s.heap) s.records;
  },
  length s.heap,
)

unfoldable pub delete : String → MemoryStore → MemoryStore
delete id s = record s { records = remove id s.records }

-- `now.After(r.ExpiresAt)`
abbrev pub has_expired : ℕ → Option Record → Bool
has_expired now none = false
has_expired now (some r) = ltb r.expires_at now

-- `!r.ExpiresAt.After(now)`
abbrev pub is_stale : ℕ → Option Record → Bool
is_stale now none = false
is_stale now (some r) = not (ltb now r.expires_at)

unfoldable pub get : (now : ℕ) → String → MemoryStore → MemoryStore × Result ErrorDetail ℕ
get now id s = elim (lookup id s.records) [
  | none ↦ (s, err (new_error not_found "session not found"))
  | some p ↦
      if has_expired now (get_elem? s.heap p)
      then (delete id s, err (new_error not_found "session expired"))
      else (s, ok p)
]

abbrev put : ℕ → Option Record → MemoryStore → MemoryStore
put p none s = s
put p (some r) s = record s { records = insert r.id p s.records }

-- Save, for a nil pointer as well.
unfoldable pub save : Option ℕ → MemoryStore → MemoryStore × Result String (Unit {0})
save none s = (s, err "nil session")
save (some p) s = (put p (get_elem? s.heap p) s, ok tt)

-- The loop of cleanupExpired.
unfoldable pub sweep : List Record → ℕ → Dict ℕ → Dict ℕ
sweep heap now [] = []
sweep heap now ((id, p) ∷ m) =
    let rest = sweep heap now m in if is_stale now (get_elem? heap p) then rest else (id, p) ∷ rest

unfoldable pub cleanup_expired : ℕ → MemoryStore → MemoryStore
cleanup_expired now s = record s { records = sweep s.heap now s.records }

abbrev pub add_snapshot : SnapshotOps → Option Record → List SessionSnapshot → List SessionSnapshot
add_snapshot ops none out = out
add_snapshot ops (some r) out = snapshot ops false r ∷ out

unfoldable pub snapshots : SnapshotOps → List Record → Dict ℕ → List SessionSnapshot
snapshots ops heap [] = []
snapshots ops heap ((_, p) ∷ m) = add_snapshot ops (get_elem? heap p) (snapshots ops heap m)

-- `a.CreatedAt.After(b.CreatedAt)`
abbrev pub newer : SessionSnapshot → SessionSnapshot → Bool
newer a b = ltb b.created_at a.created_at

-- List; among sessions of one time, the order is that of the map.
unfoldable pub list : SnapshotOps → (now : ℕ) → MemoryStore → MemoryStore × List SessionSnapshot
list ops now s =
    let s' = cleanup_expired now s in (s', sort_by newer (snapshots ops s'.heap s'.records))

-- What a client does under the lock of a record.
unfoldable pub write : ℕ → (Record → Record) → MemoryStore → MemoryStore
write p f s = elim (get_elem? s.heap p) [
  | none ↦ s
  | some r ↦ record s { heap = set s.heap p (f r) }
]

-- A call of the store, or a change of a record that a client has a pointer to.
pub data StoreCall : Type 0 where
  creating : (fresh scope : String) → StoreCall
  getting : String → StoreCall
  saving : Option ℕ → StoreCall
  deleting : String → StoreCall
  listing : StoreCall
  writing : ℕ → (Record → Record) → StoreCall

unfoldable pub run_store_call : SnapshotOps → ℕ → StoreCall → MemoryStore → MemoryStore
run_store_call ops now (creating fresh scope) s = (create fresh now scope s).0
run_store_call ops now (getting id) s = (get now id s).0
run_store_call ops now (saving p) s = (save p s).0
run_store_call ops now (deleting id) s = delete id s
run_store_call ops now listing s = (list ops now s).0
run_store_call ops now (writing p f) s = write p f s

-- A schedule of calls, each with its reading of the clock.
unfoldable pub run_store_calls : SnapshotOps → List (ℕ × StoreCall) → MemoryStore → MemoryStore
run_store_calls ops [] s = s
run_store_calls ops ((now, c) ∷ calls) s = run_store_calls ops calls (run_store_call ops now c s)
