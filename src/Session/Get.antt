-- ===== src/Session/Get.antt =====
-- What MemoryStore.Get does on each branch.
use feishu_super_search.Prelude.{
  String, ℕ, ◌≡◌, refl, true, false, none, some, lookup, get_elem?, ok, err,
}
use feishu_super_search.Kernel.Errors.{new_error, not_found}
use feishu_super_search.Session.Memory.{MemoryStore, get, delete, has_expired}

pub get-absent :
    (now : ℕ) (id : String) (s : MemoryStore)
    → lookup id s.records ≡ none
    → get now id s ≡ (s, err (new_error not_found "session not found"))
unfolding get
get-absent now id s absent = rw (get, absent) refl

pub get-late :
    (now : ℕ) (id : String) (s : MemoryStore) (p : ℕ)
    → lookup id s.records ≡ some p
    → has_expired now (get_elem? s.heap p) ≡ true
    → get now id s ≡ (delete id s, err (new_error not_found "session expired"))
unfolding get
get-late now id s p there late = rw (get, there, late) refl

pub get-live :
    (now : ℕ) (id : String) (s : MemoryStore) (p : ℕ)
    → lookup id s.records ≡ some p
    → has_expired now (get_elem? s.heap p) ≡ false
    → get now id s ≡ (s, ok p)
unfolding get
get-live now id s p there live = rw (get, there, live) refl
