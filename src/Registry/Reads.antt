-- ===== src/Registry/Reads.antt =====
-- How the registry's reads answer after a write.
use feishu_super_search.Prelude.{
  String, ◌≡◌, none, some, List, [], Dict, lookup, insert, lookup-insert, lookup-remove, remove,
  ◌==◌, if◌then◌else◌, arith, eq_iff, false, ◌⊎◌, inl, inr, Option-cases,
}
use feishu_super_search.Registry.{Registry, operation_available, text_at, list_at, dict_at}

pub text_at-insert :
    (k j v : String) (m : Dict String)
    → text_at j (insert k v m) ≡ (if k == j then v else text_at j m)
unfolding text_at
text_at-insert k j v m = ground (arith, lookup-insert k j v m)

pub list_at-insert :
    (k j : String) (v : List String) (m : Dict (List String))
    → list_at j (insert k v m) ≡ (if k == j then v else list_at j m)
unfolding list_at
list_at-insert k j v m = ground (arith, lookup-insert k j v m)

pub dict_at-insert {ℓ} :
    {V : Type ℓ} (k j : String) (v : Dict V) (m : Dict (Dict V))
    → dict_at j (insert k v m) ≡ (if k == j then v else dict_at j m)
unfolding dict_at
dict_at-insert k j v m = ground (arith, lookup-insert k j v m)

pub dict_at-remove {ℓ} :
    {V : Type ℓ} (k j : String) (m : Dict (Dict V))
    → dict_at j (remove k m) ≡ (if k == j then [] else dict_at j m)
unfolding dict_at
dict_at-remove k j m = ground (arith, lookup-remove k j m)

-- A fresh key hides no entry.
pub lookup-insert_fresh {ℓ} :
    {V : Type ℓ} (k j : String) (v w : V) (m : Dict V)
    → lookup k m ≡ none
    → lookup j m ≡ some w
    → lookup j (insert k v m) ≡ some w
lookup-insert_fresh k j v w m h e = ground (arith, lookup-insert k j v m, eq_iff k j)

pub lookup-insert_self {ℓ} :
    {V : Type ℓ} (k : String) (v : V) (m : Dict V) → lookup k (insert k v m) ≡ some v
lookup-insert_self k v m = ground (arith, lookup-insert k k v m, eq_iff k k)

-- A route that reads as the empty text is no route.
pub text_at-cases :
    (k : String) (m : Dict String) → (text_at k m ≡ "") ⊎ (lookup k m ≡ some (text_at k m))
unfolding text_at
text_at-cases k m = elim (Option-cases (lookup k m)) [
  | inl absent ↦ inl (ground arith)
  | inr (v, here) ↦ inr (ground arith)
]

pub operation_available-nameless :
    (id : String) (op : String) (r : Registry) → id ≡ "" → operation_available id op r ≡ false
unfolding operation_available
operation_available-nameless id op r e = ground (arith, eq_iff id "")
