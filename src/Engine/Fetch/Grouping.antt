-- ===== src/Engine/Fetch/Grouping.antt =====
-- dedupFetchItems against the grouping of the items by their keys.
use mathlib.Core.Path.{subst, fun_ext}
use mathlib.Core.List.{append_assoc, append-nil}
use feishu_super_search.Prelude.{
  String, ◌≡◌, refl, sym, ap, ◌∙◌, Bool, true, false, ◌||◌, Option, none, some, List, [], ◌∷◌, ◌++◌,
  Dict, lookup, insert, lookup-insert, ◌==◌, eq_iff, if◌then◌else◌, Option-cases, Bool-cases, inl,
  inr, arith,
}
use feishu_super_search.Kernel.Projection.{union}
use feishu_super_search.Kernel.Requests.{FetchRequest}
use feishu_super_search.Engine.Fetch.{fetch_key, widen, group_items, read_items, dedup_fetch_items}

-- The first item of a key, with the projections of all that follow it.
abbrev pub joined : Option FetchRequest → FetchRequest → FetchRequest
joined none i = i
joined (some old) i = record old { projection = union old.projection i.projection }

unfoldable pub combined : String → List FetchRequest → Option FetchRequest → Option FetchRequest
combined k [] found = found
combined k (i ∷ items) found =
    combined k items (if fetch_key i == k then some (joined found i) else found)

abbrev pub is_held {ℓ} : {A : Type ℓ} → Option A → Bool
is_held none = false
is_held (some _) = true

-- The keys of the items in the order of their first occurrence, but those that `m` holds.
unfoldable pub new_keys : List FetchRequest → (String → Bool) → List String
new_keys [] seen = []
new_keys (i ∷ items) seen =
    let rest = new_keys items (λ k. fetch_key i == k || seen k) in
    if seen (fetch_key i) then rest else fetch_key i ∷ rest

-- One item for each key.
unfoldable pub by_keys : List String → List FetchRequest → List FetchRequest
by_keys [] items = []
by_keys (k ∷ keys) items =
    let rest = by_keys keys items in
    elim (combined k items none) [ none ↦ rest | some i ↦ i ∷ rest ]

insert-joined :
    (key k : String) (m : Dict FetchRequest) (i : FetchRequest) (o : Option FetchRequest)
    → lookup key m ≡ o
    → lookup k (insert key (joined o i) m)
      ≡ (if key == k then some (joined (lookup k m) i) else lookup k m)
insert-joined key k m i o held = elim (Bool-cases (key == k)) [
  | inl same ↦
      let e : lookup k m ≡ o =
        subst (λ (x : String). lookup x m ≡ o) ((eq_iff key k).0 same) held in
      rw (lookup-insert key k (joined o i) m, same, e) refl
  | inr apart ↦ rw (lookup-insert key k (joined o i) m, apart) refl
]

group_items-lookup :
    (items : List FetchRequest) (m : Dict FetchRequest) (order : List String) (k : String)
    → lookup k (group_items items m order).0 ≡ combined k items (lookup k m)
unfolding group_items combined
group_items-lookup [] m order k = refl
group_items-lookup (i ∷ items) m order k = elim (Option-cases (lookup (fetch_key i) m)) [
  | inl absent ↦
      rw (group_items, absent)
        (group_items-lookup items (insert (fetch_key i) i m) (order ++ fetch_key i ∷ []) k
          ∙ ap (combined k items) (insert-joined (fetch_key i) k m i none absent))
  | inr (old, held) ↦
      rw (group_items, held)
        (group_items-lookup items (insert (fetch_key i) (widen old i) m) order k
          ∙ ap (combined k items) (insert-joined (fetch_key i) k m i (some old) held))
]

abbrev holds : Dict FetchRequest → String → Bool
holds m k = is_held (lookup k m)

insert-holds :
    (key : String) (v : FetchRequest) (m : Dict FetchRequest)
    → holds (insert key v m) ≡ (λ k. key == k || holds m k)
insert-holds key v m = fun_ext (λ k. ground (arith, lookup-insert key k v m))

group_items-order :
    (items : List FetchRequest) (m : Dict FetchRequest) (order : List String)
    → (group_items items m order).1 ≡ order ++ new_keys items (holds m)
unfolding group_items new_keys
group_items-order [] m order = sym (append-nil order)
group_items-order (i ∷ items) m order = elim (Option-cases (lookup (fetch_key i) m)) [
  | inl absent ↦
      rw (group_items, absent)
        (group_items-order items (insert (fetch_key i) i m) (order ++ fetch_key i ∷ [])
          ∙ append_assoc order (fetch_key i ∷ []) _
          ∙ ap (λ (seen : String → Bool). order ++ fetch_key i ∷ new_keys items seen)
              (insert-holds (fetch_key i) i m))
  | inr (old, held) ↦
      rw (group_items, held)
        (group_items-order items (insert (fetch_key i) (widen old i) m) order
          ∙ ap (λ (seen : String → Bool). order ++ new_keys items seen)
              (insert-holds (fetch_key i) (widen old i) m))
]

read_items-by_keys :
    (keys : List String) (m : Dict FetchRequest) (items : List FetchRequest)
    → ((k : String) → lookup k m ≡ combined k items none)
    → read_items keys m ≡ by_keys keys items
unfolding read_items by_keys
read_items-by_keys [] m items same = refl
read_items-by_keys (k ∷ keys) m items same = elim (Option-cases (combined k items none)) [
  | inl absent ↦
      rw (by_keys, absent, read_items, same k, absent) (read_items-by_keys keys m items same)
  | inr (i, there) ↦
      rw (by_keys, there, read_items, same k, there)
        (ap (λ (l : List FetchRequest). i ∷ l) (read_items-by_keys keys m items same))
]

-- The items of a fetch are grouped by their keys: one for each, in the order in which the keys
-- first occur, which is the first item of the key with the projections of all items of the key.
pub dedup_fetch_items-by_keys :
    (items : List FetchRequest)
    → dedup_fetch_items items ≡ by_keys (new_keys items (λ _. false)) items
unfolding dedup_fetch_items lookup
dedup_fetch_items-by_keys items = rw (group_items-order items [] []) (
    read_items-by_keys (new_keys items (λ _. false)) (group_items items [] []).0 items
      (λ k. group_items-lookup items [] [] k))
