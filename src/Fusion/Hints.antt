-- ===== src/Fusion/Hints.antt =====
-- mergeHints of internal/fusion/fusion.go: the hints of two candidates, each once.
use Prim.Native.String.{◌++◌ as cat}
use feishu_super_search.Prelude.{
  ◌≤◌, String, ◌≡◌, refl, Bool, true, false, ◌||◌, List, [], ◌∷◌, ◌++◌, map, count, contains, ◌==◌,
  eq_iff, if◌then◌else◌, arith, Bool-cases, inl, inr,
}
use feishu_super_search.Kernel.Objects.{RelationHint}

unfoldable pub hint_key : RelationHint → String
hint_key h = cat h.kind (cat "|" h.target_id)

-- The loop, after the keys of `seen`.
unfoldable pub keep_unseen : List RelationHint → List String → List RelationHint
keep_unseen [] seen = []
keep_unseen (x ∷ xs) seen = elim (contains (hint_key x) seen) [
  | true ↦ keep_unseen xs seen
  | false ↦ x ∷ keep_unseen xs (hint_key x ∷ seen)
]

unfoldable pub merge_hints : List RelationHint → List RelationHint → List RelationHint
merge_hints a b = keep_unseen (a ++ b) []

abbrev pub has_key : String → RelationHint → Bool
has_key k h = hint_key h == k

abbrev pub hint_keys : List RelationHint → List String
hint_keys hs = map hint_key hs

keep_unseen-once :
    (k : String) (hs : List RelationHint) (seen : List String)
    → count (has_key k) (keep_unseen hs seen) ≤ (if contains k seen then 0 else 1)
unfolding keep_unseen
keep_unseen-once k [] seen = omega arith
keep_unseen-once k (x ∷ xs) seen = elim (Bool-cases (contains (hint_key x) seen)) [
  | inl old ↦ rw (keep_unseen, old) (keep_unseen-once k xs seen)
  | inr new ↦
      rw (keep_unseen, new)
        (ground (arith, keep_unseen-once k xs (hint_key x ∷ seen), eq_iff (hint_key x) k))
]

keep_unseen-keys :
    (k : String) (hs : List RelationHint) (seen : List String)
    → contains k (hint_keys (keep_unseen hs seen)) || contains k seen
      ≡ contains k (hint_keys hs) || contains k seen
unfolding keep_unseen
keep_unseen-keys k [] seen = refl
keep_unseen-keys k (x ∷ xs) seen = elim (Bool-cases (contains (hint_key x) seen)) [
  | inl old ↦
      rw (keep_unseen, old) (ground (arith, keep_unseen-keys k xs seen, eq_iff (hint_key x) k))
  | inr new ↦
      rw (keep_unseen, new)
        (ground (arith, keep_unseen-keys k xs (hint_key x ∷ seen), eq_iff (hint_key x) k))
]

-- No two hints of the merged list have the same key, and a key occurs in it exactly if it
-- occurs in one of the two lists.
pub merge_hints-keys :
    (a b : List RelationHint) (k : String)
    → (count (has_key k) (merge_hints a b) ≤ 1)
      × (contains k (hint_keys (merge_hints a b)) ≡ contains k (hint_keys (a ++ b)))
unfolding merge_hints
merge_hints-keys a b k =
    (keep_unseen-once k (a ++ b) [], ground (arith, keep_unseen-keys k (a ++ b) []))
