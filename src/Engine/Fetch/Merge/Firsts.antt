-- ===== src/Engine/Fetch/Merge/Firsts.antt =====
-- The chunks and the relations of a merged artifact.
use feishu_super_search.Prelude.{
  ◌≤◌, String, ◌≡◌, refl, Bool, false, Option, none, some, List, [], ◌∷◌, ◌++◌, count, contains,
  ◌==◌, eq_iff, if◌then◌else◌, arith, Bool-cases, inl, inr,
}
use feishu_super_search.Kernel.Objects.{Artifact}
use feishu_super_search.Engine.Fetch.Merge.{
  keep_new, chunk_key, relation_key, merge_chunks, merge_relations, merge_artifact,
}

module _ {ℓ} {A : Type ℓ} (key : A → String) (k : String) where
  abbrev pub has_key : A → Bool
  has_key x = key x == k

  unfoldable pub first_of : List A → Option A
  first_of [] = none
  first_of (x ∷ xs) = let rest = first_of xs in if has_key x then some x else rest

  -- One element of the key in the second list, which is the first one of the key in the first.
  abbrev pub HoldsFirst : List A → List A → Type ℓ
  HoldsFirst xs ys = (first_of ys ≡ first_of xs) × (count has_key ys ≤ 1)

  keep_new-once :
      (xs : List A) (seen : List String)
      → count has_key (keep_new key xs seen) ≤ (if contains k seen then 0 else 1)
  unfolding keep_new
  keep_new-once [] seen = omega arith
  keep_new-once (x ∷ xs) seen = elim (Bool-cases (contains (key x) seen)) [
    | inl old ↦ rw (keep_new, old) (keep_new-once xs seen)
    | inr new ↦
        rw (keep_new, new) (ground (arith, keep_new-once xs (key x ∷ seen), eq_iff (key x) k))
  ]

  keep_new-first :
      (xs : List A) (seen : List String)
      → contains k seen ≡ false
      → first_of (keep_new key xs seen) ≡ first_of xs
  unfolding keep_new first_of
  keep_new-first [] seen fresh = refl
  keep_new-first (x ∷ xs) seen fresh = elim (Bool-cases (contains (key x) seen)) [
    | inl old ↦
        rw (keep_new, old)
          (ground (arith, keep_new-first xs seen fresh, fresh, old, eq_iff (key x) k))
    | inr new ↦
        rw (keep_new, new)
          (elim (Bool-cases (key x == k)) [
            | inl same ↦ rw same refl
            | inr other ↦
                rw other (
                  keep_new-first xs (key x ∷ seen) (ground (arith, fresh, other, eq_iff (key x) k)))
          ])
  ]

  keep_new-HoldsFirst : (xs : List A) → HoldsFirst xs (keep_new key xs [])
  keep_new-HoldsFirst xs = (keep_new-first xs [] refl, keep_new-once xs [])

-- When two artifacts are merged, the result has, for every key of a chunk, at most one chunk of
-- the key, and it is the first of the key among the chunks of the old artifact followed by
-- those of the new one; the same holds for the relations.
pub merge_artifact-HoldsFirst :
    (a b : Artifact) (k : String)
    → HoldsFirst chunk_key k (a.chunks ++ b.chunks) (merge_artifact a b).chunks
      × HoldsFirst relation_key k (a.relations ++ b.relations) (merge_artifact a b).relations
unfolding merge_artifact merge_chunks merge_relations
merge_artifact-HoldsFirst a b k = (
  keep_new-HoldsFirst chunk_key k (a.chunks ++ b.chunks),
  keep_new-HoldsFirst relation_key k (a.relations ++ b.relations),
)
