-- ===== src/Fusion/Best.antt =====
-- mergeDiscoveries of internal/fusion/fusion.go against the discoveries that it is given.
use mathlib.Core.Path.{subst}
use feishu_super_search.Prelude.{
  String, ◌≡◌, refl, sym, ◌∙◌, Bool, true, false, ◌||◌, Option, none, some, List, [], ◌∷◌, ◌++◌,
  any, All, All-imp, contains, Dict, lookup, insert, lookup-insert, ltz, ◌==◌, eq_iff, arith,
  Bool-cases, Option-cases, inl, inr, ◌⊎◌,
}
use feishu_super_search.Kernel.Objects.{Discovery}
use feishu_super_search.Fusion.Discoveries.{
  discovery_key, improve, best_of, sort_in, sort_texts, keys_of, values_at, merge_discoveries,
  covers_discovery,
}

abbrev IsKeyed : Dict Discovery → Type 0
IsKeyed m = (j : String) (y : Discovery) → lookup j m ≡ some y → discovery_key y ≡ j

-- What the map has under the key of `x` covers `x`.
abbrev covers_at : Discovery → Option Discovery → Bool
covers_at x none = false
covers_at x (some y) = covers_discovery x y

insert-IsKeyed :
    (x : Discovery) (m : Dict Discovery) → IsKeyed m → IsKeyed (insert (discovery_key x) x m)
insert-IsKeyed x m h j y e =
    ground (arith, lookup-insert (discovery_key x) j x m, eq_iff (discovery_key x) j, h j y)

improve-cases :
    (x : Discovery) (m : Dict Discovery)
    → (improve x m ≡ insert (discovery_key x) x m) ⊎ (improve x m ≡ m)
unfolding improve
improve-cases x m = ground arith

improve-IsKeyed : (x : Discovery) (m : Dict Discovery) → IsKeyed m → IsKeyed (improve x m)
improve-IsKeyed x m h = elim (improve-cases x m) [
  | inl e ↦ subst IsKeyed (sym e) (insert-IsKeyed x m h)
  | inr e ↦ subst IsKeyed (sym e) h
]

insert-covers :
    (x : Discovery) (m : Dict Discovery)
    → covers_at x (lookup (discovery_key x) (insert (discovery_key x) x m)) ≡ true
insert-covers x m = ground (
  arith,
  lookup-insert (discovery_key x) (discovery_key x) x m,
  eq_iff (discovery_key x) (discovery_key x),
)

improve-covers :
    (x : Discovery) (m : Dict Discovery)
    → IsKeyed m
    → covers_at x (lookup (discovery_key x) (improve x m)) ≡ true
unfolding improve
improve-covers x m h = elim (Option-cases (lookup (discovery_key x) m)) [
  | inl absent ↦ rw (improve, absent) (insert-covers x m)
  | inr (old, found) ↦ elim (Bool-cases (ltz x.rank old.rank)) [
    | inl better ↦ rw (improve, found, better) (insert-covers x m)
    | inr worse ↦
        rw (improve, found, worse)
          (ground (
            arith,
            found,
            h (discovery_key x) old found,
            eq_iff (discovery_key old) (discovery_key x),
          ))
  ]
]

improve-keeps :
    (z x : Discovery) (m : Dict Discovery)
    → covers_at z (lookup (discovery_key z) m) ≡ true
    → covers_at z (lookup (discovery_key z) (improve x m)) ≡ true
unfolding improve
improve-keeps z x m h = elim (Option-cases (lookup (discovery_key x) m)) [
  | inl absent ↦
      rw (improve, absent)
        (ground (
          arith,
          lookup-insert (discovery_key x) (discovery_key z) x m,
          eq_iff (discovery_key x) (discovery_key z),
        ))
  | inr (old, found) ↦ elim (Bool-cases (ltz x.rank old.rank)) [
    | inl better ↦
        rw (improve, found, better)
          (ground (
            arith,
            lookup-insert (discovery_key x) (discovery_key z) x m,
            eq_iff (discovery_key x) (discovery_key z),
          ))
    | inr worse ↦ rw (improve, found, worse) h
  ]
]

best_of-keeps :
    (z : Discovery) (xs : List Discovery) (m : Dict Discovery)
    → covers_at z (lookup (discovery_key z) m) ≡ true
    → covers_at z (lookup (discovery_key z) (best_of xs m)) ≡ true
unfolding best_of
best_of-keeps z [] m h = h
best_of-keeps z (x ∷ xs) m h = best_of-keeps z xs (improve x m) (improve-keeps z x m h)

best_of-covers :
    (xs : List Discovery) (m : Dict Discovery)
    → IsKeyed m
    → All (λ x. covers_at x (lookup (discovery_key x) (best_of xs m)) ≡ true) xs
unfolding best_of
best_of-covers [] m h = tt
best_of-covers (x ∷ xs) m h = (
  best_of-keeps x xs (improve x m) (improve-covers x m h),
  best_of-covers xs (improve x m) (improve-IsKeyed x m h),
)

sort_in-contains :
    (j k : String) (ks : List String) → contains j (sort_in k ks) ≡ k == j || contains j ks
unfolding sort_in
sort_in-contains j k [] = refl
sort_in-contains j k (i ∷ ks) = ground (arith, sort_in-contains j k ks)

sort_texts-contains : (j : String) (ks : List String) → contains j (sort_texts ks) ≡ contains j ks
unfolding sort_texts
sort_texts-contains j [] = refl
sort_texts-contains j (k ∷ ks) =
    ground (arith, sort_texts-contains j ks, sort_in-contains j k (sort_texts ks))

keys_of-contains :
    (j : String) (y : Discovery) (m : Dict Discovery)
    → lookup j m ≡ some y
    → contains j (keys_of m) ≡ true
unfolding lookup
keys_of-contains j y [] h = cc
keys_of-contains j y ((k, v) ∷ m) h =
    ground (arith, λ (p : lookup j m ≡ some y). keys_of-contains j y m p)

values_at-any :
    (p : Discovery → Bool) (j : String) (y : Discovery) (ks : List String) (m : Dict Discovery)
    → lookup j m ≡ some y
    → contains j ks ≡ true
    → p y ≡ true
    → any p (values_at ks m) ≡ true
unfolding values_at
values_at-any p j y [] m found there good = cc
values_at-any p j y (k ∷ ks) m found there good = elim (Bool-cases (k == j)) [
  | inl same ↦
      let e : lookup k m ≡ some y =
        subst (λ i. lookup i m ≡ some y) (sym ((eq_iff k j).0 same)) found in
      rw (values_at, e) (ground (arith, good))
  | inr apart ↦ elim (Option-cases (lookup k m)) [
    | inl absent ↦ rw (values_at, absent) (values_at-any p j y ks m found (ground arith) good)
    | inr (v, present) ↦
        rw (values_at, present) (ground (arith, values_at-any p j y ks m found (ground arith) good))
  ]
]

covered-any :
    (x : Discovery) (m : Dict Discovery)
    → covers_at x (lookup (discovery_key x) m) ≡ true
    → any (covers_discovery x) (values_at (sort_texts (keys_of m)) m) ≡ true
covered-any x m h = elim (Option-cases (lookup (discovery_key x) m)) [
  | inl absent ↦ absurd (ground arith)
  | inr (y, found) ↦
      values_at-any (covers_discovery x) (discovery_key x) y (sort_texts (keys_of m)) m found
        (sort_texts-contains (discovery_key x) (keys_of m)
          ∙ keys_of-contains (discovery_key x) y m found)
        (ground arith)
]

no_discoveries-IsKeyed : IsKeyed []
unfolding lookup
no_discoveries-IsKeyed j y h = cc

-- For each discovery of the two lists, the merged list has one of the same key (its provider
-- and source) with no greater rank.
pub merge_discoveries-covers :
    (a b : List Discovery)
    → All (λ x. any (covers_discovery x) (merge_discoveries a b) ≡ true) (a ++ b)
unfolding merge_discoveries
merge_discoveries-covers a b =
    All-imp _ _ (λ x h. covered-any x (best_of (a ++ b) []) h) (a ++ b)
      (best_of-covers (a ++ b) [] no_discoveries-IsKeyed)
