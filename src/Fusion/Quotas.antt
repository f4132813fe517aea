-- ===== src/Fusion/Quotas.antt =====
-- The selection by quotas in Fuse: its length, its members, and the shares of the sources.
use feishu_super_search.Prelude.{
  ℕ, zero, suc, ◌+◌, ◌-◌, ◌≤◌, ◌≡◌, refl, Bool, ◌&&◌, List, [], ◌∷◌, ◌++◌, length, take, count,
  Dict, insert, lookup-insert, ltb, ℤ, pos, negsuc, ◌∙◌, ◌==◌, eq_iff, if◌then◌else◌, arith,
  Bool-cases, inl, inr, length-append,
}
use feishu_super_search.Kernel.Refs.{SourceId}
use feishu_super_search.Kernel.Objects.{Candidate}
use feishu_super_search.Fusion.Selection.{
  count_at, effective_limit, effective_quota, split, select_by_quota,
}

abbrev pub is_from : SourceId → Candidate → Bool
is_from s c = c.source == s

count_at-insert :
    (s t : SourceId) (n : ℕ) (m : Dict ℕ)
    → count_at t (insert s n m) ≡ (if s == t then n else count_at t m)
unfolding count_at
count_at-insert s t n m = ground (arith, lookup-insert s t n m)

abbrev may_select : ℕ → Dict ℤ → Candidate → Dict ℕ → ℕ → Bool
may_select limit quotas c counts chosen =
    ltb (count_at c.source counts) (effective_quota limit quotas c.source) && ltb chosen limit

module _ (limit : ℕ) (quotas : Dict ℤ) where
  -- The two parts together hold each candidate as often as the ranked list does.
  split-count :
      (p : Candidate → Bool) (cs : List Candidate) (counts : Dict ℕ) (chosen : ℕ)
      → count p (split limit quotas cs counts chosen).0
          + count p (split limit quotas cs counts chosen).1
        ≡ count p cs
  unfolding split
  split-count p [] counts chosen = omega arith
  split-count p (c ∷ cs) counts chosen =
      elim (Bool-cases (may_select limit quotas c counts chosen)) [
        | inl fits ↦
            rw (split, fits)
              (ground (
                arith,
                split-count p cs (insert c.source (count_at c.source counts + 1) counts)
                    (chosen + 1),
              ))
        | inr over ↦ rw (split, over) (ground (arith, split-count p cs counts chosen))
      ]

  split-length :
      (cs : List Candidate) (counts : Dict ℕ) (chosen : ℕ)
      → chosen ≤ limit
      → (length (split limit quotas cs counts chosen).0 + chosen ≤ limit)
        × (length (split limit quotas cs counts chosen).0
              + length (split limit quotas cs counts chosen).1
            ≡ length cs)
  unfolding split
  split-length [] counts chosen h = (omega arith, refl)
  split-length (c ∷ cs) counts chosen h =
      elim (Bool-cases (may_select limit quotas c counts chosen)) [
        | inl fits ↦
            rw (split, fits)
              (ground (
                arith,
                split-length cs (insert c.source (count_at c.source counts + 1) counts)
                    (chosen + 1),
              ))
        | inr over ↦ rw (split, over) (ground (arith, split-length cs counts chosen))
      ]

  -- If the count of a source does not exceed its quota, then it does not after the first loop
  -- either: the count that the loop started from, with the candidates of the source that it
  -- selects, is at most the quota.
  pub split-quota :
      (s : SourceId) (cs : List Candidate) (counts : Dict ℕ) (chosen : ℕ)
      → count_at s counts ≤ effective_quota limit quotas s
      → count (is_from s) (split limit quotas cs counts chosen).0 + count_at s counts
        ≤ effective_quota limit quotas s
  unfolding split
  split-quota s [] counts chosen h = omega arith
  split-quota s (c ∷ cs) counts chosen h =
      elim (Bool-cases (may_select limit quotas c counts chosen)) [
        | inl fits ↦
            rw (split, fits)
              (ground (
                arith,
                split-quota s cs (insert c.source (count_at c.source counts + 1) counts)
                    (chosen + 1),
                count_at-insert c.source s (count_at c.source counts + 1) counts,
                eq_iff c.source s,
              ))
        | inr over ↦ rw (split, over) (ground (arith, split-quota s cs counts chosen))
      ]

length-take : (n : ℕ) (cs : List Candidate) → n ≤ length cs → length (take n cs) ≡ n
length-take zero cs h = refl
length-take (suc n) [] h = ground arith
length-take (suc n) (c ∷ cs) h = ground (arith, length-take n cs)

count-take : (p : Candidate → Bool) (n : ℕ) (cs : List Candidate) → count p (take n cs) ≤ count p cs
count-take p zero cs = omega arith
count-take p (suc n) [] = omega arith
count-take p (suc n) (c ∷ cs) = ground (arith, count-take p n cs)

count-append :
    (p : Candidate → Bool) (xs ys : List Candidate) → count p (xs ++ ys) ≡ count p xs + count p ys
count-append p [] ys = omega arith
count-append p (x ∷ xs) ys = ground (arith, count-append p xs ys)

effective_limit-le : (limit : ℤ) (n : ℕ) → effective_limit limit n ≤ n
unfolding effective_limit
effective_limit-le limit n = ground arith

-- How many of `n` candidates are asked for: all, unless the limit is positive and smaller.
abbrev pub returned : ℤ → ℕ → ℕ
returned (pos (suc m)) n = if ltb (suc m) n then suc m else n
returned limit n = n

effective_limit-returned : (limit : ℤ) (n : ℕ) → effective_limit limit n ≡ returned limit n
unfolding effective_limit
effective_limit-returned (pos zero) n = refl
effective_limit-returned (pos (suc m)) n = ground arith
effective_limit-returned (negsuc m) n = refl

module _ (limit : ℤ) (quotas : Dict ℤ) (items : List Candidate) where
  abbrev parts : List Candidate × List Candidate
  parts = split (effective_limit limit (length items)) quotas items [] 0

  length-selected :
      length (select_by_quota limit quotas items) ≡ effective_limit limit (length items)
  unfolding select_by_quota
  length-selected =
      let n = effective_limit limit (length items) in
      let (few, all) = split-length n quotas items [] 0 (omega arith) in
      let le = effective_limit-le limit (length items) in
      let rest = n - length parts.0 in
      omega (
        arith,
        length-append parts.0 (take rest parts.1),
        length-take rest parts.1 (omega (arith, few, all, le)),
        few,
      )

  -- The selection by quotas returns as many candidates as the limit asks for: all of them,
  -- unless the limit is positive and smaller than their number, and then as many as the limit
  -- says.
  pub length-select_by_quota :
      length (select_by_quota limit quotas items) ≡ returned limit (length items)
  length-select_by_quota = length-selected ∙ effective_limit-returned limit (length items)

  -- For every test on candidates, the selection by quotas holds at most as many that pass as
  -- the ranked list does.
  pub count-select_by_quota :
      (p : Candidate → Bool) → count p (select_by_quota limit quotas items) ≤ count p items
  unfolding select_by_quota
  count-select_by_quota p =
      let n = effective_limit limit (length items) in
      let rest = n - length parts.0 in
      omega (
        arith,
        count-append p parts.0 (take rest parts.1),
        count-take p rest parts.1,
        split-count n quotas p items [] 0,
      )
