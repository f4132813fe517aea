-- ===== src/Fusion/Selection.antt =====
-- The end of Fuse in internal/fusion/fusion.go: how many candidates of each source are returned.
-- The candidates come in ranked order; the sort by score that follows is stable and keeps them all,
-- and is not modelled.
use feishu_super_search.Prelude.{
  ℕ, ◌+◌, ◌-◌, true, false, ◌&&◌, none, some, List, [], ◌∷◌, ◌++◌, length, take, Dict, lookup,
  insert, ltb, ℤ, pos, pos_part, is_nonpos, if◌then◌else◌,
}
use feishu_super_search.Kernel.Refs.{SourceId}
use feishu_super_search.Kernel.Objects.{Candidate}

-- The counts of the sources: a missing key reads as 0.
unfoldable pub count_at : SourceId → Dict ℕ → ℕ
count_at s m = elim (lookup s m) [ none ↦ 0 | some n ↦ n ]

unfoldable pub quota_at : SourceId → Dict ℤ → ℤ
quota_at s m = elim (lookup s m) [ none ↦ pos 0 | some q ↦ q ]

-- `if limit <= 0 || limit > len(items) { limit = len(items) }`
unfoldable pub effective_limit : ℤ → ℕ → ℕ
effective_limit limit n =
    if is_nonpos limit then n else if ltb n (pos_part limit) then n else pos_part limit

-- The quota of a source, which is the limit if none is set.
unfoldable pub effective_quota : ℕ → Dict ℤ → SourceId → ℕ
effective_quota limit quotas s =
    if is_nonpos (quota_at s quotas) then limit else pos_part (quota_at s quotas)

abbrev pub select_one :
    Candidate → List Candidate × List Candidate → List Candidate × List Candidate
select_one c (selected, deferred) = (c ∷ selected, deferred)

abbrev pub defer_one : Candidate → List Candidate × List Candidate → List Candidate × List Candidate
defer_one c (selected, deferred) = (selected, c ∷ deferred)

-- The first loop, after `chosen` candidates were selected.
unfoldable pub split : ℕ → Dict ℤ → List Candidate → Dict ℕ → ℕ → List Candidate × List Candidate
split limit quotas [] counts chosen = ([], [])
split limit quotas (c ∷ cs) counts chosen =
    elim (ltb (count_at c.source counts) (effective_quota limit quotas c.source)
      && ltb chosen limit) [
        | true ↦ select_one c (
            split limit quotas cs (insert c.source (count_at c.source counts + 1) counts)
              (chosen + 1))
        | false ↦ defer_one c (split limit quotas cs counts chosen)
      ]

-- The second loop fills up with what was deferred.
abbrev pub fill : ℕ → List Candidate × List Candidate → List Candidate
fill limit (selected, deferred) = selected ++ take (limit - length selected) deferred

unfoldable pub select_by_quota : ℤ → Dict ℤ → List Candidate → List Candidate
select_by_quota limit quotas items =
    let n = effective_limit limit (length items) in fill n (split n quotas items [] 0)

unfoldable pub select_plain : ℤ → List Candidate → List Candidate
select_plain limit items = take (effective_limit limit (length items)) items
