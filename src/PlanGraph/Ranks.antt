-- ===== src/PlanGraph/Ranks.antt =====
-- Ranks of the visited nodes, each above its dependencies, and how a finished node gets one.
use mathlib.Core.Path.{subst}
use feishu_super_search.Prelude.{
  ℕ, suc, ◌<◌, String, ◌≡◌, none, some, List, [], ◌∷◌, Dict, lookup, insert, lookup-insert, All,
  ◌==◌, if◌then◌else◌, arith, eq_iff, inl, inr, All-imp, Bool-cases, false,
}
use feishu_super_search.Kernel.Plan.{PlanNode}
use feishu_super_search.PlanGraph.{Mark, visiting, visited, Marks, dependencies}

module _ (nodes : Dict PlanNode) where
  -- The visited nodes have ranks below `bound`, each above those of its dependencies.
  abbrev pub Ranks : Marks → (String → ℕ) → ℕ → Type 0
  Ranks m rank bound =
      (j : String)
      → lookup j m ≡ some visited
      → (rank j < bound)
        × All (λ d. (lookup d m ≡ some visited) × (rank d < rank j)) (dependencies nodes j)

  abbrev pub IsRanked : Marks → Type 0
  IsRanked m = (rank : String → ℕ) × (bound : ℕ) × Ranks m rank bound

  -- The marks with one more, at a node that has none or is being visited.
  module _ (id : String) (m : Marks) where
    pub marked_self : (c : Mark) → lookup id (insert id c m) ≡ some c
    marked_self c = ground (arith, lookup-insert id id c m, eq_iff id id)

    marked_other :
        (c : Mark) (j : String) → (id == j) ≡ false → lookup j (insert id c m) ≡ lookup j m
    marked_other c j h = ground (arith, lookup-insert id j c m)

  pub started-ranks :
      (id : String) (m : Marks) → lookup id m ≡ none → IsRanked m → IsRanked (insert id visiting m)
  started-ranks id m fresh (rank, bound, h) = (
    rank,
    bound,
    λ j here.
        let old : lookup j m ≡ some visited =
          ground (arith, lookup-insert id j visiting m, eq_iff id j) in
        ((h j old).0, All-imp _ _ keep (dependencies nodes j) (h j old).1),
  )
    where
      keep :
          {j : String} (d : String)
          → (lookup d m ≡ some visited) × (rank d < rank j)
          → (lookup d (insert id visiting m) ≡ some visited) × (rank d < rank j)
      keep d (was, below) = (ground (arith, lookup-insert id d visiting m, eq_iff id d), below)

  -- Finishing a node gives it the next rank.
  pub rank_next : String → (String → ℕ) → ℕ → String → ℕ
  rank_next id rank bound j = if id == j then bound else rank j

  module _ (id : String) (m : Marks) (opened : lookup id m ≡ some visiting) (rank : String → ℕ)
      (bound : ℕ) (h : Ranks m rank bound) where
    finished_rank :
        (d : String)
        → lookup d m ≡ some visited
        → (lookup d (insert id visited m) ≡ some visited) × (rank_next id rank bound d ≡ rank d)
    unfolding rank_next
    finished_rank d was =
        (ground (arith, lookup-insert id d visited m), ground (arith, eq_iff id d))

    finished_own :
        (ds : List String)
        → All (λ d. lookup d m ≡ some visited) ds
        → All
            (λ d.
              (lookup d (insert id visited m) ≡ some visited) × (rank_next id rank bound d < bound))
            ds
    finished_own [] all = tt
    finished_own (d ∷ ds) all =
        let (there, same) = finished_rank d all.0 in
        ((there, omega (arith, (h d all.0).0, same)), finished_own ds all.1)

    finished_old :
        (j : String)
        → lookup j m ≡ some visited
        → (ds : List String) → All (λ d. (lookup d m ≡ some visited) × (rank d < rank j)) ds
        → All
            (λ d.
              (lookup d (insert id visited m) ≡ some visited)
              × (rank_next id rank bound d < rank_next id rank bound j))
            ds
    finished_old j was [] all = tt
    finished_old j was (d ∷ ds) all =
        let (there, same) = finished_rank d all.0.0 in
        let (_, own) = finished_rank j was in
        ((there, omega (arith, all.0.1, same, own)), finished_old j was ds all.1)

    rank_next_self : rank_next id rank bound id ≡ bound
    unfolding rank_next
    rank_next_self = ground (arith, eq_iff id id)

    pub finished-Ranks :
        All (λ d. lookup d m ≡ some visited) (dependencies nodes id)
        → Ranks (insert id visited m) (rank_next id rank bound) (suc bound)
    finished-Ranks deps j here = elim (Bool-cases (id == j)) [
      | inl same ↦
          let e : id ≡ j = (eq_iff id j).0 same in
          subst
            (λ k.
              (rank_next id rank bound k < suc bound)
              × All
                  (λ d.
                    (lookup d (insert id visited m) ≡ some visited)
                    × (rank_next id rank bound d < rank_next id rank bound k))
                  (dependencies nodes k))
            e (omega (arith, rank_next_self), rw rank_next_self (finished_own _ deps))
      | inr apart ↦
          let was : lookup j m ≡ some visited = ground (arith, lookup-insert id j visited m) in
          let (_, own) = finished_rank j was in
          (omega (arith, (h j was).0, own), finished_old j was _ (h j was).1)
    ]
