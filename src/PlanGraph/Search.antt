-- ===== src/PlanGraph/Search.antt =====
-- The searches for cycles that end well, and the ranks that they give the nodes.
use mathlib.Core.Path.{subst}
use feishu_super_search.Prelude.{
  ℕ, zero, suc, String, ◌≡◌, refl, none, some, List, [], ◌∷◌, Dict, lookup, insert, lookup-insert,
  All, arith, eq_iff, inl, inr, Option-cases, sym, ◌∙◌,
}
use feishu_super_search.Kernel.Plan.{PlanNode}
use feishu_super_search.PlanGraph.{
  visiting, visited, Marks, Visit, done, cycle, fuel, dependencies, and_then, visit_each,
  mark_visited, visit,
}
use feishu_super_search.PlanGraph.Ranks.{
  IsRanked, marked_self, started-ranks, rank_next, finished-Ranks,
}

module _ (nodes : Dict PlanNode) where
  -- What a search does to the marks: it finishes nodes, and starts none without finishing it.
  pub record Extends (m m' : Marks) : Type 0 where
    pub keeps_visited : (j : String) → lookup j m ≡ some visited → lookup j m' ≡ some visited
    pub keeps_visiting : (j : String) → lookup j m ≡ some visiting → lookup j m' ≡ some visiting
    pub opens_none : (j : String) → lookup j m' ≡ some visiting → lookup j m ≡ some visiting
    pub ranks : IsRanked nodes m → IsRanked nodes m'

  Extends-refl : (m : Marks) → Extends m m
  Extends-refl m = record {
    keeps_visited = λ j h. h;
    keeps_visiting = λ j h. h;
    opens_none = λ j h. h;
    ranks = λ r. r;
  }

  pub Extends-trans : {a b c : Marks} → Extends a b → Extends b c → Extends a c
  Extends-trans f g = record {
    keeps_visited = λ j h. g.keeps_visited j (f.keeps_visited j h);
    keeps_visiting = λ j h. g.keeps_visiting j (f.keeps_visiting j h);
    opens_none = λ j h. f.opens_none j (g.opens_none j h);
    ranks = λ r. g.ranks (f.ranks r);
  }

  and_then-eq-done :
      (v : Visit) (f : Marks → Visit) (m : Marks)
      → and_then v f ≡ done m
      → (a : Marks) × (v ≡ done a) × (f a ≡ done m)
  and_then-eq-done (done a) f m h = (a, refl, h)
  and_then-eq-done (cycle id) f m h = cc
  and_then-eq-done fuel f m h = cc

  -- What a call of `visit` promises when it ends well.
  abbrev pub Finishes : (String → Marks → Visit) → Type 0
  Finishes v =
      (id : String) (m m' : Marks) → v id m ≡ done m' → Extends m m' × (lookup id m' ≡ some visited)

  visited-All_mono :
      (m m' : Marks)
      → Extends m m'
      → (ds : List String) → All (λ d. lookup d m ≡ some visited) ds
      → All (λ d. lookup d m' ≡ some visited) ds
  visited-All_mono m m' e [] h = tt
  visited-All_mono m m' e (d ∷ ds) h = (e.keeps_visited d h.0, visited-All_mono m m' e ds h.1)

  pub visit_each-Finishes :
      (v : String → Marks → Visit)
      → Finishes v
      → (ds : List String) (m m' : Marks) → visit_each v ds m ≡ done m'
      → Extends m m' × All (λ d. lookup d m' ≡ some visited) ds
  unfolding visit_each
  visit_each-Finishes v fin [] m m' h =
      let e : m ≡ m' = cc in (subst (Extends m) e (Extends-refl m), tt)
  visit_each-Finishes v fin (d ∷ ds) m m' h =
      let (a, first, rest) = and_then-eq-done (v d m) (visit_each v ds) m' h in
      let (e, here) = fin d m a first in
      let (e', there) = visit_each-Finishes v fin ds a m' rest in
      (Extends-trans e e', (e'.keeps_visited d here, there))

  module _ (id : String) (m a : Marks) (fresh : lookup id m ≡ none)
      (e : Extends (insert id visiting m) a)
      (deps : All (λ d. lookup d a ≡ some visited) (dependencies nodes id)) where
    still_open : lookup id a ≡ some visiting
    still_open = e.keeps_visiting id (marked_self nodes id m visiting)

    finished-Extends : Extends m (insert id visited a)
    finished-Extends = record {
      keeps_visited = λ j h. ground (
        arith,
        e.keeps_visited j,
        lookup-insert id j visiting m,
        lookup-insert id j visited a,
        eq_iff id j,
      );
      keeps_visiting = λ j h. ground (
        arith,
        e.keeps_visiting j,
        lookup-insert id j visiting m,
        lookup-insert id j visited a,
        eq_iff id j,
      );
      opens_none = λ j h. ground (
        arith,
        e.opens_none j,
        lookup-insert id j visiting m,
        lookup-insert id j visited a,
        eq_iff id j,
      );
      ranks = λ r.
          let (rank, bound, h) = e.ranks (started-ranks nodes id m fresh r) in
          (
            rank_next nodes id rank bound,
            suc bound,
            finished-Ranks nodes id a still_open rank bound h deps,
          );
    }

  module _ (k : ℕ) (id : String) (m : Marks) where
    abbrev pub search_below : Visit
    search_below = visit_each (visit nodes k) (dependencies nodes id) (insert id visiting m)

    pub visit-fresh : lookup id m ≡ none → visit nodes (suc k) id m ≡ mark_visited id search_below
    unfolding visit
    visit-fresh h = rw (h, visit)

    pub visit-visiting : lookup id m ≡ some visiting → visit nodes (suc k) id m ≡ cycle id
    unfolding visit
    visit-visiting h = rw (h, visit)

    pub visit-visited : lookup id m ≡ some visited → visit nodes (suc k) id m ≡ done m
    unfolding visit
    visit-visited h = rw (h, visit)

  -- A search from one node that ends well visits it, and keeps the visited nodes ranked.
  pub visit-Finishes : (k : ℕ) → Finishes (visit nodes k)
  unfolding visit
  visit-Finishes zero id m m' h = cc
  visit-Finishes (suc k) id m m' h = elim (Option-cases (lookup id m)) [
    | inl fresh ↦
        let (a, below, last) =
          and_then-eq-done (search_below k id m) (λ m. done (insert id visited m)) m'
            (sym (visit-fresh k id m fresh) ∙ h) in
        let (e, deps) =
          visit_each-Finishes (visit nodes k) (visit-Finishes k) (dependencies nodes id)
            (insert id visiting m) a below in
        let same : insert id visited a ≡ m' = cc in
        subst (λ x. Extends m x × (lookup id x ≡ some visited)) same
          (finished-Extends id m a fresh e deps, marked_self nodes id a visited)
    | inr (visiting, here) ↦ absurd (cc (visit-visiting k id m here))
    | inr (visited, here) ↦
        let same : m ≡ m' = cc (visit-visited k id m here) in
        subst (λ x. Extends m x × (lookup id x ≡ some visited)) same (Extends-refl m, here)
  ]
