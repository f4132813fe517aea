-- ===== src/PlanGraph/Validate/Index.antt =====
-- The map of nodes that validatePlan fills.
use mathlib.Core.Path.{subst}
use feishu_super_search.Prelude.{
  String, ◌≡◌, refl, true, false, none, some, List, [], ◌∷◌, map, Dict, lookup, insert,
  lookup-insert, ◌==◌, ok, All, contains, arith, eq_iff, Bool-cases, Option-cases, inl, inr, ◌⊎◌,
}
use feishu_super_search.Kernel.Plan.{PlanNode}
use feishu_super_search.PlanGraph.Validate.{index_nodes}

abbrev pub ids : List PlanNode → List String
ids ns = map (λ n. n.id) ns

-- The ids are not empty, and no two are alike.
abbrev pub AreNamed : List PlanNode → Type 0
AreNamed [] = Unit
AreNamed (n ∷ ns) = ((n.id == "") ≡ false) × (contains n.id (ids ns) ≡ false) × AreNamed ns

-- No id of the list is a key yet.
abbrev pub AreFresh : Dict PlanNode → List PlanNode → Type 0
AreFresh m ns = All (λ n. lookup n.id m ≡ none) ns

pub record IsIndex (ns : List PlanNode) (m m' : Dict PlanNode) : Type 0 where
  pub keeps : (id : String) (n : PlanNode) → lookup id m ≡ some n → lookup id m' ≡ some n
  pub holds : All (λ n. lookup n.id m' ≡ some n) ns
  pub only :
      (id : String) (n : PlanNode)
      → lookup id m' ≡ some n
      → (lookup id m ≡ some n) ⊎ (contains id (ids ns) ≡ true)
  pub named : AreNamed ns
  pub fresh : AreFresh m ns

fresh-insert :
    (n : PlanNode) (m : Dict PlanNode) (ns : List PlanNode)
    → AreFresh (insert n.id n m) ns
    → AreFresh m ns × (contains n.id (ids ns) ≡ false)
fresh-insert n m [] h = (tt, refl)
fresh-insert n m (x ∷ ns) h =
    let (rest, apart) = fresh-insert n m ns h.1 in
    let e = lookup-insert n.id x.id n m in
    ((ground (arith, e, h.0), rest), ground (arith, e, h.0, eq_iff x.id n.id, eq_iff n.id x.id))

IsIndex-nil : (m : Dict PlanNode) → IsIndex [] m m
IsIndex-nil m = record {
  keeps = λ id n h. h;
  holds = tt;
  only = λ id n h. inl h;
  named = tt;
  fresh = tt;
}

module _ (n : PlanNode) (ns : List PlanNode) (m m' : Dict PlanNode) (named : (n.id == "") ≡ false)
    (new : lookup n.id m ≡ none) (rest : IsIndex ns (insert n.id n m) m') where
  IsIndex-cons : IsIndex (n ∷ ns) m m'
  IsIndex-cons =
      let (old, apart) = fresh-insert n m ns rest.fresh in
      record {
        keeps =
            λ id x h. rest.keeps id x (ground (arith, lookup-insert n.id id n m, eq_iff n.id id));
        holds = (
          rest.keeps n.id n (ground (arith, lookup-insert n.id n.id n m, eq_iff n.id n.id)),
          rest.holds,
        );
        only = λ id x h. ground (arith, rest.only id x h, lookup-insert n.id id n m);
        named = (named, apart, rest.named);
        fresh = (new, old);
      }

pub index_nodes-IsIndex :
    (ns : List PlanNode) (m m' : Dict PlanNode) → index_nodes ns m ≡ ok m' → IsIndex ns m m'
unfolding index_nodes
index_nodes-IsIndex [] m m' h = let e : m ≡ m' = cc in subst (IsIndex [] m) e (IsIndex-nil m)
index_nodes-IsIndex (n ∷ ns) m m' h = elim (Bool-cases (n.id == "")) [
  | inl unnamed ↦ absurd (ground arith)
  | inr named ↦ elim (Option-cases (lookup n.id m)) [
    | inr (x, old) ↦ absurd (ground arith)
    | inl new ↦
        IsIndex-cons n ns m m' named new
          (index_nodes-IsIndex ns (insert n.id n m) m' (ground arith))
  ]
]

insert-AreFresh :
    (n : PlanNode) (m : Dict PlanNode) (ns : List PlanNode)
    → AreFresh m ns
    → contains n.id (ids ns) ≡ false
    → AreFresh (insert n.id n m) ns
insert-AreFresh n m [] h apart = tt
insert-AreFresh n m (x ∷ ns) h apart = (
  ground (arith, lookup-insert n.id x.id n m, h.0, eq_iff x.id n.id, eq_iff n.id x.id),
  insert-AreFresh n m ns h.1 (ground arith),
)

-- Named nodes that are not keys yet are all indexed.
pub index_nodes-total :
    (ns : List PlanNode) (m : Dict PlanNode)
    → AreNamed ns
    → AreFresh m ns
    → (m' : Dict PlanNode) × (index_nodes ns m ≡ ok m')
unfolding index_nodes
index_nodes-total [] m named fresh = (m, refl)
index_nodes-total (n ∷ ns) m named fresh =
    let (m', e) =
      index_nodes-total ns (insert n.id n m) named.2 (insert-AreFresh n m ns fresh.1 named.1) in
    (m', ground (arith, e, named.0, fresh.0))

pub AreFresh-nil : (ns : List PlanNode) → AreFresh [] ns
unfolding lookup
AreFresh-nil [] = tt
AreFresh-nil (n ∷ ns) = (refl, AreFresh-nil ns)
