-- ===== src/PlanExec/Execute/Items.antt =====
-- The items that a map_fetch node fetches.
use feishu_super_search.Prelude.{
  zero, suc, pos, negsuc, if◌then◌else◌, ltb, take, map, sym, ap, ◌∙◌, Bool-cases, inl, inr, String,
  ℕ, ℤ, ◌≤◌, ◌≡◌, refl, false, List, [], ◌∷◌, Dict, All, length, eqb, pos_part, arith,
}
use feishu_super_search.Kernel.Refs.{ObjectRef}
use feishu_super_search.Kernel.Objects.{Candidate}
use feishu_super_search.Kernel.Plan.{PlanNode, NodeResult}
use feishu_super_search.Kernel.Requests.{FetchRequest}
use feishu_super_search.PlanExec.Execute.{
  MapFetchRequest, default_projection, or_bits, own_projection, fetch_limit, fetch_top,
  projection_for, fetch_items, map_fetch_items, dep_candidates, at_most,
}

abbrev pub HasProjection : FetchRequest → Type 0
HasProjection i = eqb i.projection 0 ≡ false

default_projection-given : (kind : String) → eqb (default_projection kind) 0 ≡ false
unfolding default_projection
default_projection-given kind = ground arith

or_bits-given : (p d : ℕ) → eqb d 0 ≡ false → eqb (or_bits p d) 0 ≡ false
or_bits-given p d h = ground (arith, h)

fetch_items-HasProjection :
    (r : MapFetchRequest) (cs : List Candidate) → All HasProjection (fetch_items r cs)
unfolding fetch_items projection_for
fetch_items-HasProjection r [] = tt
fetch_items-HasProjection r (c ∷ cs) = (
  or_bits-given (or_bits (own_projection r c.kind) r.default_projection) (default_projection c.kind)
      (default_projection-given c.kind),
  fetch_items-HasProjection r cs,
)

-- The cap of a node: that of its request if it is positive, else that of the node if it is
-- positive, else 8; a positive `top_k` of the request that is smaller goes before it.
abbrev pub cap : (request node : ℤ) → ℕ
cap (pos (suc m)) node = suc m
cap request (pos (suc m)) = suc m
cap request node = 8

abbrev pub least : ℕ → ℕ → ℕ
least m n = if ltb m n then m else n

abbrev pub top_cap : (top_k : ℤ) → ℕ → ℕ
top_cap (pos (suc k)) most = least (suc k) most
top_cap top_k most = most

fetch_limit-cap :
    (node : PlanNode) (r : MapFetchRequest) (asked given : ℤ)
    → r.max_items ≡ asked
    → node.max_items ≡ given
    → pos_part (fetch_limit node r) ≡ cap asked given
unfolding fetch_limit
fetch_limit-cap node r (pos zero) (pos zero) ha hg = ground (arith, ha, hg)
fetch_limit-cap node r (pos zero) (pos (suc n)) ha hg = ground (arith, ha, hg)
fetch_limit-cap node r (pos zero) (negsuc n) ha hg = ground (arith, ha, hg)
fetch_limit-cap node r (pos (suc m)) given ha hg = ground (arith, ha, hg)
fetch_limit-cap node r (negsuc m) (pos zero) ha hg = ground (arith, ha, hg)
fetch_limit-cap node r (negsuc m) (pos (suc n)) ha hg = ground (arith, ha, hg)
fetch_limit-cap node r (negsuc m) (negsuc n) ha hg = ground (arith, ha, hg)

-- `fetch_limit` is positive, and so is a `top_k` that replaces it.
fetch_top-top_cap :
    (node : PlanNode) (r : MapFetchRequest) (top_k : ℤ)
    → r.top_k ≡ top_k
    → pos_part (fetch_top node r) ≡ top_cap top_k (cap r.max_items node.max_items)
unfolding fetch_top
fetch_top-top_cap node r (pos zero) h =
    ground (arith, h, fetch_limit-cap node r r.max_items node.max_items refl refl)
fetch_top-top_cap node r (pos (suc k)) h =
    ground (arith, h, fetch_limit-cap node r r.max_items node.max_items refl refl)
fetch_top-top_cap node r (negsuc k) h =
    ground (arith, h, fetch_limit-cap node r r.max_items node.max_items refl refl)

refs-fetch_items :
    (r : MapFetchRequest) (cs : List Candidate)
    → map (λ (i : FetchRequest). i.ref) (fetch_items r cs) ≡ map (λ (c : Candidate). c.ref) cs
unfolding fetch_items
refs-fetch_items r [] = refl
refs-fetch_items r (c ∷ cs) = ap (λ (refs : List ObjectRef). c.ref ∷ refs) (refs-fetch_items r cs)

take-all : (n : ℕ) (cs : List Candidate) → length cs ≤ n → take n cs ≡ cs
take-all zero [] h = refl
take-all zero (c ∷ cs) h = absurd (omega arith)
take-all (suc n) [] h = refl
take-all (suc n) (c ∷ cs) h = ap (λ (l : List Candidate). c ∷ l) (take-all n cs (omega arith))

at_most-take : (n : ℤ) (cs : List Candidate) → at_most n cs ≡ take (pos_part n) cs
at_most-take n cs = elim (Bool-cases (ltb (pos_part n) (length cs))) [
  | inl long ↦ rw long refl
  | inr short ↦ rw short (sym (take-all (pos_part n) cs (ground arith)))
]

-- A map_fetch node fetches the objects of the first candidates of its dependencies, in their
-- order, as many as its cap says: the max_items of its request if it is positive, else that of
-- the node if it is positive, else 8, or the top_k of the request if it is positive and
-- smaller; or all candidates if they are fewer. It asks for at least one projection of each.
pub map_fetch_items-take :
    (node : PlanNode) (r : MapFetchRequest) (deps : Dict NodeResult)
    → (map (λ (i : FetchRequest). i.ref) (map_fetch_items node r deps)
        ≡ map
            (λ (c : Candidate). c.ref)
            (take (top_cap r.top_k (cap r.max_items node.max_items)) (dep_candidates deps)))
      × All HasProjection (map_fetch_items node r deps)
unfolding map_fetch_items
map_fetch_items-take node r deps =
    let top = at_most (fetch_top node r) (dep_candidates deps) in
    (
      refs-fetch_items r top
          ∙ ap (map (λ (c : Candidate). c.ref)) (
              at_most-take (fetch_top node r) (dep_candidates deps)
              ∙ ap (λ (n : ℕ). take n (dep_candidates deps))
                  (fetch_top-top_cap node r r.top_k refl)),
      fetch_items-HasProjection r top,
    )
