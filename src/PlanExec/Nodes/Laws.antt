-- ===== src/PlanExec/Nodes/Laws.antt =====
-- How the map of nodes reads after a write, and how its counts change.
use feishu_super_search.Prelude.{
  ◌+◌, ◌≤◌, String, ◌≡◌, refl, Bool, Option, none, some, [], ◌∷◌, map, ◌==◌, if◌then◌else◌, ap,
  count, length, arith, eq_iff,
}
use feishu_super_search.PlanExec.Nodes.{RuntimeNode, Nodes, find, update}

-- A write to a node leaves the plan's part of it alone.
abbrev pub KeepsNode : (RuntimeNode → RuntimeNode) → Type 0
KeepsNode f = (n : RuntimeNode) → (f n).node ≡ n.node

abbrev pub apply_some : (RuntimeNode → RuntimeNode) → Option RuntimeNode → Option RuntimeNode
apply_some f none = none
apply_some f (some n) = some (f n)

pub find-update :
    (id j : String) (f : RuntimeNode → RuntimeNode)
    → KeepsNode f
    → (ns : Nodes)
    → find j (update id f ns) ≡ (if id == j then apply_some f (find j ns) else find j ns)
unfolding find update
find-update id j f keeps [] = ground arith
find-update id j f keeps (n ∷ ns) = ground (
  arith,
  find-update id j f keeps ns,
  ap (λ x. x.id) (keeps n),
  eq_iff n.node.id id,
  eq_iff n.node.id j,
  eq_iff id j,
)

pub find-map :
    (j : String) (f : RuntimeNode → RuntimeNode)
    → KeepsNode f
    → (ns : Nodes) → find j (map f ns) ≡ apply_some f (find j ns)
unfolding find
find-map j f keeps [] = refl
find-map j f keeps (n ∷ ns) = ground (arith, find-map j f keeps ns, ap (λ x. x.id) (keeps n))

-- A node is found under its own id.
pub find-id : (j : String) (ns : Nodes) (n : RuntimeNode) → find j ns ≡ some n → n.node.id ≡ j
unfolding find
find-id j [] n h = cc
find-id j (x ∷ ns) n h =
    ground (arith, eq_iff x.node.id j, λ (p : find j ns ≡ some n). find-id j ns n p)

-- A write moves one node from one side of a count to the other, or leaves the count alone.
pub count-update :
    (p : RuntimeNode → Bool) (id : String) (f : RuntimeNode → RuntimeNode) (ns : Nodes)
    (n : RuntimeNode)
    → find id ns ≡ some n
    → count p (update id f ns) + (if p n then 1 else 0) ≡ count p ns + (if p (f n) then 1 else 0)
unfolding find update
count-update p id f [] n h = cc
count-update p id f (x ∷ ns) n h =
    ground (arith, λ (q : find id ns ≡ some n). count-update p id f ns n q)

pub length-update :
    (id : String) (f : RuntimeNode → RuntimeNode) (ns : Nodes) → length (update id f ns) ≡ length ns
unfolding update
length-update id f [] = refl
length-update id f (x ∷ ns) = ground (arith, length-update id f ns)

pub count-le-length : (p : RuntimeNode → Bool) (ns : Nodes) → count p ns ≤ length ns
count-le-length p [] = omega arith
count-le-length p (x ∷ ns) = ground (arith, count-le-length p ns)
