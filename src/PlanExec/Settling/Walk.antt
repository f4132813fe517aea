-- ===== src/PlanExec/Settling/Walk.antt =====
-- What the walk of Executor.run over the blocked nodes leaves as it is, and what a turn of it does.
use feishu_super_search.Prelude.{
  ℕ, String, ◌≡◌, refl, ◌∙◌, Bool, true, false, some, List, [], ◌∷◌, ◌++◌, contains, Option-cases,
  Bool-cases, inl, inr, if◌then◌else◌, arith, ◌==◌, eq_iff,
}
use feishu_super_search.Kernel.Plan.{NodeState, PlanNode}
use feishu_super_search.PlanExec.Rules.{is_terminal}
use feishu_super_search.PlanExec.Nodes.{RuntimeNode, find, state_at}
use feishu_super_search.PlanExec.Nodes.Laws.{find-update}
use feishu_super_search.PlanExec.Run.{Run, is_blocked, set_state, make_ready}
use feishu_super_search.PlanExec.Receive.{
  dependency_state, skip_blocked, skip_node, settle_blocked, settle, settle_all,
}

pub find-make_ready :
    (id : String) (priority : ℕ) (n : RuntimeNode) (r : Run)
    → find id r.nodes ≡ some n
    → find id (make_ready id priority r).nodes ≡ some (set_state NodeState.ready n)
unfolding make_ready
find-make_ready id priority n r found =
    ground (arith, eq_iff id id, find-update id id (set_state NodeState.ready) (λ m. refl) r.nodes)

pub find-skip_node :
    (id j : String) (n : RuntimeNode) (r : Run)
    → find j r.nodes ≡ some n
    → find j (skip_node id r).nodes ≡ some (if id == j then skip_blocked n else n)
unfolding skip_node
find-skip_node id j n r found = ground (arith, find-update id j skip_blocked (λ m. refl) r.nodes)

pub settle-by :
    (id : String) (n : RuntimeNode) (r : Run) (d : Bool × Bool)
    → find id r.nodes ≡ some n
    → is_blocked n.state ≡ true
    → dependency_state n.node n.node.depends_on r.nodes ≡ d
    → settle id r ≡ settle_blocked id n d r
unfolding settle
settle-by id n r d found waits e = rw (found, settle, waits, e) refl

settle_blocked-other :
    (id j : String) (n : RuntimeNode) (d : Bool × Bool) (r : Run)
    → (id == j) ≡ false
    → find j (settle_blocked id n d r).nodes ≡ find j r.nodes
unfolding settle_blocked skip_node make_ready
settle_blocked-other id j n (free, skip) r apart = ground (
  arith,
  apart,
  find-update id j skip_blocked (λ m. refl) r.nodes,
  find-update id j (set_state NodeState.ready) (λ m. refl) r.nodes,
)

-- A turn of the loop changes its own node alone.
pub settle-other :
    (id j : String) (r : Run) → (id == j) ≡ false → find j (settle id r).nodes ≡ find j r.nodes
unfolding settle
settle-other id j r apart = elim (Option-cases (find id r.nodes)) [
  | inl absent ↦ rw (absent, settle) refl
  | inr (n, found) ↦
      rw (found, settle)
        (ground (
          arith,
          settle_blocked-other id j n (dependency_state n.node n.node.depends_on r.nodes) r apart,
        ))
]

-- A turn changes no node that is not blocked.
pub settle-unblocked :
    (id j : String) (n : RuntimeNode) (r : Run)
    → find j r.nodes ≡ some n
    → is_blocked n.state ≡ false
    → find j (settle id r).nodes ≡ some n
unfolding settle
settle-unblocked id j n r found free = elim (Bool-cases (id == j)) [
  | inl same ↦
      let here : find id r.nodes ≡ some n = ground (arith, found, eq_iff id j, same) in
      rw (here, settle, free) found
  | inr apart ↦ settle-other id j r apart ∙ found
]

pub settle_all-unblocked :
    (order : List String) (j : String) (n : RuntimeNode) (r : Run)
    → find j r.nodes ≡ some n
    → is_blocked n.state ≡ false
    → find j (settle_all order r).nodes ≡ some n
unfolding settle_all
settle_all-unblocked [] j n r found free = found
settle_all-unblocked (id ∷ order) j n r found free =
    settle_all-unblocked order j n (settle id r) (settle-unblocked id j n r found free) free

pub settle_all-other :
    (order : List String) (j : String) (r : Run)
    → contains j order ≡ false
    → find j (settle_all order r).nodes ≡ find j r.nodes
unfolding settle_all
settle_all-other [] j r absent = refl
settle_all-other (id ∷ order) j r absent =
    settle_all-other order j (settle id r) (ground arith) ∙ settle-other id j r (ground arith)

pub settle_all-append :
    (xs ys : List String) (r : Run) → settle_all (xs ++ ys) r ≡ settle_all ys (settle_all xs r)
unfolding settle_all
settle_all-append [] ys r = refl
settle_all-append (x ∷ xs) ys r = settle_all-append xs ys (settle x r)

-- The walk changes no node that has ended.
state_at-settled :
    (order : List String) (d : String) (r : Run)
    → is_terminal (state_at r.nodes d) ≡ true
    → state_at (settle_all order r).nodes d ≡ state_at r.nodes d
state_at-settled order d r ended = elim (Option-cases (find d r.nodes)) [
  | inl absent ↦ absurd (ground arith)
  | inr (n, found) ↦ ground (arith, settle_all-unblocked order d n r found (ground arith))
]

-- A node that is to be skipped stays so during the walk.
pub lost-settled :
    (order : List String) (n : PlanNode) (ds : List String) (r : Run)
    → dependency_state n ds r.nodes ≡ (false, true)
    → dependency_state n ds (settle_all order r).nodes ≡ (false, true)
unfolding dependency_state
lost-settled order n [] r h = h
lost-settled order n (d ∷ ds) r h =
    ground (arith, state_at-settled order d r, lost-settled order n ds r)
