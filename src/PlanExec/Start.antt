-- ===== src/PlanExec/Start.antt =====
-- The state before the first round.
use feishu_super_search.Prelude.{ℕ, String, ◌≡◌, refl, ◌∙◌, List, [], ◌∷◌, map, arith, count, ap}
use feishu_super_search.Kernel.Plan.{PlanNode, RetrievalPlan}
use feishu_super_search.PlanExec.Run.{Run}
use feishu_super_search.PlanExec.Loop.{initial, start_of, enqueue, enqueue_all, empty_run}
use feishu_super_search.PlanExec.Counts.{Counts, runs, ended}

-- Filling the heap touches the heap and the numbering alone.
abbrev SameBut : Run → Run → Type 0
SameBut r s =
    (r.nodes ≡ s.nodes)
    × (r.running ≡ s.running)
    × (r.terminal ≡ s.terminal)
    × (r.session_id ≡ s.session_id)

enqueue-SameBut : (id : String) (r : Run) → SameBut (enqueue id r) r
unfolding enqueue
enqueue-SameBut id r = ground arith

enqueue_all-SameBut : (ids : List String) (r : Run) → SameBut (enqueue_all ids r) r
unfolding enqueue_all
enqueue_all-SameBut [] r = (refl, refl, refl, refl)
enqueue_all-SameBut (id ∷ ids) r =
    let (a, b, c, d) = enqueue_all-SameBut ids (enqueue id r) in
    let (e, f, g, h) = enqueue-SameBut id r in (a ∙ e, b ∙ f, c ∙ g, d ∙ h)

pub nodes-initial :
    (ids : List String) (plan : RetrievalPlan) → (initial ids plan).nodes ≡ map start_of plan.nodes
unfolding initial
nodes-initial ids plan = (enqueue_all-SameBut ids (empty_run plan)).0

count-start :
    (ns : List PlanNode) → (count runs (map start_of ns) ≡ 0) × (count ended (map start_of ns) ≡ 0)
count-start [] = (refl, refl)
count-start (n ∷ ns) = ground (arith, count-start ns)

pub initial-Counts :
    (concurrency : ℕ) (ids : List String) (plan : RetrievalPlan)
    → Counts concurrency (initial ids plan)
unfolding initial
initial-Counts concurrency ids plan =
    let (nodes, running, terminal, session) = enqueue_all-SameBut ids (empty_run plan) in
    let (none_run, none_ended) = count-start plan.nodes in
    record {
      running = running ∙ ground (arith, none_run, ap (count runs) nodes);
      terminal = terminal ∙ ground (arith, none_ended, ap (count ended) nodes);
      bounded = omega (arith, running);
      serial = λ _. omega (arith, running);
    }
