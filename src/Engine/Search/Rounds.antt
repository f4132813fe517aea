-- ===== src/Engine/Search/Rounds.antt =====
-- Engine.Search of internal/engine/search.go: the first wave and the loop over further pages. The
-- answers of the providers are given for each round and source. rankCandidates is an argument, since
-- the scores are not modelled; of what it returns, the loop reads the selection.
use feishu_super_search.Prelude.{
  String, ℕ, zero, suc, ◌-◌, ltz, pos, pos_part, Bool, true, false, not, ◌&&◌, none, some, List, [],
  ◌∷◌, ◌++◌, Dict, lookup, insert, sort_by, ◌==◌, if◌then◌else◌,
}
use feishu_super_search.Kernel.Refs.{SourceId}
use feishu_super_search.Kernel.Objects.{Candidate}
use feishu_super_search.Kernel.Requests.{SearchRequest}
use feishu_super_search.Kernel.Snapshots.{SourceRun, Continuation}
use feishu_super_search.Fusion.Discoveries.{text_less}
use feishu_super_search.Registry.{Registry}
use feishu_super_search.Engine.Search.{PageResult, Answers, search_one}
use feishu_super_search.Engine.Search.Runs.{
  collect_candidates, runs_from_results, frontiers_from_results, frontier_at, merge_runs,
  merge_frontiers, choose_next_sources,
}

-- The variables of Search that its loop changes.
pub record Progress : Type 0 where
  pub all : List Candidate
  pub runs : Dict SourceRun
  pub frontiers : Dict Continuation
  pub selected : List Candidate
  pub last : List PageResult

abbrev pub cursor_at : SourceId → Dict String → String
cursor_at s cursors = elim (lookup s cursors) [ none ↦ "" | some c ↦ c ]

-- `cursors[s] = frontiers[s].Cursor`
unfoldable pub cursors_of : List SourceId → Dict Continuation → Dict String → Dict String
cursors_of [] frontiers cursors = cursors
cursors_of (s ∷ sources) frontiers cursors =
    cursors_of sources frontiers (insert s (frontier_at s frontiers).cursor cursors)

abbrev pub no_results : List PageResult → Bool
no_results [] = true
no_results (_ ∷ _) = false

module _ (registry : Registry) (rank : SearchRequest → List Candidate → List Candidate)
    (answers : ℕ → SourceId → Answers) (req : SearchRequest) where
  unfoldable pub search_each : ℕ → List SourceId → Dict String → List PageResult
  search_each round [] cursors = []
  search_each round (s ∷ sources) cursors =
      search_one registry req (answers round s) s (cursor_at s cursors)
      ∷ search_each round sources cursors

  -- searchWave: the results of all goroutines, sorted by their source.
  unfoldable pub search_wave : ℕ → List SourceId → Dict String → List PageResult
  search_wave round sources cursors =
      sort_by (λ a b. text_less a.source b.source) (search_each round sources cursors)

  unfoldable pub start_search : List PageResult → Progress
  start_search first = record {
    all = collect_candidates first;
    runs = runs_from_results first [];
    frontiers = frontiers_from_results first [];
    selected = rank req (collect_candidates first);
    last = first;
  }

  unfoldable pub add_wave : Progress → List PageResult → Progress
  add_wave p next = record {
    all = p.all ++ collect_candidates next;
    runs = merge_runs p.runs next;
    frontiers = merge_frontiers p.frontiers next;
    selected = rank req (p.all ++ collect_candidates next);
    last = next;
  }

  unfoldable pub next_wave : ℕ → Progress → List PageResult
  next_wave round p =
      let more = choose_next_sources req p.selected p.last p.frontiers in
      search_wave round more (cursors_of more p.frontiers [])

  -- The loop, for at most so many further rounds; without sources the wave is empty too.
  unfoldable pub search_rounds : ℕ → ℕ → Progress → Progress
  search_rounds zero round p = p
  search_rounds (suc left) round p =
      let next = next_wave round p in
      let further = search_rounds left (suc round) (add_wave p next) in
      if no_results next then p else further

  -- How often the loop may run: from round 2 to MaxPagesPerSource.
  unfoldable pub further_rounds : ℕ
  further_rounds =
      if ltz (pos 1) req.budget.max_pages_per_source && not (req.strategy.pagination == "none")
      then pos_part req.budget.max_pages_per_source - 1
      else 0

  -- The first wave goes to `sources`, as orderedSources leaves them.
  unfoldable pub search_pages : List SourceId → Progress
  search_pages sources = search_rounds further_rounds 2 (start_search (search_wave 1 sources []))
