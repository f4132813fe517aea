-- ===== src/Engine/Search/Pages.antt =====
-- How many pages Search takes of each source.
use feishu_super_search.Prelude.{
  String, ℕ, zero, suc, ◌+◌, ◌≤◌, ◌≡◌, refl, Bool, true, ◌||◌, List, [], ◌∷◌, All, Dict, lookup,
  insert, lookup-insert, contains, count, sort_by, sort_into, is_positive, pos_part, ◌==◌, eq_iff,
  if◌then◌else◌, Bool-cases, inl, inr, arith,
}
use feishu_super_search.Kernel.Refs.{SourceId}
use feishu_super_search.Kernel.Objects.{Candidate}
use feishu_super_search.Kernel.Requests.{SearchRequest}
use feishu_super_search.Kernel.Snapshots.{SourceRun}
use feishu_super_search.Registry.{Registry}
use feishu_super_search.Fusion.Discoveries.{text_less}
use feishu_super_search.Engine.Access.{distinct_sources, ordered_sources}
use feishu_super_search.Engine.Search.{PageResult, Answers}
use feishu_super_search.Engine.Search.Runs.{
  run_at, merge_run, merge_runs, runs_from_results, choose_next_sources, open_sources,
  wanted_sources,
}
use feishu_super_search.Engine.Search.Coherent.{search_one-IsCoherent}
use feishu_super_search.Engine.Search.Rounds.{
  Progress, cursor_at, cursors_of, search_each, search_wave, start_search, add_wave, next_wave,
  no_results, search_rounds, further_rounds, search_pages,
}

count-sort_into {ℓ} :
    {A : Type ℓ} (p : A → Bool) (less : A → A → Bool) (x : A) (xs : List A)
    → count p (sort_into less x xs) ≡ count p (x ∷ xs)
unfolding sort_into
count-sort_into p less x [] = refl
count-sort_into p less x (y ∷ ys) = ground (arith, count-sort_into p less x ys)

count-sort_by {ℓ} :
    {A : Type ℓ} (p : A → Bool) (less : A → A → Bool) (xs : List A)
    → count p (sort_by less xs) ≡ count p xs
unfolding sort_by
count-sort_by p less [] = refl
count-sort_by p less (x ∷ xs) =
    ground (arith, count-sort_by p less xs, count-sort_into p less x (sort_by less xs))

sort_into-All {ℓ κ} :
    {A : Type ℓ} (P : A → Type κ) (less : A → A → Bool) (x : A) (xs : List A)
    → P x
    → All P xs
    → All P (sort_into less x xs)
unfolding sort_into
sort_into-All P less x [] h hs = (h, tt)
sort_into-All P less x (y ∷ ys) h hs = elim (Bool-cases (less y x)) [
  | inl before ↦ rw before (hs.0, sort_into-All P less x ys h hs.1)
  | inr after ↦ rw after (h, hs)
]

sort_by-All {ℓ κ} :
    {A : Type ℓ} (P : A → Type κ) (less : A → A → Bool) (xs : List A)
    → All P xs
    → All P (sort_by less xs)
unfolding sort_by
sort_by-All P less [] hs = tt
sort_by-All P less (x ∷ xs) hs =
    sort_into-All P less x (sort_by less xs) hs.0 (sort_by-All P less xs hs.1)

abbrev is_source : SourceId → SourceId → Bool
is_source s x = x == s

abbrev comes_from : SourceId → PageResult → Bool
comes_from s r = r.source == s

distinct_sources-count :
    (s : SourceId) (sources seen : List SourceId)
    → count (is_source s) (distinct_sources sources seen) ≤ (if contains s seen then 0 else 1)
unfolding distinct_sources
distinct_sources-count s [] seen = omega arith
distinct_sources-count s (x ∷ sources) seen = elim (Bool-cases (x == "" || contains x seen)) [
  | inl skipped ↦ rw (distinct_sources, skipped) (distinct_sources-count s sources seen)
  | inr fresh ↦
      rw (distinct_sources, fresh)
        (ground (arith, distinct_sources-count s sources (x ∷ seen), eq_iff x s, fresh))
]

ordered_sources-count :
    (s : SourceId) (sources : List SourceId) → count (is_source s) (ordered_sources sources) ≤ 1
unfolding ordered_sources
ordered_sources-count s sources = omega (
  arith,
  count-sort_by (is_source s) text_less (distinct_sources sources []),
  distinct_sources-count s sources [],
)

choose_next_sources-count :
    (s : SourceId) (req : SearchRequest) (p : Progress)
    → count (is_source s) (choose_next_sources req p.selected p.last p.frontiers) ≤ 1
unfolding choose_next_sources
choose_next_sources-count s req p =
    elim (Bool-cases (req.strategy.pagination == "fixed" || req.strategy.pagination == "all")) [
      | inl fixed ↦
          rw (choose_next_sources, fixed) (ordered_sources-count s (open_sources p.frontiers))
      | inr adaptive ↦
          rw (choose_next_sources, adaptive)
            (ordered_sources-count s (wanted_sources req p.selected p.frontiers p.last))
    ]

abbrev TakesOne : PageResult → Type 0
TakesOne r = r.run.pages ≤ 1

run_at-insert :
    (s key : SourceId) (r : SourceRun) (m : Dict SourceRun)
    → run_at s (insert key r m) ≡ (if key == s then r else run_at s m)
unfolding run_at
run_at-insert s key r m = ground (arith, lookup-insert key s r m)

merge_runs-pages :
    (s : SourceId) (results : List PageResult) (m : Dict SourceRun)
    → All TakesOne results
    → (run_at s (merge_runs m results)).pages ≤ (run_at s m).pages + count (comes_from s) results
unfolding merge_runs merge_run
merge_runs-pages s [] m h = omega arith
merge_runs-pages s (r ∷ results) m h = ground (
  arith,
  merge_runs-pages s results (insert r.source (merge_run r (run_at r.source m)) m) h.1,
  run_at-insert s r.source (merge_run r (run_at r.source m)) m,
  eq_iff r.source s,
  h.0,
)

runs_from_results-pages :
    (s : SourceId) (results : List PageResult) (m : Dict SourceRun)
    → All TakesOne results
    → (run_at s m).pages ≤ 1
    → (run_at s (runs_from_results results m)).pages ≤ 1
unfolding runs_from_results
runs_from_results-pages s [] m h one = one
runs_from_results-pages s (r ∷ results) m h one =
    runs_from_results-pages s results (insert r.source r.run m) h.1
      (ground (arith, run_at-insert s r.source r.run m, h.0, one))

module _ (registry : Registry) (rank : SearchRequest → List Candidate → List Candidate)
    (answers : ℕ → SourceId → Answers) (req : SearchRequest) where
  search_each-TakesOne :
      (round : ℕ) (sources : List SourceId) (cursors : Dict String)
      → All TakesOne (search_each registry rank answers req round sources cursors)
  unfolding search_each
  search_each-TakesOne round [] cursors = tt
  search_each-TakesOne round (s ∷ sources) cursors = (
    (search_one-IsCoherent registry req (answers round s) s (cursor_at s cursors)).one_page,
    search_each-TakesOne round sources cursors,
  )

  search_each-count :
      (s : SourceId) (round : ℕ) (sources : List SourceId) (cursors : Dict String)
      → count (comes_from s) (search_each registry rank answers req round sources cursors)
        ≡ count (is_source s) sources
  unfolding search_each
  search_each-count s round [] cursors = refl
  search_each-count s round (x ∷ sources) cursors =
      let coherent = search_one-IsCoherent registry req (answers round x) x (cursor_at x cursors) in
      rw (coherent.same_source.0, search_each-count s round sources cursors) refl

  search_wave-TakesOne :
      (round : ℕ) (sources : List SourceId) (cursors : Dict String)
      → All TakesOne (search_wave registry rank answers req round sources cursors)
  unfolding search_wave
  search_wave-TakesOne round sources cursors =
      sort_by-All TakesOne _ _ (search_each-TakesOne round sources cursors)

  next_wave-count :
      (s : SourceId) (round : ℕ) (p : Progress)
      → count (comes_from s) (next_wave registry rank answers req round p) ≤ 1
  unfolding next_wave search_wave
  next_wave-count s round p =
      let more = choose_next_sources req p.selected p.last p.frontiers in
      let cursors = cursors_of more p.frontiers [] in
      omega (
        arith,
        count-sort_by (comes_from s) (λ (a b : PageResult). text_less a.source b.source)
            (search_each registry rank answers req round more cursors),
        search_each-count s round more cursors,
        choose_next_sources-count s req p,
      )

  next_wave-TakesOne :
      (round : ℕ) (p : Progress) → All TakesOne (next_wave registry rank answers req round p)
  unfolding next_wave
  next_wave-TakesOne round p = search_wave-TakesOne round _ _

  search_rounds-pages :
      (s : SourceId) (left round : ℕ) (p : Progress)
      → (run_at s (search_rounds registry rank answers req left round p).runs).pages
        ≤ (run_at s p.runs).pages + left
  unfolding search_rounds
  search_rounds-pages s zero round p = omega arith
  search_rounds-pages s (suc left) round p =
      elim (Bool-cases (no_results (next_wave registry rank answers req round p))) [
        | inl ended ↦ rw (search_rounds, ended) (omega arith)
        | inr more ↦
            let next = next_wave registry rank answers req round p in
            let step : (run_at s (add_wave registry rank answers req p next).runs).pages
                ≤ (run_at s p.runs).pages + count (comes_from s) next =
              unfold add_wave in merge_runs-pages s next p.runs (next_wave-TakesOne round p) in
            rw (search_rounds, more)
              (omega (
                arith,
                step,
                search_rounds-pages s left (suc round) (add_wave registry rank answers req p next),
                next_wave-count s round p,
              ))
      ]

  further_rounds-lt :
      is_positive req.budget.max_pages_per_source ≡ true
      → suc (further_rounds registry rank answers req) ≤ pos_part req.budget.max_pages_per_source
  unfolding further_rounds
  further_rounds-lt h = ground arith

  start_search-pages :
      (s : SourceId) (first : List PageResult)
      → All TakesOne first
      → (run_at s (start_search registry rank answers req first).runs).pages ≤ 1
  unfolding start_search
  start_search-pages s first h =
      runs_from_results-pages s first [] h (unfold run_at lookup in omega arith)

  -- If MaxPagesPerSource is positive, then Search records for no source more pages than that,
  -- whatever the providers and the ledger answer, however the candidates are ranked, and under
  -- every kind of pagination.
  pub search_pages-le :
      (s : SourceId) (sources : List SourceId)
      → is_positive req.budget.max_pages_per_source ≡ true
      → (run_at s (search_pages registry rank answers req sources).runs).pages
        ≤ pos_part req.budget.max_pages_per_source
  unfolding search_pages
  search_pages-le s sources h =
      let first = search_wave registry rank answers req 1 sources [] in
      omega (
        arith,
        search_rounds-pages s (further_rounds registry rank answers req) 2
            (start_search registry rank answers req first),
        start_search-pages s first (search_wave-TakesOne 1 sources []),
        further_rounds-lt h,
      )
