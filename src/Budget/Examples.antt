-- ===== src/Budget/Examples.antt =====
-- Runs of the ledger and applications of its theorems.
use feishu_super_search.Prelude.{ℕ, ◌≡◌, refl, List, [], ◌∷◌, arith, pos, negsuc, add64}
use feishu_super_search.Kernel.Limits.{SearchBudget, BudgetState}
use feishu_super_search.Budget.{
  Call, reserving, calling, adding_bytes, run_call, run_calls, reserve, reserve_call, reserve_fetch,
  reserve_expand, add_bytes, expired, fits, charge, no_cost, has_negative, new,
}
use feishu_super_search.Budget.Bounds.{IsWithin, run_calls-IsWithin}
use feishu_super_search.Budget.Ledger.{used, ◌⊕◌, IsSane, accepts, reserve-accepts}
use feishu_super_search.Budget.Accounting.{granted_in_all, run_calls-used}

abbrev spec : SearchBudget
spec = record {
  deadline_ms = pos 0;
  max_calls = pos 2;
  max_pages_per_source = negsuc 0;
  max_fetches = pos 3;
  max_expanded_nodes = pos 0;
  max_bytes = pos 100;
}

abbrev start : BudgetState
start = record {
  max_calls = pos 2;
  calls_used = pos 0;
  max_fetches = pos 3;
  fetches_used = pos 0;
  max_expanded = pos 20;
  expanded_used = pos 0;
  max_bytes = pos 100;
  bytes_used = pos 0;
  deadline = 8000000005;
}

new-spec : new 5 spec ≡ start
unfolding new
new-spec = refl

abbrev schedule : List (ℕ × Call)
schedule =
    (6, calling)
    ∷ (7, reserving (record { calls = pos 1; fetches = pos 3; expanded = pos 0; bytes = pos 0 }))
    ∷ (8, calling)
    ∷ (9, adding_bytes (pos 70))
    ∷ (9, adding_bytes (pos 31))
    ∷ (9000000000, adding_bytes (pos 1))
    ∷ []

program : Unit {0}
unfolding run_calls run_call reserve_call reserve_fetch reserve_expand reserve add_bytes charge fits
    expired has_negative add64
program = tt

run-schedule :
    run_calls schedule start
    ≡ record start { calls_used = pos 2; fetches_used = pos 3; bytes_used = pos 70 }
unfolding program
run-schedule = refl

run_calls-IsWithin_example : IsWithin (run_calls schedule start)
run_calls-IsWithin_example = run_calls-IsWithin schedule start (omega arith)

start-IsSane : IsSane start
start-IsSane = omega arith

run_calls-used_example :
    used (run_calls schedule start) ≡ used start ⊕ granted_in_all schedule start
run_calls-used_example = run_calls-used schedule start start-IsSane (omega arith)

reserve-accepts_example :
    (reserve 6 (record no_cost { fetches = pos 4 }) start).1
    ≡ accepts 6 (record no_cost { fetches = pos 4 }) start
reserve-accepts_example =
    reserve-accepts 6 (record no_cost { fetches = pos 4 }) start start-IsSane (omega arith)
