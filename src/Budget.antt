-- ===== src/Budget.antt =====
-- internal/budget/ledger.go: the ledger of calls, fetches, expansions and bytes of one request or
-- plan. Every method holds the mutex for its whole body, so a method is one step on the state; the
-- clock reading `now` of `time.Now()` is its argument.
pub mod Bounds
pub mod Ledger
pub mod Accounting
mod Examples
use feishu_super_search.Prelude.{
  ℕ, ◌+◌, ◌-◌, Bool, true, false, not, ◌&&◌, ◌||◌, List, [], ◌∷◌, ltb, eqb, if◌then◌else◌, ℤ, pos,
  ltz, is_neg, is_nonpos, pos_part, neg_part, add64, scale64,
}
use feishu_super_search.Kernel.Limits.{SearchBudget, with_defaults, BudgetState, CostEstimate}

-- `now.Add(d)` for a duration in nanoseconds.
abbrev pub add_time : ℕ → ℤ → ℕ
add_time now d = now + pos_part d - neg_part d

-- New: the state of a fresh ledger; the deadline is reckoned in nanoseconds.
unfoldable pub new : ℕ → SearchBudget → BudgetState
unfolding with_defaults scale64
new now spec =
    let b = with_defaults spec in
    record {
      max_calls = b.max_calls;
      calls_used = pos 0;
      max_fetches = b.max_fetches;
      fetches_used = pos 0;
      max_expanded = b.max_expanded_nodes;
      expanded_used = pos 0;
      max_bytes = b.max_bytes;
      bytes_used = pos 0;
      deadline = add_time now (scale64 b.deadline_ms 1000000);
    }

unfoldable pub expired : ℕ → BudgetState → Bool
expired now s = not (eqb s.deadline 0) && ltb s.deadline now

-- The guard `used + cost > max`, with the wrap-around of the sum.
abbrev pub exceeds : ℤ → ℤ → ℤ → Bool
exceeds used cost max = ltz max (add64 used cost)

-- The tests under the lock.
unfoldable pub fits : ℕ → CostEstimate → BudgetState → Bool
fits now cost s = not (
    expired now s
    || exceeds s.calls_used cost.calls s.max_calls
    || exceeds s.fetches_used cost.fetches s.max_fetches
    || exceeds s.expanded_used cost.expanded s.max_expanded
    || exceeds s.bytes_used cost.bytes s.max_bytes)

unfoldable pub has_negative : CostEstimate → Bool
has_negative cost =
    is_neg cost.calls || is_neg cost.fetches || is_neg cost.expanded || is_neg cost.bytes

unfoldable pub charge : CostEstimate → BudgetState → BudgetState
charge cost s = record s {
  calls_used = add64 s.calls_used cost.calls;
  fetches_used = add64 s.fetches_used cost.fetches;
  expanded_used = add64 s.expanded_used cost.expanded;
  bytes_used = add64 s.bytes_used cost.bytes;
}

unfoldable pub reserve : ℕ → CostEstimate → BudgetState → BudgetState × Bool
reserve now cost s =
    if has_negative cost
    then (s, false)
    else if fits now cost s
    then (charge cost s, true)
    else (s, false)

abbrev pub no_cost : CostEstimate
no_cost = record { calls = pos 0; fetches = pos 0; expanded = pos 0; bytes = pos 0 }

unfoldable pub reserve_call : ℕ → BudgetState → BudgetState × Bool
reserve_call now s = reserve now (record no_cost { calls = pos 1 }) s

unfoldable pub reserve_fetch : ℕ → ℤ → BudgetState → BudgetState × Bool
reserve_fetch now n s =
    if is_nonpos n then (s, true) else reserve now (record no_cost { fetches = n }) s

unfoldable pub reserve_expand : ℕ → ℤ → BudgetState → BudgetState × Bool
reserve_expand now n s =
    if is_nonpos n then (s, true) else reserve now (record no_cost { expanded = n }) s

unfoldable pub add_bytes : ℕ → ℤ → BudgetState → BudgetState × Bool
add_bytes now n s =
    if is_nonpos n
    then (s, true)
    else if expired now s || exceeds s.bytes_used n s.max_bytes
    then (s, false)
    else (record s { bytes_used = add64 s.bytes_used n }, true)

-- One call on the ledger, as the engine makes it.
pub data Call : Type 0 where
  reserving : CostEstimate → Call
  calling : Call
  fetching expanding adding_bytes : ℤ → Call

unfoldable pub run_call : ℕ → Call → BudgetState → BudgetState × Bool
run_call now (reserving c) s = reserve now c s
run_call now calling s = reserve_call now s
run_call now (fetching n) s = reserve_fetch now n s
run_call now (expanding n) s = reserve_expand now n s
run_call now (adding_bytes n) s = add_bytes now n s

-- The calls of all goroutines in the order in which they take the mutex, each with its clock.
unfoldable pub run_calls : List (ℕ × Call) → BudgetState → BudgetState
run_calls [] s = s
run_calls ((now, c) ∷ rest) s = run_calls rest (run_call now c s).0
