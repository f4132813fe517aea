-- ===== src/Budget/Bounds.antt =====
-- The calls of internal/budget/ledger.go against the limits of the ledger.
use feishu_super_search.Prelude.{ℕ, ◌≡◌, true, false, List, [], ◌∷◌, arith, ◌≤ℤ◌, ℤ}
use feishu_super_search.Kernel.Limits.{BudgetState, CostEstimate}
use feishu_super_search.Budget.{
  Call, reserving, calling, fetching, expanding, adding_bytes, run_call, run_calls, reserve,
  reserve_call, reserve_fetch, reserve_expand, add_bytes, fits, charge, no_cost,
}

-- No meter stands above its limit.
pub record IsWithin (s : BudgetState) : Type 0 where
  pub calls : s.calls_used ≤ℤ s.max_calls
  pub fetches : s.fetches_used ≤ℤ s.max_fetches
  pub expanded : s.expanded_used ≤ℤ s.max_expanded
  pub bytes : s.bytes_used ≤ℤ s.max_bytes

-- The tests under the lock are made on the very sums that are then stored.
charge-IsWithin :
    (now : ℕ) (c : CostEstimate) (s : BudgetState) → fits now c s ≡ true → IsWithin (charge c s)
unfolding fits charge
charge-IsWithin now c s h = ground arith

reserve-IsWithin :
    (now : ℕ) (c : CostEstimate) (s : BudgetState) → IsWithin s → IsWithin (reserve now c s).0
unfolding reserve
reserve-IsWithin now c s h = ground (arith, charge-IsWithin now c s)

add_bytes-IsWithin :
    (now : ℕ) (n : ℤ) (s : BudgetState) → IsWithin s → IsWithin (add_bytes now n s).0
unfolding add_bytes
add_bytes-IsWithin now n s h = ground arith

run_call-IsWithin :
    (now : ℕ) (c : Call) (s : BudgetState) → IsWithin s → IsWithin (run_call now c s).0
unfolding run_call reserve_call reserve_fetch reserve_expand
run_call-IsWithin now (reserving c) s h = reserve-IsWithin now c s h
run_call-IsWithin now calling s h = reserve-IsWithin now _ s h
run_call-IsWithin now (fetching n) s h =
    ground (arith, reserve-IsWithin now (record no_cost { fetches = n }) s)
run_call-IsWithin now (expanding n) s h =
    ground (arith, reserve-IsWithin now (record no_cost { expanded = n }) s)
run_call-IsWithin now (adding_bytes n) s h = add_bytes-IsWithin now n s h

-- If no meter of a ledger stands above its limit, then none does after any schedule of calls,
-- in whatever order the goroutines take the lock.
pub run_calls-IsWithin :
    (calls : List (ℕ × Call)) (s : BudgetState) → IsWithin s → IsWithin (run_calls calls s)
unfolding run_calls
run_calls-IsWithin [] s h = h
run_calls-IsWithin ((now, c) ∷ rest) s h =
    run_calls-IsWithin rest (run_call now c s).0 (run_call-IsWithin now c s h)

-- A refused call leaves the ledger as it was.
pub run_call_refused :
    (now : ℕ) (c : Call) (s : BudgetState) → (run_call now c s).1 ≡ false → (run_call now c s).0 ≡ s
unfolding run_call reserve_call reserve_fetch reserve_expand reserve add_bytes
run_call_refused now (reserving c) s h = ground arith
run_call_refused now calling s h = ground arith
run_call_refused now (fetching n) s h = ground arith
run_call_refused now (expanding n) s h = ground arith
run_call_refused now (adding_bytes n) s h = ground arith
