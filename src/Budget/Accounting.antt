-- ===== src/Budget/Accounting.antt =====
-- A schedule of calls on the ledger (internal/budget/ledger.go), and the sum of what was granted.
use feishu_super_search.Prelude.{ℕ, ◌≡◌, List, [], ◌∷◌, arith, ℤ, pos, if◌then◌else◌, All}
use feishu_super_search.Kernel.Limits.{BudgetState, CostEstimate}
use feishu_super_search.Budget.{
  Call, reserving, calling, fetching, expanding, adding_bytes, run_call, run_calls, reserve,
  reserve_call, reserve_fetch, reserve_expand, add_bytes, charge, no_cost,
}
use feishu_super_search.Budget.Ledger.{
  Amounts, ◌⊕◌, nothing, used, amounts, IsSane, IsSmall, add64_exact, exceeds_exact, reserve-used,
  reserve-IsSane,
}

abbrev pub cost_of : Call → CostEstimate
cost_of (reserving c) = c
cost_of calling = record no_cost { calls = pos 1 }
cost_of (fetching n) = record no_cost { fetches = n }
cost_of (expanding n) = record no_cost { expanded = n }
cost_of (adding_bytes n) = record no_cost { bytes = n }

-- What one call was granted.
abbrev pub granted : ℕ → Call → BudgetState → Amounts
granted now c s = if (run_call now c s).1 then amounts (cost_of c) else nothing

module _ (now : ℕ) (n : ℤ) (s : BudgetState) (sane : IsSane s)
    (small : IsSmall (record no_cost { bytes = n }) s) where
  add_bytes-used :
      used (add_bytes now n s).0
      ≡ used s ⊕ (if (add_bytes now n s).1 then amounts (record no_cost { bytes = n }) else nothing)
  unfolding add_bytes
  add_bytes-used = ground (arith, add64_exact s.bytes_used n s.max_bytes sane.bytes small.bytes)

  add_bytes-IsSane : IsSane (add_bytes now n s).0
  unfolding add_bytes
  add_bytes-IsSane = ground (
    arith,
    add64_exact s.bytes_used n s.max_bytes sane.bytes small.bytes,
    exceeds_exact s.bytes_used n s.max_bytes sane.bytes small.bytes,
  )

run_call-used :
    (now : ℕ) (c : Call) (s : BudgetState)
    → IsSane s
    → IsSmall (cost_of c) s
    → used (run_call now c s).0 ≡ used s ⊕ granted now c s
unfolding run_call reserve_call reserve_fetch reserve_expand
run_call-used now (reserving c) s sane small = reserve-used now c s sane small
run_call-used now calling s sane small = reserve-used now _ s sane small
run_call-used now (fetching n) s sane small =
    ground (arith, reserve-used now (record no_cost { fetches = n }) s sane small)
run_call-used now (expanding n) s sane small =
    ground (arith, reserve-used now (record no_cost { expanded = n }) s sane small)
run_call-used now (adding_bytes n) s sane small = add_bytes-used now n s sane small

run_call-IsSane :
    (now : ℕ) (c : Call) (s : BudgetState)
    → IsSane s
    → IsSmall (cost_of c) s
    → IsSane (run_call now c s).0
unfolding run_call reserve_call reserve_fetch reserve_expand
run_call-IsSane now (reserving c) s sane small = reserve-IsSane now c s sane small
run_call-IsSane now calling s sane small = reserve-IsSane now _ s sane small
run_call-IsSane now (fetching n) s sane small =
    ground (arith, reserve-IsSane now (record no_cost { fetches = n }) s sane small)
run_call-IsSane now (expanding n) s sane small =
    ground (arith, reserve-IsSane now (record no_cost { expanded = n }) s sane small)
run_call-IsSane now (adding_bytes n) s sane small = add_bytes-IsSane now n s sane small

-- No call changes a limit, so a cost that is small stays small.
IsSmall-run_call :
    (now : ℕ) (c : Call) (d : CostEstimate) (s : BudgetState)
    → IsSmall d s
    → IsSmall d (run_call now c s).0
unfolding run_call reserve_call reserve_fetch reserve_expand reserve add_bytes charge
IsSmall-run_call now (reserving c) d s small = ground arith
IsSmall-run_call now calling d s small = ground arith
IsSmall-run_call now (fetching n) d s small = ground arith
IsSmall-run_call now (expanding n) d s small = ground arith
IsSmall-run_call now (adding_bytes n) d s small = ground arith

-- What a schedule of calls was granted in all.
abbrev pub granted_in_all : List (ℕ × Call) → BudgetState → Amounts
granted_in_all [] s = nothing
granted_in_all ((now, c) ∷ rest) s = granted now c s ⊕ granted_in_all rest (run_call now c s).0

abbrev pub AreSmall : List (ℕ × Call) → BudgetState → Type 0
AreSmall calls s = All (λ call. IsSmall (cost_of call.1) s) calls

AreSmall-run_call :
    (now : ℕ) (c : Call) (calls : List (ℕ × Call)) (s : BudgetState)
    → AreSmall calls s
    → AreSmall calls (run_call now c s).0
AreSmall-run_call now c [] s small = tt
AreSmall-run_call now c (call ∷ rest) s small =
    (IsSmall-run_call now c (cost_of call.1) s small.0, AreSmall-run_call now c rest s small.1)

⊕_assoc : (a b c : Amounts) → (a ⊕ b) ⊕ c ≡ a ⊕ (b ⊕ c)
⊕_assoc a b c = ground arith

-- After any schedule of calls whose costs are small, on a ledger that is sane, the meters stand
-- at where they stood plus the sum of the costs of the accepted calls.
pub run_calls-used :
    (calls : List (ℕ × Call)) (s : BudgetState)
    → IsSane s
    → AreSmall calls s
    → used (run_calls calls s) ≡ used s ⊕ granted_in_all calls s
unfolding run_calls
run_calls-used [] s sane small = ground arith
run_calls-used ((now, c) ∷ rest) s sane small = ground (
  arith,
  run_call-used now c s sane small.0,
  run_calls-used rest (run_call now c s).0 (run_call-IsSane now c s sane small.0)
      (AreSmall-run_call now c rest s small.1),
)
