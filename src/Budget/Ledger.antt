-- ===== src/Budget/Ledger.antt =====
-- The ledger of internal/budget/ledger.go read as an abstract account of four natural numbers.
use feishu_super_search.Prelude.{
  ℕ, ◌+◌, ◌≤◌, ◌<◌, ◌≡◌, Bool, true, false, not, ◌&&◌, ◌||◌, eqb, arith, ℤ, pos, add64, pos_part,
  neg_part, is_neg, int_limit, leb, if◌then◌else◌,
}
use feishu_super_search.Kernel.Limits.{BudgetState, CostEstimate}
use feishu_super_search.Budget.{reserve, expired, fits, charge, has_negative, exceeds}

pub record Amounts : Type 0 where
  pub calls : ℕ
  pub fetches : ℕ
  pub expanded : ℕ
  pub bytes : ℕ

infixl 65 ◌⊕◌
abbrev pub ◌⊕◌ : Amounts → Amounts → Amounts
a ⊕ b = record {
  calls = a.calls + b.calls;
  fetches = a.fetches + b.fetches;
  expanded = a.expanded + b.expanded;
  bytes = a.bytes + b.bytes;
}

abbrev pub nothing : Amounts
nothing = record { calls = 0; fetches = 0; expanded = 0; bytes = 0 }

abbrev pub used : BudgetState → Amounts
used s = record {
  calls = pos_part s.calls_used;
  fetches = pos_part s.fetches_used;
  expanded = pos_part s.expanded_used;
  bytes = pos_part s.bytes_used;
}

abbrev pub amounts : CostEstimate → Amounts
amounts c = record {
  calls = pos_part c.calls;
  fetches = pos_part c.fetches;
  expanded = pos_part c.expanded;
  bytes = pos_part c.bytes;
}

-- A meter that has counted up from 0 to a limit that an int64 can hold.
pub record IsMeter (used max : ℤ) : Type 0 where
  pub nonneg : neg_part used ≡ 0
  pub limited : neg_part max ≡ 0
  pub within : pos_part used ≤ pos_part max
  pub fits : pos_part max < int_limit

pub record IsSane (s : BudgetState) : Type 0 where
  pub calls : IsMeter s.calls_used s.max_calls
  pub fetches : IsMeter s.fetches_used s.max_fetches
  pub expanded : IsMeter s.expanded_used s.max_expanded
  pub bytes : IsMeter s.bytes_used s.max_bytes

-- The cost is so small that no sum of it and a meter can wrap around.
pub record IsSmall (c : CostEstimate) (s : BudgetState) : Type 0 where
  pub calls : pos_part c.calls + pos_part s.max_calls < int_limit
  pub fetches : pos_part c.fetches + pos_part s.max_fetches < int_limit
  pub expanded : pos_part c.expanded + pos_part s.max_expanded < int_limit
  pub bytes : pos_part c.bytes + pos_part s.max_bytes < int_limit

module _ (u c m : ℤ) (meter : IsMeter u m) (small : pos_part c + pos_part m < int_limit)
    (nonneg : is_neg c ≡ false) where
  pub add64_exact : add64 u c ≡ pos (pos_part u + pos_part c)
  unfolding add64
  add64_exact = ground arith

  pub exceeds_exact : exceeds u c m ≡ not (leb (pos_part u + pos_part c) (pos_part m))
  exceeds_exact = ground (arith, add64_exact)

-- The cost fits into what is left of every meter.
abbrev pub covers : BudgetState → CostEstimate → Bool
covers s c =
    leb (pos_part s.calls_used + pos_part c.calls) (pos_part s.max_calls)
    && leb (pos_part s.fetches_used + pos_part c.fetches) (pos_part s.max_fetches)
    && leb (pos_part s.expanded_used + pos_part c.expanded) (pos_part s.max_expanded)
    && leb (pos_part s.bytes_used + pos_part c.bytes) (pos_part s.max_bytes)

-- No part of the cost is below 0.
abbrev pub is_natural : CostEstimate → Bool
is_natural c =
    eqb (neg_part c.calls) 0
    && eqb (neg_part c.fetches) 0
    && eqb (neg_part c.expanded) 0
    && eqb (neg_part c.bytes) 0

-- There is no deadline, or the clock has not passed it.
abbrev pub is_in_time : ℕ → BudgetState → Bool
is_in_time now s = eqb s.deadline 0 || leb now s.deadline

abbrev pub accepts : ℕ → CostEstimate → BudgetState → Bool
accepts now c s = is_natural c && is_in_time now s && covers s c

module _ (now : ℕ) (c : CostEstimate) (s : BudgetState) (sane : IsSane s)
    (small : IsSmall c s) where
  fits_exact : has_negative c ≡ false → fits now c s ≡ not (expired now s) && covers s c
  unfolding fits has_negative
  fits_exact h = ground (
    arith,
    exceeds_exact s.calls_used c.calls s.max_calls sane.calls small.calls,
    exceeds_exact s.fetches_used c.fetches s.max_fetches sane.fetches small.fetches,
    exceeds_exact s.expanded_used c.expanded s.max_expanded sane.expanded small.expanded,
    exceeds_exact s.bytes_used c.bytes s.max_bytes sane.bytes small.bytes,
  )

  -- On a sane ledger, and for a cost so small that no sum wraps around, a reservation is
  -- accepted exactly if no part of the cost is negative, there is no deadline or the clock is
  -- not after it, and on every meter the amount used and the cost together are at most the
  -- limit.
  pub reserve-accepts : (reserve now c s).1 ≡ accepts now c s
  unfolding reserve has_negative expired
  reserve-accepts = ground (arith, fits_exact)

  charge_exact : has_negative c ≡ false → used (charge c s) ≡ used s ⊕ amounts c
  unfolding charge has_negative
  charge_exact h = ground (
    arith,
    add64_exact s.calls_used c.calls s.max_calls sane.calls small.calls,
    add64_exact s.fetches_used c.fetches s.max_fetches sane.fetches small.fetches,
    add64_exact s.expanded_used c.expanded s.max_expanded sane.expanded small.expanded,
    add64_exact s.bytes_used c.bytes s.max_bytes sane.bytes small.bytes,
  )

  pub reserve-used :
      used (reserve now c s).0 ≡ used s ⊕ (if (reserve now c s).1 then amounts c else nothing)
  unfolding reserve
  reserve-used = ground (arith, charge_exact)

  charge-IsSane : has_negative c ≡ false → fits now c s ≡ true → IsSane (charge c s)
  unfolding charge has_negative
  charge-IsSane h f = ground (
    arith,
    fits_exact,
    add64_exact s.calls_used c.calls s.max_calls sane.calls small.calls,
    add64_exact s.fetches_used c.fetches s.max_fetches sane.fetches small.fetches,
    add64_exact s.expanded_used c.expanded s.max_expanded sane.expanded small.expanded,
    add64_exact s.bytes_used c.bytes s.max_bytes sane.bytes small.bytes,
  )

  pub reserve-IsSane : IsSane (reserve now c s).0
  unfolding reserve
  reserve-IsSane = ground (arith, charge-IsSane)
