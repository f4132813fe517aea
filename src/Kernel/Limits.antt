-- ===== src/Kernel/Limits.antt =====
-- kernel/types.go: the budget of a request with its defaults, and the state of a budget.
use feishu_super_search.Prelude.{ℕ, ℤ, pos, is_nonpos, if◌then◌else◌}

pub record SearchBudget : Type 0 where
  pub deadline_ms : ℤ
  pub max_calls : ℤ
  pub max_pages_per_source : ℤ
  pub max_fetches : ℤ
  pub max_expanded_nodes : ℤ
  pub max_bytes : ℤ

-- `if x <= 0 { x = d }`
abbrev pub or_default : ℤ → ℕ → ℤ
or_default x d = if is_nonpos x then pos d else x

unfoldable pub with_defaults : SearchBudget → SearchBudget
with_defaults b = record {
  deadline_ms = or_default b.deadline_ms 8000;
  max_calls = or_default b.max_calls 24;
  max_pages_per_source = or_default b.max_pages_per_source 2;
  max_fetches = or_default b.max_fetches 12;
  max_expanded_nodes = or_default b.max_expanded_nodes 20;
  max_bytes = or_default b.max_bytes 33554432;
}

-- Times are nanoseconds on one clock; 0 is the zero `time.Time`.
pub record BudgetState : Type 0 where
  pub max_calls : ℤ
  pub calls_used : ℤ
  pub max_fetches : ℤ
  pub fetches_used : ℤ
  pub max_expanded : ℤ
  pub expanded_used : ℤ
  pub max_bytes : ℤ
  pub bytes_used : ℤ
  pub deadline : ℕ

pub record CostEstimate : Type 0 where
  pub calls : ℤ
  pub fetches : ℤ
  pub expanded : ℤ
  pub bytes : ℤ
