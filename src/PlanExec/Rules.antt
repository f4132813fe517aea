-- ===== src/PlanExec/Rules.antt =====
-- The rules of the scheduler that look at one node: how often and when it is tried again, which
-- states end it, and what becomes of a node whose dependencies have ended.
use feishu_super_search.Prelude.{
  ℕ, zero, suc, ◌-◌, Bool, true, false, ◌||◌, Option, none, some, ℤ, pos_part, ltz, is_positive,
  add64, scale64, if◌then◌else◌,
}
use feishu_super_search.Kernel.Errors.{ErrorDetail, ErrorType, rate_limited, upstream_transient}
use feishu_super_search.Kernel.Limits.{or_default}
use feishu_super_search.Kernel.Plan.{
  PlanOp, resolve, search, query, fetch, expand, merge, dedup, rank, limit, project, map_fetch,
  NodeState, succeeded, partial, empty, failed, skipped, cancelled, PlanNode,
}

-- isTerminal
abbrev pub is_terminal : NodeState → Bool
is_terminal succeeded = true
is_terminal partial = true
is_terminal empty = true
is_terminal failed = true
is_terminal skipped = true
is_terminal cancelled = true
is_terminal _ = false

-- The states of a dependency that make a node skip.
abbrev pub is_lost : NodeState → Bool
is_lost failed = true
is_lost cancelled = true
is_lost skipped = true
is_lost _ = false

unfoldable pub accepts_partial : PlanOp → Bool
accepts_partial merge = true
accepts_partial dedup = true
accepts_partial rank = true
accepts_partial limit = true
accepts_partial project = true
accepts_partial map_fetch = true
accepts_partial _ = false

unfoldable pub default_attempts : PlanOp → ℕ
default_attempts resolve = 2
default_attempts search = 2
default_attempts query = 2
default_attempts fetch = 2
default_attempts expand = 2
default_attempts map_fetch = 2
default_attempts _ = 1

unfoldable pub max_attempts : PlanNode → ℕ
max_attempts n =
    if is_positive n.retry.max_attempts
    then pos_part n.retry.max_attempts
    else default_attempts n.op

unfoldable pub retryable_type : ErrorType → Bool
retryable_type rate_limited = true
retryable_type upstream_transient = true
retryable_type _ = false

unfoldable pub should_retry : Option ErrorDetail → Bool
should_retry none = false
should_retry (some e) = e.retryable || retryable_type e.kind

-- The loop of retryDelay: `delay *= 2` while it is below `max`, at most `rounds` times.
unfoldable pub double_delay : ℕ → ℤ → ℤ → ℤ
double_delay zero delay max = delay
double_delay (suc rounds) delay max =
    let next = double_delay rounds (add64 delay delay) max in if ltz delay max then next else delay

-- The delay in milliseconds after `completed` attempts, which is at least 1 where it is called.
unfoldable pub delay_ms : PlanNode → ℕ → ℤ
delay_ms n completed =
    let base = or_default n.retry.backoff_ms 200 in
    let max = or_default n.retry.max_backoff_ms 2000 in
    let delay = double_delay (completed - 1) base max in if ltz max delay then max else delay

-- retryDelay, in nanoseconds.
unfoldable pub retry_delay : PlanNode → ℕ → ℤ
retry_delay n completed = scale64 (delay_ms n completed) 1000000
