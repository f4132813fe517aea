-- ===== src/PlanExec/Delays.antt =====
-- retryDelay of internal/planexec/executor.go: how long a failed node waits.
use mathlib.Core.Path.{subst}
use feishu_super_search.Prelude.{
  ℕ, zero, suc, ◌-◌, ◌+◌, ◌*◌, ◌<◌, ◌≤◌, ◌≡◌, refl, sym, ℤ, pos, negsuc, ltz, pos_part, int_limit,
  add64-pos, arith, Bool-cases, inl, inr, ◌⊎◌, scale64-pos, scale64,
}
use feishu_super_search.Kernel.Limits.{or_default}
use feishu_super_search.Kernel.Plan.{PlanNode}
use feishu_super_search.PlanExec.Rules.{double_delay, delay_ms, retry_delay}

-- The delay doubles without wrapping around, since it is below the bound when it does.
double_delay-pos :
    (k d m : ℕ)
    → 0 < d
    → d < int_limit
    → m + m ≤ int_limit
    → (r : ℕ) × (double_delay k (pos d) (pos m) ≡ pos r) × (d ≤ r) × (r < int_limit)
unfolding double_delay
double_delay-pos zero d m h b n = (d, refl, omega arith, b)
double_delay-pos (suc k) d m h b n = elim (Bool-cases (ltz (pos d) (pos m))) [
  | inr enough ↦ (d, rw (double_delay, enough) refl, omega arith, b)
  | inl below ↦
      let twice = d + d in
      let small : twice < int_limit = ground arith in
      let (r, e, le, b') = double_delay-pos k twice m (omega arith) small n in
      (r, rw (double_delay, below, add64-pos d d small) e, omega (arith, le), b')
]

-- The base of the delay and its bound in milliseconds, as the policy or the default gives them.
abbrev pub base_ms : PlanNode → ℕ
base_ms n = pos_part (or_default n.retry.backoff_ms 200)

abbrev pub bound_ms : PlanNode → ℕ
bound_ms n = pos_part (or_default n.retry.max_backoff_ms 2000)

or_default-positive :
    (x : ℤ) (d : ℕ)
    → 0 < d
    → (or_default x d ≡ pos (pos_part (or_default x d))) × (0 < pos_part (or_default x d))
or_default-positive (pos n) d h = ground arith
or_default-positive (negsuc n) d h = ground arith

delay_ms-within :
    (n : PlanNode) (k : ℕ)
    → base_ms n < int_limit
    → bound_ms n + bound_ms n ≤ int_limit
    → (r : ℕ) × (delay_ms n k ≡ pos r)
      × (0 < r)
      × (r ≤ bound_ms n)
      × ((base_ms n ≤ r) ⊎ (bound_ms n ≤ r))
unfolding delay_ms
delay_ms-within n k b m =
    let (base, base_pos) = or_default-positive n.retry.backoff_ms 200 (omega arith) in
    let (max, max_pos) = or_default-positive n.retry.max_backoff_ms 2000 (omega arith) in
    let (r, e, le, small) = double_delay-pos (k - 1) (base_ms n) (bound_ms n) base_pos b m in
    elim (Bool-cases (ltz (pos (bound_ms n)) (pos r))) [
      | inl over ↦
          (bound_ms n, rw (base, max, e, over) refl, max_pos, omega arith, inr (omega arith))
      | inr within ↦ (r, rw (base, max, e, within) refl, omega arith, ground arith, inl le)
    ]

-- A delay in nanoseconds that is positive, at most the bound, and not below both base and bound.
pub record IsDelay (n : PlanNode) (d : ℤ) : Type 0 where
  pub whole : d ≡ pos (pos_part d)
  pub positive : 0 < pos_part d
  pub bounded : pos_part d ≤ bound_ms n * 1000000
  pub grown : (base_ms n * 1000000 ≤ pos_part d) ⊎ (bound_ms n * 1000000 ≤ pos_part d)

-- If the base of the delay, in milliseconds, fits an int64, and its bound does in nanoseconds,
-- then the delay before a retry does not wrap around: it is positive, at most the bound, and at
-- least the base or the bound.
pub retry_delay-IsDelay :
    (n : PlanNode) (k : ℕ)
    → base_ms n < int_limit
    → bound_ms n * 1000000 < int_limit
    → IsDelay n (retry_delay n k)
unfolding retry_delay
retry_delay-IsDelay n k b m =
    let (r, e, positive, bounded, grown) = delay_ms-within n k b (omega (arith, m)) in
    let whole : scale64 (delay_ms n k) 1000000 ≡ pos (r * 1000000) =
      rw e (scale64-pos r 1000000 (omega (arith, bounded, m))) in
    subst (IsDelay n) (sym whole) (record {
      whole = refl;
      positive = omega (arith, positive);
      bounded = omega (arith, bounded);
      grown = elim grown [ inl g ↦ inl (omega (arith, g)) | inr g ↦ inr (omega (arith, g)) ];
    })
