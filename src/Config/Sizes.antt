-- ===== src/Config/Sizes.antt =====
-- The size arithmetic of the configuration: what is accepted, and what the roundings compute.
use native.Mathlib.Nat.{div-mul-le_self, le-div_iff_mul-le, mul-mod_left, div-add-mod', mod-lt}
use seqcache.Prelude.{ℕ, ◌+◌, ◌-◌, ◌*◌, ◌/◌, ◌%◌, ◌≤◌, ◌<◌, ◌≡◌, ◌↔◌, arith}
use seqcache.Word.{i64_max, i64-le-usize}
use seqcache.Error.{ok}
use seqcache.Config.{CacheConfig, validate_config, div_ceil, checkpoint_position}

-- A quotient rounded down: its multiple, and the next.
ceil_bounds : (v d : ℕ) → 0 < d → (v ≤ (v + (d - 1)) / d * d) × ((v + (d - 1)) / d * d < v + d)
ceil_bounds v d pos =
    let split = div-add-mod' (v + (d - 1)) d in
    let rest = mod-lt (v + (d - 1)) pos in (omega arith, omega arith)

pub below_multiple : (q k d : ℕ) → q * d < k * d + d → q ≤ k
below_multiple q k d h = grind arith

div_ceil_value : {E : Type 0} (v d q : ℕ) → div_ceil {E = E} v d ≡ ok q → q ≡ (v + (d - 1)) / d
unfolding div_ceil
div_ceil_value v d q e = ground arith

pub div_ceil_bounds :
    {E : Type 0} (v d q : ℕ) → 0 < d → div_ceil {E = E} v d ≡ ok q → (v ≤ q * d) × (q * d < v + d)
div_ceil_bounds v d q pos e = rw (div_ceil_value v d q e) (ceil_bounds v d pos)

-- Whenever the sum with the divisor does not overflow, `div_ceil` returns the least number of pages that holds the
-- tokens.
pub div_ceil_least :
    {E : Type 0} (value divisor q : ℕ)
    → 0 < divisor
    → div_ceil {E = E} value divisor ≡ ok q
    → (value ≤ q * divisor) × ((k : ℕ) → value ≤ k * divisor → q ≤ k)
unfolding div_ceil
div_ceil_least v d q pos e =
    let (enough, tight) = ceil_bounds v d pos in
    rw (div_ceil_value v d q e)
      (enough, λ k le. below_multiple ((v + (d - 1)) / d) k d (omega arith))

-- A configuration is accepted exactly if every size that must not be 0 is not, one page and both
-- reserves fit the managed bytes, and these fit the range of the gauges. So the check for an
-- overflow of the capacity never fails.
pub validate_config_iff :
    {E : Type 0} (c : CacheConfig) (page_bytes : ℕ)
    → (validate_config {E = E} c page_bytes ≡ ok tt) ↔ (
        (0 < c.page_tokens)
        × (0 < page_bytes)
        × (page_bytes ≤ c.max_managed_bytes)
        × (c.emergency_bytes ≤ c.max_managed_bytes)
        × (c.max_snapshot_bytes ≤ c.max_managed_bytes)
        × (c.max_managed_bytes ≤ i64_max))
unfolding validate_config
validate_config_iff c page_bytes = (
  λ h. ground arith,
  λ h. ground (arith, div-mul-le_self c.max_managed_bytes page_bytes, i64-le-usize),
)

multiple_le : (k n t : ℕ) → 0 < n → k * n ≤ t → k * n ≤ t / n * n
multiple_le k n t pos h = let le : k ≤ t / n = (le-div_iff_mul-le pos).1 h in grind arith

-- With at least one token per page, the checkpoint is the greatest page boundary strictly below the
-- number of prompt tokens, if there are any.
pub checkpoint_position_greatest :
    (page_tokens tokens : ℕ)
    → 0 < page_tokens
    → 0 < tokens
    → (checkpoint_position page_tokens tokens % page_tokens ≡ 0)
      × (checkpoint_position page_tokens tokens < tokens)
      × ((k : ℕ)
          → k * page_tokens < tokens
          → k * page_tokens ≤ checkpoint_position page_tokens tokens)
unfolding checkpoint_position
checkpoint_position_greatest n tokens pos some_token =
    let below = div-mul-le_self (tokens - 1) n in
    (
      mul-mod_left ((tokens - 1) / n) n,
      omega arith,
      λ k h. multiple_le k n (tokens - 1) pos (omega arith),
    )
