-- ===== src/Config.antt =====
-- The configuration and the requests of src/manager.rs, `validate_config` and the size arithmetic.
pub mod Sizes
use seqcache.Prelude.{ℕ, ◌-◌, ◌*◌, ◌/◌, Bool, Option, some, ltb, ◌==◌, if◌then◌else◌}
use seqcache.Word.{i64_max, checked_add, checked_sub, checked_mul, saturating_sub}
use seqcache.Error.{
  CacheError, Result, ok, ok_or, reject_if, and_then, ◌>>=◌, ◌>>◌, zero_page_tokens,
  zero_page_bytes, zero_managed_bytes, page_exceeds_managed_bytes,
  emergency_capacity_exceeds_managed_bytes, snapshot_limit_exceeds_managed_bytes,
  managed_bytes_exceed_metric_range, capacity_overflow, config, arithmetic_overflow,
}

pub record CacheConfig : Type 0 where
  pub page_tokens : ℕ
  pub max_managed_bytes : ℕ
  pub max_snapshot_bytes : ℕ
  pub max_prefix_entries : Option ℕ
  pub emergency_bytes : ℕ

pub record AdmissionRequest : Type 0 where
  pub max_position : ℕ
  pub private_state_bytes : ℕ
  pub page_table_bytes : ℕ
  pub allow_emergency : Bool

module _ {E : Type 0} where
  unfoldable pub validate_config : CacheConfig → ℕ → Result (CacheError E) (Unit {0})
  validate_config c page_bytes = do
    reject_if (c.page_tokens == 0) (config zero_page_tokens)
    reject_if (page_bytes == 0) (config zero_page_bytes)
    reject_if (c.max_managed_bytes == 0) (config zero_managed_bytes)
    reject_if (ltb c.max_managed_bytes page_bytes) (config page_exceeds_managed_bytes)
    reject_if (ltb c.max_managed_bytes c.emergency_bytes)
        (config emergency_capacity_exceeds_managed_bytes)
    reject_if (ltb c.max_managed_bytes c.max_snapshot_bytes)
        (config snapshot_limit_exceeds_managed_bytes)
    reject_if (ltb i64_max c.max_managed_bytes) (config managed_bytes_exceed_metric_range)
    let max_pages = c.max_managed_bytes / page_bytes
    _ ← ok_or (checked_mul max_pages page_bytes) (config capacity_overflow)
    ok tt

  -- The divisor is never 0 where the crate calls it: `validate_config` refuses 0 tokens per page.
  unfoldable pub div_ceil : ℕ → ℕ → Result (CacheError E) ℕ
  div_ceil value divisor =
      ok_or (and_then (checked_add value (divisor - 1)) (λ sum. some (sum / divisor)))
        arithmetic_overflow

  -- `admission_bytes`, with the cache's `page_bytes`.
  unfoldable pub request_bytes : ℕ → ℕ → AdmissionRequest → Result (CacheError E) ℕ
  request_bytes page_bytes pages request =
      ok_or
        (and_then
          (and_then (checked_mul pages page_bytes)
            (λ bytes. checked_add bytes request.private_state_bytes))
          (λ bytes. checked_add bytes request.page_table_bytes))
        arithmetic_overflow

  -- `admission_limit`, with the cache's configuration.
  unfoldable pub request_limit : CacheConfig → Bool → Result (CacheError E) ℕ
  request_limit c allow_emergency =
      if allow_emergency
      then ok c.max_managed_bytes
      else ok_or (checked_sub c.max_managed_bytes c.emergency_bytes) arithmetic_overflow

-- `cacheable_prefix_tokens`, with the cache's tokens per page.
unfoldable pub checkpoint_position : ℕ → ℕ → ℕ
checkpoint_position page_tokens prompt_tokens =
    saturating_sub prompt_tokens 1 / page_tokens * page_tokens
