-- ===== src/Cache/BranchPlan.antt =====
-- src/manager.rs: the checks of `branch`, from its start to `plan_evictions`.
use seqcache.Prelude.{
  ℕ, ◌+◌, ◌/◌, ◌%◌, Option, none, some, List, length, take, ltb, ◌==◌, get_elem?, if◌then◌else◌,
  is_some, indicator,
}
use seqcache.Word.{checked_add, checked_sub}
use seqcache.Error.{
  CacheError, Result, ok, ok_or, arithmetic_overflow, invariant, invalid_position, append_pending,
  reject_if, ◌>>=◌, ◌>>◌,
}
use seqcache.Arena.{Handle}
use seqcache.Config.{AdmissionRequest, div_ceil}
use seqcache.Backend.{Runtime}
use seqcache.Cache.Records.{SequenceCache}
use seqcache.Cache.Monad.{Outcome}
use seqcache.Cache.Sequences.{sequence_record}
use seqcache.Cache.Plan.{PlanRequest}
use seqcache.Cache.Admit.{admission_bytes, admission_limit}

-- What `branch` computes before it plans evictions.
pub record BranchPlan : Type 0 where
  pub position : ℕ
  pub shared_pages : List Handle
  pub source_tail : Option Handle
  pub reserved_pages : ℕ
  pub request : PlanRequest

-- `source_pages.get(..n)`
abbrev pub leading_pages : ℕ → List Handle → Option (List Handle)
leading_pages n pages = if ltb (length pages) n then none else some (take n pages)

-- The page that the branch copies: none if the source ends on a boundary.
abbrev pub tail_of : {E : Type 0} → ℕ → ℕ → List Handle → Result (CacheError E) (Option Handle)
tail_of page_tokens position pages =
    if position % page_tokens == 0
    then ok none
    else (ok_or (get_elem? pages (position / page_tokens))
          (invariant "unaligned source has no tail")
        >>= λ tail. ok (some tail))

module _ {R : Runtime} where
  unfoldable pub plan_branch : Handle → AdmissionRequest → SequenceCache R → Outcome R BranchPlan
  plan_branch source request c = do
    s ← sequence_record source c
    reject_if (is_some s.pending) append_pending
    reject_if (s.position == 0) invalid_position
    reject_if (ltb request.max_position s.position) invalid_position
    let complete_count = s.position / c.config.page_tokens
    shared ←
        ok_or (leading_pages complete_count s.pages) (invariant "branch source has too few pages")
    tail ← tail_of c.config.page_tokens s.position s.pages
    let copied = indicator (is_some tail)
    total ← div_ceil request.max_position c.config.page_tokens
    reserved ←
        ok_or (checked_sub total (complete_count + copied))
          (invariant "branch exceeds admitted pages")
    commitment ← ok_or (checked_add reserved copied) arithmetic_overflow
    extra ← admission_bytes commitment request c
    limit ← admission_limit request.allow_emergency c
    ok (record {
      position = s.position;
      shared_pages = shared;
      source_tail = tail;
      reserved_pages = reserved;
      request = record {
        extra_bytes = extra;
        extra_pages = commitment;
        byte_limit = limit;
        target_snapshot_bytes = none;
        target_entry_count = none;
      };
    })
