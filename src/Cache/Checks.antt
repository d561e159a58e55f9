-- ===== src/Cache/Checks.antt =====
-- src/manager.rs: the checks of `reserve_append`, from its start to `prepare_page_slots`.
use seqcache.Prelude.{ℕ, length, ltb, ◌==◌, is_some}
use seqcache.Word.{checked_add, checked_sub}
use seqcache.Error.{
  ok, ok_or, arithmetic_overflow, invariant, invalid_position, append_pending, ◌>>=◌, ◌>>◌,
  reject_if,
}
use seqcache.Arena.{Handle}
use seqcache.Config.{div_ceil}
use seqcache.Backend.{Runtime}
use seqcache.Cache.Records.{SequenceCache}
use seqcache.Cache.Monad.{Outcome}
use seqcache.Cache.Pages.{prepare_page_slots}
use seqcache.Cache.Sequences.{sequence_record}
use seqcache.Cache.Reserve.{AppendPlan, writable_tail, check_tail}

module _ {R : Runtime} where
  unfoldable pub plan_append :
      Handle → ℕ → SequenceCache R → Outcome R (AppendPlan R.AppendTransaction)
  plan_append id rows c = do
    reject_if (rows == 0) invalid_position
    s ← sequence_record id c
    reject_if (is_some s.pending) append_pending
    new_position ← ok_or (checked_add s.position rows) arithmetic_overflow
    reject_if (ltb s.max_position new_position) invalid_position
    let tail = writable_tail c.config.page_tokens s.position s.pages
    check_tail tail c
    required ← div_ceil new_position c.config.page_tokens
    count ←
        ok_or (checked_sub required (length s.pages))
          (invariant "append page count moved backwards")
    reject_if (ltb s.reserved_pages count) (invariant "append exceeds admitted reservation")
    next ←
        ok_or (checked_sub c.stats.reserved_pages count)
          (invariant "append exceeds globally reserved pages")
    prepare_page_slots count c
    ok (record {
      old = s;
      tail = tail;
      new_position = new_position;
      new_page_count = count;
      next_reserved_pages = next;
    })
