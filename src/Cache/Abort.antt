-- ===== src/Cache/Abort.antt =====
-- src/manager.rs: `abort_append`.
use seqcache.Prelude.{ℕ, List, length}
use seqcache.Word.{checked_add}
use seqcache.Error.{ok, ok_or, arithmetic_overflow, no_append_pending}
use seqcache.Error
use seqcache.Exec.{reads, modify, each, ◌>>=◌, ◌>>◌}
use seqcache.Arena.{Handle}
use seqcache.Backend.{Runtime}
use seqcache.Cache.Records.{AppendReservation, SequenceCache}
use seqcache.Cache.Monad.{Outcome, Action}
use seqcache.Cache.Refresh.{refresh_stats}
use seqcache.Cache.Pages.{physical_refs_from}
use seqcache.Cache.Sequences.{sequence_record, set_sequence}
use seqcache.Cache.Append.{validate_reservation, set_reserved}
use seqcache.Cache.Commit.{take_pending, call_with, refs_or_put_back, settled, discard_page}

-- What `abort_append` computes before it calls the backend.
pub record AbortPlan : Type 0 where
  pub old_pages : List Handle
  pub new_pages : List Handle
  pub old_position : ℕ
  pub next_reserved_pages : ℕ
  pub next_sequence_reserved_pages : ℕ

module _ {R : Runtime} where
  unfoldable pub plan_abort : AppendReservation → SequenceCache R → Outcome R AbortPlan
  plan_abort r c = Error.◌>>◌ (validate_reservation r c) (
      Error.◌>>=◌ (sequence_record r.sequence c) (λ s.
        Error.◌>>=◌ (ok_or s.pending no_append_pending) (λ pending.
          Error.◌>>=◌
            (ok_or (checked_add c.stats.reserved_pages (length pending.new_pages))
              arithmetic_overflow)
            (λ next.
              Error.◌>>=◌
                (ok_or (checked_add s.reserved_pages (length pending.new_pages))
                  arithmetic_overflow)
                (λ next_sequence. ok (record {
                  old_pages = s.pages;
                  new_pages = pending.new_pages;
                  old_position = s.position;
                  next_reserved_pages = next;
                  next_sequence_reserved_pages = next_sequence;
                }))))))

  abbrev pub abort_refs : AbortPlan → SequenceCache R → Outcome R (List R.Page × List R.Page)
  abort_refs plan c = Error.◌>>=◌ (physical_refs_from plan.old_pages c) (λ restored.
      Error.◌>>=◌ (physical_refs_from plan.new_pages c) (λ released. ok (restored, released)))

  unfoldable pub finish_abort : Handle → AbortPlan → Action R (Unit {0})
  unfolding discard_page
  finish_abort id plan = do
    each discard_page plan.new_pages
    s ← reads (sequence_record id)
    modify (set_sequence id (record s { reserved_pages = plan.next_sequence_reserved_pages }))
    modify (set_reserved plan.next_reserved_pages)
    refresh_stats

  unfoldable pub abort_append : AppendReservation → Action R (Unit {0})
  unfolding take_pending finish_abort
  abort_append r = do
    plan ← reads (plan_abort r)
    pending ← take_pending r.sequence
    (restored, released) ← refs_or_put_back r.sequence pending (abort_refs plan)
    (answer, pending') ←
        call_with (λ t b. R.abort_append t restored released plan.old_position b) pending
    settled r.sequence pending' answer
    finish_abort r.sequence plan
