-- ===== src/Cache/Commit.antt =====
-- src/manager.rs: `commit_append`.
pub mod Settled
pub mod Internal
pub mod Contained
use seqcache.Prelude.{ℕ, ◌+◌, none, some, ◌++◌, length, ◌==◌}
use seqcache.Word.{isize_capped}
use seqcache.Error.{
  Result, ok, err, panic, ok_or, arithmetic_overflow, no_append_pending, stale_page,
}
use seqcache.Error
use seqcache.Exec.{pure, lift, reads, gets, modify, each, ◌>>=◌, ◌>>◌}
use seqcache.Arena.{Handle}
use seqcache.Backend.{Runtime, BackendAppendCommit}
use seqcache.Cache.Records.{
  PendingAppend, AppendSegment, AppendReservation, SequenceCache, pages_sealed,
}
use seqcache.Cache.Monad.{Outcome, Action, add, backend_error}
use seqcache.Cache.Refresh.{refresh_stats}
use seqcache.Cache.Pages.{page_record, set_page, physical_refs_from, remove_page}
use seqcache.Cache.Sequences.{sequence_record, set_sequence}
use seqcache.Cache.Append.{set_reserved}
use seqcache.Cache.Partial.{CommitPlan, plan_commit}

module _ {R : Runtime} where
  -- `pending.take().ok_or(NoAppendPending)?`
  unfoldable pub take_pending : Handle → Action R (PendingAppend R.AppendTransaction)
  take_pending id = do
    s ← reads (sequence_record id)
    pending ← lift (ok_or s.pending no_append_pending)
    modify (set_sequence id (record s { pending = none }))
    pure pending

  unfoldable pub put_pending : Handle → PendingAppend R.AppendTransaction → Action R (Unit {0})
  put_pending id pending = do
    s ← reads (sequence_record id)
    modify (set_sequence id (record s { pending = some pending }))

  -- The call of the backend that ends an append. A failure puts the pending append back, with the
  -- transaction that the backend was lent.
  abbrev pub settled :
      Handle
      → PendingAppend R.AppendTransaction
      → Result R.BackendError (Unit {0})
      → Action R (Unit {0})
  settled id pending (ok _) = pure tt
  settled id pending (err e) = put_pending id pending >> backend_error e
  settled id pending panic = lift panic

  abbrev pub call_with :
      (R.AppendTransaction
        → R.Storage
        → Result R.BackendError (Unit {0}) × R.AppendTransaction × R.Storage)
      → PendingAppend R.AppendTransaction
      → Action R (Result R.BackendError (Unit {0}) × PendingAppend R.AppendTransaction)
  call_with f pending c =
      let (r, t, b) = f pending.transaction c.backend in
      (ok (r, record pending { transaction = t }), record c { backend = b })

  -- The pages that the call names; a stale one puts the pending append back too.
  abbrev pub refs_or_put_back :
      {A : Type 0}
      → Handle
      → PendingAppend R.AppendTransaction
      → (SequenceCache R → Outcome R A)
      → Action R A
  refs_or_put_back id pending f c = elim (f c) [
    | ok a ↦ (ok a, c)
    | err e ↦ (put_pending id pending >> lift (err e)) c
    | panic ↦ (panic, c)
  ]

  abbrev pub commit_refs : CommitPlan → ℕ → SequenceCache R → Outcome R (BackendAppendCommit R.Page)
  commit_refs plan rows c = Error.◌>>=◌ (physical_refs_from plan.committed_pages c) (λ committed.
      Error.◌>>=◌ (physical_refs_from plan.sealed_ids c) (λ sealed.
        Error.◌>>=◌ (physical_refs_from plan.released_pages c) (λ released. ok (record {
          committed_pages = committed;
          sealed_pages = sealed;
          released_pages = released;
          rows = rows;
          position = plan.new_position;
        }))))

  -- A committed segment makes the rows of its page valid, and seals a page that is full.
  unfoldable pub apply_segment : ℕ → AppendSegment → Action R (Unit {0})
  apply_segment page_tokens s = do
    p ← reads (page_record s.page)
    modify (
        set_page s.page (record p {
          valid_tokens = s.page_offset + s.rows;
          sealed = s.page_offset + s.rows == page_tokens;
        }))

  unfoldable pub discard_page : Handle → Action R (Unit {0})
  discard_page id = do
    p ← reads (page_record id)
    _ ← lift (ok_or p.physical stale_page)
    modify (set_page id (record p { physical = none }))
    remove_page id

  unfoldable pub finish_commit : Handle → CommitPlan → Action R (Unit {0})
  unfolding apply_segment discard_page
  finish_commit id plan = do
    page_tokens ← gets (λ c. c.config.page_tokens)
    each (apply_segment page_tokens) plan.segments
    each discard_page plan.released_pages
    s ← reads (sequence_record id)
    modify (
        set_sequence id (record s {
          pages = s.pages ++ plan.kept_new_pages;
          reserved_pages = plan.next_sequence_reserved_pages;
          position = plan.new_position;
        }))
    modify (set_reserved plan.next_reserved_pages)
    add pages_sealed (isize_capped (length plan.sealed_ids))
    refresh_stats

  unfoldable pub commit_append : AppendReservation → ℕ → Action R (Unit {0})
  unfolding take_pending put_pending finish_commit
  commit_append r rows = do
    plan ← reads (plan_commit r rows)
    pending ← take_pending r.sequence
    commit ← refs_or_put_back r.sequence pending (commit_refs plan rows)
    (answer, pending') ← call_with (λ t b. R.commit_append t commit b) pending
    settled r.sequence pending' answer
    finish_commit r.sequence plan
