-- ===== src/Cache/Append.antt =====
-- src/manager.rs: `reserve_append`, `validate_reservation`, and the readers of pending appends.
pub mod Recorded
pub mod Contained
pub mod Sizes
pub mod Accepted
pub mod Ready
use seqcache.Prelude.{
  ℕ, ◌-◌, Bool, ◌&&◌, some, List, [], ◌∷◌, map, true, false, ◌==◌, if◌then◌else◌,
}
use seqcache.Error.{
  CacheError, Result, ok, err, ok_or, no_append_pending, append_reservation_mismatch, stale_page,
}
use seqcache.Error
use seqcache.Exec.{pure, reads, gets, modify, ◌>>=◌, ◌>>◌}
use seqcache.Arena.{Handle, handle_eq}
use seqcache.Backend.{Runtime, PageAllocation}
use seqcache.Cache.Records.{PendingAppend, AppendSegment, AppendReservation, SequenceCache}
use seqcache.Cache.Monad.{Outcome, Action, on_backend, or_backend_error}
use seqcache.Cache.Refresh.{with_stats, refresh_stats}
use seqcache.Cache.Pages.{page}
use seqcache.Cache.Sequences.{sequence_record, set_sequence}
use seqcache.Cache.Segments.{spans, place, prepared_pages}
use seqcache.Cache.Reserve.{
  AppendPlan, next_append_nonce, allocate_pages, or_undone, tail_page, publish_table,
  insert_allocations,
}
use seqcache.Cache.Checks.{plan_append}

abbrev pub segment_eq : AppendSegment → AppendSegment → Bool
segment_eq a b =
    handle_eq a.page b.page
    && a.page_offset == b.page_offset
    && a.input_offset == b.input_offset
    && a.rows == b.rows

abbrev pub segments_eq : List AppendSegment → List AppendSegment → Bool
segments_eq [] [] = true
segments_eq (a ∷ as') (b ∷ bs) = segment_eq a b && segments_eq as' bs
segments_eq _ _ = false

abbrev pub matches : {T : Type 0} → PendingAppend T → AppendReservation → Bool
matches p r =
    p.start_position == r.start_position
    && p.rows == r.rows
    && segments_eq p.segments r.segments
    && p.nonce == r.nonce

module _ {R : Runtime} where
  abbrev pub set_reserved : ℕ → SequenceCache R → SequenceCache R
  set_reserved n = with_stats (λ s. record s { reserved_pages = n })

  -- The record gets its pending append, and promises that many pages less.
  abbrev pub set_pending : Handle → ℕ → PendingAppend R.AppendTransaction → Action R (Unit {0})
  set_pending id new_page_count pending = do
    s ← reads (sequence_record id)
    modify (
        set_sequence id
          (record s { reserved_pages = s.reserved_pages - new_page_count; pending = some pending }))

  -- The end of `reserve_append`: the sequence gets its pending append, and the totals move.
  unfoldable pub record_pending :
      Handle
      → AppendPlan R.AppendTransaction
      → PendingAppend R.AppendTransaction
      → Action R AppendReservation
  record_pending id plan pending = do
    set_pending id plan.new_page_count pending
    modify (set_reserved plan.next_reserved_pages)
    refresh_stats
    pure (record {
      sequence = id;
      start_position = pending.start_position;
      rows = pending.rows;
      segments = pending.segments;
      nonce = pending.nonce;
    })

  -- What `reserve_append` records once the backend has agreed.
  unfoldable pub record_append :
      Handle
      → ℕ
      → AppendPlan R.AppendTransaction
      → ℕ
      → List (PageAllocation R.Page)
      → R.AppendTransaction
      → Action R AppendReservation
  unfolding record_pending
  record_append id rows plan nonce allocations transaction = do
    let position = plan.old.position
    page_tokens ← gets (λ c. c.config.page_tokens)
    new_pages ← insert_allocations allocations
    s ← reads (sequence_record id)
    segments ← reads (λ c. place s.pages new_pages (spans page_tokens rows position))
    record_pending id plan (record {
      start_position = position;
      rows = rows;
      segments = segments;
      new_pages = new_pages;
      nonce = nonce;
      transaction = transaction;
    })

  -- The answer of `prepare_append` to the pages of the append.
  unfoldable pub prepare_pages :
      ℕ
      → AppendPlan R.AppendTransaction
      → List (PageAllocation R.Page)
      → Action R R.AppendTransaction
  prepare_pages rows plan allocations = do
    page_tokens ← gets (λ c. c.config.page_tokens)
    tail ← reads (tail_page plan.tail)
    prepared ← on_backend (
        R.prepare_append
          (prepared_pages page_tokens rows plan.old.position tail (map (λ a. a.page) allocations))
          plan.old.position)
    or_undone allocations prepared

  -- `reserve_append`, once its checks have passed.
  unfoldable pub open_append :
      Handle → ℕ → AppendPlan R.AppendTransaction → Action R AppendReservation
  unfolding record_append prepare_pages
  open_append id rows plan = do
    nonce ← next_append_nonce
    allocations ← allocate_pages plan.new_page_count []
    transaction ← prepare_pages rows plan allocations
    publish_table id plan.old.position allocations
    record_append id rows plan nonce allocations transaction

  unfoldable pub reserve_append : Handle → ℕ → Action R AppendReservation
  unfolding open_append
  reserve_append id rows = reads (plan_append id rows) >>= open_append id rows

  unfoldable pub validate_reservation : AppendReservation → SequenceCache R → Outcome R (Unit {0})
  validate_reservation r c = Error.◌>>=◌ (sequence_record r.sequence c) (λ s.
      Error.◌>>=◌ (ok_or s.pending no_append_pending)
        (λ p. if matches p r then ok tt else err append_reservation_mismatch))

  -- The pages of `AppendPages::iter`, beside their segments; a page that is gone is a panic.
  unfoldable pub append_pages :
      List AppendSegment → SequenceCache R → Outcome R (List (AppendSegment × R.Page))
  append_pages [] c = ok []
  append_pages (s ∷ ss) c =
      Error.◌>>=◌ (Error.expect (Error.to_option (page s.page c)))
        (λ p. Error.◌>>=◌ (append_pages ss c) (λ ps. ok ((s, p) ∷ ps)))

  -- The operation of the caller gets the pages of the reservation.
  unfoldable pub with_append_pages :
      {A : Type 0}
      → AppendReservation
      → (List (AppendSegment × R.Page) → R.Storage → Result R.BackendError A × R.Storage)
      → Action R A
  unfolding append_pages
  with_append_pages r operation = do
    reads (validate_reservation r)
    pages ← reads (append_pages r.segments)
    a ← on_backend (operation pages)
    or_backend_error a

  unfoldable pub validate_all : List AppendReservation → SequenceCache R → Outcome R (Unit {0})
  unfolding validate_reservation
  validate_all [] c = ok tt
  validate_all (r ∷ rs) c = Error.◌>>◌ (validate_reservation r c) (validate_all rs c)

  unfoldable pub all_append_pages :
      List AppendReservation → SequenceCache R → Outcome R (List (List (AppendSegment × R.Page)))
  unfolding append_pages
  all_append_pages [] c = ok []
  all_append_pages (r ∷ rs) c =
      Error.◌>>=◌ (append_pages r.segments c)
        (λ ps. Error.◌>>=◌ (all_append_pages rs c) (λ pss. ok (ps ∷ pss)))

  unfoldable pub with_append_reservations :
      {A : Type 0}
      → List AppendReservation
      → (List (List (AppendSegment × R.Page)) → R.Storage → Result R.BackendError A × R.Storage)
      → Action R A
  unfolding validate_all all_append_pages
  with_append_reservations rs operation = do
    reads (validate_all rs)
    pages ← reads (all_append_pages rs)
    a ← on_backend (operation pages)
    or_backend_error a
