-- ===== src/Cache/Retire.antt =====
-- src/manager.rs: `retire_page_ids`, which hands the physical pages of a batch to the backend and
-- takes them back if it refuses.
pub mod Returned
pub mod Refused
use seqcache.Prelude.{ℕ, none, some, List, [], ◌∷◌, length, ltb, ◌==◌, if◌then◌else◌}
use seqcache.Word.{u32_max, checked_add, checked_sub, checked_mul, isize_capped}
use seqcache.Error.{
  CacheError, Result, ok, err, panic, ok_or, and_then, arithmetic_overflow, invariant, stale_page,
  id_exhausted,
}
use seqcache.Error
use seqcache.Exec.{pure, lift, reads, modify, each, ◌>>=◌, ◌>>◌}
use seqcache.Arena.{Handle, slot_of}
use seqcache.Backend.{Runtime, RetireError, RetireOutcome}
use seqcache.Cache.Records.{SequenceCache, pages_retired}
use seqcache.Cache.Monad.{Outcome, Action, add, backend_error}
use seqcache.Cache.Totals.{is_reclaimable}
use seqcache.Cache.Pages.{page_record, set_page, set_reclaimable, remove_page}

module _ {R : Runtime} where
  -- One round of the first loop: what a page adds to the reclaimable ones, if it may be retired.
  unfoldable pub retirable : Handle → SequenceCache R → Outcome R ℕ
  retirable id c = Error.◌>>=◌ (ok_or (slot_of c.pages id) stale_page) (λ slot.
      if slot.generation == u32_max
      then err (id_exhausted "page generation")
      else Error.◌>>=◌ (ok_or slot.value stale_page) (λ p.
        Error.◌>>=◌ (ok_or p.physical stale_page) (λ _. ok (if is_reclaimable p then 1 else 0))))

  unfoldable pub count_reclaimable : List Handle → ℕ → SequenceCache R → Outcome R ℕ
  unfolding retirable
  count_reclaimable [] n c = ok n
  count_reclaimable (id ∷ ids) n c = Error.◌>>=◌ (retirable id c) (λ k.
      Error.◌>>=◌ (ok_or (checked_add n k) arithmetic_overflow) (λ m. count_reclaimable ids m c))

  unfoldable pub take_physical : Handle → Action R R.Page
  take_physical id = do
    p ← reads (page_record id)
    physical ← lift (ok_or p.physical stale_page)
    modify (set_page id (record p { physical = none }))
    pure physical

  unfoldable pub take_all : List Handle → Action R (List R.Page)
  unfolding take_physical
  take_all [] = pure []
  take_all (id ∷ ids) = do p ← take_physical id; ps ← take_all ids; pure (p ∷ ps)

  unfoldable pub give_back : List Handle → List R.Page → Action R (Unit {0})
  give_back [] ps = pure tt
  give_back (id ∷ ids) [] = pure tt
  give_back (id ∷ ids) (p ∷ ps) = do
    r ← reads (page_record id)
    modify (set_page id (record r { physical = some p }))
    give_back ids ps

  -- The backend's answer: on a failure every page goes back to its record.
  unfoldable pub retired_or_back :
      List Handle → Result (RetireError R.BackendError R.Page) RetireOutcome → Action R ℕ
  unfolding give_back
  retired_or_back ids (ok outcome) = pure outcome.deferred_pages
  retired_or_back ids (err failure) = do give_back ids failure.pages; backend_error failure.error
  retired_or_back ids panic = lift panic

  abbrev pub call_retire :
      List R.Page → Action R (Result (RetireError R.BackendError R.Page) RetireOutcome)
  call_retire physical c =
      let (r, b) = R.retire_pages physical c.backend in (ok r, record c { backend = b })

  -- The physical pages go to the backend, and the pages whose retirement it defers are counted.
  unfoldable pub hand_over : List Handle → Action R ℕ
  unfolding take_all retired_or_back
  hand_over ids = do physical ← take_all ids; r ← call_retire physical; retired_or_back ids r

  -- What follows the backend's answer.
  unfoldable pub settle_retirement : List Handle → ℕ → ℕ → Action R (Unit {0})
  settle_retirement ids reclaimable deferred = do
    lift (
        if ltb (length ids) deferred
        then err (invariant "backend deferred more pages than were retired")
        else ok tt)
    deferred_pages ← reads (λ c. ok_or (checked_add c.deferred_pages deferred) arithmetic_overflow)
    each remove_page ids
    modify (λ c. record c { deferred_pages = deferred_pages })
    modify (set_reclaimable reclaimable)
    add pages_retired (isize_capped (length ids))

  unfoldable pub retire_batch : List Handle → Action R (Unit {0})
  unfolding hand_over settle_retirement count_reclaimable
  retire_batch ids = do
    reclaimable_pages ← reads (count_reclaimable ids 0)
    bytes ← reads (λ c. ok_or (checked_mul reclaimable_pages c.page_bytes) arithmetic_overflow)
    reclaimable ← reads (λ c.
        ok_or (checked_sub c.stats.reclaimable_prefix_only_bytes bytes)
          (invariant "retired pages exceed reclaimable accounting"))
    deferred ← hand_over ids
    settle_retirement ids reclaimable deferred

  unfoldable pub retire_page_ids : List Handle → Action R (Unit {0})
  unfolding retire_batch
  retire_page_ids [] = pure tt
  retire_page_ids (id ∷ ids) = retire_batch (id ∷ ids)
