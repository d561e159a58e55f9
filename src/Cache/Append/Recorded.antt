-- ===== src/Cache/Append/Recorded.antt =====
-- The end of `reserve_append`, which does not call the backend.
use seqcache.Prelude.{
  ℕ, ◌≡◌, refl, false, Option, none, some, List, [], ◌∷◌, get_elem?, List-cases, if◌then◌else◌,
  Option-cases, inl, inr, arith,
}
use seqcache.Error
use seqcache.Error.{
  CacheError, Result, ok, err, panic, ok_or, Result-cases, id_exhausted, stale_sequence,
}
use seqcache.Exec.{pure, reads, modify, ◌>>=◌, ◌>>◌}
use seqcache.Arena.{Handle, Arena, insert_prepared, reuse_slot, Slot, resolve}
use seqcache.Backend.{Runtime, PageAllocation}
use seqcache.Cache.Records.{
  SequenceRecord, PendingAppend, AppendSegment, AppendReservation, PageRecord, pages_recycled,
  pages_allocated,
}
use seqcache.Cache.Monad.{Action, inc}
use seqcache.Cache.Contained.{
  failed_in_backend, ok_or-internal, bind-internal, IsInternal, IsInternal-bind, internal,
}
use seqcache.Cache.Refresh.{refresh_stats}
use seqcache.Cache.Pages.{insert_page_prepared}
use seqcache.Cache.Sequences.{sequence_record}
use seqcache.Cache.Segments.{Span, span_page, spans, place, segment_at}
use seqcache.Cache.Reserve.{AppendPlan, empty_page, insert_allocations}
use seqcache.Cache.Append.{set_pending, set_reserved, record_pending, record_append}

module _ (E : Type 0) where
  reused_internal :
      {A : Type 0} (a : Arena A) (slot : ℕ) (rest : List ℕ) (o : Option (Slot A)) (v : A)
      → failed_in_backend {E = E} (reuse_slot a slot rest o v).0 ≡ false
  unfolding reuse_slot
  reused_internal a slot rest none v = refl
  reused_internal a slot rest (some s) v = refl

  span_page-internal :
      (old new : List Handle) (logical_page : ℕ)
      → failed_in_backend {E = E} (span_page old new logical_page) ≡ false
  unfolding span_page
  span_page-internal old new logical_page = ground arith

  place-internal :
      (old new : List Handle) (ss : List Span)
      → failed_in_backend {E = E} (place old new ss) ≡ false
  unfolding place
  place-internal old new [] = refl
  place-internal old new (s ∷ ss) =
      bind-internal (span_page old new s.logical_page)
        (λ page. Error.◌>>=◌ (place old new ss) (λ rest. ok (segment_at page s ∷ rest)))
        (span_page-internal old new s.logical_page)
        (λ page.
          bind-internal (place old new ss) (λ rest. ok (segment_at page s ∷ rest))
            (place-internal old new ss) (λ rest. refl))

module _ {R : Runtime} where
  pub refresh_stats-IsInternal : IsInternal {R = R} refresh_stats
  unfolding refresh_stats
  refresh_stats-IsInternal = internal (λ c. ground arith)

  insert_page_prepared-IsInternal :
      (p : PageRecord R.Page) → IsInternal {R = R} (insert_page_prepared p)
  unfolding insert_page_prepared insert_prepared
  insert_page_prepared-IsInternal p = internal (λ c. elim (List-cases c.pages.free) [
    | inl empty ↦ rw (empty, insert_prepared) refl
    | inr (slot, rest, free) ↦
        rw (free, insert_prepared)
          (reused_internal R.BackendError c.pages slot rest (get_elem? c.pages.slots slot) p)
  ])

  sequence_record-IsInternal : (id : Handle) → IsInternal {R = R} (reads (sequence_record id))
  unfolding sequence_record
  sequence_record-IsInternal id =
      internal (λ c. ok_or-internal (resolve c.sequences id) stale_sequence refl)

  insert_allocations-IsInternal :
      (allocations : List (PageAllocation R.Page))
      → IsInternal {R = R} (insert_allocations allocations)
  unfolding insert_allocations
  insert_allocations-IsInternal [] = internal (λ c. refl)
  insert_allocations-IsInternal (a ∷ as') =
      let counter = if a.recycled then pages_recycled else pages_allocated in
      let last : Handle → Action R (List Handle) =
        λ id. insert_allocations as' >>= λ ids. pure (id ∷ ids) in
      IsInternal-bind (insert_page_prepared (empty_page a.page)) (λ id. inc counter >> last id)
        (insert_page_prepared-IsInternal (empty_page a.page))
        (λ id.
          IsInternal-bind (inc counter) (λ _. last id) (internal (λ c. refl))
            (λ _.
              IsInternal-bind (insert_allocations as') (λ ids. pure (id ∷ ids))
                (insert_allocations-IsInternal as') (λ ids. internal (λ c. refl))))

  set_pending-IsInternal :
      (id : Handle) (n : ℕ) (pending : PendingAppend R.AppendTransaction)
      → IsInternal {R = R} (set_pending id n pending)
  unfolding sequence_record
  set_pending-IsInternal id n pending = internal (λ c.
      elim (Option-cases (resolve c.sequences id)) [
        | inl stale ↦ rw stale refl
        | inr (s, live) ↦ rw live refl
      ])

  record_pending-IsInternal :
      (id : Handle) (plan : AppendPlan R.AppendTransaction)
      (pending : PendingAppend R.AppendTransaction)
      → IsInternal {R = R} (record_pending id plan pending)
  unfolding record_pending
  record_pending-IsInternal id plan pending =
      let last : Action R AppendReservation =
        refresh_stats
        >> pure (record {
          sequence = id;
          start_position = pending.start_position;
          rows = pending.rows;
          segments = pending.segments;
          nonce = pending.nonce;
        }) in
      IsInternal-bind (set_pending id plan.new_page_count pending)
        (λ _. modify (set_reserved plan.next_reserved_pages) >> last)
        (set_pending-IsInternal id plan.new_page_count pending)
        (λ _. internal (λ c.
          let c' = set_reserved plan.next_reserved_pages c in
          (IsInternal-bind refresh_stats (λ _. pure _) refresh_stats-IsInternal
              (λ _. internal (λ d. refl))).inside
            c'))

  pub record_append-IsInternal :
      (id : Handle) (rows : ℕ) (plan : AppendPlan R.AppendTransaction) (nonce : ℕ)
      (allocations : List (PageAllocation R.Page)) (t : R.AppendTransaction)
      → IsInternal {R = R} (record_append id rows plan nonce allocations t)
  unfolding record_append
  record_append-IsInternal id rows plan nonce allocations t = internal (λ c.
      let where_to : List Handle
          → SequenceRecord R.AppendTransaction
          → Action R (List AppendSegment) =
        λ new_pages s.
          reads
            (λ d. place s.pages new_pages (spans c.config.page_tokens rows plan.old.position)) in
      let end : List Handle → List AppendSegment → Action R AppendReservation =
        λ new_pages segments. record_pending id plan (record {
          start_position = plan.old.position;
          rows = rows;
          segments = segments;
          new_pages = new_pages;
          nonce = nonce;
          transaction = t;
        }) in
      let placed : List Handle → SequenceRecord R.AppendTransaction → Action R AppendReservation =
        λ new_pages s. where_to new_pages s >>= end new_pages in
      (IsInternal-bind (insert_allocations allocations)
          (λ new_pages. reads (sequence_record id) >>= placed new_pages)
          (insert_allocations-IsInternal allocations)
          (λ new_pages.
            IsInternal-bind (reads (sequence_record id)) (placed new_pages)
              (sequence_record-IsInternal id)
              (λ s.
                IsInternal-bind (where_to new_pages s) (end new_pages)
                  (internal (λ d.
                    place-internal R.BackendError s.pages new_pages
                      (spans c.config.page_tokens rows plan.old.position)))
                  (λ segments. record_pending-IsInternal id plan _)))).inside
        c)
