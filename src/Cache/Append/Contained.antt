-- ===== src/Cache/Append/Contained.antt =====
-- `reserve_append` when the backend fails.
use seqcache.Prelude.{
  ℕ, zero, suc, ◌≡◌, refl, true, List, [], ◌∷◌, ◌++◌, map, Option-cases, inl, inr,
}
use seqcache.Error.{Result, ok, err, panic, Result-cases}
use seqcache.Word.{checked_add_to, u64_max}
use seqcache.Exec.{reads, ◌>>=◌, ◌>>◌}
use seqcache.Arena.{Handle}
use seqcache.Backend.{Runtime, PageAllocation}
use seqcache.Cache.Records.{SequenceCache, AppendReservation}
use seqcache.Cache.Monad.{Action, on_backend}
use seqcache.Cache.Contained.{
  failed_in_backend, ledger, Keeps, IsContained, Keeps-bind, IsContained-bind,
  IsContained-IsInternal, keeps,
}
use seqcache.Cache.Pages.{physical_refs_from}
use seqcache.Cache.Sequences.{sequence_record}
use seqcache.Cache.Segments.{prepared_pages}
use seqcache.Cache.Reserve.{
  AppendPlan, next_append_nonce, roll_back, or_undone, allocate_pages, tail_page, publish_table,
}
use seqcache.Cache.Checks.{plan_append}
use seqcache.Cache.Append.{record_append, prepare_pages, open_append, reserve_append}
use seqcache.Cache.Append.Recorded.{record_append-IsInternal}

module _ {R : Runtime} where
  ledger-roll_back :
      (allocations : List (PageAllocation R.Page)) (c : SequenceCache R)
      → ledger (roll_back allocations c) ≡ ledger c
  unfolding roll_back
  ledger-roll_back [] c = refl
  ledger-roll_back (a ∷ as') c = ledger-roll_back as' c

  or_undone-Keeps :
      {A : Type 0} (allocations : List (PageAllocation R.Page)) (r : Result R.BackendError A)
      → Keeps {R = R} (or_undone allocations r)
  or_undone-Keeps allocations (ok a) = keeps (λ c. refl)
  or_undone-Keeps allocations (err e) = keeps (ledger-roll_back allocations)
  or_undone-Keeps allocations panic = keeps (λ c. refl)

  next_append_nonce-Keeps : Keeps {R = R} next_append_nonce
  unfolding next_append_nonce
  next_append_nonce-Keeps = keeps (λ c.
      elim (Option-cases (checked_add_to u64_max c.append_nonce 1)) [
        | inl full ↦ rw full refl
        | inr (n, next) ↦ rw next refl
      ])

  allocate_pages-Keeps :
      (n : ℕ) (allocations : List (PageAllocation R.Page))
      → Keeps {R = R} (allocate_pages n allocations)
  unfolding allocate_pages
  allocate_pages-Keeps zero allocations = keeps (λ c. refl)
  allocate_pages-Keeps (suc n) allocations =
      let more : PageAllocation R.Page → Action R (List (PageAllocation R.Page)) =
        λ a. allocate_pages n (allocations ++ a ∷ []) in
      Keeps-bind (on_backend R.allocate_page) (λ r. or_undone allocations r >>= more)
        (keeps (λ c. refl))
        (λ r.
          Keeps-bind (or_undone allocations r) more (or_undone-Keeps allocations r)
            (λ a. allocate_pages-Keeps n (allocations ++ a ∷ [])))

  publish_table-Keeps :
      (id : Handle) (position : ℕ) (allocations : List (PageAllocation R.Page))
      → Keeps {R = R} (publish_table id position allocations)
  publish_table-Keeps id position [] = keeps (λ c. refl)
  publish_table-Keeps id position (a ∷ as') =
      let answer : Result R.BackendError (Unit {0}) → Action R (Unit {0}) = or_undone (a ∷ as') in
      let update : List R.Page → Action R (Unit {0}) = λ old.
        on_backend (R.update_page_table (old ++ map (λ x. x.page) (a ∷ as')) position) >>= answer in
      Keeps-bind (reads (sequence_record id)) (λ s. reads (physical_refs_from s.pages) >>= update)
        (keeps (λ c. refl))
        (λ s. Keeps-bind (reads (physical_refs_from s.pages)) update (keeps (λ c. refl)) (λ old.
          Keeps-bind
            (on_backend (R.update_page_table (old ++ map (λ x. x.page) (a ∷ as')) position)) answer
            (keeps (λ c. refl)) (λ r. or_undone-Keeps (a ∷ as') r)))

  prepare_pages-Keeps :
      (rows : ℕ) (plan : AppendPlan R.AppendTransaction)
      (allocations : List (PageAllocation R.Page))
      → Keeps {R = R} (prepare_pages rows plan allocations)
  unfolding prepare_pages
  prepare_pages-Keeps rows plan allocations = keeps (λ c.
      elim (Result-cases (tail_page plan.tail c)) [
        | inr (inl (e, bad)) ↦ rw bad refl
        | inr (inr stuck) ↦ rw stuck refl
        | inl (tail, fine) ↦
            let asked =
              R.prepare_append
                (prepared_pages c.config.page_tokens rows plan.old.position tail
                  (map (λ a. a.page) allocations))
                plan.old.position c.backend in
            rw fine ((or_undone-Keeps allocations asked.0).kept (record c { backend = asked.1 }))
      ])

  open_append-IsContained :
      (id : Handle) (rows : ℕ) (plan : AppendPlan R.AppendTransaction)
      → IsContained {R = R} (open_append id rows plan)
  unfolding open_append
  open_append-IsContained id rows plan =
      let last : ℕ
          → List (PageAllocation R.Page)
          → R.AppendTransaction
          → Action R AppendReservation =
        λ nonce allocations t.
          publish_table id plan.old.position allocations
          >> record_append id rows plan nonce allocations t in
      let after : ℕ → List (PageAllocation R.Page) → Action R AppendReservation =
        λ nonce allocations. prepare_pages rows plan allocations >>= last nonce allocations in
      IsContained-bind next_append_nonce
        (λ nonce. allocate_pages plan.new_page_count [] >>= after nonce) next_append_nonce-Keeps
        (λ nonce.
          IsContained-bind (allocate_pages plan.new_page_count []) (after nonce)
            (allocate_pages-Keeps plan.new_page_count [])
            (λ allocations.
              IsContained-bind (prepare_pages rows plan allocations) (last nonce allocations)
                (prepare_pages-Keeps rows plan allocations)
                (λ t.
                  IsContained-bind (publish_table id plan.old.position allocations)
                    (λ _. record_append id rows plan nonce allocations t)
                    (publish_table-Keeps id plan.old.position allocations)
                    (λ _.
                      IsContained-IsInternal (record_append id rows plan nonce allocations t)
                        (record_append-IsInternal id rows plan nonce allocations t)))))

  reserve_append-IsContained :
      (id : Handle) (rows : ℕ) → IsContained {R = R} (reserve_append id rows)
  unfolding reserve_append
  reserve_append-IsContained id rows =
      IsContained-bind (reads (plan_append id rows)) (open_append id rows) (keeps (λ c. refl))
        (open_append-IsContained id rows)

  -- A `reserve_append` that fails in the backend leaves every record, every total and the index; only
  -- the storage, the metrics and the nonce of the next append may differ.
  pub reserve_append_refused :
      (id : Handle) (rows : ℕ) (c : SequenceCache R)
      → failed_in_backend (reserve_append id rows c).0 ≡ true
      → ledger (reserve_append id rows c).1 ≡ ledger c
  reserve_append_refused id rows = (reserve_append-IsContained id rows).contained
