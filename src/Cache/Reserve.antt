-- ===== src/Cache/Reserve.antt =====
-- src/manager.rs: `reserve_append`.
use seqcache.Prelude.{
  ℕ, ◌%◌, ◌||◌, not, false, Option, none, some, List, [], ◌∷◌, ◌++◌, map, get_last?, ◌==◌,
  if◌then◌else◌,
}
use seqcache.Word.{u64_max, checked_add_to}
use seqcache.Error.{
  CacheError, Result, ok, err, panic, ok_or, arithmetic_overflow, invariant, invalid_position,
  append_pending, id_exhausted,
}
use seqcache.Error
use seqcache.Exec.{pure, lift, reads, gets, modify, ◌>>=◌, ◌>>◌}
use seqcache.Arena.{Handle}
use seqcache.Backend.{Runtime, PageAllocation}
use seqcache.Cache.Records.{
  PageRecord, SequenceRecord, SequenceCache, pages_recycled, pages_allocated,
}
use seqcache.Cache.Monad.{Outcome, Action, inc, on_backend, backend_error}
use seqcache.Cache.Pages.{page_record, page, physical_refs_from, insert_page_prepared}
use seqcache.Cache.Sequences.{sequence_record}

-- The tail that the append writes first: the last page, unless the position is on a boundary.
abbrev pub writable_tail : ℕ → ℕ → List Handle → Option Handle
writable_tail page_tokens position pages =
    if position % page_tokens == 0 then none else get_last? pages

abbrev pub empty_page : {P : Type 0} → P → PageRecord P
empty_page p = record {
  physical = some p;
  active_refs = 1;
  prefix_refs = 0;
  valid_tokens = 0;
  sealed = false;
}

-- What the checks of `reserve_append` find, before it calls the backend.
pub record AppendPlan (T : Type 0) : Type 0 where
  pub old : SequenceRecord T
  pub tail : Option Handle
  pub new_position : ℕ
  pub new_page_count : ℕ
  pub next_reserved_pages : ℕ

module _ {R : Runtime} where
  unfoldable pub next_append_nonce : Action R ℕ
  next_append_nonce = do
    nonce ← gets (λ c. c.append_nonce)
    next ← lift (ok_or (checked_add_to u64_max nonce 1) (id_exhausted "append"))
    modify (λ c. record c { append_nonce = next })
    pure nonce

  -- `for allocation in allocations.drain(..).rev() { rollback_page }`
  unfoldable pub roll_back : List (PageAllocation R.Page) → SequenceCache R → SequenceCache R
  roll_back [] c = c
  roll_back (a ∷ as') c =
      let c' = roll_back as' c in record c' { backend = R.rollback_page a.page c'.backend }

  abbrev pub undone : {A : Type 0} → List (PageAllocation R.Page) → R.BackendError → Action R A
  undone allocations e = modify (roll_back allocations) >> backend_error e

  -- An answer of the backend, whose failure gives the pages allocated so far back.
  abbrev pub or_undone :
      {A : Type 0} → List (PageAllocation R.Page) → Result R.BackendError A → Action R A
  or_undone allocations (ok a) = pure a
  or_undone allocations (err e) = undone allocations e
  or_undone allocations panic = lift panic

  -- The allocation loop, with the allocations so far.
  unfoldable pub allocate_pages :
      ℕ → List (PageAllocation R.Page) → Action R (List (PageAllocation R.Page))
  unfolding roll_back
  allocate_pages ℕ.zero allocations = pure allocations
  allocate_pages (ℕ.suc n) allocations = do
    r ← on_backend R.allocate_page
    a ← or_undone allocations r
    allocate_pages n (allocations ++ a ∷ [])

  abbrev pub check_tail : Option Handle → SequenceCache R → Outcome R (Unit {0})
  check_tail none c = ok tt
  check_tail (some tail) c = Error.◌>>=◌ (page_record tail c) (λ p.
      if p.sealed || not (p.active_refs == 1) || not (p.prefix_refs == 0)
      then err (invariant "writable tail is not private")
      else ok tt)

  abbrev pub tail_page : Option Handle → SequenceCache R → Outcome R (Option R.Page)
  tail_page none c = ok none
  tail_page (some tail) c = Error.◌>>=◌ (page tail c) (λ p. ok (some p))

  -- The new page table is published only if pages were allocated.
  abbrev pub publish_table : Handle → ℕ → List (PageAllocation R.Page) → Action R (Unit {0})
  publish_table id position [] = pure tt
  publish_table id position (a ∷ as') = do
    s ← reads (sequence_record id)
    old ← reads (physical_refs_from s.pages)
    r ← on_backend (R.update_page_table (old ++ map (λ x. x.page) (a ∷ as')) position)
    or_undone (a ∷ as') r

  unfoldable pub insert_allocations : List (PageAllocation R.Page) → Action R (List Handle)
  insert_allocations [] = pure []
  insert_allocations (a ∷ as') = do
    id ← insert_page_prepared (empty_page a.page)
    inc (if a.recycled then pages_recycled else pages_allocated)
    ids ← insert_allocations as'
    pure (id ∷ ids)
