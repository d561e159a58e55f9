-- ===== src/Cache/Pages.antt =====
-- src/manager.rs: the page arena of the cache, its handles and its reference counts.
pub mod Handles
pub mod Counts
use seqcache.Prelude.{
  ℕ, ◌+◌, ◌&&◌, not, Option, none, some, List, [], ◌∷◌, length, ltb, ◌==◌, if◌then◌else◌,
}
use seqcache.Word.{u32_max, checked_add, checked_sub, checked_add_to, saturating_sub}
use seqcache.Error.{
  CacheError, Result, ok, err, panic, ok_or, and_then, arithmetic_overflow, invariant, stale_page,
  id_exhausted,
}
use seqcache.Error
use seqcache.Exec.{lift, reads, modify, ◌>>=◌, ◌>>◌}
use seqcache.Arena.{
  Handle, handle_new, Slot, Arena, slot_of, resolve, write, insert, push_slot, vacate, prepare_slot,
}
use seqcache.Arena
use seqcache.Backend.{Runtime}
use seqcache.Cache.Records.{PageRecord, SequenceCache}
use seqcache.Cache.Monad.{Outcome, Action}
use seqcache.Cache.Totals.{is_reclaimable}
use seqcache.Cache.Refresh.{with_stats}

-- `self.pages[slot].generation`, with the slot.
abbrev pub handle_at : {E A : Type 0} → ℕ → Option (Slot A) → Result (CacheError E) Handle
handle_at slot none = panic
handle_at slot (some s) = ok (handle_new slot s.generation)

module _ {R : Runtime} where
  -- `page_record`, and `page_record_mut` where it only reads.
  unfoldable pub page_record : Handle → SequenceCache R → Outcome R (PageRecord R.Page)
  page_record id c = ok_or (resolve c.pages id) stale_page

  abbrev pub set_page : Handle → PageRecord R.Page → SequenceCache R → SequenceCache R
  set_page id page c = record c { pages = write c.pages id page }

  abbrev pub set_reclaimable : ℕ → SequenceCache R → SequenceCache R
  set_reclaimable n = with_stats (λ s. record s { reclaimable_prefix_only_bytes = n })

  -- The public `page`: the physical page of a handle.
  unfoldable pub page : Handle → SequenceCache R → Outcome R R.Page
  unfolding page_record
  page id c = Error.◌>>=◌ (page_record id c) (λ p. ok_or p.physical stale_page)

  unfoldable pub physical_refs_from : List Handle → SequenceCache R → Outcome R (List R.Page)
  unfolding page
  physical_refs_from [] c = ok []
  physical_refs_from (id ∷ ids) c =
      Error.◌>>=◌ (page id c) (λ p. Error.◌>>=◌ (physical_refs_from ids c) (λ ps. ok (p ∷ ps)))

  unfoldable pub increment_active_ref : Handle → Action R (Unit {0})
  increment_active_ref id = do
    p ← reads (page_record id)
    active_refs ← lift (ok_or (checked_add p.active_refs 1) arithmetic_overflow)
    reclaimable ← reads (λ c.
        if is_reclaimable p
        then ok_or (checked_sub c.stats.reclaimable_prefix_only_bytes c.page_bytes)
            (invariant "shared page missing from reclaimable accounting")
        else ok c.stats.reclaimable_prefix_only_bytes)
    modify (set_page id (record p { active_refs = active_refs }))
    modify (set_reclaimable reclaimable)

  unfoldable pub decrement_active_ref : Handle → Action R (Unit {0})
  decrement_active_ref id = do
    p ← reads (page_record id)
    active_refs ←
        lift (ok_or (checked_sub p.active_refs 1) (invariant "missing active page reference"))
    reclaimable ← reads (λ c.
        if active_refs == 0 && not (p.prefix_refs == 0)
        then ok_or (checked_add c.stats.reclaimable_prefix_only_bytes c.page_bytes)
            arithmetic_overflow
        else ok c.stats.reclaimable_prefix_only_bytes)
    modify (set_page id (record p { active_refs = active_refs }))
    modify (set_reclaimable reclaimable)

  unfoldable pub increment_prefix_ref : Handle → Action R (Unit {0})
  increment_prefix_ref id = do
    p ← reads (page_record id)
    prefix_refs ← lift (ok_or (checked_add p.prefix_refs 1) arithmetic_overflow)
    reclaimable ← reads (λ c.
        if p.active_refs == 0 && p.prefix_refs == 0
        then ok_or (checked_add c.stats.reclaimable_prefix_only_bytes c.page_bytes)
            arithmetic_overflow
        else ok c.stats.reclaimable_prefix_only_bytes)
    modify (set_page id (record p { prefix_refs = prefix_refs }))
    modify (set_reclaimable reclaimable)

  unfoldable pub decrement_prefix_ref : Handle → Action R (Unit {0})
  decrement_prefix_ref id = do
    p ← reads (page_record id)
    prefix_refs ←
        lift (ok_or (checked_sub p.prefix_refs 1) (invariant "missing prefix page reference"))
    reclaimable ← reads (λ c.
        if is_reclaimable p && prefix_refs == 0
        then ok_or (checked_sub c.stats.reclaimable_prefix_only_bytes c.page_bytes)
            (invariant "shared page missing from reclaimable accounting")
        else ok c.stats.reclaimable_prefix_only_bytes)
    modify (set_page id (record p { prefix_refs = prefix_refs }))
    modify (set_reclaimable reclaimable)

  unfoldable pub prepare_page_slot : SequenceCache R → Outcome R (Unit {0})
  prepare_page_slot c = prepare_slot "page slot" c.pages

  unfoldable pub prepare_page_slots : ℕ → SequenceCache R → Outcome R (Unit {0})
  prepare_page_slots count c =
      Error.◌>>=◌
        (ok_or (checked_add (length c.pages.slots) (saturating_sub count (length c.pages.free)))
          (id_exhausted "page slot"))
        (λ final_len. if ltb (u32_max + 1) final_len then err (id_exhausted "page slot") else ok tt)

  unfoldable pub peek_page_id : SequenceCache R → Outcome R Handle
  unfolding prepare_page_slot
  peek_page_id c = elim c.pages.free [
    | slot ∷ rest ↦ handle_at slot (Arena.get_slot c.pages slot)
    | [] ↦ Error.◌>>◌ (prepare_page_slot c) (ok (handle_new (length c.pages.slots) 0))
  ]

  unfoldable pub insert_page : PageRecord R.Page → Action R Handle
  insert_page p c = let (r, pages) = insert "page slot" c.pages p in (r, record c { pages = pages })

  unfoldable pub insert_page_prepared : PageRecord R.Page → Action R Handle
  insert_page_prepared p c =
      let (r, pages) = Arena.insert_prepared c.pages p in (r, record c { pages = pages })

  abbrev pub take_value :
      Handle
      → Slot (PageRecord R.Page)
      → Option ℕ
      → SequenceCache R
      → Outcome R (Unit {0}) × SequenceCache R
  take_value id s none c = (err (id_exhausted "page generation"), c)
  take_value id s (some next) c = elim s.value [
    | none ↦ (err stale_page, c)
    | some p ↦ (ok tt, record c { pages = vacate c.pages id next })
  ]

  unfoldable pub remove_page : Handle → Action R (Unit {0})
  remove_page id = do
    s ← reads (λ c. ok_or (slot_of c.pages id) stale_page)
    take_value id s (checked_add_to u32_max s.generation 1)
