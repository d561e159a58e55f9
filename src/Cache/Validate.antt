-- ===== src/Cache/Validate.antt =====
-- src/manager.rs: `validate`, which recomputes the references and the totals from the records.
use seqcache.Prelude.{
  ℕ, suc, ◌+◌, ◌*◌, ◌%◌, Bool, false, ◌&&◌, ◌||◌, not, Option, none, some, List, [], ◌∷◌, length,
  get_last?, ltb, ◌==◌, if◌then◌else◌, any_of, get_key, values, int_eq,
}
use seqcache.Error.{CacheError, Result, ok, invariant, reject_if, ◌>>=◌, ◌>>◌}
use seqcache.Arena.{Handle, handle_new, Slot}
use seqcache.Config.{div_ceil}
use seqcache.Backend.{Runtime}
use seqcache.Cache.Records.{
  PageRecord, SequenceRecord, PendingAppend, PrefixEntry, SequenceCache, Stats,
}
use seqcache.Cache.Monad.{Outcome}
use seqcache.Cache.Totals.{live_values}
use seqcache.Cache.Refresh.{gauges_of}
use seqcache.Cache.Recount.{compute_stats}
use seqcache.Cache.Pages.{page_record}
use seqcache.Cache.Plan.{bump, count_of}

-- Equality of the records of totals, and of gauges, by an equality of their fields.
abbrev pub stats_eq : {A : Type 0} → (A → A → Bool) → Stats A → Stats A → Bool
stats_eq eq a b =
    eq a.active_sequences b.active_sequences
    && eq a.retained_prefix_entries b.retained_prefix_entries
    && eq a.interned_token_blocks b.interned_token_blocks
    && eq a.resident_pages b.resident_pages
    && eq a.free_pages b.free_pages
    && eq a.reserved_pages b.reserved_pages
    && eq a.deferred_retirement_pages b.deferred_retirement_pages
    && eq a.unique_resident_page_bytes b.unique_resident_page_bytes
    && eq a.outstanding_reservation_bytes b.outstanding_reservation_bytes
    && eq a.active_private_state_bytes b.active_private_state_bytes
    && eq a.retained_snapshot_bytes b.retained_snapshot_bytes
    && eq a.page_table_bytes b.page_table_bytes
    && eq a.reclaimable_prefix_only_bytes b.reclaimable_prefix_only_bytes
    && eq a.total_managed_bytes b.total_managed_bytes

abbrev pub nat_eq : ℕ → ℕ → Bool
nat_eq a b = a == b

abbrev pub is_empty_unsealed : {E P : Type 0} → Result E (PageRecord P) → Bool
is_empty_unsealed (ok p) = p.valid_tokens == 0 && not p.sealed
is_empty_unsealed _ = false

abbrev pub pending_pages : {T : Type 0} → Option (PendingAppend T) → List Handle
pending_pages none = []
pending_pages (some p) = p.new_pages

abbrev pub count_each : List Handle → List (Handle × ℕ) → List (Handle × ℕ)
count_each [] m = m
count_each (id ∷ ids) m = count_each ids (bump id m)

abbrev pub has_stamp : {K S : Type 0} → Option (PrefixEntry K S) → ℕ → Bool
has_stamp none t = false
has_stamp (some e) t = e.last_used == t

module _ {E P : Type 0} where
  abbrev pub check_value : Handle → Option (PageRecord P) → ℕ → ℕ → Result (CacheError E) (Unit {0})
  check_value id none active prefix = ok tt
  check_value id (some p) active prefix = do
    reject_if (not (p.active_refs == active) || not (p.prefix_refs == prefix))
        (invariant "page reference count mismatch")
    reject_if (p.active_refs == 0 && p.prefix_refs == 0) (invariant "unowned resident page")

  -- The loop over the slots of the page arena, with the index of the first.
  unfoldable pub check_references :
      ℕ
      → List (Slot (PageRecord P))
      → List (Handle × ℕ)
      → List (Handle × ℕ)
      → Result (CacheError E) (Unit {0})
  check_references index [] active prefix = ok tt
  check_references index (slot ∷ slots) active prefix =
      let id = handle_new index slot.generation in
      check_value id slot.value (count_of id active) (count_of id prefix)
      >> check_references (suc index) slots active prefix

module _ {R : Runtime} where
  abbrev pub last_is_empty : Option Handle → SequenceCache R → Bool
  last_is_empty none c = false
  last_is_empty (some id) c = is_empty_unsealed (page_record id c)

  -- The loop over the new pages of a pending append.
  unfoldable pub check_pending_pages : List Handle → SequenceCache R → Outcome R (Unit {0})
  check_pending_pages [] c = ok tt
  check_pending_pages (id ∷ ids) c = do
    p ← page_record id c
    reject_if
        (not (p.valid_tokens == 0)
          || p.sealed
          || not (p.active_refs == 1)
          || not (p.prefix_refs == 0))
        (invariant "pending append page is not private and empty")
    check_pending_pages ids c

  abbrev pub check_tail_page : ℕ → ℕ → Option Handle → SequenceCache R → Outcome R (Unit {0})
  check_tail_page page_tokens position none c = ok tt
  check_tail_page page_tokens position (some id) c = do
    p ← page_record id c
    let expected = if position % page_tokens == 0 then page_tokens else position % page_tokens
    reject_if (not (p.valid_tokens == expected))
        (invariant "tail valid rows disagree with position")
    reject_if
        (ltb expected page_tokens
          && (p.sealed || not (p.active_refs == 1) || not (p.prefix_refs == 0)))
        (invariant "writable tail is shared")

  unfoldable pub check_sequence :
      SequenceRecord R.AppendTransaction → SequenceCache R → Outcome R (Unit {0})
  check_sequence s c = do
    reject_if (ltb s.max_position s.position) (invariant "sequence exceeds maximum position")
    expected ← div_ceil s.position c.config.page_tokens
    let preallocated =
        s.position % c.config.page_tokens == 0
        && length s.pages == expected + 1
        && last_is_empty (get_last? s.pages) c
    reject_if (not (length s.pages == expected) && not preallocated)
        (invariant "sequence position disagrees with pages")
    check_pending_pages (pending_pages s.pending) c
    check_tail_page c.config.page_tokens s.position
        (if preallocated then none else get_last? s.pages) c
    max_pages ← div_ceil s.max_position c.config.page_tokens
    reject_if
        (not (length s.pages + length (pending_pages s.pending) + s.reserved_pages == max_pages))
        (invariant "sequence reservation disagrees with maximum")

  -- The first loop: the checks of each live sequence, and the references from its pages.
  unfoldable pub check_sequences :
      List (SequenceRecord R.AppendTransaction)
      → List (Handle × ℕ)
      → SequenceCache R
      → Outcome R (List (Handle × ℕ))
  unfolding check_sequence
  check_sequences [] refs c = ok refs
  check_sequences (s ∷ ss) refs c = do
    check_sequence s c
    check_sequences ss (count_each (pending_pages s.pending) (count_each s.pages refs)) c

  unfoldable pub check_entry_pages : List Handle → SequenceCache R → Outcome R (Unit {0})
  check_entry_pages [] c = ok tt
  check_entry_pages (id ∷ ids) c = do
    p ← page_record id c
    reject_if (not p.sealed || not (p.valid_tokens == c.config.page_tokens))
        (invariant "prefix references writable page")
    check_entry_pages ids c

  unfoldable pub check_entries :
      List (PrefixEntry R.radix.Key R.Snapshot)
      → List (Handle × ℕ)
      → SequenceCache R
      → Outcome R (List (Handle × ℕ))
  unfolding check_entry_pages
  check_entries [] refs c = ok refs
  check_entries (e ∷ es) refs c = do
    reject_if
        (e.position == 0
          || not (e.position % c.config.page_tokens == 0)
          || not (length e.pages * c.config.page_tokens == e.position))
        (invariant "prefix is not page aligned")
    check_entry_pages e.pages c
    check_entries es (count_each e.pages refs) c

  unfoldable pub validate : SequenceCache R → Outcome R (Unit {0})
  unfolding check_sequences check_entries check_references
  validate c = do
    active ← check_sequences (live_values c.sequences.slots) [] c
    prefix ← check_entries (values c.prefixes) [] c
    check_references 0 c.pages.slots active prefix
    recomputed ← compute_stats c
    reject_if (not (stats_eq nat_eq recomputed c.stats))
        (invariant "cached accounting differs from ownership")
    reject_if
        (not (length c.lru == length c.prefixes)
          || any_of (λ e. not (has_stamp (get_key e.1 c.prefixes) e.0)) c.lru)
        (invariant "LRU index differs from prefixes")
    reject_if (not (stats_eq int_eq c.metrics.gauges (gauges_of c.stats)))
        (invariant "exported gauges differ from exact cache state")
