-- ===== src/Cache/Recount.antt =====
-- src/manager.rs: `compute_stats`, which recomputes every total from the ownership records.
use seqcache.Prelude.{ℕ, length, values, count_by}
use seqcache.Word.{checked_add}
use seqcache.Error.{ok, ok_or, arithmetic_overflow, ◌>>=◌}
use seqcache.Backend.{Runtime}
use seqcache.Index.{block_count}
use seqcache.Cache.Records.{SequenceCache, Stats}
use seqcache.Cache.Monad.{Outcome}
use seqcache.Cache.Totals.{
  is_live, live_values, is_reclaimable, try_total, managed_total, checked_bytes, free_pages_of,
}

-- The folds of `compute_stats`.
pub record LiveTotals : Type 0 where
  pub resident : ℕ
  pub reserved : ℕ
  pub private : ℕ
  pub tables : ℕ
  pub snapshots : ℕ

module _ {R : Runtime} where
  unfoldable pub live_totals : SequenceCache R → Outcome R LiveTotals
  live_totals c = do
    let sequences = live_values c.sequences.slots
    resident ←
        ok_or (checked_add (count_by is_live c.pages.slots) c.deferred_pages) arithmetic_overflow
    reserved ← try_total (λ s. s.reserved_pages) 0 sequences
    private ← try_total (λ s. s.private_state_bytes) 0 sequences
    tables ← try_total (λ s. s.page_table_bytes) 0 sequences
    snapshots ← try_total (λ e. e.snapshot_bytes) 0 (values c.prefixes)
    ok (record {
      resident = resident;
      reserved = reserved;
      private = private;
      tables = tables;
      snapshots = snapshots;
    })

  -- The rest of `compute_stats`.
  unfoldable pub stats_from : SequenceCache R → LiveTotals → Outcome R (Stats ℕ)
  stats_from c t = do
    resident_bytes ← checked_bytes t.resident c.page_bytes
    outstanding ← checked_bytes t.reserved c.page_bytes
    reclaimable ← checked_bytes (count_by is_reclaimable (live_values c.pages.slots)) c.page_bytes
    total ← managed_total resident_bytes outstanding t.private t.snapshots t.tables
    ok (record {
      active_sequences = count_by is_live c.sequences.slots;
      retained_prefix_entries = length c.prefixes;
      interned_token_blocks = block_count c.index;
      resident_pages = t.resident;
      free_pages = free_pages_of c total t.resident t.reserved;
      reserved_pages = t.reserved;
      deferred_retirement_pages = c.deferred_pages;
      unique_resident_page_bytes = resident_bytes;
      outstanding_reservation_bytes = outstanding;
      active_private_state_bytes = t.private;
      retained_snapshot_bytes = t.snapshots;
      page_table_bytes = t.tables;
      reclaimable_prefix_only_bytes = reclaimable;
      total_managed_bytes = total;
    })

  unfoldable pub compute_stats : SequenceCache R → Outcome R (Stats ℕ)
  unfolding live_totals stats_from
  compute_stats c = live_totals c >>= stats_from c
