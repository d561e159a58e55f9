-- ===== src/Cache/Refresh.antt =====
-- src/manager.rs: `refresh_stats` and `publish_gauges`, which derive the published totals from
-- those that each change keeps up to date.
use seqcache.Prelude.{ℕ, length, ℤ}
use seqcache.Word.{checked_add, checked_sub, as_i64}
use seqcache.Error.{ok_or, arithmetic_overflow, invariant}
use seqcache.Exec.{reads, modify, ◌>>=◌, ◌>>◌}
use seqcache.Backend.{Runtime}
use seqcache.Index.{block_count}
use seqcache.Cache.Records.{SequenceCache, Stats}
use seqcache.Cache.Monad.{Action}
use seqcache.Cache.Totals.{managed_total, checked_bytes, free_pages_of}

unfoldable pub gauges_of : Stats ℕ → Stats ℤ
gauges_of s = record {
  active_sequences = as_i64 s.active_sequences;
  retained_prefix_entries = as_i64 s.retained_prefix_entries;
  interned_token_blocks = as_i64 s.interned_token_blocks;
  resident_pages = as_i64 s.resident_pages;
  free_pages = as_i64 s.free_pages;
  reserved_pages = as_i64 s.reserved_pages;
  deferred_retirement_pages = as_i64 s.deferred_retirement_pages;
  unique_resident_page_bytes = as_i64 s.unique_resident_page_bytes;
  outstanding_reservation_bytes = as_i64 s.outstanding_reservation_bytes;
  active_private_state_bytes = as_i64 s.active_private_state_bytes;
  retained_snapshot_bytes = as_i64 s.retained_snapshot_bytes;
  page_table_bytes = as_i64 s.page_table_bytes;
  reclaimable_prefix_only_bytes = as_i64 s.reclaimable_prefix_only_bytes;
  total_managed_bytes = as_i64 s.total_managed_bytes;
}

module _ {R : Runtime} where
  abbrev pub with_stats : (Stats ℕ → Stats ℕ) → SequenceCache R → SequenceCache R
  with_stats f c = record c { stats = f c.stats }

  unfoldable pub publish_gauges : SequenceCache R → SequenceCache R
  publish_gauges c = record c { metrics = record (c.metrics) { gauges = gauges_of c.stats } }

  unfoldable pub refresh_stats : Action R (Unit {0})
  unfolding publish_gauges
  refresh_stats = do
    owned ← reads (λ c.
        ok_or (checked_sub (length c.pages.slots) (length c.pages.free))
          (invariant "free page slots exceed page arena"))
    resident ← reads (λ c. ok_or (checked_add owned c.deferred_pages) arithmetic_overflow)
    modify (with_stats (λ s. record s { resident_pages = resident }))
    active ← reads (λ c.
        ok_or (checked_sub (length c.sequences.slots) (length c.sequences.free))
          (invariant "free sequence slots exceed sequence arena"))
    modify (λ c.
        with_stats
          (λ s. record s {
            active_sequences = active;
            retained_prefix_entries = length c.prefixes;
            interned_token_blocks = block_count c.index;
            deferred_retirement_pages = c.deferred_pages;
          })
          c)
    resident_bytes ← reads (λ c. checked_bytes c.stats.resident_pages c.page_bytes)
    modify (with_stats (λ s. record s { unique_resident_page_bytes = resident_bytes }))
    outstanding ← reads (λ c. checked_bytes c.stats.reserved_pages c.page_bytes)
    modify (with_stats (λ s. record s { outstanding_reservation_bytes = outstanding }))
    total ← reads (λ c.
        managed_total c.stats.unique_resident_page_bytes c.stats.outstanding_reservation_bytes
          c.stats.active_private_state_bytes c.stats.retained_snapshot_bytes
          c.stats.page_table_bytes)
    modify (with_stats (λ s. record s { total_managed_bytes = total }))
    modify (λ c.
        with_stats
          (λ s. record s {
            free_pages = free_pages_of c s.total_managed_bytes s.resident_pages s.reserved_pages;
          })
          c)
    modify publish_gauges
