-- ===== src/Cache/Accounted.antt =====
-- What it means that the totals kept up to date by each change agree with the ownership records.
pub mod Exact
use seqcache.Prelude.{ℕ, ◌+◌, ◌*◌, ◌≡◌, length, sum_by, count_by, values}
use seqcache.Backend.{Runtime}
use seqcache.Arena.{Arena}
use seqcache.Cache.Records.{SequenceCache}
use seqcache.Cache.Totals.{is_live, live_values, is_reclaimable}

-- Every slot is free or live.
abbrev pub IsTiled : {A : Type 0} → Arena A → Type 0
IsTiled a = length a.slots ≡ length a.free + count_by is_live a.slots

-- The totals that the methods add to and take from, against sums over the records.
pub record IsAccounted {R : Runtime} (c : SequenceCache R) : Type 0 where
  pub pages_tiled : IsTiled c.pages
  pub sequences_tiled : IsTiled c.sequences
  pub reserved :
      c.stats.reserved_pages ≡ sum_by (λ s. s.reserved_pages) (live_values c.sequences.slots)
  pub private :
      c.stats.active_private_state_bytes
      ≡ sum_by (λ s. s.private_state_bytes) (live_values c.sequences.slots)
  pub tables :
      c.stats.page_table_bytes ≡ sum_by (λ s. s.page_table_bytes) (live_values c.sequences.slots)
  pub snapshots :
      c.stats.retained_snapshot_bytes ≡ sum_by (λ e. e.snapshot_bytes) (values c.prefixes)
  pub reclaimable :
      c.stats.reclaimable_prefix_only_bytes
      ≡ count_by is_reclaimable (live_values c.pages.slots) * c.page_bytes
