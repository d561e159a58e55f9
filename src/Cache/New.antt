-- ===== src/Cache/New.antt =====
-- src/manager.rs: `new` and `with_metrics`.
use seqcache.Prelude.{[], unwrap_or, pos}
use seqcache.Word.{usize_max}
use seqcache.Error.{ok, err, panic, ◌>>◌}
use seqcache.Config.{CacheConfig, validate_config}
use seqcache.Backend.{Runtime}
use seqcache.Index.{index_new}
use seqcache.Cache.Records.{Stats, CacheMetrics, SequenceCache}
use seqcache.Cache.Monad.{Outcome}
use seqcache.Cache.Refresh.{refresh_stats}

abbrev pub stats_at : {A : Type 0} → A → Stats A
stats_at a = record {
  active_sequences = a;
  retained_prefix_entries = a;
  interned_token_blocks = a;
  resident_pages = a;
  free_pages = a;
  reserved_pages = a;
  deferred_retirement_pages = a;
  unique_resident_page_bytes = a;
  outstanding_reservation_bytes = a;
  active_private_state_bytes = a;
  retained_snapshot_bytes = a;
  page_table_bytes = a;
  reclaimable_prefix_only_bytes = a;
  total_managed_bytes = a;
}

abbrev pub new_metrics : CacheMetrics
new_metrics = record { counted = []; gauges = stats_at (pos 0) }

module _ {R : Runtime} where
  -- The cache before its first refresh.
  unfoldable pub empty_cache : CacheConfig → R.Storage → CacheMetrics → SequenceCache R
  empty_cache config backend metrics = record {
    config = config;
    page_bytes = R.page_bytes backend;
    page_capacity = unwrap_or (R.page_capacity backend) usize_max;
    backend = backend;
    metrics = metrics;
    index = index_new R.radix;
    pages = record { slots = []; free = [] };
    sequences = record { slots = []; free = [] };
    prefixes = [];
    lru = [];
    next_prefix_id = 0;
    clock = 0;
    append_nonce = 0;
    stats = stats_at 0;
    deferred_pages = 0;
  }

  abbrev pub refreshed : Outcome R (Unit {0}) × SequenceCache R → Outcome R (SequenceCache R)
  refreshed (ok _, c) = ok c
  refreshed (err e, c) = err e
  refreshed (panic, c) = panic

  unfoldable pub with_metrics : CacheConfig → R.Storage → CacheMetrics → Outcome R (SequenceCache R)
  unfolding empty_cache
  with_metrics config backend metrics = do
    validate_config config (R.page_bytes backend)
    refreshed (refresh_stats (empty_cache config backend metrics))

  unfoldable pub new : CacheConfig → R.Storage → Outcome R (SequenceCache R)
  unfolding with_metrics
  new config backend = with_metrics config backend new_metrics
