-- ===== src/Tests/Accounts.antt =====
-- The totals of a cache, at concrete states.
use seqcache.Prelude.{some, none, [], ◌∷◌, ℕ, ◌≡◌, refl, arith}
use seqcache.Word.{u32_max, usize_max}
use seqcache.Arena.{handle_new, insert, push_slot, prepare_slot}
use seqcache.Arena.Sound.{IsSound}
use seqcache.Cache.Sequences.{put_in_slot, insert_sequence, take_sequence, remove_sequence}
use seqcache.Arena.{slot_of, vacate}
use seqcache.Cache.Sequences.Removal.{remove_sequence-IsAccounted}
use seqcache.Cache.Sequences.Accounts.{insert_sequence-IsAccounted}
use seqcache.Error.{ok}
use seqcache.Index.{block_count}
use seqcache.Cache.Records.{Stats, SequenceRecord, SequenceCache}
use seqcache.Cache.Refresh.{refresh_stats}
use seqcache.Cache.Recount.{compute_stats}
use seqcache.Cache.Accounted.{IsAccounted}
use seqcache.Cache.Accounted.Exact.{published, refresh_stats-compute_stats}
use seqcache.Tests.Runtime.{small_runtime, small_sequence, small_cache, handle}

pub small_cache-IsAccounted : IsAccounted small_cache
small_cache-IsAccounted = omega arith

abbrev small_stats : Stats ℕ
small_stats = record {
  active_sequences = 1;
  retained_prefix_entries = 0;
  interned_token_blocks = 0;
  resident_pages = 1;
  free_pages = 5;
  reserved_pages = 2;
  deferred_retirement_pages = 0;
  unique_resident_page_bytes = 16;
  outstanding_reservation_bytes = 32;
  active_private_state_bytes = 5;
  retained_snapshot_bytes = 0;
  page_table_bytes = 7;
  reclaimable_prefix_only_bytes = 0;
  total_managed_bytes = 60;
}

small_cache_totals : compute_stats small_cache ≡ ok small_stats
unfolding compute_stats usize_max block_count
small_cache_totals = refl

refresh_stats-compute_stats_example :
    refresh_stats small_cache ≡ (ok tt, published small_cache small_stats)
refresh_stats-compute_stats_example =
    refresh_stats-compute_stats small_cache small_cache-IsAccounted small_cache_totals

abbrev second_sequence : SequenceRecord (Unit {0})
second_sequence = record small_sequence { pages = []; position = 0; reserved_pages = 3 }

-- The cache with a second sequence, before its totals are published.
abbrev two_sequences : SequenceCache small_runtime
two_sequences = record small_cache {
  sequences = record {
    slots =
        record { generation = 0; value = some small_sequence }
        ∷ record { generation = 0; value = some second_sequence }
        ∷ [];
    free = [];
  };
  stats = record (small_cache.stats) {
    reserved_pages = 5;
    active_private_state_bytes = 10;
    page_table_bytes = 14;
  };
}

sequence_inserted : insert_sequence second_sequence small_cache ≡ (ok (handle 1), two_sequences)
unfolding insert_sequence put_in_slot insert push_slot prepare_slot handle_new u32_max usize_max
sequence_inserted = refl

small_sequences-IsSound : IsSound (small_cache.sequences)
small_sequences-IsSound = record { unused = tt; sized = omega arith }

insert_sequence-IsAccounted_example : IsAccounted two_sequences
insert_sequence-IsAccounted_example =
    insert_sequence-IsAccounted second_sequence small_cache two_sequences small_sequences-IsSound
      small_cache-IsAccounted sequence_inserted

-- The cache once its only sequence is removed.
abbrev no_sequence : SequenceCache small_runtime
no_sequence = record small_cache {
  sequences = record { slots = record { generation = 1; value = none } ∷ []; free = 0 ∷ [] };
  stats = record (small_cache.stats) {
    reserved_pages = 0;
    active_private_state_bytes = 0;
    page_table_bytes = 0;
  };
}

sequence_removed : remove_sequence (handle 0) small_cache ≡ (ok tt, no_sequence)
unfolding remove_sequence take_sequence slot_of vacate u32_max
sequence_removed = refl

remove_sequence-IsAccounted_example : IsAccounted no_sequence
remove_sequence-IsAccounted_example =
    remove_sequence-IsAccounted (handle 0) small_cache no_sequence small_cache-IsAccounted
      sequence_removed
