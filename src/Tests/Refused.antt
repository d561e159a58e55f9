-- ===== src/Tests/Refused.antt =====
-- Appends that the backend on the CPU refuses.
use seqcache.CpuPagedKv.Page.{CpuPage}
use seqcache.Prelude.{ℕ, false, ◌≡◌, refl, true, some, none, [], ◌∷◌}
use seqcache.Word.{u32_max, u64_max, usize_max}
use seqcache.Config.{div_ceil}
use seqcache.Arena.{resolve, slot_of, write}
use seqcache.Backend.{Runtime}
use seqcache.CpuPagedKv.Pool.{new_backend, is_live, storage, validate_pages, allocate, push_page}
use seqcache.CpuPagedKv.Backend.{CpuStorage, cpu_backend, allocate_page, publish_and_release}
use seqcache.CpuPagedKv.Atomic.{cpu_backend-KeepsOnError}
use seqcache.Cache.Records.{
  SequenceCache, SequenceRecord, PageRecord, AppendReservation, AppendSegment,
}
use seqcache.Cache.New.{stats_at, new_metrics}
use seqcache.Cache.Contained.{failed_in_backend, ledger}
use seqcache.Cache.Pages.{page, page_record, physical_refs_from, prepare_page_slots}
use seqcache.Cache.Sequences.{sequence_record}
use seqcache.Cache.Reserve.{next_append_nonce, allocate_pages, roll_back}
use seqcache.Cache.Checks.{plan_append}
use seqcache.Cache.Append.{reserve_append, open_append, validate_reservation}
use seqcache.Cache.Append.Contained.{reserve_append_refused}
use seqcache.Cache.Partial.{plan_commit, committed_segments, newly_sealed}
use seqcache.Cache.Commit.{commit_append, take_pending, put_pending}
use seqcache.Cache.Commit.Contained.{commit_append_refused, abort_append_refused}
use seqcache.Cache.Abort.{abort_append, plan_abort}
use seqcache.CpuPagedKv.Backend.{retire_pages}
use seqcache.Cache.Retire.{
  count_reclaimable, retirable, take_physical, take_all, give_back, retired_or_back, hand_over,
  retire_batch, retire_page_ids,
}
use seqcache.Cache.Retire.Refused.{retire_page_ids_refused}
use seqcache.Tests.Cpu.{whole_numbers}
use seqcache.Tests.Runtime.{listed_keys, small_config, handle}

abbrev cpu_runtime : Runtime
cpu_runtime = record {
  storage = cpu_backend whole_numbers;
  radix = listed_keys;
  Snapshot = Unit {0};
  retained_bytes = λ s. 0;
  hash_order = λ entries. entries;
}

-- A pool without a page.
abbrev no_pages : CpuStorage ℕ
no_pages = record { pool = new_backend 0; tables = []; context = 0 }

abbrev idle : SequenceRecord (Unit {0})
idle = record {
  pages = [];
  position = 0;
  max_position = 12;
  reserved_pages = 2;
  private_state_bytes = 0;
  page_table_bytes = 0;
  pending = none;
}

abbrev stale : PageRecord CpuPage
stale = record {
  physical = some (record { slot = 0 });
  active_refs = 1;
  prefix_refs = 0;
  valid_tokens = 0;
  sealed = false;
}

abbrev three_rows : AppendSegment
three_rows = record { page = handle 0; page_offset = 0; input_offset = 0; rows = 3 }

abbrev reservation : AppendReservation
reservation = record {
  sequence = handle 0;
  start_position = 0;
  rows = 3;
  segments = three_rows ∷ [];
  nonce = 0;
}

abbrev appending : SequenceRecord (Unit {0})
appending = record idle {
  reserved_pages = 1;
  pending = some (record {
    start_position = 0;
    rows = 3;
    segments = three_rows ∷ [];
    new_pages = handle 0 ∷ [];
    nonce = 0;
    transaction = tt;
  });
}

abbrev cache_with : SequenceRecord (Unit {0}) → SequenceCache cpu_runtime
cache_with s = record {
  config = small_config;
  page_bytes = 16;
  page_capacity = 8;
  backend = no_pages;
  metrics = new_metrics;
  index = record { tree = []; table = record { by_tokens = []; blocks = []; next_block_id = 0 } };
  pages = record { slots = record { generation = 0; value = some stale } ∷ []; free = [] };
  sequences = record { slots = record { generation = 0; value = some s } ∷ []; free = [] };
  prefixes = [];
  lru = [];
  next_prefix_id = 0;
  clock = 0;
  append_nonce = 0;
  stats = record (stats_at 0) { reserved_pages = 2 };
  deferred_pages = 0;
}

reserve_refused : failed_in_backend (reserve_append (handle 0) 3 (cache_with idle)).0 ≡ true
unfolding reserve_append open_append plan_append sequence_record resolve slot_of div_ceil
    prepare_page_slots u32_max usize_max u64_max next_append_nonce allocate_pages allocate_page
    allocate push_page roll_back
reserve_refused = refl

reserve_append_refused_example :
    ledger (reserve_append (handle 0) 3 (cache_with idle)).1 ≡ ledger (cache_with idle)
reserve_append_refused_example =
    reserve_append_refused (handle 0) 3 (cache_with idle) reserve_refused

commit_refused : failed_in_backend (commit_append reservation 3 (cache_with appending)).0 ≡ true
unfolding commit_append plan_commit validate_reservation sequence_record page page_record
    physical_refs_from resolve slot_of write div_ceil committed_segments newly_sealed usize_max
    take_pending put_pending publish_and_release validate_pages storage is_live
commit_refused = refl

commit_append_refused_example :
    ledger (commit_append reservation 3 (cache_with appending)).1 ≡ ledger (cache_with appending)
commit_append_refused_example =
    commit_append_refused (cpu_backend-KeepsOnError whole_numbers) reservation 3
      (cache_with appending) commit_refused

abort_refused : failed_in_backend (abort_append reservation (cache_with appending)).0 ≡ true
unfolding abort_append plan_abort validate_reservation sequence_record page page_record
    physical_refs_from resolve slot_of write usize_max take_pending put_pending publish_and_release
    validate_pages storage is_live
abort_refused = refl

abort_append_refused_example :
    ledger (abort_append reservation (cache_with appending)).1 ≡ ledger (cache_with appending)
abort_append_refused_example =
    abort_append_refused (cpu_backend-KeepsOnError whole_numbers) reservation (cache_with appending)
      abort_refused

retire_refused : failed_in_backend (retire_page_ids (handle 0 ∷ []) (cache_with idle)).0 ≡ true
unfolding retire_page_ids retire_batch count_reclaimable retirable hand_over take_all take_physical
    retired_or_back give_back retire_pages is_live page_record resolve slot_of write u32_max
    usize_max
retire_refused = refl

retire_page_ids_refused_example :
    ledger (retire_page_ids (handle 0 ∷ []) (cache_with idle)).1 ≡ ledger (cache_with idle)
retire_page_ids_refused_example =
    retire_page_ids_refused (cpu_backend-KeepsOnError whole_numbers) (handle 0 ∷ [])
      (cache_with idle) retire_refused
