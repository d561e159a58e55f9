-- ===== src/Tests/Runtime.antt =====
-- A runtime for the tests, like the `NoopBackend` of the unit tests in src/manager.rs, with pages that
-- are numbered, and a radix tree that is an association list.
use seqcache.Prelude.{
  ℕ, suc, Bool, true, false, ◌&&◌, Option, none, some, List, [], ◌∷◌, length, ltb, ◌==◌,
  if◌then◌else◌,
}
use seqcache.Error.{ok}
use seqcache.Arena.{Handle}
use seqcache.Config.{CacheConfig}
use seqcache.Block.{get_tokens, remove_tokens}
use seqcache.Backend.{PageBackend, RadixTree, Runtime}
use seqcache.Cache.Records.{SequenceCache, PageRecord, SequenceRecord}
use seqcache.Cache.New.{stats_at, new_metrics}

-- A page is its number, and the storage is the next number.
abbrev pub numbered_pages : PageBackend
numbered_pages = record {
  Storage = ℕ;
  Page = ℕ;
  Context = Unit {0};
  AppendTransaction = Unit {0};
  BackendError = Unit {0};
  enter = λ x b. b;
  page_bytes = λ b. 16;
  page_capacity = λ b. some 8;
  allocate_page = λ b. (ok (record { page = b; recycled = false }), suc b);
  rollback_page = λ p b. b;
  prepare_append = λ ps p b. (ok tt, b);
  abort_append = λ t r s p b. (ok tt, t, b);
  copy_partial_page = λ p n b. (ok (record { page = b; recycled = false }), suc b);
  commit_append = λ t c b. (ok tt, t, b);
  update_page_table = λ ps p b. (ok tt, b);
  retire_pages = λ ps b. (ok (record { deferred_pages = 0 }), b);
  retirement_is_immediate = λ b. true;
  poll_reclaimed = λ b. (ok 0, b);
}

abbrev is_prefix : List ℕ → List ℕ → Bool
is_prefix [] ys = true
is_prefix (x ∷ xs) [] = false
is_prefix (x ∷ xs) (y ∷ ys) = x == y && is_prefix xs ys

-- The value of the longest key that begins the query.
abbrev longest_in : ℕ → Option ℕ → List ℕ → List (List ℕ × ℕ) → Option ℕ
longest_in best found query [] = found
longest_in best found query ((key, v) ∷ m) =
    let better = is_prefix key query && ltb best (suc (length key)) in
    longest_in (if better then suc (length key) else best) (if better then some v else found) query
      m

abbrev pub listed_keys : RadixTree
listed_keys = record {
  Tree = List (List ℕ × ℕ);
  Key = List ℕ;
  empty = [];
  finish = λ bytes. bytes;
  as_ref = λ key. key;
  longest_prefix_value_bytes = λ t query. longest_in 0 none query t;
  get_bytes = λ t key. get_tokens key t;
  insert_k = λ t key v. (get_tokens key t, (key, v) ∷ remove_tokens key t);
  remove_k = λ t key. remove_tokens key t;
}

abbrev pub small_runtime : Runtime
small_runtime = record {
  storage = numbered_pages;
  radix = listed_keys;
  Snapshot = ℕ;
  retained_bytes = λ s. s;
  hash_order = λ entries. entries;
}

abbrev pub small_config : CacheConfig
small_config = record {
  page_tokens = 4;
  max_managed_bytes = 1000;
  max_snapshot_bytes = 100;
  max_prefix_entries = none;
  emergency_bytes = 100;
}

abbrev pub handle : ℕ → Handle
handle slot = record { slot = slot; generation = 0 }

abbrev pub tail_page : PageRecord ℕ
tail_page = record {
  physical = some 0;
  active_refs = 1;
  prefix_refs = 0;
  valid_tokens = 3;
  sealed = false;
}

-- Three positions on one page, admitted up to twelve.
abbrev pub small_sequence : SequenceRecord (Unit {0})
small_sequence = record {
  pages = handle 0 ∷ [];
  position = 3;
  max_position = 12;
  reserved_pages = 2;
  private_state_bytes = 5;
  page_table_bytes = 7;
  pending = none;
}

-- The cache with that sequence, before its totals are published.
abbrev pub small_cache : SequenceCache small_runtime
small_cache = record {
  config = small_config;
  page_bytes = 16;
  page_capacity = 8;
  backend = 1;
  metrics = new_metrics;
  index = record { tree = []; table = record { by_tokens = []; blocks = []; next_block_id = 0 } };
  pages = record { slots = record { generation = 0; value = some tail_page } ∷ []; free = [] };
  sequences = record {
    slots = record { generation = 0; value = some small_sequence } ∷ [];
    free = [];
  };
  prefixes = [];
  lru = [];
  next_prefix_id = 0;
  clock = 0;
  append_nonce = 0;
  stats = record (stats_at 0) {
    reserved_pages = 2;
    active_private_state_bytes = 5;
    page_table_bytes = 7;
  };
  deferred_pages = 0;
}
