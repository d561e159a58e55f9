-- ===== src/Tests/Eviction.antt =====
-- Plans of evictions, and a partial commit, at concrete inputs.
use seqcache.Prelude.{ℕ, true, ◌≤◌, ◌≡◌, refl, none, some, List, [], ◌∷◌, arith}
use seqcache.Word.{usize_max}
use seqcache.Error.{ok}
use seqcache.Arena.{slot_of, resolve}
use seqcache.Cache.Pages.{page_record}
use seqcache.Cache.Records.{SequenceCache, PrefixEntry, PageRecord, AppendSegment}
use seqcache.Cache.New.{stats_at}
use seqcache.Cache.Partial.{committed_segments}
use seqcache.Cache.Partial.Committed.{InOrder, CutOf, committed_segments-InOrder}
use seqcache.Cache.Plan.{
  Plan, PlanRequest, initial_plan, plan_page, plan_pages, plan_snapshot, plan_entry, plan_loop,
  plan_evictions,
}
use seqcache.Cache.Plan.Bounded.{IsPrefixOf}
use seqcache.Cache.Plan.Released.{IsFreed}
use seqcache.Cache.Plan.Freed.{entries_after, requested, plan_evictions_sound}
use seqcache.Tests.Runtime.{small_runtime, small_cache, handle}

abbrev prefix_page : PageRecord ℕ
prefix_page = record {
  physical = some 0;
  active_refs = 0;
  prefix_refs = 1;
  valid_tokens = 4;
  sealed = true;
}

abbrev entry : ℕ → PrefixEntry (List ℕ) ℕ
entry last_used = record {
  key = [];
  blocks = [];
  pages = handle 0 ∷ [];
  position = 4;
  snapshot = 10;
  snapshot_bytes = 10;
  last_used = last_used;
}

-- Two retained entries; the older one alone holds a page.
abbrev retained_cache : SequenceCache small_runtime
retained_cache = record small_cache {
  pages = record { slots = record { generation = 0; value = some prefix_page } ∷ []; free = [] };
  sequences = record { slots = []; free = [] };
  prefixes = (0, entry 1) ∷ (1, record (entry 2) { pages = [] }) ∷ [];
  lru = (1, 0) ∷ (2, 1) ∷ [];
  clock = 2;
  stats = record (stats_at 0) {
    resident_pages = 1;
    retained_prefix_entries = 2;
    retained_snapshot_bytes = 20;
    unique_resident_page_bytes = 16;
    total_managed_bytes = 36;
  };
}

-- Five more bytes, within sixteen.
abbrev five_bytes : PlanRequest
five_bytes = record {
  extra_bytes = 5;
  extra_pages = 0;
  byte_limit = 16;
  target_snapshot_bytes = none;
  target_entry_count = none;
}

one_evicted : plan_evictions five_bytes (some 1) retained_cache ≡ ok (some (0 ∷ []))
unfolding plan_evictions initial_plan plan_loop plan_entry plan_snapshot plan_pages plan_page
    page_record resolve slot_of usize_max
one_evicted = refl

plan_evictions_sound_example :
    (after : Plan) × IsPrefixOf (0 ∷ []) (0 ∷ [])
    × IsFreed 16 1 10 (requested retained_cache five_bytes) after
    × (after.entries ≡ entries_after (0 ∷ []) 2)
    × (after.total ≤ 16)
    × (after.pages ≤ 8)
    × (after.snapshots ≤ 100)
    × (after.entries ≤ usize_max)
unfolding resolve slot_of
plan_evictions_sound_example = plan_evictions_sound retained_cache five_bytes (some 1) one_evicted

abbrev segment : ℕ → ℕ → ℕ → ℕ → AppendSegment
segment slot page_offset input_offset rows = record {
  page = handle slot;
  page_offset = page_offset;
  input_offset = input_offset;
  rows = rows;
}

abbrev six_rows : List AppendSegment
six_rows = segment 0 3 0 1 ∷ segment 1 0 1 4 ∷ segment 2 0 5 1 ∷ []

six_rows-InOrder : InOrder 0 6 six_rows
six_rows-InOrder = (refl, omega arith, (refl, omega arith, (refl, omega arith, refl)))

committed_segments-InOrder_example :
    InOrder 0 4 (committed_segments 4 six_rows) × CutOf (committed_segments 4 six_rows) six_rows
committed_segments-InOrder_example =
    committed_segments-InOrder 6 4 six_rows six_rows-InOrder (omega arith)
