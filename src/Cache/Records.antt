-- ===== src/Cache/Records.antt =====
-- The records of src/manager.rs, and `SequenceCache` itself. `not_sync` has no content at run time.
use seqcache.Prelude.{ℕ, Bool, Option, List, ℤ}
use seqcache.Arena.{Handle, Arena}
use seqcache.Config.{CacheConfig}
use seqcache.Backend.{Runtime}
use seqcache.Index.{PrefixIndex}

pub record PageRecord (P : Type 0) : Type 0 where
  -- `none` marks a record that is being retired.
  pub physical : Option P
  pub active_refs : ℕ
  pub prefix_refs : ℕ
  pub valid_tokens : ℕ
  pub sealed : Bool

pub record AppendSegment : Type 0 where
  pub page : Handle
  pub page_offset : ℕ
  pub input_offset : ℕ
  pub rows : ℕ

pub record PendingAppend (T : Type 0) : Type 0 where
  pub start_position : ℕ
  pub rows : ℕ
  pub segments : List AppendSegment
  pub new_pages : List Handle
  pub nonce : ℕ
  pub transaction : T

pub record SequenceRecord (T : Type 0) : Type 0 where
  pub pages : List Handle
  pub position : ℕ
  pub max_position : ℕ
  pub reserved_pages : ℕ
  pub private_state_bytes : ℕ
  pub page_table_bytes : ℕ
  pub pending : Option (PendingAppend T)

pub record PrefixEntry (K S : Type 0) : Type 0 where
  pub key : K
  pub blocks : List ℕ
  pub pages : List Handle
  pub position : ℕ
  pub snapshot : S
  pub snapshot_bytes : ℕ
  pub last_used : ℕ

pub record PrefixMatch : Type 0 where
  pub entry : ℕ
  pub position : ℕ
  pub page_count : ℕ

pub data AdmissionOutcome : Type 0 where
  admitted : Handle → AdmissionOutcome
  would_block : AdmissionOutcome

pub data RetainOutcome : Type 0 where
  inserted duplicate : ℕ → RetainOutcome

pub record AppendReservation : Type 0 where
  pub sequence : Handle
  pub start_position : ℕ
  pub rows : ℕ
  pub segments : List AppendSegment
  pub nonce : ℕ

-- `CacheStats` is `Stats ℕ`; the exported gauges of src/metrics.rs, which mirror it, are `Stats ℤ`.
pub record Stats (A : Type 0) : Type 0 where
  pub active_sequences : A
  pub retained_prefix_entries : A
  pub interned_token_blocks : A
  pub resident_pages : A
  pub free_pages : A
  pub reserved_pages : A
  pub deferred_retirement_pages : A
  pub unique_resident_page_bytes : A
  pub outstanding_reservation_bytes : A
  pub active_private_state_bytes : A
  pub retained_snapshot_bytes : A
  pub page_table_bytes : A
  pub reclaimable_prefix_only_bytes : A
  pub total_managed_bytes : A

-- The counters of src/metrics.rs.
pub data Counter : Type 0 where
  prefix_lookups prefix_hits prefix_misses prefix_restored_tokens prefix_insertions : Counter
  prefix_duplicate_insertions prefix_evictions admission_successes admission_would_block : Counter
  pages_allocated pages_recycled pages_sealed pages_copied_on_write pages_retired : Counter
  backend_failures bytes_made_reclaimable : Counter

-- The calls of `inc` and `add` on the counters, the latest first, and the values last set.
pub record CacheMetrics : Type 0 where
  pub counted : List (Counter × ℕ)
  pub gauges : Stats ℤ

pub record SequenceCache (R : Runtime) : Type 0 where
  pub config : CacheConfig
  pub page_bytes : ℕ
  pub page_capacity : ℕ
  pub backend : R.Storage
  pub metrics : CacheMetrics
  pub index : PrefixIndex R.radix
  pub pages : Arena (PageRecord R.Page)
  pub sequences : Arena (SequenceRecord R.AppendTransaction)
  pub prefixes : List (ℕ × PrefixEntry R.radix.Key R.Snapshot)
  pub lru : List (ℕ × ℕ)
  pub next_prefix_id : ℕ
  pub clock : ℕ
  pub append_nonce : ℕ
  pub stats : Stats ℕ
  pub deferred_pages : ℕ
