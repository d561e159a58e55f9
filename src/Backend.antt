-- ===== src/Backend.antt =====
-- src/backend.rs: the contract with the runtime's page storage, and what else the crate takes from
-- outside: the snapshots of src/lib.rs, the radix tree of the `rart` crate, and the iteration order
-- of a hash map. All of them are parameters.
pub mod Contract
pub mod Keeping
use seqcache.Prelude.{ℕ, Bool, Option, List}
use seqcache.Error.{Result}
use seqcache.Arena.{Handle}

pub record PageAllocation (P : Type 0) : Type 0 where
  pub page : P
  pub recycled : Bool

-- A failed retirement returns every page.
pub record RetireError (E P : Type 0) : Type 0 where
  pub error : E
  pub pages : List P

pub record RetireOutcome : Type 0 where
  pub deferred_pages : ℕ

pub record BackendAppendPage (P : Type 0) : Type 0 where
  pub page : P
  pub page_offset : ℕ
  pub input_offset : ℕ
  pub rows : ℕ
  pub existing : Bool

pub record BackendAppendCommit (P : Type 0) : Type 0 where
  pub committed_pages : List P
  pub sealed_pages : List P
  pub released_pages : List P
  pub rows : ℕ
  pub position : ℕ

-- The trait `PageBackend`. A `Storage` is the backend together with the contexts that the caller
-- lends it; `enter` makes one of these the context of the operations that follow.
pub record PageBackend : Type 1 where
  pub Storage : Type 0
  pub Page : Type 0
  pub Context : Type 0
  pub AppendTransaction : Type 0
  pub BackendError : Type 0
  pub enter : Context → Storage → Storage
  pub page_bytes : Storage → ℕ
  pub page_capacity : Storage → Option ℕ
  pub allocate_page : Storage → Result BackendError (PageAllocation Page) × Storage
  pub rollback_page : Page → Storage → Storage
  pub prepare_append :
      List (BackendAppendPage Page) → ℕ → Storage → Result BackendError AppendTransaction × Storage
  -- The transaction is lent, so it comes back changed.
  pub abort_append :
      AppendTransaction
      → List Page
      → List Page
      → ℕ
      → Storage
      → Result BackendError (Unit {0}) × AppendTransaction × Storage
  pub copy_partial_page : Page → ℕ → Storage → Result BackendError (PageAllocation Page) × Storage
  pub commit_append :
      AppendTransaction
      → BackendAppendCommit Page
      → Storage
      → Result BackendError (Unit {0}) × AppendTransaction × Storage
  pub update_page_table : List Page → ℕ → Storage → Result BackendError (Unit {0}) × Storage
  pub retire_pages :
      List Page → Storage → Result (RetireError BackendError Page) RetireOutcome × Storage
  pub retirement_is_immediate : Storage → Bool
  pub poll_reclaimed : Storage → Result BackendError ℕ × Storage

-- `AdaptiveRadixTree<PrefixKey, PrefixEntryId>` of the `rart` crate, and its key builder.
pub record RadixTree : Type 1 where
  pub Tree : Type 0
  pub Key : Type 0
  pub empty : Tree
  pub finish : List ℕ → Key
  pub as_ref : Key → List ℕ
  pub longest_prefix_value_bytes : Tree → List ℕ → Option ℕ
  pub get_bytes : Tree → List ℕ → Option ℕ
  pub insert_k : Tree → Key → ℕ → Option ℕ × Tree
  pub remove_k : Tree → Key → Tree

pub record Runtime : Type 1 where
  pub storage : PageBackend
  pub open storage use *
  pub radix : RadixTree
  -- The trait `RetainedSnapshot` of src/lib.rs.
  pub Snapshot : Type 0
  pub retained_bytes : Snapshot → ℕ
  -- The order in which a `HashMap<PageId, usize>` with these entries is iterated.
  pub hash_order : List (Handle × ℕ) → List (Handle × ℕ)
