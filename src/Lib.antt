-- ===== src/Lib.antt =====
-- seqcache: the paged sequence cache of src/manager.rs, with the prefix index of src/index.rs, the
-- backend contract of src/backend.rs, the errors of src/error.rs and the metrics of src/metrics.rs.
--
-- The cache owns pages of sequence state in a backend's storage, admits sequences against a byte
-- budget, appends rows to them in reservations that are committed or aborted, retains prefixes in an
-- index of interned token blocks, shares their pages by reference counts, and evicts the least
-- recently used prefixes when a request does not fit.
--
-- Files:
-- - Word, Error, Exec, Prelude: `usize` and its checked operations, `Result` with a third outcome
--   `panic` for an `expect`, an index or an `unreachable!` that fails, the `&mut self` methods as
--   actions that give the state back beside the error, lists and association lists.
-- - Config: `validate_config`, `div_ceil`, `admission_bytes`, `admission_limit`,
--   `cacheable_prefix_tokens` of src/manager.rs.
-- - Arena: the two slot vectors with free lists, and the handles of `generational_id!`;
--   Arena/Sound, Reads, Resolved, Weights and Written are about what an operation does to an arena.
-- - Backend: the trait `PageBackend` as a record of operations on a storage.
-- - Backend/Contract: what the doc of the trait asks of an operation that fails.
-- - Block, Index: `PrefixIndex` of src/index.rs, its interning table and its keys. Block/Keys is
--   about the bytes of a key; Block/Tokens, Linked, Altered, Held,
--   Interned and Prepared about the references that the table counts, and Index/Prepared about
--   `prepare_key`, `rollback_key` and `lookup_key`.
-- - Cache: `SequenceCache`. Cache/Records and Cache/Monad have its state and the shapes of its
--   methods; Totals, Recount, Refresh and Accounted have `compute_stats`, `refresh_stats` and the
--   agreement of the two; Pages and Sequences the reference counts and the arenas; Retire has
--   `retire_page_ids` and `reclaim_deferred`; Clock `tick`; Plan and Evict `plan_evictions` and
--   `commit_evictions`; Lookup `lookup_prefix`, `contains_prefix` and `page_table`; Segments,
--   Reserve and Append `reserve_append` and the access to reserved pages; Partial and Commit
--   `commit_append`; Abort `abort_append`; Batch the batches of these three; Admit `admit`;
--   BranchPlan and Branch `branch` and `finish`; Retain `retain_prefix`; New the constructors;
--   Checks and Validate `validate`.
-- - Cache/Plan/Bounded, Distinct, Released and Freed are about the entries that a plan takes and the pages
--   and bytes that it frees.
-- - Cache/Append/Sizes, Accepted and Ready are about appends that the checks let through.
-- - Cache/Clock/Stamped, Fresh, Sorted and Order are about `tick` over its renormalization; Cache/Pages/Counts and
--   Handles about the reference counts and the handles of pages; Cache/Sequences/Accounts and Removal
--   about the totals over the sequences; Cache/Contained, Append/Recorded, Append/Contained, Commit/Settled,
--   Commit/Internal, Commit/Contained, Retire/Returned and Retire/Refused about operations that the
--   backend refuses.
-- - CpuPagedKv: the backend of examples/cpu_paged_kv.rs: Page has the matrices of a page, Pool the
--   pool of pages, Model the page table with the stand-ins for model operations, Backend the
--   implementation of `PageBackend`; Dead and Pooled are about the pool, Atomic and
--   Contract about failed operations.
-- - PageSlots: the live and the free slots of a page pool.
-- - WgpuPagedState: the backend of examples/wgpu_paged_state.rs: Gpu has the `wgpu` crate as a
--   parameter, Shader the WGSL shader, Pool the slots, Table the page table, Dispatch
--   `dispatch_append`, Readback `read_rows`, Backend the implementation of `PageBackend`. Rows, Cells
--   and Written are about the rows that a dispatch writes, Kept and Contract about failed operations,
--   Dispatched about the appends that
--   `dispatch_append` accepts, Retired, Distinct and Retire about `retire_pages`.
-- - CudaPagedState: the backend of examples/cuda_paged_state.rs: Driver has the CUDA driver as a
--   parameter, Kernel the PTX kernel, Device `DeviceAllocation` and `CudaDevice`, Table the
--   double-buffered page table, Pool and Backend the pool and the implementation of `PageBackend`.
--   Agreement compares the kernel with the shader; Kept, Copied and Contract are about failed
--   operations, Published about what the device reads of the page tables. Backend/Keeping has what the two share.
-- - Tests: a runtime like the `NoopBackend` of the unit tests, and concrete runs.
--
-- Parameters: the backend with its context and its transactions (one storage state, which `enter`
-- hands a context to), the radix tree of the crate `rart`, the type of retained snapshots with
-- their size, and `hash_order`, the order in which a `HashMap` is walked; `f32` with its operations in
-- the CPU example; the `wgpu` crate and the CUDA driver, each a state with the calls that the example
-- makes, and the capacity that a `Vec::with_capacity` gets. The shader and the kernel are read as
-- functions from an invocation to its store; an array that they read is a function, so an access past
-- its end is left to the device.
--
-- Numbers are natural numbers with the checks of the source written out: `usize` and `u64` are 64
-- bits wide, `u32` 32 bits, `-= 1` on an unsigned number wraps as in a release build, and
-- `as i64` reads the same bits with a sign. The fuel of the chunks of a token list is its length,
-- and that of the segments of an append is its number of rows; with a page of at least one token, which
-- `validate_config` asks for, a round takes at least one token and one row, so neither runs out.
-- `prepare_key` panics where its `debug_assert!` fails, which a release build leaves out, and for a page of
-- no tokens; `lookup_key` is modelled for the queries that its own `debug_assert!` lets through.
--
-- A `HashMap`, a `BTreeMap` and a `BTreeSet` are lists of pairs, the ordered ones kept in order.
-- A counter is the list of its increments. The closures that borrow pages (`with_append_pages`)
-- are given the pages when they are resolved.
--
-- Not modelled: latencies read from the wall clock, `Display` and the error traits, accessors of
-- one field, the demonstrations in `append` and `main` of the examples, the capacity of the page
-- table of the CPU example, when the CUDA example drops its values, and the benches and tests. `rollback_page` of the examples
-- panics on a page that is not live; the models of it leave the storage then, since the operation of
-- the trait's record has no failure.
pub mod Prelude
pub mod Word
pub mod Error
pub mod Exec
pub mod Config
pub mod Arena
pub mod Backend
pub mod Block
pub mod Index
pub mod CpuPagedKv
pub mod PageSlots
pub mod WgpuPagedState
pub mod CudaPagedState
pub mod Cache
mod Tests
