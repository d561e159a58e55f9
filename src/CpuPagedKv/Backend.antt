-- ===== src/CpuPagedKv/Backend.antt =====
-- examples/cpu_paged_kv.rs: the implementation of `PageBackend`. The storage is the pool with the page
-- tables that the caller lends, of which the context names one.
use seqcache.Prelude.{
  ℕ, ◌+◌, ◌*◌, true, Option, none, some, List, [], ◌∷◌, map, ltb, if◌then◌else◌, set, get_elem?,
  any_of,
}
use seqcache.Word.{wrapped}
use seqcache.Error.{Result, ok, err, panic, ◌>>=◌, ◌>>◌}
use seqcache.Backend.{PageAllocation, RetireError, RetireOutcome, BackendAppendPage, PageBackend}
use seqcache.CpuPagedKv.Floats.{Floats}
use seqcache.CpuPagedKv.Page.{
  CpuPage, CpuKvPage, page_tokens, layer_count, kv_width, copy_rows_from,
}
use seqcache.CpuPagedKv.Pool.{
  CpuBackendError, CpuKvBackend, CpuResult, stale_page, invalid_page_table, is_live, storage,
  release, validate_pages, allocate,
}
use seqcache.CpuPagedKv.Model.{CpuPageTable, publish}

pub record CpuStorage (F : Type 0) : Type 0 where
  pub pool : CpuKvBackend F
  pub tables : List CpuPageTable
  pub context : ℕ

module _ {F : Type 0} where
  abbrev pub with_pool : CpuKvBackend F → CpuStorage F → CpuStorage F
  with_pool b s = record s { pool = b }

  -- `context.page_table.publish(..)`
  abbrev pub publish_in_context : List CpuPage → ℕ → CpuStorage F → CpuStorage F
  publish_in_context pages position s = elim (get_elem? s.tables s.context) [
    | none ↦ s
    | some t ↦ record s { tables = set s.tables s.context (publish pages position t) }
  ]

  -- `for page in pages { self.release(*page).expect(..) }`
  unfoldable pub release_all :
      List CpuPage → CpuKvBackend F → Result CpuBackendError (CpuKvBackend F)
  release_all [] b = ok b
  release_all (p ∷ ps) b =
      let rest = λ (b' : CpuKvBackend F). release_all ps b' in
      elim (release p b) [ ok b' ↦ rest b' | err e ↦ panic | panic ↦ panic ]

  -- What a released batch leaves, as the answer of an operation.
  abbrev pub released_in :
      CpuStorage F → CpuResult (CpuKvBackend F) → CpuResult (Unit {0}) × CpuStorage F
  released_in s (ok b) = (ok tt, with_pool b s)
  released_in s (err e) = (err e, s)
  released_in s panic = (panic, s)

  -- An operation that runs only if its pages are live.
  abbrev pub if_valid :
      CpuResult (Unit {0})
      → CpuResult (Unit {0}) × CpuStorage F
      → CpuStorage F
      → CpuResult (Unit {0}) × CpuStorage F
  if_valid (ok _) run s = run
  if_valid (err e) run s = (err e, s)
  if_valid panic run s = (panic, s)

  unfoldable pub update_page_table :
      List CpuPage → ℕ → CpuStorage F → CpuResult (Unit {0}) × CpuStorage F
  update_page_table pages position s =
      if_valid (validate_pages pages s.pool) (ok tt, publish_in_context pages position s) s

  -- What `abort_append` and `commit_append` share: both lists are checked, the first is published and
  -- the second released.
  unfoldable pub publish_and_release :
      List CpuPage → List CpuPage → ℕ → CpuStorage F → CpuResult (Unit {0}) × CpuStorage F
  unfolding release_all
  publish_and_release pages released position s =
      if_valid (validate_pages pages s.pool >> validate_pages released s.pool)
        (let s' = publish_in_context pages position s in
          released_in s' (release_all released s'.pool))
        s

  unfoldable pub rollback_page : CpuPage → CpuStorage F → CpuStorage F
  rollback_page page s = elim (release page s.pool) [ ok b ↦ with_pool b s | err e ↦ s | panic ↦ s ]

  unfoldable pub prepare_append :
      List (BackendAppendPage CpuPage) → CpuStorage F → CpuResult (Unit {0}) × CpuStorage F
  prepare_append pages s =
      if_valid (validate_pages (map (λ p. p.page) pages) s.pool)
        (if any_of (λ p. ltb page_tokens (wrapped (p.page_offset + p.rows))) pages
          then (err invalid_page_table, s)
          else (ok tt, s))
        s

  -- `find(|page| !self.is_live(*page))`
  abbrev pub find_stale : List CpuPage → CpuKvBackend F → Option CpuPage
  find_stale [] b = none
  find_stale (p ∷ ps) b = if is_live b p then find_stale ps b else some p

  abbrev pub retired_in :
      CpuStorage F
      → CpuResult (CpuKvBackend F)
      → Result (RetireError CpuBackendError CpuPage) RetireOutcome × CpuStorage F
  retired_in s (ok b) = (ok (record { deferred_pages = 0 }), with_pool b s)
  retired_in s _ = (panic, s)

  unfoldable pub retire_pages :
      List CpuPage
      → CpuStorage F
      → Result (RetireError CpuBackendError CpuPage) RetireOutcome × CpuStorage F
  unfolding release_all
  retire_pages pages s = elim (find_stale pages s.pool) [
    | some p ↦ (err (record { error = stale_page p.slot; pages = pages }), s)
    | none ↦ retired_in s (release_all pages s.pool)
  ]

module _ (Fl : Floats) where
  open Fl use {F32}

  abbrev pub allocated_in :
      CpuStorage F32
      → CpuResult (PageAllocation CpuPage × CpuKvBackend F32)
      → CpuResult (PageAllocation CpuPage) × CpuStorage F32
  allocated_in s (ok (a, b)) = (ok a, with_pool b s)
  allocated_in s (err e) = (err e, s)
  allocated_in s panic = (panic, s)

  unfoldable pub allocate_page :
      CpuStorage F32 → CpuResult (PageAllocation CpuPage) × CpuStorage F32
  allocate_page s = allocated_in s (allocate Fl s.pool)

  -- The rows are copied into the new page, which stays allocated if that fails.
  unfoldable pub copy_into :
      CpuKvPage F32
      → ℕ
      → CpuStorage F32
      → CpuResult (PageAllocation CpuPage × CpuKvBackend F32)
      → CpuResult (PageAllocation CpuPage) × CpuStorage F32
  copy_into source valid_tokens s (ok (a, b)) =
      elim (storage b a.page >>= λ p. copy_rows_from source 0 valid_tokens p) [
        | ok p ↦ (ok a, with_pool (record b { slots = set b.slots a.page.slot p }) s)
        | err e ↦ (err e, with_pool b s)
        | panic ↦ (panic, with_pool b s)
      ]
  copy_into source valid_tokens s (err e) = (err e, s)
  copy_into source valid_tokens s panic = (panic, s)

  unfoldable pub copy_partial_page :
      CpuPage → ℕ → CpuStorage F32 → CpuResult (PageAllocation CpuPage) × CpuStorage F32
  unfolding copy_into
  copy_partial_page source valid_tokens s = elim (storage s.pool source) [
    | ok rows ↦ copy_into rows valid_tokens s (allocate Fl s.pool)
    | err e ↦ (err e, s)
    | panic ↦ (panic, s)
  ]

  -- The trait's implementation. An `f32` has four bytes.
  abbrev pub cpu_backend : PageBackend
  cpu_backend = record {
    Storage = CpuStorage F32;
    Page = CpuPage;
    Context = ℕ;
    AppendTransaction = Unit {0};
    BackendError = CpuBackendError;
    enter = λ context s. record s { context = context };
    page_bytes = λ s. layer_count * 2 * page_tokens * kv_width * 4;
    page_capacity = λ s. some s.pool.max_pages;
    allocate_page = allocate_page;
    rollback_page = rollback_page;
    prepare_append = λ pages start s. prepare_append pages s;
    abort_append = λ t restored released position s.
        let (r, s') = publish_and_release restored released position s in (r, t, s');
    copy_partial_page = copy_partial_page;
    commit_append = λ t commit s.
        let (r, s') =
          publish_and_release commit.committed_pages commit.released_pages commit.position s in
        (r, t, s');
    update_page_table = update_page_table;
    retire_pages = retire_pages;
    retirement_is_immediate = λ s. true;
    poll_reclaimed = λ s. (ok 0, s);
  }
