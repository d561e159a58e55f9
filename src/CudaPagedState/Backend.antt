-- ===== src/CudaPagedState/Backend.antt =====
-- examples/cuda_paged_state.rs: the implementation of `PageBackend`.
use seqcache.Prelude.{ℕ, ◌+◌, ◌*◌, true, some, List, map, length, ltb, ◌==◌, any_of, if◌then◌else◌}
use seqcache.Word.{wrapped}
use seqcache.Error.{Result, ok, err, panic}
use seqcache.Exec.{raise_if, reads, each, modify, ◌>>=◌, ◌>>◌}
use seqcache.Backend.{PageAllocation, RetireError, RetireOutcome, BackendAppendPage, PageBackend}
use seqcache.CudaPagedState.Driver.{
  Cuda, CudaBackendError, page_tokens, float_bytes, invalid_geometry, checked,
}
use seqcache.CudaPagedState.Device.{synchronize}
use seqcache.CudaPagedState.Table.{CudaPageTable, stage, swap_tables, copy_addresses}
use seqcache.CudaPagedState.Pool.{
  CudaPage, CudaPageBackend, CudaStorage, CudaResult, Operation, put_backend, on_driver, pointer,
  validate_pages, addresses, allocate, release,
}

module _ {C : Cuda} where
  -- `result.expect(..)` of a release.
  unfoldable pub expected :
      CudaStorage C
      → CudaResult (Unit {0}) × CudaPageBackend
      → CudaResult (Unit {0}) × CudaStorage C
  expected s (ok _, b) = (ok tt, put_backend b s)
  expected s (err e, b) = (panic, put_backend b s)
  expected s (panic, b) = (panic, put_backend b s)

  -- `for page in pages { self.release(*page).expect(..) }`
  unfoldable pub release_all : List CudaPage → Operation C (Unit {0})
  unfolding expected
  release_all pages = each (λ p s. expected s (release p s.backend)) pages

  abbrev pub wait : Operation C (Unit {0})
  wait s = on_driver (synchronize s.device) s

  -- A change of the table that the context names.
  abbrev pub change_table : (CudaPageTable → CudaPageTable) → CudaStorage C → CudaStorage C
  change_table f s = record s {
    tables = λ i. if i == s.context then f (s.tables i) else s.tables i;
  }

  -- `context.page_table.publish(..)`
  unfoldable pub publish : List ℕ → ℕ → Operation C (Unit {0})
  publish as' position s =
      let too_long = ltb (s.tables s.context).staging_addresses.capacity (length as') in
      (raise_if too_long (invalid_geometry "logical page table exceeds its admitted capacity")
          >> (modify (change_table (stage as'))
              >> (wait
                  >> (on_driver (copy_addresses C (s.tables s.context) as')
                      >> modify (change_table (swap_tables position))))))
        s

  unfoldable pub update_page_table : List CudaPage → ℕ → Operation C (Unit {0})
  unfolding publish
  update_page_table pages position =
      reads (λ s. validate_pages s.backend pages)
      >> (reads (λ s. addresses s.backend pages) >>= λ as'. publish as' position)

  -- What `abort_append` and `commit_append` share.
  unfoldable pub publish_and_release : List CudaPage → List CudaPage → ℕ → Operation C (Unit {0})
  unfolding publish release_all
  publish_and_release pages released position =
      reads (λ s. validate_pages s.backend pages)
      >> (reads (λ s. validate_pages s.backend released)
          >> (wait
              >> (reads (λ s. addresses s.backend pages) >>= λ as'.
                  publish as' position >> release_all released)))

  unfoldable pub allocate_page : Operation C (PageAllocation CudaPage)
  allocate_page = allocate

  -- A failed release panics: nothing of the storage is seen after it.
  unfoldable pub rollback_page : CudaPage → CudaStorage C → CudaStorage C
  rollback_page page s = put_backend (release page s.backend).1 s

  unfoldable pub prepare_append : List (BackendAppendPage CudaPage) → Operation C (Unit {0})
  prepare_append pages =
      reads (λ s. validate_pages s.backend (map (λ p. p.page) pages))
      >> raise_if (any_of (λ p. ltb page_tokens (wrapped (p.page_offset + p.rows))) pages)
          (invalid_geometry "append segment exceeds a physical CUDA page")

  -- A copy that fails gives the new page back.
  unfoldable pub keep_or_release :
      PageAllocation CudaPage
      → CudaResult (Unit {0}) × CudaStorage C
      → CudaResult (PageAllocation CudaPage) × CudaStorage C
  unfolding expected
  keep_or_release allocation (ok _, s) = (ok allocation, s)
  keep_or_release allocation (err e, s) =
      let (r, s') = expected s (release allocation.page s.backend) in
      (elim r [ ok _ ↦ err e | err _ ↦ err e | panic ↦ panic ], s')
  keep_or_release allocation (panic, s) = (panic, s)

  unfoldable pub copy_into : ℕ → ℕ → PageAllocation CudaPage → Operation C (PageAllocation CudaPage)
  unfolding keep_or_release
  copy_into source_pointer valid_tokens allocation =
      reads (λ s. pointer s.backend allocation.page) >>= λ destination_pointer s.
      keep_or_release allocation (
        on_driver
          (checked "cuMemcpyDtoD(partial page)"
            (C.cu_memcpy_dtod destination_pointer source_pointer (valid_tokens * float_bytes)))
          s)

  unfoldable pub copy_partial_page : CudaPage → ℕ → Operation C (PageAllocation CudaPage)
  unfolding copy_into
  copy_partial_page source valid_tokens =
      raise_if (ltb page_tokens valid_tokens) (invalid_geometry "copy exceeds a physical CUDA page")
      >> (wait
          >> (reads (λ s. pointer s.backend source) >>= λ source_pointer.
              allocate >>= copy_into source_pointer valid_tokens))

  -- The answer to a batch of pages: a failure gives them all back.
  unfoldable pub retired_or_back :
      List CudaPage
      → CudaResult (Unit {0}) × CudaStorage C
      → Result (RetireError CudaBackendError CudaPage) RetireOutcome × CudaStorage C
  retired_or_back pages (ok _, s) = (ok (record { deferred_pages = 0 }), s)
  retired_or_back pages (err e, s) = (err (record { error = e; pages = pages }), s)
  retired_or_back pages (panic, s) = (panic, s)

  unfoldable pub retire_pages :
      List CudaPage
      → CudaStorage C
      → Result (RetireError CudaBackendError CudaPage) RetireOutcome × CudaStorage C
  unfolding release_all retired_or_back
  retire_pages pages s =
      retired_or_back pages
        ((reads (λ s'. validate_pages s'.backend pages) >> (wait >> release_all pages)) s)

-- The trait's implementation.
abbrev pub cuda_backend : Cuda → PageBackend
cuda_backend C = record {
  Storage = CudaStorage C;
  Page = CudaPage;
  Context = ℕ;
  AppendTransaction = Unit {0};
  BackendError = CudaBackendError;
  enter = λ context s. record s { context = context };
  page_bytes = λ s. page_tokens * float_bytes;
  page_capacity = λ s. some s.backend.max_pages;
  allocate_page = allocate_page;
  rollback_page = rollback_page;
  prepare_append = λ pages start s. prepare_append pages s;
  abort_append = λ t restored released position s.
      let (r, s') = publish_and_release restored released position s in (r, t, s');
  copy_partial_page = copy_partial_page;
  commit_append = λ t commit s.
      let (r, s') =
        publish_and_release commit.committed_pages commit.released_pages commit.position s in
      (r, t, s');
  update_page_table = update_page_table;
  retire_pages = retire_pages;
  retirement_is_immediate = λ s. true;
  poll_reclaimed = λ s. (ok 0, s);
}
