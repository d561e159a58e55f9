-- ===== src/WgpuPagedState/Backend.antt =====
-- examples/wgpu_paged_state.rs: the implementation of `PageBackend`. The storage is the backend with
-- the page tables that the caller lends it, of which the context names one.
use seqcache.Prelude.{
  ℕ, ◌+◌, ◌*◌, ◌||◌, true, some, List, [], ◌∷◌, map, length, ltb, leb, ◌==◌, any_of, if◌then◌else◌,
}
use seqcache.Word.{wrapped}
use seqcache.Error.{Result, ok, err, panic}
use seqcache.Exec.{Exec, raise_if, reads, each, ◌>>=◌, ◌>>◌}
use seqcache.Backend.{PageAllocation, RetireError, RetireOutcome, BackendAppendPage, PageBackend}
use seqcache.WgpuPagedState.Gpu.{
  Wgpu, WgpuBackendError, page_tokens, word_bytes, invalid_geometry, exceeds_physical_page,
  not_unaligned_tail, copy_buffer_to_buffer,
}
use seqcache.WgpuPagedState.Pool.{
  WgpuPage, WgpuPageBackend, WgpuResult, Method, validate_page, validate_pages,
  validate_distinct_pages, allocate, release, wait_for_gpu,
}
use seqcache.WgpuPagedState.Table.{WgpuPageTable, publish}

pub record WgpuStorage (G : Wgpu) : Type 0 where
  pub backend : WgpuPageBackend G
  pub tables : ℕ → WgpuPageTable G
  pub context : ℕ

-- A method of the trait.
abbrev pub Operation : Wgpu → Type 0 → Type 0
Operation G A = Exec (WgpuBackendError G.Message) (WgpuStorage G) A

-- The byte at which a page begins in the slab.
abbrev pub slab_offset : WgpuPage → ℕ
slab_offset page = page.slot * page_tokens * word_bytes

module _ {E S A : Type 0} where
  -- `result.expect(..)`
  abbrev pub expected : Result E A × S → Result E A × S
  expected (ok a, s) = (ok a, s)
  expected (err e, s) = (panic, s)
  expected (panic, s) = (panic, s)

module _ {G : Wgpu} where
  abbrev pub put_backend : WgpuPageBackend G → WgpuStorage G → WgpuStorage G
  put_backend b s = record s { backend = b }

  -- A method of the backend, on the storage.
  abbrev pub on_backend : {A : Type 0} → Method G A → Operation G A
  on_backend method s = let (r, b) = method s.backend in (r, put_backend b s)

  -- `for page in pages { self.release(*page).expect(..) }`
  unfoldable pub release_all : List WgpuPage → Method G (Unit {0})
  release_all pages = each (λ p b. expected (release p b)) pages

  -- What the table's `publish` leaves.
  unfoldable pub published_in :
      WgpuStorage G
      → WgpuResult G (G.SubmissionIndex × WgpuPageTable G × G.Device)
      → WgpuResult G (Unit {0}) × WgpuStorage G
  published_in s (ok (submission, t, d)) = (
    ok tt,
    record s {
      backend = record s.backend { device = d; last_submission = some submission };
      tables = λ i. if i == s.context then t else s.tables i;
    },
  )
  published_in s (err e) = (err e, s)
  published_in s panic = (panic, s)

  unfoldable pub publish_table : List WgpuPage → ℕ → Operation G (Unit {0})
  unfolding published_in
  publish_table pages position s =
      published_in s (publish pages position (s.tables s.context) s.backend.device)

  unfoldable pub update_page_table : List WgpuPage → ℕ → Operation G (Unit {0})
  unfolding publish_table
  update_page_table pages position =
      reads (λ s. validate_pages s.backend pages) >> publish_table pages position

  -- What `abort_append` and `commit_append` share: both lists are checked, the device is waited for,
  -- the first list is published and the second released.
  unfoldable pub publish_and_release : List WgpuPage → List WgpuPage → ℕ → Operation G (Unit {0})
  unfolding publish_table release_all
  publish_and_release pages released position =
      reads (λ s. validate_pages s.backend pages)
      >> reads (λ s. validate_pages s.backend released)
      >> on_backend wait_for_gpu
      >> publish_table pages position
      >> on_backend (release_all released)

  unfoldable pub allocate_page : Operation G (PageAllocation WgpuPage)
  allocate_page = on_backend allocate

  -- A failed release panics: nothing of the storage is seen after it.
  unfoldable pub rollback_page : WgpuPage → WgpuStorage G → WgpuStorage G
  rollback_page page s = (on_backend (release page) s).1

  unfoldable pub prepare_append : List (BackendAppendPage WgpuPage) → Operation G (Unit {0})
  prepare_append pages =
      reads (λ s. validate_pages s.backend (map (λ p. p.page) pages))
      >> raise_if (any_of (λ p. ltb page_tokens (wrapped (p.page_offset + p.rows))) pages)
          (invalid_geometry exceeds_physical_page)

  unfoldable pub submit_tail_copy : WgpuPage → WgpuPage → ℕ → WgpuPageBackend G → WgpuPageBackend G
  submit_tail_copy source destination valid_tokens b =
      let bytes = valid_tokens * word_bytes in
      let (submission, d) =
        G.submit
          (copy_buffer_to_buffer b.page_slab (slab_offset source) b.copy_scratch 0 bytes
            ∷ copy_buffer_to_buffer b.copy_scratch 0 b.page_slab (slab_offset destination) bytes
            ∷ [])
          b.device in
      record b { device = d; last_submission = some submission }

  -- A copy that fails gives the new page back.
  unfoldable pub keep_or_release :
      PageAllocation WgpuPage
      → WgpuResult G (Unit {0}) × WgpuPageBackend G
      → WgpuResult G (PageAllocation WgpuPage) × WgpuPageBackend G
  keep_or_release allocation (ok _, b) = (ok allocation, b)
  keep_or_release allocation (err e, b) =
      let (r, b') = expected (release allocation.page b) in
      (elim r [ ok _ ↦ err e | err _ ↦ err e | panic ↦ panic ], b')
  keep_or_release allocation (panic, b) = (panic, b)

  unfoldable pub copy_tail :
      WgpuPage → ℕ → PageAllocation WgpuPage → Method G (PageAllocation WgpuPage)
  unfolding submit_tail_copy keep_or_release
  copy_tail source valid_tokens allocation b =
      keep_or_release allocation
        (wait_for_gpu (submit_tail_copy source allocation.page valid_tokens b))

  unfoldable pub copy_partial_page : WgpuPage → ℕ → Operation G (PageAllocation WgpuPage)
  unfolding copy_tail
  copy_partial_page source valid_tokens = on_backend (
      reads (λ b. validate_page b source)
      >> raise_if (valid_tokens == 0 || leb page_tokens valid_tokens)
          (invalid_geometry not_unaligned_tail)
      >> wait_for_gpu
      >> (allocate >>= copy_tail source valid_tokens))

  -- The answer to a batch of pages: a failure gives them all back.
  unfoldable pub retired_or_back :
      List WgpuPage
      → WgpuResult G (Unit {0}) × WgpuStorage G
      → Result (RetireError (WgpuBackendError G.Message) WgpuPage) RetireOutcome × WgpuStorage G
  retired_or_back pages (ok _, s) = (ok (record { deferred_pages = 0 }), s)
  retired_or_back pages (err e, s) = (err (record { error = e; pages = pages }), s)
  retired_or_back pages (panic, s) = (panic, s)

  unfoldable pub retire_pages :
      List WgpuPage
      → WgpuStorage G
      → Result (RetireError (WgpuBackendError G.Message) WgpuPage) RetireOutcome × WgpuStorage G
  unfolding release_all retired_or_back
  retire_pages pages s = retired_or_back pages (
      on_backend (reads (λ b. validate_distinct_pages b pages) >> wait_for_gpu >> release_all pages)
        s)

-- The trait's implementation.
abbrev pub wgpu_backend : Wgpu → PageBackend
wgpu_backend G = record {
  Storage = WgpuStorage G;
  Page = WgpuPage;
  Context = ℕ;
  AppendTransaction = Unit {0};
  BackendError = WgpuBackendError G.Message;
  enter = λ context s. record s { context = context };
  page_bytes = λ s. page_tokens * word_bytes;
  page_capacity = λ s. some (length s.backend.live);
  allocate_page = allocate_page;
  rollback_page = rollback_page;
  prepare_append = λ pages start s. prepare_append pages s;
  abort_append = λ t restored released position s.
      let (r, s') = publish_and_release restored released position s in (r, t, s');
  copy_partial_page = copy_partial_page;
  commit_append = λ t commit s.
      let (r, s') =
        publish_and_release commit.committed_pages commit.released_pages commit.position s in
      (r, t, s');
  update_page_table = update_page_table;
  retire_pages = retire_pages;
  retirement_is_immediate = λ s. true;
  poll_reclaimed = λ s. (ok 0, s);
}
