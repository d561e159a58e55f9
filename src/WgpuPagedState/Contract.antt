-- ===== src/WgpuPagedState/Contract.antt =====
-- The backend of examples/wgpu_paged_state.rs where it fails: a copy gives its new page back, and a
-- retirement all pages.
use seqcache.Prelude.{
  ℕ, ◌||◌, ◌≡◌, refl, sym, subst, inl, inr, true, false, Bool, Bool-cases, List, [], ◌∷◌, get_elem?,
  some, set, length, ltb, leb, ◌==◌, lt→ltb, get_elem?-lt, get_elem?-set_self, set-set_back,
}
use seqcache.Error.{ok, err, panic}
use seqcache.Exec.{◌>>◌, ◌>>=◌, reads, raise_if}
use seqcache.Backend.Keeping.{
  Failing, Quiet, raise_if-Quiet, Quiet-Failing, FailingBack, KeepsSeen, Quiet-after, Failing-after,
  Failing-before, reads-Quiet, FailingOpen-Failing,
}
use seqcache.PageSlots.{IsPartition}
use seqcache.WgpuPagedState.Gpu.{
  Wgpu, WgpuBackendError, invalid_geometry, not_unaligned_tail, page_tokens,
}
use seqcache.WgpuPagedState.Pool.{
  WgpuPage, WgpuPageBackend, WgpuResult, is_live, allocate, pop_slot, take_slot, release,
  wait_for_gpu, validate_page, validate_distinct_pages,
}
use seqcache.WgpuPagedState.Backend.{
  WgpuStorage, release_all, allocate_page, submit_tail_copy, keep_or_release, copy_tail,
  copy_partial_page, publish_and_release, retired_or_back, retire_pages, wgpu_backend, on_backend,
}
use seqcache.WgpuPagedState.Kept.{
  SameSlots, SamePages, SameSlots-trans, wait_for_gpu-Quiet, lift-Failing,
  update_page_table-Failing, publish_and_release-Failing, prepare_append-Failing, release_all-Sure,
}

module _ {G : Wgpu} where
  pop_slot-Failing : (free : List ℕ) (b : WgpuPageBackend G) → Failing SameSlots b (pop_slot free b)
  unfolding pop_slot take_slot
  pop_slot-Failing [] b = (refl, refl)
  pop_slot-Failing (slot ∷ rest) b = elim (Bool-cases (ltb slot (length b.live))) [
    | inl e ↦ rw e tt
    | inr e ↦ rw e tt
  ]

  allocate_page-Failing : (s : WgpuStorage G) → Failing SamePages s (allocate_page s)
  unfolding allocate_page allocate
  allocate_page-Failing s =
      lift-Failing s (allocate s.backend) (pop_slot-Failing s.backend.free_slots s.backend)

  -- A copy that fails, into a page that was free in `b`.
  keep_or_release-Failing :
      (b : WgpuPageBackend G) (slot : ℕ) (rest : List ℕ)
      → get_elem? b.live slot ≡ some false
      → b.free_slots ≡ slot ∷ rest
      → (x : WgpuResult G (Unit {0}) × WgpuPageBackend G)
      → Quiet SameSlots (record b { live = set b.live slot true; free_slots = rest }) x
      → Failing SameSlots b
          (keep_or_release (record { page = record { slot = slot }; recycled = true }) x)
  unfolding keep_or_release release is_live
  keep_or_release-Failing b slot rest at free (ok _, b') h = tt
  keep_or_release-Failing b slot rest at free (err e, b') (live, popped) =
      let within = get_elem?-lt b.live slot at in
      rw (live, get_elem?-set_self b.live slot true within, popped)
        (set-set_back b.live slot true at, sym free)
  keep_or_release-Failing b slot rest at free (panic, b') h = tt

  copy_into_free-Failing :
      (source : WgpuPage) (n : ℕ) (b : WgpuPageBackend G) (free : List ℕ)
      → b.free_slots ≡ free
      → IsPartition b.live free
      → Failing SameSlots b ((pop_slot free >>= copy_tail source n) b)
  unfolding pop_slot take_slot copy_tail submit_tail_copy
  copy_into_free-Failing source n b [] e p = (refl, refl)
  copy_into_free-Failing source n b (slot ∷ rest) e p =
      let (at, others, dead) = p.dead in
      let taken = record b { live = set b.live slot true; free_slots = rest } in
      rw (lt→ltb slot (length b.live) (get_elem?-lt b.live slot at)) (
        keep_or_release-Failing b slot rest at e
          (wait_for_gpu (submit_tail_copy source (record { slot = slot }) n taken))
          (wait_for_gpu-Quiet (submit_tail_copy source (record { slot = slot }) n taken)))

  -- The checks of a copy with the wait.
  copy_checked-Quiet :
      (source : WgpuPage) (aligned : Bool) (e : WgpuBackendError G.Message) (b : WgpuPageBackend G)
      → Quiet SameSlots b
          ((reads (λ t. validate_page t source) >> raise_if aligned e >> wait_for_gpu) b)
  copy_checked-Quiet source aligned e b =
      let valid = validate_page b source in
      Quiet-after SameSlots SameSlots-trans b (λ _. wait_for_gpu)
        ((reads (λ t. validate_page t source) >> raise_if aligned e) b)
        (Quiet-after SameSlots SameSlots-trans b (λ _. raise_if aligned e) (valid, b)
          (reads-Quiet SameSlots b valid (refl, refl))
          (λ _ b' same. raise_if-Quiet SameSlots b' aligned e (refl, refl)))
        (λ _ b' same. wait_for_gpu-Quiet b')

  copy_partial_page-Failing :
      (source : WgpuPage) (n : ℕ) (s : WgpuStorage G)
      → IsPartition s.backend.live s.backend.free_slots
      → Failing SamePages s (copy_partial_page source n s)
  unfolding copy_partial_page allocate
  copy_partial_page-Failing source n s p =
      let b = s.backend in
      let aligned = n == 0 || leb page_tokens n in
      let checked =
        reads (λ (t : WgpuPageBackend G). validate_page t source)
        >> raise_if aligned (invalid_geometry not_unaligned_tail)
        >> wait_for_gpu in
      let copied = allocate >>= copy_tail source n in
      lift-Failing s ((checked >> copied) b) (
        Failing-after SameSlots SameSlots-trans b (λ _. copied) (checked b)
          (copy_checked-Quiet source aligned (invalid_geometry not_unaligned_tail) b)
          (λ _ b' (live, free). copy_into_free-Failing source n b' b'.free_slots refl (
            subst (λ l. IsPartition l b'.free_slots) (sym live)
              (subst (IsPartition b.live) (sym free) p))))

  retired_or_back-FailingBack :
      (pages : List WgpuPage) (s : WgpuStorage G) (x : WgpuResult G (Unit {0}) × WgpuStorage G)
      → Failing SamePages s x
      → FailingBack SamePages pages s (retired_or_back pages x)
  unfolding retired_or_back
  retired_or_back-FailingBack pages s (ok _, s') h = tt
  retired_or_back-FailingBack pages s (err e, s') h = (h, refl)
  retired_or_back-FailingBack pages s (panic, s') h = tt

  retire_pages-FailingBack :
      (pages : List WgpuPage) (s : WgpuStorage G)
      → FailingBack SamePages pages s (retire_pages pages s)
  unfolding retire_pages
  retire_pages-FailingBack pages s =
      let b = s.backend in
      let valid = validate_distinct_pages b pages in
      let checked = reads (λ (t : WgpuPageBackend G). validate_distinct_pages t pages) in
      retired_or_back-FailingBack pages s
        (on_backend (checked >> wait_for_gpu >> release_all pages) s)
        (lift-Failing s ((checked >> wait_for_gpu >> release_all pages) b) (
          Failing-before SameSlots SameSlots-trans b (λ _. release_all pages)
            ((checked >> wait_for_gpu) b)
            (Failing-after SameSlots SameSlots-trans b (λ _. wait_for_gpu) (valid, b)
              (reads-Quiet SameSlots b valid (refl, refl))
              (λ _ b' same. Quiet-Failing SameSlots b' (wait_for_gpu b') (wait_for_gpu-Quiet b')))
            (λ _ b'. release_all-Sure pages b')))

-- On a storage whose free slots are its dead ones, an operation of the wgpu backend that fails leaves
-- the same pages live and free and every page table as it was, whatever the device did. A copy gives
-- the page that it took back, and a retirement all of its pages.
pub wgpu_backend-KeepsSeen :
    (G : Wgpu) (s : WgpuStorage G)
    → IsPartition s.backend.live s.backend.free_slots
    → KeepsSeen (wgpu_backend G) SamePages s
wgpu_backend-KeepsSeen G s p = record {
  allocate_page = allocate_page-Failing s;
  prepare_append = λ pages position. prepare_append-Failing pages s;
  abort_append = λ t restored released position.
      FailingOpen-Failing SamePages t s (publish_and_release restored released position s)
        (publish_and_release-Failing restored released position s);
  copy_partial_page = λ source n. copy_partial_page-Failing source n s p;
  commit_append = λ t commit.
      FailingOpen-Failing SamePages t s
        (publish_and_release commit.committed_pages commit.released_pages commit.position s)
        (publish_and_release-Failing commit.committed_pages commit.released_pages commit.position
          s);
  update_page_table = λ pages position. update_page_table-Failing pages position s;
  retire_pages = λ pages. retire_pages-FailingBack pages s;
}
