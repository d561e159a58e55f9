-- ===== src/CudaPagedState/Contract.antt =====
-- The backend of examples/cuda_paged_state.rs where it fails, operation by operation.
use seqcache.Prelude.{
  ℕ, refl, sym, ap, subst, ◌∙◌, inl, inr, Bool-cases, List, [], ◌∷◌, ltb, length, ◌==◌, ◌*◌,
}
use seqcache.Error.{ok, err, panic}
use seqcache.Exec.{◌>>◌, ◌>>=◌, reads, raise_if}
use seqcache.Backend.Keeping.{
  Failing, FailingBack, KeepsSeen, Failing-since, Failing-weaken, FailingOpen-Failing,
  raise_if-Quiet, reads-Quiet,
}
use seqcache.CudaPagedState.Driver.{Cuda, page_tokens, float_bytes, invalid_geometry}
use seqcache.CudaPagedState.Device.{DeviceAllocation, new_allocation, synchronize}
use seqcache.CudaPagedState.Pool.{
  CudaPage, CudaStorage, CudaResult, Operation, is_live, pointer, take_slot, push_page, pop_or_push,
  allocate,
}
use seqcache.CudaPagedState.Backend.{
  wait, copy_into, allocate_page, prepare_append, copy_partial_page, update_page_table,
  publish_and_release, retired_or_back, retire_pages, cuda_backend,
}
use seqcache.CudaPagedState.Kept.{
  SamePool, SamePool-refl, SameTables-trans, on_driver-Quiet, update_page_table-Failing,
  publish_and_release-Failing, prepare_append-Failing, retired-Failing,
}
use seqcache.CudaPagedState.Copied.{IsSound, SamePages, allocated-Failing}

module _ {C : Cuda} where
  seen : (s s' : CudaStorage C) → SamePool s s' → SamePages s s'
  seen s s' (pool, tables) = ((λ p. ap (λ b. is_live b p) pool), tables)

  seen-trans : (a b c : CudaStorage C) → SamePool a b → SamePages b c → SamePages a c
  seen-trans a b c (pool, tables) (live, tables') =
      ((λ p. live p ∙ ap (λ b'. is_live b' p) pool), SameTables-trans a b c tables tables')

  pushed-Failing :
      (s : CudaStorage C) (x : CudaResult DeviceAllocation × C.Driver)
      → Failing SamePages s (push_page x s)
  unfolding push_page
  pushed-Failing s (ok a, d) = tt
  pushed-Failing s (err e, d) = seen s (record s { driver = d }) (SamePool-refl s)
  pushed-Failing s (panic, d) = tt

  pop_or_push-Failing :
      (free : List ℕ) (s : CudaStorage C) → Failing SamePages s (pop_or_push free s)
  unfolding pop_or_push take_slot
  pop_or_push-Failing [] s =
      elim (Bool-cases (length s.backend.allocations == s.backend.max_pages)) [
        | inl full ↦ rw full (seen s s (SamePool-refl s))
        | inr room ↦
            rw room (pushed-Failing s (new_allocation C (page_tokens * float_bytes) s.driver))
      ]
  pop_or_push-Failing (slot ∷ rest) s = elim (Bool-cases (ltb slot (length s.backend.live))) [
    | inl e ↦ rw e tt
    | inr e ↦ rw e tt
  ]

  allocate_page-Failing : (s : CudaStorage C) → Failing SamePages s (allocate_page s)
  unfolding allocate_page allocate
  allocate_page-Failing s = pop_or_push-Failing s.backend.free_slots s

  copy_partial_page-Failing :
      (source : CudaPage) (n : ℕ) (s : CudaStorage C)
      → IsSound s.backend
      → Failing SamePages s (copy_partial_page source n s)
  unfolding copy_partial_page
  copy_partial_page-Failing source n s sound =
      let long = ltb page_tokens n in
      let copied = λ (p : ℕ). allocate >>= copy_into p n in
      let read : Operation C _ =
        reads (λ (t : CudaStorage C). pointer t.backend source) >>= copied in
      Failing-since SamePool SamePages seen-trans seen s (λ _. wait >> read)
        (raise_if long (invalid_geometry "copy exceeds a physical CUDA page") s)
        (raise_if-Quiet SamePool s long _ (SamePool-refl s))
        (λ _ s' same.
          Failing-since SamePool SamePages seen-trans seen s' (λ _. read) (wait s')
            (on_driver-Quiet (synchronize s'.device) s')
            (λ _ s'' same'.
              Failing-since SamePool SamePages seen-trans seen s'' copied
                (pointer s''.backend source, s'')
                (reads-Quiet SamePool s'' (pointer s''.backend source) (SamePool-refl s''))
                (λ p end same''.
                  allocated-Failing end p n
                    (subst IsSound (sym (same''.0 ∙ same'.0 ∙ same.0)) sound))))

  retired_or_back-FailingBack :
      (pages : List CudaPage) (s : CudaStorage C) (x : CudaResult (Unit {0}) × CudaStorage C)
      → Failing SamePool s x
      → FailingBack SamePages pages s (retired_or_back pages x)
  unfolding retired_or_back
  retired_or_back-FailingBack pages s (ok _, s') h = tt
  retired_or_back-FailingBack pages s (err e, s') h = (seen s s' h, refl)
  retired_or_back-FailingBack pages s (panic, s') h = tt

  retire_pages-FailingBack :
      (pages : List CudaPage) (s : CudaStorage C)
      → FailingBack SamePages pages s (retire_pages pages s)
  unfolding retire_pages
  retire_pages-FailingBack pages s = retired_or_back-FailingBack pages s _ (retired-Failing pages s)

-- On a pool whose free slots are its dead ones and whose every slot has its memory, an operation of
-- the CUDA backend that fails, in the driver or before it, leaves the same pages live, and the host's
-- record of every page table: its device allocations, the published addresses, which copy is active,
-- and the position. What the device's memory holds is not compared. A copy gives its new page back, and
-- a retirement all of its pages.
pub cuda_backend-KeepsSeen :
    (C : Cuda) (s : CudaStorage C) → IsSound s.backend → KeepsSeen (cuda_backend C) SamePages s
cuda_backend-KeepsSeen C s sound = record {
  allocate_page = allocate_page-Failing s;
  prepare_append = λ pages position.
      Failing-weaken SamePool SamePages s (prepare_append pages s) (seen s)
        (prepare_append-Failing pages s);
  abort_append = λ t restored released position.
      let x = publish_and_release restored released position s in
      FailingOpen-Failing SamePages t s x (
        Failing-weaken SamePool SamePages s x (seen s)
          (publish_and_release-Failing restored released position s));
  copy_partial_page = λ source n. copy_partial_page-Failing source n s sound;
  commit_append = λ t commit.
      let x = publish_and_release commit.committed_pages commit.released_pages commit.position s in
      FailingOpen-Failing SamePages t s x (
        Failing-weaken SamePool SamePages s x (seen s) (
          publish_and_release-Failing commit.committed_pages commit.released_pages commit.position
            s));
  update_page_table = λ pages position.
      Failing-weaken SamePool SamePages s (update_page_table pages position s) (seen s)
        (update_page_table-Failing pages position s);
  retire_pages = λ pages. retire_pages-FailingBack pages s;
}
