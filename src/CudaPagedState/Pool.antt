-- ===== src/CudaPagedState/Pool.antt =====
-- examples/cuda_paged_state.rs: `CudaPageBackend`, and the storage, which is the backend with the
-- driver, the device and the page tables that the caller lends. The head of `free_slots` is the end
-- of the source's vector.
use seqcache.Prelude.{
  ℕ, ◌*◌, Bool, true, false, not, List, [], ◌∷◌, ◌++◌, length, get_elem?, set, unwrap_or, ltb, ◌==◌,
  if◌then◌else◌, none, some,
}
use seqcache.Error.{Result, ok, err, panic, ◌>>=◌}
use seqcache.Exec.{Exec}
use seqcache.Backend.{PageAllocation}
use seqcache.CudaPagedState.Driver.{
  Cuda, CudaBackendError, DriverCall, page_tokens, float_bytes, out_of_pages, stale_page,
}
use seqcache.CudaPagedState.Device.{DeviceAllocation, CudaDevice, new_allocation}
use seqcache.CudaPagedState.Table.{CudaPageTable}

pub record CudaPage : Type 0 where
  pub slot : ℕ

pub record CudaPageBackend : Type 0 where
  pub allocations : List DeviceAllocation
  pub live : List Bool
  pub free_slots : List ℕ
  pub max_pages : ℕ

pub record CudaStorage (C : Cuda) : Type 0 where
  pub backend : CudaPageBackend
  pub driver : C.Driver
  pub device : CudaDevice C
  pub tables : ℕ → CudaPageTable
  pub context : ℕ

abbrev pub CudaResult : Type 0 → Type 0
CudaResult A = Result CudaBackendError A

-- A method with the backend and what is lent to it.
abbrev pub Operation : Cuda → Type 0 → Type 0
Operation C A = Exec CudaBackendError (CudaStorage C) A

abbrev pub new_backend : ℕ → CudaPageBackend
new_backend max_pages = record {
  allocations = [];
  live = [];
  free_slots = [];
  max_pages = max_pages;
}

unfoldable pub is_live : CudaPageBackend → CudaPage → Bool
is_live b page = unwrap_or (get_elem? b.live page.slot) false

-- `self.allocations[slot].pointer`
abbrev pub allocation_pointer : List DeviceAllocation → ℕ → CudaResult ℕ
allocation_pointer as' slot = elim (get_elem? as' slot) [ none ↦ panic | some a ↦ ok a.pointer ]

unfoldable pub pointer : CudaPageBackend → CudaPage → CudaResult ℕ
unfolding is_live
pointer b page =
    if not (is_live b page)
    then err (stale_page page.slot)
    else allocation_pointer b.allocations page.slot

unfoldable pub validate_pages : CudaPageBackend → List CudaPage → CudaResult (Unit {0})
unfolding pointer
validate_pages b [] = ok tt
validate_pages b (p ∷ ps) = pointer b p >>= λ _. validate_pages b ps

unfoldable pub addresses : CudaPageBackend → List CudaPage → CudaResult (List ℕ)
unfolding pointer
addresses b [] = ok []
addresses b (p ∷ ps) = pointer b p >>= λ a. addresses b ps >>= λ as'. ok (a ∷ as')

unfoldable pub release : CudaPage → CudaPageBackend → CudaResult (Unit {0}) × CudaPageBackend
unfolding is_live
release page b = if not (is_live b page) then (err (stale_page page.slot), b) else (
  ok tt,
  record b { live = set b.live page.slot false; free_slots = page.slot ∷ b.free_slots },
)

abbrev pub allocation_of : ℕ → Bool → PageAllocation CudaPage
allocation_of slot recycled = record { page = record { slot = slot }; recycled = recycled }

module _ {C : Cuda} where
  abbrev pub put_backend : CudaPageBackend → CudaStorage C → CudaStorage C
  put_backend b s = record s { backend = b }

  -- A call of the driver.
  abbrev pub on_driver : {A : Type 0} → DriverCall C A → Operation C A
  on_driver call s = let (r, d) = call s.driver in (r, record s { driver = d })

  -- The slot that `allocate` pops.
  unfoldable pub take_slot : ℕ → List ℕ → Operation C (PageAllocation CudaPage)
  take_slot slot rest s =
      let popped = record s.backend { free_slots = rest } in
      if ltb slot (length s.backend.live)
      then (
        ok (allocation_of slot true),
        put_backend (record popped { live = set s.backend.live slot true }) s,
      )
      else (panic, put_backend popped s)

  -- The new page is pushed if the device has memory for it.
  unfoldable pub push_page :
      CudaResult DeviceAllocation × C.Driver → Operation C (PageAllocation CudaPage)
  push_page (ok a, d) s = (
    ok (allocation_of (length s.backend.allocations) false),
    record s {
      backend = record s.backend {
        allocations = s.backend.allocations ++ a ∷ [];
        live = s.backend.live ++ true ∷ [];
      };
      driver = d;
    },
  )
  push_page (err e, d) s = (err e, record s { driver = d })
  push_page (panic, d) s = (panic, record s { driver = d })

  unfoldable pub pop_or_push : List ℕ → Operation C (PageAllocation CudaPage)
  unfolding take_slot push_page
  pop_or_push (slot ∷ rest) s = take_slot slot rest s
  pop_or_push [] s =
      if length s.backend.allocations == s.backend.max_pages
      then (err out_of_pages, s)
      else push_page (new_allocation C (page_tokens * float_bytes) s.driver) s

  unfoldable pub allocate : Operation C (PageAllocation CudaPage)
  unfolding pop_or_push
  allocate s = pop_or_push s.backend.free_slots s
