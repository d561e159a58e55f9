-- ===== src/CpuPagedKv/Pool.antt =====
-- examples/cpu_paged_kv.rs: the pool of pages, without the page tables.
use seqcache.Prelude.{
  ℕ, Bool, true, false, not, List, [], ◌∷◌, ◌++◌, length, get_elem?, set, unwrap_or, ◌==◌,
  if◌then◌else◌,
}
use seqcache.Error.{Result, ok, err, ◌>>=◌}
use seqcache.Backend.{PageAllocation}
use seqcache.CpuPagedKv.Floats.{Floats}
use seqcache.CpuPagedKv.Page.{
  CpuPage, CpuKvPage, page_tokens, write_at, read_at, new_page, clear_rows,
}

pub data CpuBackendError : Type 0 where
  out_of_pages : CpuBackendError
  stale_page : ℕ → CpuBackendError
  invalid_page_table : CpuBackendError

pub record CpuKvBackend (F : Type 0) : Type 0 where
  pub slots : List (CpuKvPage F)
  pub live : List Bool
  pub free_slots : List ℕ
  pub max_pages : ℕ

abbrev pub CpuResult : Type 0 → Type 0
CpuResult A = Result CpuBackendError A

module _ {F : Type 0} where
  abbrev pub new_backend : ℕ → CpuKvBackend F
  new_backend max_pages = record { slots = []; live = []; free_slots = []; max_pages = max_pages }

  unfoldable pub is_live : CpuKvBackend F → CpuPage → Bool
  is_live b page = unwrap_or (get_elem? b.live page.slot) false

  -- `storage`, and `storage_mut` where it reads.
  unfoldable pub storage : CpuKvBackend F → CpuPage → CpuResult (CpuKvPage F)
  unfolding is_live
  storage b page =
      if not (is_live b page) then err (stale_page page.slot) else read_at b.slots page.slot

  unfoldable pub release : CpuPage → CpuKvBackend F → CpuResult (CpuKvBackend F)
  unfolding is_live
  release page b =
      if not (is_live b page)
      then err (stale_page page.slot)
      else ok
          (record b { live = set b.live page.slot false; free_slots = page.slot ∷ b.free_slots })

  unfoldable pub validate_pages : List CpuPage → CpuKvBackend F → CpuResult (Unit {0})
  unfolding storage
  validate_pages [] b = ok tt
  validate_pages (p ∷ ps) b = storage b p >>= λ _. validate_pages ps b

module _ (Fl : Floats) where
  open Fl use {F32}

  -- The slot that `allocate` takes from the free ones.
  unfoldable pub reuse_page :
      ℕ → List ℕ → CpuKvBackend F32 → CpuResult (PageAllocation CpuPage × CpuKvBackend F32)
  reuse_page slot rest b = do
    live ← write_at b.live slot true
    p ← read_at b.slots slot
    p' ← clear_rows Fl 0 page_tokens p
    ok (
      record { page = record { slot = slot }; recycled = true },
      record b { slots = set b.slots slot p'; live = live; free_slots = rest },
    )

  unfoldable pub push_page :
      CpuKvBackend F32 → CpuResult (PageAllocation CpuPage × CpuKvBackend F32)
  push_page b =
      if length b.slots == b.max_pages
      then err out_of_pages
      else ok (
        record { page = record { slot = length b.slots }; recycled = false },
        record b { slots = b.slots ++ new_page Fl ∷ []; live = b.live ++ true ∷ [] },
      )

  -- A result with the pool after it; a failure leaves the pool.
  unfoldable pub allocate : CpuKvBackend F32 → CpuResult (PageAllocation CpuPage × CpuKvBackend F32)
  unfolding reuse_page push_page
  allocate b = elim b.free_slots [ slot ∷ rest ↦ reuse_page slot rest b | [] ↦ push_page b ]
