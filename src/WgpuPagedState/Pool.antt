-- ===== src/WgpuPagedState/Pool.antt =====
-- examples/wgpu_paged_state.rs: `WgpuPageBackend` with the slots of its slab. The head of
-- `free_slots` is the end of the source's vector.
use seqcache.Prelude.{
  ℕ, zero, suc, ◌+◌, ◌*◌, ◌%◌, ◌^◌, Bool, true, false, Option, none, some, inl, inr, List, [], ◌∷◌,
  ◌++◌, length, get_elem?, set, unwrap_or, any_of, ltb, ◌==◌, if◌then◌else◌,
}
use seqcache.Word.{wrapped}
use seqcache.Error.{Result, ok, err, panic, ◌>>◌}
use seqcache.Exec.{Exec}
use seqcache.Backend.{PageAllocation}
use seqcache.CpuPagedKv.Page.{replicate}
use seqcache.WgpuPagedState.Gpu.{
  Wgpu, WgpuBackendError, page_tokens, word_bytes, adapter_error, device_error, poll_error,
  out_of_pages, stale_page, invalid_geometry, duplicate_page_slot, usage_copy_src, usage_copy_dst,
  usage_storage, usage_uniform,
}

pub record WgpuPage : Type 0 where
  pub slot : ℕ

pub record WgpuPageBackend (G : Wgpu) : Type 0 where
  pub device : G.Device
  -- Its name and its backend.
  pub adapter_info : G.AdapterInfo
  pub page_slab : G.Buffer
  pub copy_scratch : G.Buffer
  pub parameters : G.Buffer
  pub pipeline : G.Pipeline
  pub bind_group_layout : G.BindGroupLayout
  pub live : List Bool
  pub free_slots : List ℕ
  pub last_submission : Option G.SubmissionIndex

abbrev pub WgpuResult : Wgpu → Type 0 → Type 0
WgpuResult G A = Result (WgpuBackendError G.Message) A

-- A method of the backend.
abbrev pub Method : Wgpu → Type 0 → Type 0
Method G A = Exec (WgpuBackendError G.Message) (WgpuPageBackend G) A

-- `(first..first + n)`
abbrev pub slots_from : ℕ → ℕ → List ℕ
slots_from first zero = []
slots_from first (suc n) = first ∷ slots_from (first + 1) n

module _ (G : Wgpu) where
  -- The part of `new` after the device is there.
  unfoldable pub set_up : ℕ → G.AdapterInfo → G.Device → WgpuPageBackend G
  set_up max_pages info d0 =
      let (slab, d1) =
        G.create_buffer (wrapped (wrapped (max_pages * page_tokens) * word_bytes))
          (usage_copy_src ∷ usage_copy_dst ∷ usage_storage ∷ []) d0 in
      let (scratch, d2) =
        G.create_buffer (page_tokens * word_bytes) (usage_copy_src ∷ usage_copy_dst ∷ []) d1 in
      let (parameters, d3) =
        G.create_buffer (4 * word_bytes) (usage_copy_dst ∷ usage_uniform ∷ []) d2 in
      let (pipeline, d4) = G.create_compute_pipeline d3 in
      record {
        device = d4;
        adapter_info = info;
        page_slab = slab;
        copy_scratch = scratch;
        parameters = parameters;
        pipeline = pipeline;
        bind_group_layout = G.get_bind_group_layout pipeline;
        live = replicate max_pages false;
        free_slots = slots_from 0 (max_pages % 2 ^ 32);
        last_submission = none;
      }

  unfoldable pub new_backend : ℕ → WgpuResult G (WgpuPageBackend G)
  unfolding set_up
  new_backend max_pages = elim G.request_adapter [
    | inl m ↦ err (adapter_error m)
    | inr a ↦ elim (G.request_device a) [
      | inl m ↦ err (device_error m)
      | inr d ↦ ok (set_up max_pages (G.get_info a) d)
    ]
  ]

module _ {M : Type 0} where
  -- The loop of `validate_distinct_pages`, with the pages before.
  unfoldable pub check_distinct :
      List WgpuPage → List WgpuPage → Result (WgpuBackendError M) (Unit {0})
  check_distinct before [] = ok tt
  check_distinct before (p ∷ ps) =
      let rest = check_distinct (before ++ p ∷ []) ps in
      if any_of (λ q. q.slot == p.slot) before
      then err (invalid_geometry duplicate_page_slot)
      else rest

module _ {G : Wgpu} where
  unfoldable pub is_live : WgpuPageBackend G → WgpuPage → Bool
  is_live b page = unwrap_or (get_elem? b.live page.slot) false

  unfoldable pub validate_page : WgpuPageBackend G → WgpuPage → WgpuResult G (Unit {0})
  unfolding is_live
  validate_page b page = if is_live b page then ok tt else err (stale_page page.slot)

  unfoldable pub validate_pages : WgpuPageBackend G → List WgpuPage → WgpuResult G (Unit {0})
  unfolding validate_page
  validate_pages b [] = ok tt
  validate_pages b (p ∷ ps) = validate_page b p >> validate_pages b ps

  unfoldable pub validate_distinct_pages :
      WgpuPageBackend G → List WgpuPage → WgpuResult G (Unit {0})
  unfolding validate_pages check_distinct
  validate_distinct_pages b pages = validate_pages b pages >> check_distinct [] pages

  -- The slot that `allocate` pops.
  unfoldable pub take_slot : ℕ → List ℕ → Method G (PageAllocation WgpuPage)
  take_slot slot rest b =
      let popped = record b { free_slots = rest } in
      if ltb slot (length b.live)
      then (
        ok (record { page = record { slot = slot }; recycled = true }),
        record popped { live = set b.live slot true },
      )
      else (panic, popped)

  unfoldable pub pop_slot : List ℕ → Method G (PageAllocation WgpuPage)
  unfolding take_slot
  pop_slot [] b = (err out_of_pages, b)
  pop_slot (slot ∷ rest) b = take_slot slot rest b

  unfoldable pub allocate : Method G (PageAllocation WgpuPage)
  unfolding pop_slot
  allocate b = pop_slot b.free_slots b

  unfoldable pub release : WgpuPage → Method G (Unit {0})
  unfolding is_live
  release page b =
      if is_live b page
      then (
        ok tt,
        record b { live = set b.live page.slot false; free_slots = page.slot ∷ b.free_slots },
      )
      else (err (stale_page page.slot), b)

  unfoldable pub polled : Option G.Message × G.Device → Method G (Unit {0})
  polled (none, d) b = (ok tt, record b { device = d; last_submission = none })
  polled (some m, d) b = (err (poll_error m), record b { device = d })

  unfoldable pub wait_for : Option G.SubmissionIndex → Method G (Unit {0})
  unfolding polled
  wait_for none b = (ok tt, b)
  wait_for (some submission) b = polled (G.poll submission b.device) b

  unfoldable pub wait_for_gpu : Method G (Unit {0})
  unfolding wait_for
  wait_for_gpu b = wait_for b.last_submission b
