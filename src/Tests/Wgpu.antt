-- ===== src/Tests/Wgpu.antt =====
-- A GPU that fails every wait, and two pages on it.
use mathlib.Core.List.Perm
use seqcache.Prelude.{ℕ, ◌+◌, ◌≡◌, refl, true, false, none, some, inl, inr, List, [], ◌∷◌, arith}
use seqcache.Word.{usize_max, u32_max}
use seqcache.Error.{ok, err}
use seqcache.Backend.Keeping.{KeepsSeen}
use seqcache.PageSlots.{IsPartition}
use seqcache.WgpuPagedState.Gpu.{Wgpu, invalid_geometry, table_disagrees}
use seqcache.WgpuPagedState.Pool.{
  WgpuPage, validate_page, validate_distinct_pages, wait_for_gpu, allocate, release,
}
use seqcache.WgpuPagedState.Table.{WgpuPageTable}
use seqcache.WgpuPagedState.Backend.{WgpuStorage, wgpu_backend, retire_pages, copy_partial_page}
use seqcache.WgpuPagedState.Kept.{SamePages}
use seqcache.WgpuPagedState.Contract.{wgpu_backend-KeepsSeen}
use seqcache.WgpuPagedState.Dispatch.{
  Destination, covered_rows, check_destinations, check_dispatch, dispatch_append,
}
use seqcache.WgpuPagedState.Dispatched.{Dispatches, dispatch_append-Dispatches}
use seqcache.WgpuPagedState.Retire.{Retires, retire_pages-Retires}
use seqcache.WgpuPagedState.Shader.{run_invocations}
use seqcache.WgpuPagedState.Rows.{table_of, launched}
use seqcache.WgpuPagedState.Cells.{append_of}
use seqcache.WgpuPagedState.Written.{run_invocations-launched}

-- A device counts its submissions; no wait comes back.
abbrev lost_gpu : Wgpu
lost_gpu = record {
  Device = ℕ;
  Adapter = Unit {0};
  AdapterInfo = Unit {0};
  Buffer = ℕ;
  Pipeline = Unit {0};
  BindGroupLayout = Unit {0};
  SubmissionIndex = ℕ;
  Message = ℕ;
  F32 = ℕ;
  request_adapter = inr tt;
  get_info = λ a. tt;
  request_device = λ a. inr 0;
  create_buffer = λ size usages d. (size, d);
  create_compute_pipeline = λ d. (tt, d);
  get_bind_group_layout = λ p. tt;
  write_buffer = λ b bytes d. d;
  submit = λ commands d. (d, d + 1);
  poll = λ i d. (some i, d);
  map_async = λ b d. d;
  recv = λ b d. none;
  get_mapped_range = λ b d. inl 0;
  unmap = λ b d. d;
  f32_from_le_bytes = λ bytes. 0;
}

abbrev empty_table : WgpuPageTable lost_gpu
empty_table = record { buffer = 0; slots = []; slots_capacity = 4; position = 0; capacity = 4 }

-- Slot 0 is live and slot 1 is free.
abbrev one_live : WgpuStorage lost_gpu
one_live = record {
  backend = record {
    device = 0;
    adapter_info = tt;
    page_slab = 0;
    copy_scratch = 1;
    parameters = 2;
    pipeline = tt;
    bind_group_layout = tt;
    live = true ∷ false ∷ [];
    free_slots = 1 ∷ [];
    last_submission = none;
  };
  tables = λ i. empty_table;
  context = 0;
}

one_live-IsPartition : IsPartition one_live.backend.live one_live.backend.free_slots
one_live-IsPartition = record { dead = (refl, tt, tt); tiled = refl }

abbrev page_at : ℕ → WgpuPage
page_at slot = record { slot = slot }

wgpu_backend-KeepsSeen_example : KeepsSeen (wgpu_backend lost_gpu) SamePages one_live
wgpu_backend-KeepsSeen_example = wgpu_backend-KeepsSeen lost_gpu one_live one_live-IsPartition

-- The wait after the copy fails, and the page that the copy took is free again.
failed_copy : (copy_partial_page (page_at 0) 2 one_live).1.backend.free_slots ≡ 1 ∷ []
unfolding copy_partial_page validate_page wait_for_gpu allocate release
failed_copy = refl

retire_pages-Retires_example :
    Retires
      (page_at 0 ∷ page_at 0 ∷ [])
      one_live
      (retire_pages (page_at 0 ∷ page_at 0 ∷ []) one_live)
retire_pages-Retires_example =
    retire_pages-Retires (page_at 0 ∷ page_at 0 ∷ []) one_live one_live-IsPartition

-- Without a pending submission, the page is released.
one_retired : (retire_pages (page_at 0 ∷ []) one_live).1.backend.free_slots ≡ 0 ∷ 1 ∷ []
unfolding retire_pages validate_distinct_pages wait_for_gpu release
one_retired = refl

-- Positions 3 and 4 lie on the two pages of the table, slots 5 and 2 of the slab.
abbrev two_pages : List ℕ
two_pages = 5 ∷ 2 ∷ []

abbrev nothing : ℕ → ℕ
nothing i = 0

run_invocations-launched_example :
    (run_invocations (λ n. n) (table_of two_pages nothing) (append_of 3 2) (launched 2) nothing 8
      ≡ 5)
    × (run_invocations (λ n. n) (table_of two_pages nothing) (append_of 3 2) (launched 2) nothing 0
        ≡ 0)
run_invocations-launched_example =
    run_invocations-launched (λ n. n) two_pages nothing 3 2 (launched 2) nothing 4 0
      (((λ e. absurd (omega arith)), tt), (tt, tt)) (omega arith, (omega arith, tt)) (omega arith)
      (omega arith) Perm.rfl (omega arith) refl

-- The table of one append of two rows, published on slot 0.
abbrev published_table : WgpuPageTable lost_gpu
published_table = record empty_table { slots = 0 ∷ []; position = 2 }

-- An append of two rows into slot 0.
abbrev into_slot : List Destination
into_slot =
    (
      page_at 0,
      record {
        page = record { slot = 0; generation = 0 };
        page_offset = 0;
        input_offset = 0;
        rows = 2;
      },
    )
    ∷ []

-- It is refused if the published table knows nothing of slot 0.
accepted : (dispatch_append published_table into_slot 0 2 one_live.backend).0 ≡ ok tt
unfolding dispatch_append check_dispatch covered_rows check_destinations validate_page usize_max
    u32_max
accepted = refl

refused :
    (dispatch_append empty_table into_slot 0 2 one_live.backend).0
    ≡ err (invalid_geometry table_disagrees)
unfolding dispatch_append check_dispatch covered_rows check_destinations validate_page usize_max
    u32_max
refused = refl

dispatch_append-Dispatches_example :
    Dispatches one_live.backend published_table into_slot 0 2
      (dispatch_append published_table into_slot 0 2 one_live.backend)
dispatch_append-Dispatches_example =
    dispatch_append-Dispatches one_live.backend published_table into_slot 0 2
