-- ===== src/CudaPagedState/Kernel.antt =====
-- examples/cuda_paged_state.rs: the PTX kernel `write_paged_rows`, register by register. Global memory
-- is the function that reads it.
use seqcache.Prelude.{ℕ, ◌+◌, ◌*◌, ◌/◌, ◌%◌, ◌^◌, Option, none, some, leb, if◌then◌else◌}
use seqcache.CudaPagedState.Driver.{KernelParameters}

-- The store of one thread of a block: where, and what.
unfoldable pub write_paged_rows :
    {F : Type 0} → (ℕ → F) → (ℕ → ℕ) → KernelParameters → ℕ → ℕ → ℕ → Option (ℕ × F)
write_paged_rows f32 load parameters ctaid ntid tid =
    let r7 = (ctaid * ntid + tid) % 2 ^ 32 in
    if leb parameters.rows r7
    then none
    else let r8 = (parameters.start + r7) % 2 ^ 32 in
      let r9 = r8 / parameters.page_tokens in
      let r10 = r8 % parameters.page_tokens in
      let rd3 = (parameters.table + r9 * 8) % 2 ^ 64 in
      let rd4 = load rd3 in
      let rd6 = (rd4 + r10 * 4) % 2 ^ 64 in let r11 = (r8 + 1) % 2 ^ 32 in some (rd6, f32 r11)
