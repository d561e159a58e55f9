-- ===== src/CudaPagedState/Agreement.antt =====
-- The PTX kernel of examples/cuda_paged_state.rs and the WGSL shader of examples/wgpu_paged_state.rs
-- write the same rows.
use seqcache.Prelude.{
  ℕ, ◌+◌, ◌*◌, ◌/◌, ◌%◌, ◌^◌, ◌≤◌, ◌<◌, ◌≡◌, refl, inl, inr, Bool-cases, Option, none, some, leb,
  arith,
}
use seqcache.CudaPagedState.Driver.{
  KernelParameters, page_tokens, threads, pointer_bytes, float_bytes,
}
use seqcache.CudaPagedState.Kernel
use seqcache.WgpuPagedState.Shader.{write_paged_rows}
use seqcache.WgpuPagedState.Cells.{append_of, IsAddressed}

-- The parameters that `launch_paged_write` hands over.
abbrev pub launch_of : ℕ → ℕ → ℕ → KernelParameters
launch_of pointer start rows = record {
  table = pointer;
  start = start;
  rows = rows;
  page_tokens = page_tokens;
}

-- A store of the shader into the slab, as an address.
abbrev pub addressed : {F : Type 0} → ℕ → Option (ℕ × F) → Option (ℕ × F)
addressed slab none = none
addressed slab (some (at, value)) = some (slab + at * float_bytes, value)

-- Let the device table at `pointer` hold, for the page of a row, the address of the slot that the
-- shader's table has for it, in a slab at address `slab`, where no number leaves its width. Then the
-- thread and the invocation of the row either both return without a store, or store the same float at
-- the same place.
pub write_paged_rows_agree :
    {F : Type 0} (f32 : ℕ → F) (load table : ℕ → ℕ) (slab pointer start rows ctaid tid : ℕ)
    → ctaid * threads + tid < 2 ^ 32
    → start + rows < 2 ^ 32
    → IsAddressed (table ((start + (ctaid * threads + tid)) / page_tokens))
    → slab + 2 ^ 34 ≤ 2 ^ 64
    → load ((pointer + (start + (ctaid * threads + tid)) / page_tokens * pointer_bytes) % 2 ^ 64)
      ≡ slab + table ((start + (ctaid * threads + tid)) / page_tokens) * page_tokens * float_bytes
    → Kernel.write_paged_rows f32 load (launch_of pointer start rows) ctaid threads tid
      ≡ addressed slab (write_paged_rows f32 table (append_of start rows) (ctaid * threads + tid))
unfolding Kernel.write_paged_rows write_paged_rows
write_paged_rows_agree f32 load table slab pointer start rows ctaid tid narrow fits reach room
      there =
    let row = ctaid * threads + tid in
    let same : (ctaid * 128 + tid) % 2 ^ 32 ≡ ctaid * 128 + tid = omega arith in
    rw same (elim (Bool-cases (leb rows row)) [
      | inl past_end ↦ rw past_end refl
      | inr inside ↦
          let low : row < rows = ground arith in
          let here : (start + row) % 2 ^ 32 ≡ start + row = omega arith in
          let t = table ((start + row) / 4) in
          let base : t * 4 % 2 ^ 32 ≡ t * 4 = omega arith in
          let whole : (t * 4 + (start + row) % 4) % 2 ^ 32 ≡ t * 4 + (start + row) % 4 =
            omega arith in
          let address : (slab + t * 4 * 4 + (start + row) % 4 * 4) % 2 ^ 64
              ≡ slab + (t * 4 + (start + row) % 4) * 4 =
            omega arith in
          rw (inside, here, there, base, whole, address) refl
    ])
