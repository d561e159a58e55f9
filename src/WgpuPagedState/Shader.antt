-- ===== src/WgpuPagedState/Shader.antt =====
-- examples/wgpu_paged_state.rs: the WGSL shader `write_paged_rows`. What an access past the end of an
-- array does is the device's choice, so an array is the function that reads it.
use seqcache.Prelude.{
  ℕ, ◌+◌, ◌*◌, ◌/◌, ◌%◌, ◌^◌, Option, none, some, List, [], ◌∷◌, leb, ◌==◌, if◌then◌else◌,
}

pub record AppendParameters : Type 0 where
  pub start_position : ℕ
  pub rows : ℕ
  pub page_tokens : ℕ

-- `+` and `*` on `u32`, which wrap.
abbrev pub wrapped_u32 : ℕ → ℕ
wrapped_u32 n = n % 2 ^ 32

unfoldable pub store : {F : Type 0} → Option (ℕ × F) → (ℕ → F) → ℕ → F
store none slab i = slab i
store (some (at, value)) slab i = if i == at then value else slab i

module _ {F : Type 0} (f32 : ℕ → F) (page_table : ℕ → ℕ) (parameters : AppendParameters) where
  -- The store of the invocation with this id: where, and what.
  unfoldable pub write_paged_rows : ℕ → Option (ℕ × F)
  write_paged_rows input_row =
      if leb parameters.rows input_row
      then none
      else let position = wrapped_u32 (parameters.start_position + input_row) in
        let logical_page = position / parameters.page_tokens in
        let page_offset = position % parameters.page_tokens in
        let physical_page = page_table logical_page in
        some (
          wrapped_u32 (wrapped_u32 (physical_page * parameters.page_tokens) + page_offset),
          f32 (wrapped_u32 (position + 1)),
        )

  -- The slab after invocations with these ids, the first one first.
  unfoldable pub run_invocations : List ℕ → (ℕ → F) → ℕ → F
  unfolding write_paged_rows store
  run_invocations [] slab = slab
  run_invocations (i ∷ is) slab = run_invocations is (store (write_paged_rows i) slab)
