-- ===== src/WgpuPagedState/Dispatch.antt =====
-- examples/wgpu_paged_state.rs: the stand-in for a model dispatch that writes an append through the
-- published table.
use seqcache.Prelude.{
  ℕ, ◌+◌, ◌/◌, ◌%◌, ◌^◌, ◌||◌, none, some, List, [], ◌∷◌, ◌++◌, get_elem?, ltb, ◌==◌, not,
  if◌then◌else◌,
}
use seqcache.Word.{checked_add, u32_max, wrapped}
use seqcache.Error.{Result, ok, err, panic, ok_or, ◌>>=◌, ◌>>◌}
use seqcache.Cache.Records.{AppendSegment}
use seqcache.WgpuPagedState.Gpu.{
  Wgpu, WgpuBackendError, page_tokens, workgroup_size, to_le_bytes, invalid_geometry, exceeds_u32,
  row_geometry_overflowed, rows_not_covered, table_disagrees, dispatch_workgroups,
}
use seqcache.WgpuPagedState.Pool.{WgpuPage, WgpuPageBackend, WgpuResult, Method, validate_page}
use seqcache.WgpuPagedState.Table.{WgpuPageTable, div_ceil}

abbrev pub Destination : Type 0
Destination = WgpuPage × AppendSegment

-- `[start_position as u32, rows as u32, PAGE_TOKENS as u32, 0]`
unfoldable pub parameter_bytes : ℕ → ℕ → List ℕ
parameter_bytes start_position rows =
    to_le_bytes (start_position % 2 ^ 32)
    ++ to_le_bytes (rows % 2 ^ 32)
    ++ to_le_bytes page_tokens
    ++ to_le_bytes 0

module _ {M : Type 0} where
  -- The `try_fold` over the rows of the segments, from a total on.
  unfoldable pub covered_rows : ℕ → List Destination → Result (WgpuBackendError M) ℕ
  covered_rows total [] = ok total
  covered_rows total ((page, segment) ∷ ds) =
      ok_or (checked_add total segment.rows) (invalid_geometry row_geometry_overflowed) >>= λ sum.
      covered_rows sum ds

module _ {G : Wgpu} where
  -- The loop over the destinations.
  unfoldable pub check_destinations :
      WgpuPageBackend G → WgpuPageTable G → ℕ → List Destination → WgpuResult G (Unit {0})
  check_destinations b table start_position [] = ok tt
  check_destinations b table start_position ((page, segment) ∷ ds) =
      let rest = check_destinations b table start_position ds in
      validate_page b page
      >> (elim (get_elem? table.slots
          (wrapped (start_position + segment.input_offset) / page_tokens)) [
            | none ↦ err (invalid_geometry table_disagrees)
            | some slot ↦ if slot == page.slot then rest else err (invalid_geometry table_disagrees)
          ])

  unfoldable pub check_dispatch :
      WgpuPageBackend G → WgpuPageTable G → List Destination → ℕ → ℕ → WgpuResult G (Unit {0})
  unfolding covered_rows check_destinations
  check_dispatch b table destinations start_position rows =
      if rows == 0 || ltb u32_max rows || ltb u32_max start_position
      then err (invalid_geometry exceeds_u32)
      else do
        covered ← covered_rows 0 destinations
        if not (covered == rows)
            then err (invalid_geometry rows_not_covered)
            else check_destinations b table start_position destinations

  unfoldable pub submit_append : WgpuPageTable G → ℕ → ℕ → WgpuPageBackend G → WgpuPageBackend G
  unfolding parameter_bytes
  submit_append table start_position rows b =
      let d = G.write_buffer b.parameters (parameter_bytes start_position rows) b.device in
      let pass =
        dispatch_workgroups b.pipeline b.bind_group_layout
          (b.page_slab ∷ table.buffer ∷ b.parameters ∷ [])
          (div_ceil rows workgroup_size % 2 ^ 32) in
      let (submission, d') = G.submit (pass ∷ []) d in
      record b { device = d'; last_submission = some submission }

  unfoldable pub dispatch_append : WgpuPageTable G → List Destination → ℕ → ℕ → Method G (Unit {0})
  unfolding check_dispatch submit_append
  dispatch_append table destinations start_position rows b =
      elim (check_dispatch b table destinations start_position rows) [
        | ok _ ↦ (ok tt, submit_append table start_position rows b)
        | err e ↦ (err e, b)
        | panic ↦ (panic, b)
      ]
