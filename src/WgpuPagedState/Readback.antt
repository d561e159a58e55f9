-- ===== src/WgpuPagedState/Readback.antt =====
-- examples/wgpu_paged_state.rs: the readback of the committed rows.
use seqcache.Prelude.{
  ℕ, zero, suc, ◌+◌, ◌*◌, ◌-◌, Option, none, some, inl, inr, List, [], ◌∷◌, map, get_elem?, ltb,
}
use seqcache.Word.{min_of, wrapped}
use seqcache.Error.{Result, ok, err, panic, ok_or, ◌>>=◌}
use seqcache.Exec.{raise_if, ◌>>◌}
use seqcache.WgpuPagedState.Gpu.{
  Wgpu, WgpuBackendError, page_tokens, word_bytes, poll_error, map_error, invalid_geometry,
  beyond_committed_position, table_too_short, usage_copy_dst, usage_map_read, copy_buffer_to_buffer,
}
use seqcache.WgpuPagedState.Pool.{Method, wait_for_gpu}
use seqcache.WgpuPagedState.Table.{WgpuPageTable, div_ceil}

-- One page of the readback, in bytes: where from in the slab, where to, and how much.
pub record PageCopy : Type 0 where
  pub source_offset : ℕ
  pub destination_offset : ℕ
  pub bytes : ℕ

module _ {M : Type 0} where
  -- The pages that the readback copies, with the rows from `destination` on left.
  unfoldable pub page_copies : List ℕ → ℕ → ℕ → ℕ → ℕ → Result (WgpuBackendError M) (List PageCopy)
  page_copies slots rows zero logical_page destination = ok []
  page_copies slots rows (suc n) logical_page destination = do
    physical_page ← ok_or (get_elem? slots logical_page) (invalid_geometry table_too_short)
    let copied_rows = min_of (rows - destination) page_tokens
    rest ← page_copies slots rows n (logical_page + 1) (destination + page_tokens)
    let copy : PageCopy = record {
      source_offset = physical_page * page_tokens * word_bytes;
      destination_offset = wrapped (destination * word_bytes);
      bytes = wrapped (copied_rows * word_bytes);
    }
    ok (copy ∷ rest)

-- `chunks_exact(size_of::<f32>())`, read as `f32`.
unfoldable pub floats_of : (G : Wgpu) → List ℕ → List G.F32
floats_of G (a ∷ b ∷ c ∷ d ∷ rest) = G.f32_from_le_bytes (a ∷ b ∷ c ∷ d ∷ []) ∷ floats_of G rest
floats_of G _ = []

module _ {G : Wgpu} where
  -- The mapped range, after the wait for the copies.
  unfoldable pub mapped_floats : G.Buffer → Method G (List G.F32)
  unfolding floats_of
  mapped_floats readback b = elim (G.recv readback b.device) [
    | some m ↦ (err (map_error m), b)
    | none ↦ elim (G.get_mapped_range readback b.device) [
      | inl m ↦ (err (map_error m), b)
      | inr bytes ↦ (ok (floats_of G bytes), record b { device = G.unmap readback b.device })
    ]
  ]

  -- The wait with what follows it.
  unfoldable pub await_copies : G.Buffer → Option G.Message × G.Device → Method G (List G.F32)
  unfolding mapped_floats
  await_copies readback (some m, d) b = (err (poll_error m), record b { device = d })
  await_copies readback (none, d) b = mapped_floats readback (record b { device = d })

  unfoldable pub submit_copies : G.Buffer → List PageCopy → Method G (List G.F32)
  unfolding await_copies
  submit_copies readback copies b =
      let commands =
        map
          (λ c.
            copy_buffer_to_buffer b.page_slab c.source_offset readback c.destination_offset c.bytes)
          copies in
      let (submission, d) = G.submit commands b.device in
      await_copies readback (G.poll submission (G.map_async readback d)) b

  -- The part of `read_rows` after the first wait.
  unfoldable pub copy_rows : WgpuPageTable G → ℕ → Method G (List G.F32)
  unfolding page_copies submit_copies
  copy_rows table rows b =
      let (readback, d) =
        G.create_buffer (wrapped (rows * word_bytes)) (usage_copy_dst ∷ usage_map_read ∷ [])
          b.device in
      let b' = record b { device = d } in
      elim (page_copies table.slots rows (div_ceil rows page_tokens) 0 0) [
        | ok copies ↦ submit_copies readback copies b'
        | err e ↦ (err e, b')
        | panic ↦ (panic, b')
      ]

  unfoldable pub read_rows : WgpuPageTable G → ℕ → Method G (List G.F32)
  unfolding copy_rows
  read_rows table rows =
      raise_if (ltb table.position rows) (invalid_geometry beyond_committed_position)
      >> wait_for_gpu
      >> copy_rows table rows
