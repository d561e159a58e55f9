-- ===== src/WgpuPagedState/Table.antt =====
-- examples/wgpu_paged_state.rs: `WgpuPageTable`, a device buffer with the slots of the logical pages
-- and its host shadow.
use seqcache.Prelude.{ℕ, ◌+◌, ◌*◌, ◌-◌, ◌/◌, List, [], ◌∷◌, ◌++◌, map, length, ltb, if◌then◌else◌}
use seqcache.Word.{wrapped}
use seqcache.Error.{ok, err}
use seqcache.WgpuPagedState.Gpu.{
  Wgpu, page_tokens, word_bytes, to_le_bytes, invalid_geometry, exceeds_admitted_capacity,
  too_short_for_position, usage_copy_dst, usage_storage,
}
use seqcache.WgpuPagedState.Pool.{WgpuPage, WgpuResult}

pub record WgpuPageTable (G : Wgpu) : Type 0 where
  pub buffer : G.Buffer
  pub slots : List ℕ
  -- `slots.capacity()`
  pub slots_capacity : ℕ
  pub position : ℕ
  pub capacity : ℕ

-- `a.div_ceil(b)`, for `b` of at least 1.
abbrev pub div_ceil : ℕ → ℕ → ℕ
div_ceil a b = (a + (b - 1)) / b

-- The bytes of the device table.
unfoldable pub table_bytes : List WgpuPage → List ℕ
table_bytes [] = []
table_bytes (p ∷ ps) = to_le_bytes p.slot ++ table_bytes ps

-- `if !bytes.is_empty() { queue.write_buffer(..) }`
unfoldable pub write_bytes : (G : Wgpu) → G.Buffer → List ℕ → G.Device → G.Device
write_bytes G buffer [] d = d
write_bytes G buffer (x ∷ xs) d = G.write_buffer buffer (x ∷ xs) d

module _ {G : Wgpu} where
  -- `reserve` is the capacity of a `Vec::with_capacity`.
  unfoldable pub new_page_table : (ℕ → ℕ) → ℕ → G.Device → WgpuPageTable G × G.Device
  new_page_table reserve max_position d =
      let capacity = div_ceil max_position page_tokens in
      let (buffer, d') =
        G.create_buffer (wrapped (capacity * word_bytes)) (usage_copy_dst ∷ usage_storage ∷ []) d in
      (
        record {
          buffer = buffer;
          slots = [];
          slots_capacity = reserve capacity;
          position = 0;
          capacity = capacity;
        },
        d',
      )

  unfoldable pub managed_bytes : WgpuPageTable G → ℕ
  managed_bytes t = wrapped (wrapped (t.capacity + t.slots_capacity) * word_bytes)

  -- The submission with the table and the device after it; a refusal leaves both.
  unfoldable pub publish :
      List WgpuPage
      → ℕ
      → WgpuPageTable G
      → G.Device
      → WgpuResult G (G.SubmissionIndex × WgpuPageTable G × G.Device)
  unfolding write_bytes table_bytes
  publish pages position t d =
      if ltb t.capacity (length pages)
      then err (invalid_geometry exceeds_admitted_capacity)
      else if ltb (wrapped (length pages * page_tokens)) position
      then err (invalid_geometry too_short_for_position)
      else let (submission, d') = G.submit [] (write_bytes G t.buffer (table_bytes pages) d) in
        ok (submission, record t { slots = map (λ p. p.slot) pages; position = position }, d')
