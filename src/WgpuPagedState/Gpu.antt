-- ===== src/WgpuPagedState/Gpu.antt =====
-- examples/wgpu_paged_state.rs: the `wgpu` crate, as far as the example calls it, and the example's
-- constants and errors.
use seqcache.Prelude.{ℕ, Option, List, [], ◌∷◌, ◌⊎◌, ◌%◌, ◌/◌}

abbrev pub page_tokens : ℕ
page_tokens = 4

abbrev pub workgroup_size : ℕ
workgroup_size = 64

-- `size_of::<u32>()` and `size_of::<f32>()`
abbrev pub word_bytes : ℕ
word_bytes = 4

pub data BufferUsage : Type 0 where
  usage_copy_src usage_copy_dst usage_storage usage_uniform usage_map_read : BufferUsage

-- What a command encoder records: a copy with its source, destination and size, and a compute pass of
-- a pipeline with the buffers bound in the order of its layout.
pub data Command (B P L : Type 0) : Type 0 where
  copy_buffer_to_buffer : B → ℕ → B → ℕ → ℕ → Command B P L
  dispatch_workgroups : P → L → List B → ℕ → Command B P L

-- A `Device` is a device with its queue and all of its buffers.
pub record Wgpu : Type 1 where
  pub Device : Type 0
  pub Adapter : Type 0
  pub AdapterInfo : Type 0
  pub Buffer : Type 0
  pub Pipeline : Type 0
  pub BindGroupLayout : Type 0
  pub SubmissionIndex : Type 0
  pub Message : Type 0
  pub F32 : Type 0
  pub request_adapter : Message ⊎ Adapter
  pub get_info : Adapter → AdapterInfo
  pub request_device : Adapter → Message ⊎ Device
  pub create_buffer : ℕ → List BufferUsage → Device → Buffer × Device
  -- The shader module with its pipeline.
  pub create_compute_pipeline : Device → Pipeline × Device
  pub get_bind_group_layout : Pipeline → BindGroupLayout
  -- A write at offset 0.
  pub write_buffer : Buffer → List ℕ → Device → Device
  pub submit : List (Command Buffer Pipeline BindGroupLayout) → Device → SubmissionIndex × Device
  -- The wait for a submission, with what went wrong.
  pub poll : SubmissionIndex → Device → Option Message × Device
  pub map_async : Buffer → Device → Device
  -- What went wrong with the mapping, or with the channel that tells of it.
  pub recv : Buffer → Device → Option Message
  pub get_mapped_range : Buffer → Device → Message ⊎ List ℕ
  pub unmap : Buffer → Device → Device
  pub f32_from_le_bytes : List ℕ → F32

-- The details that `InvalidGeometry` carries.
pub data Geometry : Type 0 where
  exceeds_admitted_capacity too_short_for_position duplicate_page_slot : Geometry
  exceeds_u32 row_geometry_overflowed rows_not_covered table_disagrees : Geometry
  beyond_committed_position table_too_short exceeds_physical_page : Geometry
  not_unaligned_tail : Geometry

pub data WgpuBackendError (M : Type 0) : Type 0 where
  adapter_error device_error poll_error map_error : M → WgpuBackendError M
  out_of_pages : WgpuBackendError M
  stale_page : ℕ → WgpuBackendError M
  invalid_geometry : Geometry → WgpuBackendError M

-- `value.to_le_bytes()` on `u32`
unfoldable pub to_le_bytes : ℕ → List ℕ
to_le_bytes n = n % 256 ∷ n / 256 % 256 ∷ n / 65536 % 256 ∷ n / 16777216 % 256 ∷ []
