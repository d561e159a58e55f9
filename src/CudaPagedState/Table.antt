-- ===== src/CudaPagedState/Table.antt =====
-- examples/cuda_paged_state.rs: `CudaPageTable`, two device tables of page addresses of which one is
-- active, and the calls that take it: the launch and the readback.
use seqcache.Prelude.{
  ℕ, zero, suc, none, some, ◌+◌, ◌*◌, ◌-◌, ◌/◌, ◌%◌, ◌^◌, List, [], ◌∷◌, ◌++◌, get_elem?, ltb,
}
use seqcache.Word.{wrapped, u32_max, min_of}
use seqcache.Error.{Result, ok, err, panic, ok_or}
use seqcache.Exec.{pure, raise_if, lift, ◌>>=◌, ◌>>◌}
use seqcache.CudaPagedState.Driver.{
  Cuda, CudaBackendError, DriverCall, page_tokens, threads, pointer_bytes, invalid_geometry,
  checked, checked_out,
}
use seqcache.CudaPagedState.Device.{
  DeviceAllocation, CudaDevice, new_allocation, drop_allocation, synchronize,
}

-- A vector of addresses with its capacity.
pub record AddressVec : Type 0 where
  pub addresses : List ℕ
  pub capacity : ℕ

pub record CudaPageTable : Type 0 where
  pub device_tables : List DeviceAllocation
  pub published_addresses : AddressVec
  pub staging_addresses : AddressVec
  pub active : ℕ
  pub position : ℕ

-- `a.div_ceil(b)`, for `b` of at least 1.
abbrev pub div_ceil : ℕ → ℕ → ℕ
div_ceil a b = (a + (b - 1)) / b

-- The second table of `new`; if there is none, the first is dropped.
unfoldable pub second_allocation :
    (C : Cuda)
    → DeviceAllocation
    → Result CudaBackendError DeviceAllocation × C.Driver
    → Result CudaBackendError (List DeviceAllocation) × C.Driver
second_allocation C first (ok second, d) = (ok (first ∷ second ∷ []), d)
second_allocation C first (err e, d) = (err e, drop_allocation C first d)
second_allocation C first (panic, d) = (panic, d)

-- `reserve` is the capacity of a `Vec::with_capacity`.
unfoldable pub new_table : (C : Cuda) → (ℕ → ℕ) → ℕ → DriverCall C CudaPageTable
unfolding second_allocation
new_table C reserve max_position =
    let page_capacity = div_ceil max_position page_tokens in
    let bytes = wrapped (page_capacity * pointer_bytes) in
    let empty : AddressVec = record { addresses = []; capacity = reserve page_capacity } in
    new_allocation C bytes
    >>= (λ first d. second_allocation C first (new_allocation C bytes d))
    >>= λ tables. pure (record {
      device_tables = tables;
      published_addresses = empty;
      staging_addresses = empty;
      active = 0;
      position = 0;
    })

unfoldable pub managed_bytes : CudaPageTable → ℕ
managed_bytes t = wrapped (wrapped (4 * t.published_addresses.capacity) * pointer_bytes)

-- `self.device_tables[index].pointer`
abbrev pub pointer_at : CudaPageTable → ℕ → Result CudaBackendError ℕ
pointer_at t index = elim (get_elem? t.device_tables index) [ none ↦ panic | some a ↦ ok a.pointer ]

unfoldable pub device_pointer : CudaPageTable → Result CudaBackendError ℕ
device_pointer t = pointer_at t t.active

-- `1 - self.active`, which wraps.
abbrev pub inactive_of : CudaPageTable → ℕ
inactive_of t = (1 + 2 ^ 64 - t.active) % 2 ^ 64

abbrev pub stage : List ℕ → CudaPageTable → CudaPageTable
stage addresses t = record t {
  staging_addresses = record t.staging_addresses { addresses = addresses };
}

-- The swap of `publish`.
abbrev pub swap_tables : ℕ → CudaPageTable → CudaPageTable
swap_tables position t = record t {
  published_addresses = t.staging_addresses;
  staging_addresses = t.published_addresses;
  active = inactive_of t;
  position = position;
}

-- The transfer of `publish`, if there is something to transfer.
unfoldable pub copy_addresses : (C : Cuda) → CudaPageTable → List ℕ → DriverCall C (Unit {0})
copy_addresses C t [] = pure tt
copy_addresses C t (a ∷ as') = lift (pointer_at t (inactive_of t)) >>= λ destination.
    checked "cuMemcpyHtoD(page table)" (C.cu_memcpy_htod destination (a ∷ as'))

-- The loop over the chunks of `read_rows`, with the chunks left.
unfoldable pub read_pages : (C : Cuda) → List ℕ → ℕ → ℕ → ℕ → DriverCall C (List C.F32)
read_pages C published zero page_index rows = pure []
read_pages C published (suc n) page_index rows = do
  source ←
      lift (ok_or (get_elem? published page_index) (invalid_geometry "page table is too short"))
  chunk ← checked_out "cuMemcpyDtoH(page rows)" (C.cu_memcpy_dtoh source (min_of rows page_tokens))
  rest ← read_pages C published n (page_index + 1) (rows - page_tokens)
  pure (chunk ++ rest)

module _ {C : Cuda} where
  unfoldable pub launch_paged_write : CudaDevice C → CudaPageTable → ℕ → ℕ → DriverCall C (Unit {0})
  unfolding device_pointer
  launch_paged_write v t start_position rows = do
    table ← lift (device_pointer t)
    raise_if (ltb u32_max start_position) (invalid_geometry "start position exceeds u32")
    raise_if (ltb u32_max rows) (invalid_geometry "row count exceeds u32")
    checked "cuLaunchKernel(write_paged_rows)" (
        C.cu_launch_kernel v.write_paged_rows (div_ceil rows threads) threads v.stream (record {
          table = table;
          start = start_position;
          rows = rows;
          page_tokens = page_tokens;
        }))

  unfoldable pub read_rows : CudaPageTable → ℕ → CudaDevice C → DriverCall C (List C.F32)
  unfolding read_pages
  read_rows t rows v =
      raise_if (ltb t.position rows) (invalid_geometry "cannot read beyond the committed position")
      >> synchronize v
      >> read_pages C t.published_addresses.addresses (div_ceil rows page_tokens) 0 rows
