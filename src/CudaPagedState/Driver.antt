-- ===== src/CudaPagedState/Driver.antt =====
-- examples/cuda_paged_state.rs: the CUDA driver, as far as the example calls it, the example's errors
-- and its checked calls. A call with an out pointer gives what it wrote beside its code.
use Prim.Native.String.{String}
use seqcache.Prelude.{ℕ, List, ℤ, pos, int_eq, if◌then◌else◌}
use seqcache.Error.{Result, ok, err, panic}
use seqcache.Exec.{Exec}

abbrev pub page_tokens : ℕ
page_tokens = 4

abbrev pub threads : ℕ
threads = 128

-- `size_of::<CuDevicePtr>()` and `size_of::<f32>()`
abbrev pub pointer_bytes : ℕ
pointer_bytes = 8

abbrev pub float_bytes : ℕ
float_bytes = 4

-- What `cuLaunchKernel` hands to the kernel.
pub record KernelParameters : Type 0 where
  pub table : ℕ
  pub start : ℕ
  pub rows : ℕ
  pub page_tokens : ℕ

-- A `Driver` is the driver's state with all device memory. A code is a C `int`, and a device pointer
-- has 64 bits.
pub record Cuda : Type 1 where
  pub Driver : Type 0
  pub CuDevice : Type 0
  pub CuContext : Type 0
  pub CuStream : Type 0
  pub CuModule : Type 0
  pub CuFunction : Type 0
  pub F32 : Type 0
  pub cu_init : Driver → ℤ × Driver
  pub cu_device_get : ℕ → Driver → ℤ × CuDevice × Driver
  pub cu_device_primary_ctx_retain : CuDevice → Driver → ℤ × CuContext × Driver
  pub cu_device_primary_ctx_release : CuDevice → Driver → ℤ × Driver
  pub cu_ctx_set_current : CuContext → Driver → ℤ × Driver
  -- A stream that does not block.
  pub cu_stream_create : Driver → ℤ × CuStream × Driver
  pub cu_stream_destroy : CuStream → Driver → ℤ × Driver
  pub cu_stream_synchronize : CuStream → Driver → ℤ × Driver
  pub cu_mem_alloc : ℕ → Driver → ℤ × ℕ × Driver
  pub cu_mem_free : ℕ → Driver → ℤ × Driver
  pub cu_memcpy_htod : ℕ → List ℕ → Driver → ℤ × Driver
  -- This many floats from this address.
  pub cu_memcpy_dtoh : ℕ → ℕ → Driver → ℤ × List F32 × Driver
  pub cu_memcpy_dtod : ℕ → ℕ → ℕ → Driver → ℤ × Driver
  -- The module of the embedded PTX, and its kernel.
  pub cu_module_load_data : Driver → ℤ × CuModule × Driver
  pub cu_module_unload : CuModule → Driver → ℤ × Driver
  pub cu_module_get_function : CuModule → Driver → ℤ × CuFunction × Driver
  -- A grid of so many blocks of so many threads.
  pub cu_launch_kernel : CuFunction → ℕ → ℕ → CuStream → KernelParameters → Driver → ℤ × Driver

pub data CudaBackendError : Type 0 where
  driver_error : String → ℤ → CudaBackendError
  out_of_pages : CudaBackendError
  stale_page : ℕ → CudaBackendError
  invalid_geometry : String → CudaBackendError

unfoldable pub check_cuda : String → ℤ → Result CudaBackendError (Unit {0})
check_cuda name code = if int_eq code (pos 0) then ok tt else err (driver_error name code)

-- A function that calls the driver.
abbrev pub DriverCall : Cuda → Type 0 → Type 0
DriverCall C A = Exec CudaBackendError C.Driver A

module _ {D : Type 0} where
  -- `check_cuda(name, cu..(..))`
  abbrev pub checked : String → (D → ℤ × D) → Exec CudaBackendError D (Unit {0})
  checked name run d = let (code, d') = run d in (check_cuda name code, d')

  -- The same with an out pointer.
  abbrev pub checked_out : {A : Type 0} → String → (D → ℤ × A × D) → Exec CudaBackendError D A
  checked_out name run d =
      let (code, a, d') = run d in
      (elim (check_cuda name code) [ ok _ ↦ ok a | err e ↦ err e | panic ↦ panic ], d')

  -- `let _ = cu..(..)`
  abbrev pub ignoring : (D → ℤ × D) → D → D
  ignoring run d = (run d).1

module _ {D A : Type 0} where
  abbrev cleaned : (D → D) → Result CudaBackendError A × D → Result CudaBackendError A × D
  cleaned clean (ok a, d) = (ok a, d)
  cleaned clean (err e, d) = (err e, clean d)
  cleaned clean (panic, d) = (panic, d)

  -- What runs before an error is returned.
  abbrev pub or_clean : (D → D) → Exec CudaBackendError D A → Exec CudaBackendError D A
  or_clean clean call d = cleaned clean (call d)
