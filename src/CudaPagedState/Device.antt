-- ===== src/CudaPagedState/Device.antt =====
-- examples/cuda_paged_state.rs: `DeviceAllocation` and `CudaDevice`.
use seqcache.Prelude.{ℕ, ◌==◌, if◌then◌else◌}
use seqcache.Exec.{pure, ◌>>=◌, ◌>>◌}
use seqcache.CudaPagedState.Driver.{Cuda, DriverCall, checked, checked_out, ignoring, or_clean}

pub record DeviceAllocation : Type 0 where
  pub pointer : ℕ

pub record CudaDevice (C : Cuda) : Type 0 where
  pub device : C.CuDevice
  pub context : C.CuContext
  pub stream : C.CuStream
  pub cuda_module : C.CuModule
  pub write_paged_rows : C.CuFunction

module _ (C : Cuda) where
  unfoldable pub new_allocation : ℕ → DriverCall C DeviceAllocation
  new_allocation bytes = checked_out "cuMemAlloc" (C.cu_mem_alloc bytes) >>= λ pointer.
      pure (record { pointer = pointer })

  unfoldable pub drop_allocation : DeviceAllocation → C.Driver → C.Driver
  drop_allocation a d = if a.pointer == 0 then d else ignoring (C.cu_mem_free a.pointer) d

  unfoldable pub new_device : DriverCall C (CudaDevice C)
  new_device = do
    checked "cuInit" C.cu_init
    device ← checked_out "cuDeviceGet" (C.cu_device_get 0)
    context ← checked_out "cuDevicePrimaryCtxRetain" (C.cu_device_primary_ctx_retain device)
    let release = ignoring (C.cu_device_primary_ctx_release device)
    or_clean release (checked "cuCtxSetCurrent" (C.cu_ctx_set_current context))
    stream ← or_clean release (checked_out "cuStreamCreate" C.cu_stream_create)
    let destroy = λ (d : C.Driver). release (ignoring (C.cu_stream_destroy stream) d)
    cuda_module ← or_clean destroy (checked_out "cuModuleLoadData" C.cu_module_load_data)
    let unload = λ (d : C.Driver). destroy (ignoring (C.cu_module_unload cuda_module) d)
    kernel ←
        or_clean unload (checked_out "cuModuleGetFunction" (C.cu_module_get_function cuda_module))
    pure (record {
      device = device;
      context = context;
      stream = stream;
      cuda_module = cuda_module;
      write_paged_rows = kernel;
    })

module _ {C : Cuda} where
  unfoldable pub drop_device : CudaDevice C → C.Driver → C.Driver
  drop_device v d = ignoring (C.cu_device_primary_ctx_release v.device) (
      ignoring (C.cu_stream_destroy v.stream)
        (ignoring (C.cu_module_unload v.cuda_module) (ignoring (C.cu_ctx_set_current v.context) d)))

  unfoldable pub synchronize : CudaDevice C → DriverCall C (Unit {0})
  synchronize v = checked "cuStreamSynchronize" (C.cu_stream_synchronize v.stream)
