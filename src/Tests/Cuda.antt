-- ===== src/Tests/Cuda.antt =====
-- A CUDA driver whose every call fails, and one page of it.
use seqcache.Prelude.{ℕ, ℤ, pos, ◌≡◌, refl, true, List, [], ◌∷◌, ◌==◌, if◌then◌else◌, arith}
use seqcache.Backend.Keeping.{KeepsSeen}
use seqcache.CudaPagedState.Driver.{Cuda}
use seqcache.CudaPagedState.Agreement.{launch_of, addressed, write_paged_rows_agree}
use seqcache.CudaPagedState.Kernel
use seqcache.WgpuPagedState.Shader.{write_paged_rows}
use seqcache.WgpuPagedState.Cells.{append_of}
use seqcache.CudaPagedState.Table.{CudaPageTable, AddressVec}
use seqcache.CudaPagedState.Pool.{CudaStorage}
use seqcache.CudaPagedState.Backend.{cuda_backend}
use seqcache.CudaPagedState.Copied.{SamePages}
use seqcache.CudaPagedState.Contract.{cuda_backend-KeepsSeen}

-- `CUDA_ERROR_UNKNOWN`
abbrev unknown : ℤ
unknown = pos 999

abbrev lost_driver : Cuda
lost_driver = record {
  Driver = Unit {0};
  CuDevice = Unit {0};
  CuContext = Unit {0};
  CuStream = Unit {0};
  CuModule = Unit {0};
  CuFunction = Unit {0};
  F32 = ℕ;
  cu_init = λ d. (unknown, d);
  cu_device_get = λ n d. (unknown, tt, d);
  cu_device_primary_ctx_retain = λ v d. (unknown, tt, d);
  cu_device_primary_ctx_release = λ v d. (unknown, d);
  cu_ctx_set_current = λ c d. (unknown, d);
  cu_stream_create = λ d. (unknown, tt, d);
  cu_stream_destroy = λ s d. (unknown, d);
  cu_stream_synchronize = λ s d. (unknown, d);
  cu_mem_alloc = λ n d. (unknown, 0, d);
  cu_mem_free = λ p d. (unknown, d);
  cu_memcpy_htod = λ p bytes d. (unknown, d);
  cu_memcpy_dtoh = λ p n d. (unknown, [], d);
  cu_memcpy_dtod = λ p q n d. (unknown, d);
  cu_module_load_data = λ d. (unknown, tt, d);
  cu_module_unload = λ m d. (unknown, d);
  cu_module_get_function = λ m d. (unknown, tt, d);
  cu_launch_kernel = λ f grid block s parameters d. (unknown, d);
}

abbrev no_addresses : AddressVec
no_addresses = record { addresses = []; capacity = 4 }

abbrev blank_table : CudaPageTable
blank_table = record {
  device_tables = record { pointer = 32 } ∷ record { pointer = 64 } ∷ [];
  published_addresses = no_addresses;
  staging_addresses = no_addresses;
  active = 0;
  position = 0;
}

abbrev one_page : CudaStorage lost_driver
one_page = record {
  backend = record {
    allocations = record { pointer = 16 } ∷ [];
    live = true ∷ [];
    free_slots = [];
    max_pages = 2;
  };
  driver = tt;
  device = record {
    device = tt;
    context = tt;
    stream = tt;
    cuda_module = tt;
    write_paged_rows = tt;
  };
  tables = λ i. blank_table;
  context = 0;
}

cuda_backend-KeepsSeen_example : KeepsSeen (cuda_backend lost_driver) SamePages one_page
cuda_backend-KeepsSeen_example =
    cuda_backend-KeepsSeen lost_driver one_page
      (record { partition = record { dead = tt; tiled = refl }; sized = refl })

-- A driver whose device memory is one list of words at each address, and whose every call succeeds.
abbrev word_driver : Cuda
word_driver = record {
  Driver = ℕ → List ℕ;
  CuDevice = Unit {0};
  CuContext = Unit {0};
  CuStream = Unit {0};
  CuModule = Unit {0};
  CuFunction = Unit {0};
  F32 = ℕ;
  cu_init = λ d. (pos 0, d);
  cu_device_get = λ n d. (pos 0, tt, d);
  cu_device_primary_ctx_retain = λ v d. (pos 0, tt, d);
  cu_device_primary_ctx_release = λ v d. (pos 0, d);
  cu_ctx_set_current = λ c d. (pos 0, d);
  cu_stream_create = λ d. (pos 0, tt, d);
  cu_stream_destroy = λ s d. (pos 0, d);
  cu_stream_synchronize = λ s d. (pos 0, d);
  cu_mem_alloc = λ n d. (pos 0, 128, d);
  cu_mem_free = λ p d. (pos 0, d);
  cu_memcpy_htod = λ p words d. (pos 0, λ q. if q == p then words else d q);
  cu_memcpy_dtoh = λ p n d. (pos 0, d p, d);
  cu_memcpy_dtod = λ p r n d. (pos 0, λ q. if q == p then d r else d q);
  cu_module_load_data = λ d. (pos 0, tt, d);
  cu_module_unload = λ m d. (pos 0, d);
  cu_module_get_function = λ m d. (pos 0, tt, d);
  cu_launch_kernel = λ f grid block s parameters d. (pos 0, d);
}

abbrev words_at : word_driver.Driver → ℕ → List ℕ
words_at d p = d p

abbrev empty_tables : CudaStorage word_driver
empty_tables = record {
  backend = record {
    allocations = record { pointer = 16 } ∷ [];
    live = true ∷ [];
    free_slots = [];
    max_pages = 2;
  };
  driver = λ p. [];
  device = record {
    device = tt;
    context = tt;
    stream = tt;
    cuda_module = tt;
    write_paged_rows = tt;
  };
  tables = λ i. if i == 0 then blank_table else record blank_table { device_tables = [] };
  context = 0;
}

-- Position 3 lies in slot 6, at 4096 + 6 * 16 bytes.
write_paged_rows_agree_example :
    Kernel.write_paged_rows (λ n. n) (λ a. 4192) (launch_of 1000 1 3) 0 128 2
    ≡ addressed 4096 (write_paged_rows (λ n. n) (λ i. 6) (append_of 1 3) 2)
write_paged_rows_agree_example =
    write_paged_rows_agree (λ n. n) (λ a. 4192) (λ i. 6) 4096 1000 1 3 0 2 (omega arith)
      (omega arith) (omega arith) (omega arith) refl
