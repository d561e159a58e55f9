-- ===== src/Tests/Cpu.antt =====
-- The pool and the backend on the CPU, at concrete states, with integers for the numbers of a page.
use seqcache.Prelude.{ℕ, ◌+◌, ◌*◌, ◌-◌, ◌/◌, refl, true, [], ◌∷◌, sum_by, arith, if◌then◌else◌, ltb}
use seqcache.Backend.Keeping.{KeepsSeen, IsSame}
use seqcache.CpuPagedKv.Floats.{Floats}
use seqcache.CpuPagedKv.Page.{new_page}
use seqcache.CpuPagedKv.Pool.{CpuKvBackend, new_backend, allocate, release}
use seqcache.CpuPagedKv.Backend.{CpuStorage, cpu_backend}
use seqcache.CpuPagedKv.Dead.{IsPooled}
use seqcache.CpuPagedKv.Pooled.{Allocates, Frees, allocate-Allocates, release-Frees}
use seqcache.CpuPagedKv.Contract.{cpu_backend-KeepsSeen}

abbrev pub whole_numbers : Floats
whole_numbers = record {
  F32 = ℕ;
  of_nat = λ n. n;
  add = λ m n. m + n;
  sub = λ m n. m - n;
  mul = λ m n. m * n;
  div = λ m n. m / n;
  neg = λ n. n;
  max = λ m n. if ltb m n then n else m;
  sqrt = λ n. n;
  exp = λ n. n;
  neg_infinity = 0;
  sum = λ ns. sum_by (λ n. n) ns;
}

abbrev empty_pool : CpuKvBackend ℕ
empty_pool = new_backend 16

empty_pool-IsPooled : IsPooled empty_pool
empty_pool-IsPooled = record {
  sized = refl;
  bounded = omega arith;
  shaped = tt;
  dead = tt;
  tiled = refl;
}

allocate-Allocates_example : Allocates whole_numbers empty_pool (allocate whole_numbers empty_pool)
allocate-Allocates_example = allocate-Allocates whole_numbers empty_pool empty_pool-IsPooled

abbrev one_live : CpuKvBackend ℕ
one_live = record {
  slots = new_page whole_numbers ∷ [];
  live = true ∷ [];
  free_slots = [];
  max_pages = 16;
}

one_live-IsPooled : IsPooled one_live
unfolding new_page
one_live-IsPooled = record {
  sized = refl;
  bounded = omega arith;
  shaped = ((refl, ((refl, refl), ((refl, refl), tt))), tt);
  dead = tt;
  tiled = refl;
}

release-Frees_example :
    Frees one_live (record { slot = 0 }) (release (record { slot = 0 }) one_live)
release-Frees_example = release-Frees (record { slot = 0 }) one_live one_live-IsPooled

-- Page 0 is live, and every page is given out.
abbrev full_storage : CpuStorage ℕ
full_storage = record { pool = record one_live { max_pages = 1 }; tables = []; context = 0 }

cpu_backend-KeepsSeen_example : KeepsSeen (cpu_backend whole_numbers) IsSame full_storage
cpu_backend-KeepsSeen_example = cpu_backend-KeepsSeen whole_numbers full_storage refl
