-- ===== src/CpuPagedKv/Floats.antt =====
-- The `f32` of examples/cpu_paged_kv.rs: its type and the operations that the example uses are a
-- parameter.
use seqcache.Prelude.{ℕ, List}

pub record Floats : Type 1 where
  pub F32 : Type 0
  -- `n as f32`, and the literals that the code writes as a fraction of ten.
  pub of_nat : ℕ → F32
  pub add : F32 → F32 → F32
  pub sub : F32 → F32 → F32
  pub mul : F32 → F32 → F32
  pub div : F32 → F32 → F32
  pub neg : F32 → F32
  pub max : F32 → F32 → F32
  pub sqrt : F32 → F32
  pub exp : F32 → F32
  pub neg_infinity : F32
  -- `Iterator::sum`
  pub sum : List F32 → F32
