-- ===== src/CpuPagedKv.antt =====
-- examples/cpu_paged_kv.rs: a page pool on the CPU, with the key and value matrices of every page.
-- The head of `free_slots` is the end of the source's vector.
pub mod Floats
pub mod Page
pub mod Pool
pub mod Model
pub mod Backend
pub mod Dead
pub mod Pooled
pub mod Atomic
pub mod Contract
