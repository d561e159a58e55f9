-- ===== src/Tests.antt =====
-- A small runtime, and the theorems at concrete inputs.
mod Runtime
mod Geometry
mod Accounts
mod Eviction
mod Pages
mod Batches
mod Keys
mod Cpu
mod Wgpu
mod Cuda
mod Clock
mod Refused
mod Ready
