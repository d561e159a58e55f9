-- ===== src/WgpuPagedState.antt =====
-- examples/wgpu_paged_state.rs: a page slab on the GPU, through `wgpu`. What the `wgpu` crate does is
-- a parameter; the compute shader, which stands in the example as text, is modelled.
pub mod Gpu
pub mod Shader
pub mod Pool
pub mod Table
pub mod Dispatch
pub mod Readback
pub mod Backend
pub mod Kept
pub mod Contract
pub mod Retired
pub mod Dispatched
pub mod Distinct
pub mod Retire
pub mod Rows
pub mod Cells
pub mod Written
