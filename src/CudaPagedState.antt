-- ===== src/CudaPagedState.antt =====
-- examples/cuda_paged_state.rs: a page pool on a CUDA device. What the driver does is a parameter;
-- the PTX kernel, which stands in the example as text, is modelled.
pub mod Driver
pub mod Kernel
pub mod Device
pub mod Table
pub mod Pool
pub mod Backend
pub mod Kept
pub mod Published
pub mod Copied
pub mod Contract
pub mod Agreement
