-- ===== src/Gpu.antt =====
-- gpud: CUDA calls of other hosts, served from this one.
pub mod Protocol
pub mod Session
pub mod Stub
pub mod Client
