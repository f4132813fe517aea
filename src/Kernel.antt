-- ===== src/Kernel.antt =====
-- The vocabulary of the retrieval kernel (kernel/*.go).
pub mod Errors
pub mod Refs
pub mod Limits
pub mod Objects
pub mod Provider
pub mod Projection
pub mod Plan
pub mod Requests
pub mod Snapshots
