-- ===== src/O3.antt =====
-- The out-of-order core's stages and queues: src/backend/o3.
pub mod Scan
pub mod Lsq
pub mod MemManager
pub mod Commit
