-- ===== src/Ino.antt =====
-- The in-order core: src/backend/ino.
pub mod RfManager
