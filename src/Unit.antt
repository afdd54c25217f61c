-- ===== src/Unit.antt =====
-- The building blocks of the pipeline models: src/backend/unit.
pub mod Clock
pub mod Wires
pub mod WirePair
pub mod Port
pub mod Table
pub mod RegisterFile
pub mod Instruction
