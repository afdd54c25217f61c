-- ===== src/Translator.antt =====
-- The binary translator (src/binaryTranslator): dependence analysis, sorting and list scheduling of a
-- block, and the dominators of the blocks.
pub mod Instruction
pub mod QuickSort
pub mod ListSchedule
pub mod Dependency
pub mod Dominator
pub mod DomTree
pub mod Frontier
