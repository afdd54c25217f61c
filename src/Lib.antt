-- ===== src/Lib.antt =====
-- CG-OoO, a cycle-level simulator of in-order, out-of-order and block processors, with the binary
-- translator that schedules its programs: a model of the timing back end (backend) and, of the
-- translator (binaryTranslator), of the list scheduling and the dominators, and the theorems about
-- them.
--
-- The parts. Each core is a row of stages joined by latched ports, with tables (queues, windows, a
-- reorder buffer) between them and a clock that every part reads. The stages ask a register file
-- manager whether an instruction can be renamed or is ready, and a memory manager to queue its memory
-- access. A squash empties the buffers and recovers the rename tables. The translator runs before the
-- simulation: it finds which instructions of a basic block depend on which, and the list scheduler
-- orders the block by the longest path of dependents; the cores run the order that it stores. The
-- dominators of the blocks and their frontiers are what its SSA form is built from.
--
-- The files.
--   Common          shared helpers: Boolean tests, lists, checks that may fail, ordered maps
--   Unit.Clock      the clock (backend/unit/sysClock.cpp) and the timers (lib/timer.h)
--   Unit.Wires      how many accesses a cycle allows (backend/unit/wires.cpp)
--   Unit.WirePair   the read and write wires that tables and register files own
--   Unit.Port       the latched queue between two stages (backend/unit/port.cpp)
--   Unit.Table      the bounded tables (backend/unit/table.cpp)
--   Unit.RegisterFile  the register file without renaming (backend/unit/registerFile.cpp)
--   Unit.Instruction   the dynamic instruction (backend/unit/dynInstruction.cpp)
--                   `getInsID` also checks that the number is set; a number is read without the check,
--                   for instructions that `setInsID` gave one
--   Rename          the rename tables (backend/unit/registerRename.cpp)
--   RfManager       the register file manager of the out-of-order core (backend/o3/rfManager.cpp);
--                   RfManager.Core is the sequence of calls that the stages make of it
--   Ino.RfManager   the register file manager of the in-order core (backend/ino/rfManager.cpp)
--   O3.Lsq          the load and store queues of the out-of-order core (backend/o3/lsq.cpp)
--   O3.MemManager   the memory manager over both queues (backend/o3/memManager.cpp)
--   O3.Commit       the squash of the commit stage (backend/o3/commit.cpp)
--   Translator.Instruction  an instruction of the translator (binaryTranslator/instruction.cpp)
--   Translator.Dependency   the dependence analysis (binaryTranslator/dependencyTable.cpp)
--   Translator.QuickSort    the sort by the longest path (binaryTranslator/quickSort.cpp)
--   Translator.ListSchedule the list scheduler (binaryTranslator/listSchedule.cpp), with what it calls
--                   of a block (binaryTranslator/basicblock.cpp); Translator.Dependency.Schedule is
--                   the scheduler after the analysis
--   Translator.Dominator    the dominators of the blocks (binaryTranslator/dominator.cpp)
--   Translator.DomTree      strict and immediate dominators and the dominator tree (the same file)
--   Translator.Frontier     the dominance frontiers (the same file)
--   Tests           the theorems at concrete inputs
-- A component's definitions stand in the file of its name, its theorems in the files below it. Paths
-- are relative to the directory src of the repository. The definitions have the names of the source
-- in snake_case; `renameReg` is `rename_reg`.
--
-- The state. An object is a record of its fields, an operation takes it and returns it changed. The
-- clock is an argument, `now`. An `Assert` that fails stops the program: the result is then `none`,
-- and a theorem that gives a result says that no check failed. `std::map` is a list of pairs in the
-- order of the keys, and a pointer to a register element is the register's number, its key.
--
-- Numbers are natural numbers. Where the source counts an `unsigned` up without a bound, the wrap at
-- 2^32 is written out; the free wires of a cycle may fall below zero and are integers. The loops of
-- the constructor of the rename tables run on fuel, one more than the rounds between their bounds:
-- each round raises the counter, and one call more makes the test that ends the loop. The loops
-- that take elements off the back of a list run on the length of the list. The search for a longest
-- path and the rounds of the list scheduler run on the number of instructions and one more, which is
-- enough since dependences go forward in the block and each round but the last schedules one. A
-- pointer to an instruction or a block of the translator is its address. The loop that builds the
-- dominators runs on fuel N * (N + 2) + 1 for N blocks: each pass that reports a change lowers a
-- measure that starts at N * (N + 2) at most. The search for the frontiers runs on N: a block has
-- fewer blocks below it in the tree than its parent.
--
-- An instruction of a load or store queue is the object that the stages hold too; the queue finds it
-- by its number. The cache is a parameter of the memory manager.
--
-- Not modelled: energy, statistics and debug output, which no part reads back; the stages
-- but for the squash at commit, the block core, the caches, the branch predictors and the frontend;
-- the other passes of the translator (live ranges, SSA form, register allocation, superblocks and
-- phrases, the walk that looks for dependences across blocks, reading and writing programs); the
-- reading of configuration files, whose values are arguments.
pub mod Common
pub mod Unit
pub mod Rename
pub mod RfManager
pub mod Ino
pub mod O3
pub mod Translator
pub mod Tests
