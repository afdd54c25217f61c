-- ===== src/Translator/Dependency.antt =====
-- The dependence analysis of the translator: the tables (src/binaryTranslator/dependencyTable.cpp),
-- the check of one instruction against them (`dependencyTableCheck` of instruction.cpp) and the loop
-- over the instructions of a block (`data_dependency` of dependencySetup.cpp). The instructions that
-- pointers lead to are the list `heap`; a key of a table, a `long int`, is a number.
pub mod Heap
pub mod Places
pub mod Producers
pub mod Analysis
pub mod Links
pub mod Schedule
use cg_oo_o.Common.{
  ℕ, zero, suc, ◌+◌, ◌-◌, Bool, true, false, not, ◌&&◌, ◌||◌, List, [], ◌∷◌, ◌++◌, Option, none,
  some, ltb, ◌==◌, if◌then◌else◌, assert, ◌>>=◌, ◌>>◌, length, last?, erase_idx,
}
use cg_oo_o.Common.Maps.{lookup, insert, erase}
use cg_oo_o.Translator.Instruction.{Instruction, MemType, read, write}
use cg_oo_o.Translator.ListSchedule.{BasicBlock, contains, find_ins}

-- tableType
pub data TableType : Type 0 where
  mem_read mem_write reg_write reg_read : TableType

-- MEM_SCH_MODE (src/binaryTranslator/global.h)
pub data MemSchMode : Type 0 where
  store_order load_store_order : MemSchMode

pub record DependencyTable : Type 0 where
  pub mem_read_list : List (ℕ × ℕ)
  pub mem_write_list : List (ℕ × ℕ)
  pub reg_write_list : List (ℕ × ℕ)
  pub reg_read_list : List (ℕ × ℕ)
  pub branch_list : List ℕ
  pub mem_writes : List ℕ

abbrev pub new_dependency_table : DependencyTable
new_dependency_table = record {
  mem_read_list = [];
  mem_write_list = [];
  reg_write_list = [];
  reg_read_list = [];
  branch_list = [];
  mem_writes = [];
}

-- `if (m.count (k) > 0) m.erase (k); m.insert (k, ins)`
unfoldable pub renew : ℕ → ℕ → List (ℕ × ℕ) → List (ℕ × ℕ)
renew k ins m = insert k ins (erase k m)

-- `if (m.count (k) > 0 && m.find (k)->second is ins) m.erase (k)`
unfoldable pub erase_of : ℕ → ℕ → List (ℕ × ℕ) → List (ℕ × ℕ)
erase_of k ins m = elim (lookup k m) [ none ↦ m | some p ↦ if p == ins then erase k m else m ]

abbrev pub is_reg : TableType → Bool
is_reg TableType.reg_write = true
is_reg TableType.reg_read = true
is_reg _ = false

unfoldable pub add_addr : DependencyTable → ℕ → ℕ → TableType → Option DependencyTable
add_addr t addr ins TableType.mem_read =
    some (record t { mem_read_list = renew addr ins t.mem_read_list })
add_addr t addr ins TableType.mem_write =
    some (record t { mem_write_list = renew addr ins t.mem_write_list })
add_addr t addr ins _ = none

unfoldable pub del_addr : DependencyTable → ℕ → ℕ → TableType → Option DependencyTable
del_addr t addr ins TableType.mem_read =
    some (record t { mem_read_list = erase_of addr ins t.mem_read_list })
del_addr t addr ins TableType.mem_write =
    some (record t { mem_write_list = erase_of addr ins t.mem_write_list })
del_addr t addr ins _ = none

unfoldable pub addr_lookup : DependencyTable → ℕ → TableType → Option (Option ℕ)
addr_lookup t addr TableType.mem_read = some (lookup addr t.mem_read_list)
addr_lookup t addr TableType.mem_write = some (lookup addr t.mem_write_list)
addr_lookup t addr _ = none

unfoldable pub add_reg : DependencyTable → ℕ → ℕ → TableType → Option DependencyTable
add_reg t reg ins TableType.reg_write =
    some (record t { reg_write_list = renew reg ins t.reg_write_list })
add_reg t reg ins TableType.reg_read =
    some (record t { reg_read_list = renew reg ins t.reg_read_list })
add_reg t reg ins _ = none

unfoldable pub del_reg : DependencyTable → ℕ → ℕ → TableType → Option DependencyTable
del_reg t reg ins TableType.reg_write =
    some (record t { reg_write_list = erase_of reg ins t.reg_write_list })
del_reg t reg ins TableType.reg_read =
    some (record t { reg_read_list = erase_of reg ins t.reg_read_list })
del_reg t reg ins _ = none

unfoldable pub reg_lookup : DependencyTable → ℕ → TableType → Option (Option ℕ)
reg_lookup t reg TableType.reg_write = some (lookup reg t.reg_write_list)
reg_lookup t reg TableType.reg_read = some (lookup reg t.reg_read_list)
reg_lookup t reg _ = none

-- The first entry for the instruction, removed.
unfoldable pub remove_first : ℕ → List ℕ → List ℕ
remove_first ins [] = []
remove_first ins (x ∷ xs) = if x == ins then xs else x ∷ remove_first ins xs

unfoldable pub add_br : DependencyTable → ℕ → DependencyTable
add_br t ins = record t { branch_list = t.branch_list ++ (ins ∷ []) }

unfoldable pub del_br : DependencyTable → ℕ → Option DependencyTable
del_br t ins = do
  let l = remove_first ins t.branch_list
  assert (length l + 1 == length t.branch_list || length t.branch_list == 0)
  some (record t { branch_list = l })

unfoldable pub add_wr : DependencyTable → ℕ → DependencyTable
add_wr t ins = record t { mem_writes = t.mem_writes ++ (ins ∷ []) }

unfoldable pub del_wr : DependencyTable → ℕ → DependencyTable
del_wr t ins = record t { mem_writes = remove_first ins t.mem_writes }

-- A write through the pointer `a`.
unfoldable pub modify_ins : ℕ → (Instruction → Instruction) → List Instruction → List Instruction
modify_ins a f [] = []
modify_ins a f (e ∷ l) = if a == e.ins_addr then f e ∷ l else e ∷ modify_ins a f l

abbrev pub set_as_dependent : ℕ → Instruction → Instruction
set_as_dependent x e = record e { dependents = e.dependents ++ (x ∷ []) }

abbrev pub set_as_ancestor : ℕ → Instruction → Instruction
set_as_ancestor p e = record e { ancestors = e.ancestors ++ (p ∷ []) }

abbrev pub set_as_reg_ancestor : ℕ → Instruction → Instruction
set_as_reg_ancestor p e = record e { reg_ancestors = e.reg_ancestors ++ (p ∷ []) }

-- `p->setAsDependent (this); setAsAncestor (p)`, where `this` is `x`
unfoldable pub link : ℕ → ℕ → List Instruction → List Instruction
link p x heap = modify_ins x (set_as_ancestor p) (modify_ins p (set_as_dependent x) heap)

-- The loop over the registers that are read. `is_ins_repeated` is `contains`.
unfoldable pub check_reads :
    DependencyTable → ℕ → List (ℕ × MemType) → List Instruction → Option (List Instruction)
check_reads t x [] heap = some heap
check_reads t x ((r, write) ∷ regs) heap = check_reads t x regs heap
check_reads t x ((r, read) ∷ regs) heap = reg_lookup t r TableType.reg_write >>= λ producer.
    elim producer [
      | none ↦ check_reads t x regs heap
      | some p ↦ find_ins x heap >>= λ this. check_reads t x regs (
          if contains p this.ancestors
          then heap
          else modify_ins x (set_as_reg_ancestor p) (link p x heap))
    ]

abbrev pub is_ordered_access : MemSchMode → Instruction → Bool
is_ordered_access MemSchMode.load_store_order this = this.is_memory
is_ordered_access MemSchMode.store_order this = this.is_memory && this.is_wr_mem_type

-- The dependence on the last store.
unfoldable pub check_memory :
    MemSchMode → DependencyTable → Instruction → List Instruction → List Instruction
check_memory mode t this heap = elim (is_ordered_access mode this) [
  | false ↦ heap
  | true ↦ elim (last? t.mem_writes) [ none ↦ heap | some p ↦ link p this.ins_addr heap ]
]

-- The loop that enters the registers.
unfoldable pub add_regs : ℕ → List (ℕ × MemType) → DependencyTable → Option DependencyTable
add_regs x [] t = some t
add_regs x ((r, write) ∷ regs) t = add_reg t r x TableType.reg_write >>= λ t'. add_regs x regs t'
add_regs x ((r, read) ∷ regs) t = add_reg t r x TableType.reg_read >>= λ t'. add_regs x regs t'

-- `this->dependencyTableCheck (depTables)`
unfoldable pub dependency_table_check :
    MemSchMode
    → ℕ
    → DependencyTable
    → List Instruction
    → Option (DependencyTable × List Instruction)
dependency_table_check mode x t heap = do
  this ← find_ins x heap
  heap1 ← check_reads t x this.regs heap
  let heap2 = check_memory mode t this heap1
  let t1 = if this.is_memory && this.is_wr_mem_type then add_wr t x else t
  t2 ← add_regs x this.regs t1
  some (t2, heap2)

-- The loop of `data_dependency` over a block's instructions.
unfoldable pub check_all :
    MemSchMode
    → List ℕ
    → DependencyTable
    → List Instruction
    → Option (DependencyTable × List Instruction)
check_all mode [] t heap = some (t, heap)
check_all mode (x ∷ xs) t heap = do
  (t', heap') ← dependency_table_check mode x t heap
  check_all mode xs t' heap'
