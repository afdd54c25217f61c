-- ===== src/RfManager.antt =====
-- The register file manager of the out-of-order core (src/backend/o3/rfManager.cpp): what renaming,
-- completion, commit and squash of an instruction do to the rename tables. The energy and the
-- statistics are left out.
pub mod Write
pub mod Commit
pub mod Operands
pub mod Core
pub mod Ready
pub mod Entries
pub mod Run
use cg_oo_o.Common.{
  ℕ, zero, suc, ◌≡◌, Bool, true, false, List, [], ◌∷◌, Option, none, some, ltb, leb, ◌==◌,
  if◌then◌else◌, assert, ◌>>=◌, ◌>>◌, length, last?, drop_last,
}
use cg_oo_o.Common.Int.{at_least}
use cg_oo_o.Unit.WirePair.{AxesType}
use cg_oo_o.Unit.Instruction.{Instruction, set_pr}
use cg_oo_o.Rename.{
  Rename, RegRenState, rename_reg, get_available_pr, update_frat, update_pr, update_pr_state,
  update_crat, set_as_available_pr, get_prev_pr, is_pr_valid, get_num_available_pr,
  is_any_pr_available, get_num_free_wires,
}
use cg_oo_o.Rename

unfoldable pub can_rename : Rename → Instruction → Bool
can_rename s i = if ltb (get_num_available_pr s) (length i.a_wr_reg) then false else true

-- The loop over the read operands.
unfoldable pub rename_reads : Rename → List ℕ → Instruction → Option Instruction
rename_reads s [] i = some i
rename_reads s (a ∷ ars) i = do
  p ← rename_reg s a
  i' ← set_pr i p AxesType.read
  rename_reads s ars i'

-- One round of the loop over the write operands: the new register, and the tables after it.
unfoldable pub rename_write : Rename → ℕ → Option (ℕ × Rename)
rename_write s a = do
  assert (is_any_pr_available s)
  prev ← rename_reg s a
  (new_pr, s1) ← get_available_pr s
  s2 ← update_frat s1 a new_pr
  s3 ← update_pr s2 new_pr prev RegRenState.renamed_invalid
  some (new_pr, s3)

unfoldable pub rename_writes : Rename → List ℕ → Instruction → Option (Rename × Instruction)
rename_writes s [] i = some (s, i)
rename_writes s (a ∷ ars) i = do
  (new_pr, s') ← rename_write s a
  i' ← set_pr i new_pr AxesType.write
  rename_writes s' ars i'

-- `renameRegs`, which always returns false.
unfoldable pub rename_regs : Rename → Instruction → Option (Bool × Rename × Instruction)
rename_regs s i = do
  assert (leb (length i.a_wr_reg) (get_num_available_pr s))
  i1 ← rename_reads s i.a_rd_reg_wait_list i
  (s', i2) ← rename_writes s i.a_wr_reg i1
  some (false, s', i2)

-- The loop of `completeRegs`.
unfoldable pub complete_writes : Rename → List ℕ → Option Rename
complete_writes s [] = some s
complete_writes s (p ∷ prs) = do
  s' ← update_pr_state s p RegRenState.renamed_valid
  complete_writes s' prs

unfoldable pub complete_regs : Rename → Instruction → Option Rename
complete_regs s i = complete_writes s i.p_wr_reg

-- One round of the loop of `commitRegs`.
unfoldable pub commit_write : Rename → ℕ → ℕ → Option Rename
commit_write s p a = do
  prev ← get_prev_pr s p
  s1 ← update_pr_state s p RegRenState.arch_reg
  s2 ← update_pr_state s1 prev RegRenState.available
  s3 ← update_crat s2 a p
  set_as_available_pr s3 prev

-- The loop of `commitRegs`, over two lists of one length.
unfoldable pub commit_writes : Rename → List ℕ → List ℕ → Option Rename
commit_writes s [] ars = some s
commit_writes s (p ∷ prs) [] = none
commit_writes s (p ∷ prs) (a ∷ ars) = do s' ← commit_write s p a; commit_writes s' prs ars

unfoldable pub commit_regs : Rename → Instruction → Option Rename
commit_regs s i = do
  assert (length i.a_wr_reg == length i.p_wr_reg)
  commit_writes s i.p_wr_reg i.a_wr_reg

unfoldable pub squash_rename_reg : Rename → Option Rename
squash_rename_reg s = Rename.squash_rename_reg s

-- The loop of `isReady`, which takes the operands that are ready off the back of the list; the
-- length of the list is fuel enough.
unfoldable pub ready_loop : Rename → ℕ → List ℕ → Option (Bool × List ℕ)
ready_loop s zero l = some (length l == 0, l)
ready_loop s (suc f) l = elim (last? l) [
  | none ↦ some (length l == 0, l)
  | some r ↦ is_pr_valid s r >>= λ ok. elim ok [
    | true ↦ ready_loop s f (drop_last l)
    | false ↦ some (false, l)
  ]
]

unfoldable pub is_ready : Rename → Instruction → Option (Bool × Instruction)
is_ready s i = do
  (ready, l) ← ready_loop s (length i.p_rd_reg_wait_list) i.p_rd_reg_wait_list
  some (ready, record i { p_rd_reg_wait_list = l })

-- The loop of `checkReadyAgain`, which leaves the list as it is: is an operand not ready?
unfoldable pub some_not_ready : Rename → ℕ → List ℕ → Option Bool
some_not_ready s zero l = some false
some_not_ready s (suc f) l = elim (last? l) [
  | none ↦ some false
  | some r ↦ is_pr_valid s r >>= λ ok. elim ok [
    | true ↦ some_not_ready s f (drop_last l)
    | false ↦ some true
  ]
]

unfoldable pub check_ready_again : Rename → Instruction → Option Bool
check_ready_again s i = do
  missing ← some_not_ready s (length i.p_rd_reg_wait_list) i.p_rd_reg_wait_list
  some (if missing then false else length i.p_rd_reg_wait_list == 0)

-- `hasFreeWire (axes_type, numRegWires)`
unfoldable pub has_free_wire : Rename → AxesType → ℕ → ℕ → Option Bool
has_free_wire s axes num now = do free ← get_num_free_wires s axes now; some (at_least free num)

-- `updateWireState (axes_type, numRegWires)`
unfoldable pub update_wire_state : Rename → AxesType → ℕ → ℕ → Option Rename
update_wire_state s axes zero now = some s
update_wire_state s axes (suc num) now = do
  s' ← Rename.update_wire_state s axes now
  update_wire_state s' axes num now
