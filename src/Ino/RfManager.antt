-- ===== src/Ino/RfManager.antt =====
-- The register file manager of the in-order core (src/backend/ino/rfManager.cpp): the readiness of an
-- instruction's operands and the reservation of its destinations. The same loops, over the local
-- registers, make src/backend/bb/lrfManager.cpp. The energy and the statistics are left out.
pub mod Hazards
pub mod Repeats
use cg_oo_o.Common.{
  ℕ, zero, suc, ◌≡◌, Bool, true, false, List, [], ◌∷◌, Option, none, some, ◌==◌, if◌then◌else◌,
  assert, ◌>>=◌, ◌>>◌, length, last?, drop_last,
}
use cg_oo_o.Common.Int.{at_least}
use cg_oo_o.Unit.WirePair.{AxesType}
use cg_oo_o.Unit.Instruction.{Instruction}
use cg_oo_o.Unit.RegisterFile.{
  RegisterFile, is_reg_valid_and_ready, reserve_reg, is_reg_busy, update_reg, get_num_free_wires,
}
use cg_oo_o.Unit.RegisterFile

-- The loop of `isReady`, from the back of the list; its length is fuel enough. A read of a register
-- may mark it, so that the file is passed on.
unfoldable pub ready_loop : RegisterFile → ℕ → List ℕ → Option (Bool × RegisterFile × List ℕ)
ready_loop s zero l = some (length l == 0, s, l)
ready_loop s (suc f) l = elim (last? l) [
  | none ↦ some (length l == 0, s, l)
  | some r ↦ is_reg_valid_and_ready s r >>= λ q. elim q.0 [
    | true ↦ ready_loop q.1 f (drop_last l)
    | false ↦ some (false, q.1, l)
  ]
]

unfoldable pub is_ready : RegisterFile → Instruction → Option (Bool × RegisterFile × Instruction)
is_ready s i = do
  (ready, s', l) ← ready_loop s (length i.a_rd_reg_wait_list) i.a_rd_reg_wait_list
  some (ready, s', record i { a_rd_reg_wait_list = l })

unfoldable pub again_loop : RegisterFile → ℕ → List ℕ → Option (Bool × RegisterFile)
again_loop s zero l = some (true, s)
again_loop s (suc f) l = elim (last? l) [
  | none ↦ some (true, s)
  | some r ↦ is_reg_valid_and_ready s r >>= λ q. elim q.0 [
    | true ↦ again_loop q.1 f (drop_last l)
    | false ↦ some (false, q.1)
  ]
]

-- `checkReadyAgain`, which does not take the ready operands off the list.
unfoldable pub check_ready_again : RegisterFile → Instruction → Option (Bool × RegisterFile)
check_ready_again s i = do
  (all, s') ← again_loop s (length i.a_rd_reg_wait_list) i.a_rd_reg_wait_list
  some (if all then length i.a_rd_reg_wait_list == 0 else false, s')

unfoldable pub reserve_regs : RegisterFile → List ℕ → Option RegisterFile
reserve_regs s [] = some s
reserve_regs s (r ∷ rs) = do s' ← reserve_reg s r; reserve_regs s' rs

unfoldable pub reserve_rf : RegisterFile → Instruction → Option RegisterFile
reserve_rf s i = reserve_regs s i.a_wr_reg

unfoldable pub none_busy : RegisterFile → List ℕ → Option Bool
none_busy s [] = some true
none_busy s (r ∷ rs) =
    is_reg_busy s r >>= λ busy. elim busy [ true ↦ some false | false ↦ none_busy s rs ]

unfoldable pub can_reserve_rf : RegisterFile → Instruction → Option Bool
can_reserve_rf s i = none_busy s i.a_wr_reg

unfoldable pub write_regs : RegisterFile → List ℕ → Option RegisterFile
write_regs s [] = some s
write_regs s (r ∷ rs) = do s' ← update_reg s r; write_regs s' rs

unfoldable pub write_to_rf : RegisterFile → Instruction → Option RegisterFile
write_to_rf s i = write_regs s i.a_wr_reg

-- `hasFreeWire (axes_type, numRegWires)`
unfoldable pub has_free_wire : RegisterFile → AxesType → ℕ → ℕ → Option Bool
has_free_wire s axes num now = do free ← get_num_free_wires s axes now; some (at_least free num)

-- `updateWireState (axes_type, numRegWires)`
unfoldable pub update_wire_state : RegisterFile → AxesType → ℕ → ℕ → Option RegisterFile
update_wire_state s axes zero now = some s
update_wire_state s axes (suc num) now = do
  s' ← RegisterFile.update_wire_state s axes now
  update_wire_state s' axes num now
