-- ===== src/RfManager/Core.antt =====
-- The calls that the stages of the out-of-order core make of the register file manager, as events
-- on the tables and the reorder buffer: src/backend/o3/schedulers.cpp dispatches an instruction
-- that can be renamed, src/backend/o3/execution.cpp and memory.cpp complete one in any order,
-- src/backend/o3/commit.cpp commits the head once it is complete, and `squashCtrl` recovers the
-- tables when the squash has emptied the reorder buffer. Widths, wires and ports only decide when
-- an event happens, so any sequence of events is allowed here.
use cg_oo_o.Common.{ℕ, zero, suc, Bool, true, false, List, [], ◌∷◌, ◌++◌, Option, some, ◌>>=◌}
use cg_oo_o.Unit.WirePair.{WirePair}
use cg_oo_o.Unit.Instruction.{Instruction}
use cg_oo_o.Rename.{Rename, Config, new_rename}
use cg_oo_o.RfManager.{can_rename, rename_regs, complete_regs, commit_regs, squash_rename_reg}

-- An instruction of the reorder buffer: is it complete?
pub record Entry : Type 0 where
  pub ins : Instruction
  pub done : Bool

pub record Core : Type 0 where
  pub tables : Rename
  pub rob : List Entry

pub data Event : Type 0 where
  dispatch : Instruction → Event
  complete : ℕ → Event
  commit squash : Event

-- Complete the instruction at an index, unless there is none or it is complete.
unfoldable pub complete_nth : Rename → ℕ → List Entry → Option (Rename × List Entry)
complete_nth s n [] = some (s, [])
complete_nth s zero (e ∷ rob) = elim e.done [
  | true ↦ some (s, e ∷ rob)
  | false ↦ do s' ← complete_regs s e.ins; some (s', (record e { done = true }) ∷ rob)
]
complete_nth s (suc n) (e ∷ rob) = do (s', rob') ← complete_nth s n rob; some (s', e ∷ rob')

-- Commit the head, unless there is none or it is not complete.
unfoldable pub commit_head : Rename → List Entry → Option (Rename × List Entry)
commit_head s [] = some (s, [])
commit_head s (e ∷ rob) = elim e.done [
  | true ↦ do s' ← commit_regs s e.ins; some (s', rob)
  | false ↦ some (s, e ∷ rob)
]

-- Rename an instruction and append it, unless too few registers are free.
unfoldable pub dispatch_ins : Rename → Instruction → List Entry → Option (Rename × List Entry)
dispatch_ins s i rob = elim (can_rename s i) [
  | true ↦ do
    (failed, s', i') ← rename_regs s i
    some (s', rob ++ ((record { ins = i'; done = false }) ∷ []))
  | false ↦ some (s, rob)
]

unfoldable pub step : Core → Event → Option Core
step c (dispatch i) = do
  (s, rob) ← dispatch_ins c.tables i c.rob
  some (record { tables = s; rob = rob })
step c (complete n) = do
  (s, rob) ← complete_nth c.tables n c.rob
  some (record { tables = s; rob = rob })
step c commit = do (s, rob) ← commit_head c.tables c.rob; some (record { tables = s; rob = rob })
step c squash = do s ← squash_rename_reg c.tables; some (record { tables = s; rob = [] })

unfoldable pub run : Core → List Event → Option Core
run c [] = some c
run c (e ∷ es) = do c' ← step c e; run c' es

unfoldable pub start : Config → WirePair → Option Core
start cfg w = do s ← new_rename cfg w; some (record { tables = s; rob = [] })
