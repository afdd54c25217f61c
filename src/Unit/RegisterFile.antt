-- ===== src/Unit/RegisterFile.antt =====
-- The register file without renaming (src/backend/unit/registerFile.cpp and .h). `_RF[reg]` on a
-- register that was not made yields a null pointer, whose use stops the program.
pub mod Scoreboard
use cg_oo_o.Common.{
  ℕ, zero, suc, ◌+◌, ◌-◌, ◌*◌, ◌≡◌, Bool, true, false, ◌&&◌, ◌||◌, List, [], ◌∷◌, Option, none,
  some, ltb, leb, ◌==◌, if◌then◌else◌, assert, ◌>>=◌, ◌>>◌,
}
use cg_oo_o.Common.Int.{ℤ}
use cg_oo_o.Common.Maps.{lookup, insert, modify}
use cg_oo_o.Unit.WirePair
use cg_oo_o.Unit.WirePair.{WirePair, AxesType, new_wire_pair}

-- REG_STATE (src/global/global.h)
pub data RegState : Type 0 where
  no_val_reg wait_on_write_reg done_write_reg : RegState

abbrev pub is_waiting : RegState → Bool
is_waiting wait_on_write_reg = true
is_waiting _ = false

abbrev pub is_done : RegState → Bool
is_done done_write_reg = true
is_done _ = false

abbrev pub is_no_val : RegState → Bool
is_no_val no_val_reg = true
is_no_val _ = false

pub record RegisterElement : Type 0 where
  pub reg_state : RegState
  pub axesed_before : Bool

abbrev pub new_element : RegisterElement
new_element = record { reg_state = no_val_reg; axesed_before = false }

abbrev pub reset_reg : RegisterElement → RegisterElement
reset_reg e = record {
  reg_state = if is_waiting e.reg_state then no_val_reg else e.reg_state;
  axesed_before = false;
}

pub record RegisterFile : Type 0 where
  pub rf : List (ℕ × RegisterElement)
  pub rf_begin_num : ℕ
  pub rf_end_num : ℕ
  pub wires : WirePair

-- `for (i = begin; i < end; i++)`, of as many rounds as the fuel.
unfoldable pub fill_rf : ℕ → ℕ → List (ℕ × RegisterElement) → List (ℕ × RegisterElement)
fill_rf zero i rf = rf
fill_rf (suc f) i rf = fill_rf f (i + 1) (insert i new_element rf)

unfoldable pub new_register_file : ℕ → ℤ → ℤ → ℕ → ℕ → ℕ → ℕ → ℕ → Option RegisterFile
new_register_file now wr_garbage rd_garbage size begin end rd_wire_cnt wr_wire_cnt = do
  wires ← new_wire_pair now wr_garbage rd_garbage wr_wire_cnt rd_wire_cnt
  assert (ltb 0 size)
  assert (rd_wire_cnt == 2 * wr_wire_cnt)
  some (record {
    rf = fill_rf (end - begin) begin [];
    rf_begin_num = begin;
    rf_end_num = end;
    wires = wires;
  })

-- The range check of the operations, which lets the end itself through, and `_RF[reg]`.
unfoldable pub get_element : RegisterFile → ℕ → Option RegisterElement
get_element s r = do assert (leb s.rf_begin_num r && leb r s.rf_end_num); lookup r s.rf

abbrev pub set_state : RegState → RegisterElement → RegisterElement
set_state st e = record e { reg_state = st }

unfoldable pub update_reg : RegisterFile → ℕ → Option RegisterFile
update_reg s r = do
  e ← get_element s r
  assert (is_waiting e.reg_state)
  some (record s { rf = modify r (set_state done_write_reg) s.rf })

unfoldable pub reserve_reg : RegisterFile → ℕ → Option RegisterFile
reserve_reg s r = do
  e ← get_element s r
  assert (is_done e.reg_state || is_no_val e.reg_state)
  some (record s { rf = modify r (set_state wait_on_write_reg) s.rf })

-- A first read of a register that was never written finds it written.
abbrev pub first_read : RegisterElement → RegisterElement
first_read e = record {
  reg_state = if is_no_val e.reg_state then done_write_reg else e.reg_state;
  axesed_before = true;
}

unfoldable pub is_reg_valid_and_ready : RegisterFile → ℕ → Option (Bool × RegisterFile)
is_reg_valid_and_ready s r = do
  e ← get_element s r
  if e.axesed_before
      then (do
        assert (if is_no_val e.reg_state then false else true)
        some (is_done e.reg_state, s))
      else some (is_done (first_read e).reg_state, record s { rf = modify r first_read s.rf })

unfoldable pub is_reg_busy : RegisterFile → ℕ → Option Bool
is_reg_busy s r = do e ← get_element s r; some (is_waiting e.reg_state)

abbrev pub reset_all : List (ℕ × RegisterElement) → List (ℕ × RegisterElement)
reset_all [] = []
reset_all ((r, e) ∷ rf) = (r, reset_reg e) ∷ reset_all rf

unfoldable pub reset_rf : RegisterFile → RegisterFile
reset_rf s = record s { rf = reset_all s.rf }

unfoldable pub has_free_wire : RegisterFile → AxesType → ℕ → Option Bool
has_free_wire s axes now = WirePair.has_free_wire s.wires axes now

unfoldable pub update_wire_state : RegisterFile → AxesType → ℕ → Option RegisterFile
update_wire_state s axes now = do
  w ← WirePair.update_wire_state s.wires axes now
  some (record s { wires = w })

unfoldable pub get_num_free_wires : RegisterFile → AxesType → ℕ → Option ℤ
get_num_free_wires s axes now = WirePair.get_num_free_wires s.wires axes now
