-- ===== src/Unit/WirePair.antt =====
-- The read and write wires of a table (src/backend/unit/table.cpp) and of the register files
-- (src/backend/unit/registerFile.cpp, registerRename.cpp, src/backend/bb/registerRename.cpp),
-- which share this code word for word.
use cg_oo_o.Common.{ℕ, ◌-◌, ◌<◌, ◌≡◌, Bool, Option, some, ltb, ◌==◌, if◌then◌else◌, ◌>>=◌, arith}
use cg_oo_o.Common.Int.{ℤ, pos}
use cg_oo_o.Unit.Clock.{start_cycle}
use cg_oo_o.Unit.Wires
use cg_oo_o.Unit.Wires.{Wires, new_wires}

-- AXES_TYPE (src/global/global.h); every test of the source takes `none` as `WRITE`.
pub data AxesType : Type 0 where
  no_axes read write : AxesType

abbrev pub is_read : AxesType → Bool
is_read read = Bool.true
is_read _ = Bool.false

-- `_cycle`, `_wr_port` and `_rd_port`
pub record WirePair : Type 0 where
  pub cycle : ℕ
  pub wr_port : Wires
  pub rd_port : Wires

-- What the constructors of the owners do with them.
unfoldable pub new_wire_pair : ℕ → ℤ → ℤ → ℕ → ℕ → Option WirePair
unfolding new_wires
new_wire_pair now wr_garbage rd_garbage wr_wire_cnt rd_wire_cnt = do
  wr ← new_wires now wr_garbage wr_wire_cnt
  rd ← new_wires now rd_garbage rd_wire_cnt
  some (record { cycle = start_cycle; wr_port = wr; rd_port = rd })

unfoldable pub has_free_wire : WirePair → AxesType → ℕ → Option Bool
has_free_wire p axes now =
    if is_read axes then Wires.has_free_wire p.rd_port now else Wires.has_free_wire p.wr_port now

unfoldable pub get_num_free_wires : WirePair → AxesType → ℕ → Option ℤ
get_num_free_wires p axes now =
    if is_read axes
    then Wires.get_num_free_wires p.rd_port now
    else Wires.get_num_free_wires p.wr_port now

-- The first access of a cycle updates both sides, a later one the side of its axis.
unfoldable pub update_wire_state : WirePair → AxesType → ℕ → Option WirePair
update_wire_state p axes now =
    if ltb p.cycle now
    then (do
      wr ← Wires.update_wire_state p.wr_port now
      rd ← Wires.update_wire_state p.rd_port now
      some (record { cycle = now; wr_port = wr; rd_port = rd }))
    else if p.cycle == now
    then (if is_read axes
        then (do rd ← Wires.update_wire_state p.rd_port now; some (record p { rd_port = rd }))
        else (do wr ← Wires.update_wire_state p.wr_port now; some (record p { wr_port = wr })))
    else some p

-- The first access of a cycle, on whichever axis, takes a wire on both: after it each side has one
-- wire less than it was built with.
first_access_takes_both :
    (p : WirePair) (axes : AxesType) (now : ℕ)
    → p.cycle < now
    → p.wr_port.cycle < now
    → p.rd_port.cycle < now
    → 0 < p.wr_port.wire_cnt
    → 0 < p.rd_port.wire_cnt
    → (q : WirePair) × (update_wire_state p axes now ≡ some q)
      × (get_num_free_wires q read now ≡ some (pos (p.rd_port.wire_cnt - 1)))
      × (get_num_free_wires q write now ≡ some (pos (p.wr_port.wire_cnt - 1)))
unfolding update_wire_state get_num_free_wires Wires.update_wire_state Wires.get_num_free_wires
first_access_takes_both p axes now h hw hr kw kr = (
  record {
    cycle = now;
    wr_port = record (p.wr_port) { num_free_wire = pos (p.wr_port.wire_cnt - 1); cycle = now };
    rd_port = record (p.rd_port) { num_free_wire = pos (p.rd_port.wire_cnt - 1); cycle = now };
  },
  ground arith,
  ground arith,
  ground arith,
)
