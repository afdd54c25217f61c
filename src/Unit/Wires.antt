-- ===== src/Unit/Wires.antt =====
-- The wires of one side of a port (src/backend/unit/wires.cpp): how many accesses a cycle allows.
-- The wire energy and the count of refused accesses, which nothing reads back, are left out.
pub mod Bandwidth
use cg_oo_o.Common.{
  ℕ, zero, suc, ◌+◌, ◌-◌, ◌≤◌, ◌<◌, ◌≡◌, refl, Bool, true, false, Option, none, some, ltb, leb,
  ◌==◌, if◌then◌else◌, assert, ◌>>=◌, ◌>>◌, arith,
}
use cg_oo_o.Common.Int.{ℤ, pos, negsuc, decrement, exceeds}

pub record Wires : Type 0 where
  pub cycle : ℕ
  pub num_free_wire : ℤ
  pub wire_cnt : ℕ

-- The constructor. It does not set `_num_free_wire`: what the memory held is an argument.
unfoldable pub new_wires : ℕ → ℤ → ℕ → Option Wires
new_wires now garbage wire_cnt = do
  assert (ltb 0 wire_cnt)
  some (record { cycle = now; num_free_wire = garbage; wire_cnt = wire_cnt })

unfoldable pub has_free_wire : Wires → ℕ → Option Bool
has_free_wire w now =
    if ltb w.cycle now
    then some true
    else if w.cycle == now
    then some (exceeds w.num_free_wire 0)
    else none

-- `_num_free_wire = _wire_cnt - 1` wraps to -1 where there is no wire; the check then fails.
unfoldable pub update_wire_state : Wires → ℕ → Option Wires
update_wire_state w now =
    if ltb w.cycle now
    then (do
      assert (ltb 0 w.wire_cnt)
      some (record w { num_free_wire = pos (w.wire_cnt - 1); cycle = now }))
    else if w.cycle == now
    then some (record w { num_free_wire = decrement w.num_free_wire })
    else some w

unfoldable pub get_num_free_wires : Wires → ℕ → Option ℤ
get_num_free_wires w now =
    if ltb w.cycle now
    then some (pos w.wire_cnt)
    else if w.cycle == now
    then some w.num_free_wire
    else none
