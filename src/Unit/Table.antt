-- ===== src/Unit/Table.antt =====
-- The bounded tables that queues, windows and buffers are made of (src/backend/unit/table.cpp and
-- table.h), over the `List` of src/lib/list.h, whose `Nth` and `RemoveAt` check the index. A pointer
-- to an element is the element. The energy, the statistics and the unused RAM table are left out.
-- A LENGTH is an `int`; a table never holds more than its size, an `int` itself.
pub mod Queue
use cg_oo_o.Common.{
  ℕ, zero, suc, ◌+◌, ◌-◌, ◌≡◌, Bool, true, false, ◌&&◌, List, [], ◌∷◌, ◌++◌, Option, none, some,
  ltb, leb, ◌==◌, if◌then◌else◌, assert, ◌>>=◌, ◌>>◌, length, last?, drop_last, get_elem?,
  erase_idx,
}
use cg_oo_o.Common.Int.{ℤ, exceeds}
use cg_oo_o.Unit.Clock.{Timer, unset}
use cg_oo_o.Unit.Port.{BuffState, empty_buff, available_buff, full_buff}
use cg_oo_o.Unit.WirePair
use cg_oo_o.Unit.WirePair.{WirePair, AxesType, new_wire_pair}

pub record TableElement {ℓ} (A : Type ℓ) : Type ℓ where
  pub delay : Timer
  pub element : A

pub record Table {ℓ} (A : Type ℓ) : Type ℓ where
  pub table : List (TableElement A)
  pub wires : WirePair
  pub table_size : ℕ

-- Is there a free wire: `_port.getNumFreeWires () > 0`?
abbrev pub can_access {ℓ} : {A : Type ℓ} → Table A → AxesType → ℕ → Option Bool
can_access t axes now = WirePair.get_num_free_wires t.wires axes now >>= λ n. some (exceeds n 0)

-- `TableElement (element)`, whose timer is not set.
abbrev pub new_element {ℓ} : {A : Type ℓ} → A → TableElement A
new_element x = record { delay = unset; element = x }

module _ {ℓ} {A : Type ℓ} where
  -- The constructor, on the memory that the free wires were left in.
  unfoldable pub new_table : ℕ → ℤ → ℤ → ℕ → ℕ → ℕ → Option (Table A)
  new_table now wr_garbage rd_garbage rd_wire_cnt wr_wire_cnt size = do
    wires ← new_wire_pair now wr_garbage rd_garbage wr_wire_cnt rd_wire_cnt
    assert (
        ltb 0 size
        && ltb 0 rd_wire_cnt
        && leb rd_wire_cnt size
        && ltb 0 wr_wire_cnt
        && leb wr_wire_cnt size)
    some (record { table = []; wires = wires; table_size = size })

  unfoldable pub push_back : Table A → ℕ → A → Option (BuffState × Table A)
  push_back t now x = do
    free ← can_access t AxesType.write now
    assert free
    if leb t.table_size (length t.table)
        then some (full_buff, t)
        else some (available_buff, record t { table = t.table ++ (new_element x ∷ []) })

  unfoldable pub pop_back : Table A → ℕ → Option (A × Table A)
  pop_back t now = do
    free ← can_access t AxesType.write now
    assert free
    assert (ltb 0 (length t.table))
    e ← last? t.table
    some (e.element, record t { table = erase_idx t.table (length t.table - 1) })

  unfoldable pub get_back : Table A → ℕ → Option A
  get_back t now = do
    free ← can_access t AxesType.write now
    assert free
    assert (ltb 0 (length t.table))
    e ← last? t.table
    some e.element

  unfoldable pub get_table_state : Table A → Option BuffState
  get_table_state t = do
    assert (leb (length t.table) t.table_size)
    some (
        if length t.table == t.table_size
        then full_buff
        else if length t.table == 0
        then empty_buff
        else available_buff)

  unfoldable pub get_table_size : Table A → ℕ
  get_table_size t = length t.table

  unfoldable pub get_nth_unsafe : Table A → ℕ → Option A
  get_nth_unsafe t n = do assert (ltb 0 (length t.table)); e ← get_elem? t.table n; some e.element

  unfoldable pub remove_nth_unsafe : Table A → ℕ → Option (Table A)
  remove_nth_unsafe t n = do
    assert (ltb 0 (length t.table))
    _ ← get_elem? t.table n
    some (record t { table = erase_idx t.table n })

  unfoldable pub has_free_wire : Table A → AxesType → ℕ → Option Bool
  has_free_wire t axes now = WirePair.has_free_wire t.wires axes now

  unfoldable pub update_wire_state : Table A → AxesType → ℕ → Option (Table A)
  update_wire_state t axes now = do
    w ← WirePair.update_wire_state t.wires axes now
    some (record t { wires = w })

  -- The CAM table.
  unfoldable pub pop_front : Table A → ℕ → Option (A × Table A)
  pop_front t now = do
    assert (ltb 0 (length t.table))
    free ← can_access t AxesType.read now
    assert free
    e ← get_elem? t.table 0
    some (e.element, record t { table = erase_idx t.table 0 })

  unfoldable pub pull_next_ready : Table A → ℕ → Option (A × Table A)
  pull_next_ready t n = do
    e ← get_elem? t.table n
    some (e.element, record t { table = erase_idx t.table n })

  unfoldable pub pull_nth : Table A → ℕ → ℕ → Option (A × Table A)
  pull_nth t now n = do
    assert (ltb 0 (length t.table))
    free ← can_access t AxesType.read now
    assert free
    e ← get_elem? t.table n
    some (e.element, record t { table = erase_idx t.table n })

  unfoldable pub get_front : Table A → ℕ → Option A
  get_front t now = do
    assert (ltb 0 (length t.table))
    free ← can_access t AxesType.read now
    assert free
    e ← get_elem? t.table 0
    some e.element

  unfoldable pub get_nth : Table A → ℕ → ℕ → Option A
  get_nth t now n = do
    assert (ltb 0 (length t.table))
    free ← can_access t AxesType.read now
    assert free
    e ← get_elem? t.table n
    some e.element

  unfoldable pub get_last : Table A → Option A
  get_last t = do assert (ltb 0 (length t.table)); e ← last? t.table; some e.element
