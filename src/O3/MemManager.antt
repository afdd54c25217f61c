-- ===== src/O3/MemManager.antt =====
-- The memory manager of the out-of-order core (src/backend/o3/memManager.cpp): the load queue, the
-- store queue and the port to the scheduler. An instruction of a queue is the object that the other
-- stages hold too; here it is found by its number, which no other instruction has. The cache
-- (src/backend/cache) is a parameter: its state, and what a request answers and leaves. The energy,
-- the statistics and the profiler are left out.
pub mod Violation
use cg_oo_o.Common.{
  ℕ, zero, suc, ◌+◌, ◌-◌, ◌≡◌, Bool, true, false, ◌&&◌, ◌||◌, List, [], ◌∷◌, ◌++◌, Option, none,
  some, ltb, leb, ◌==◌, if◌then◌else◌, assert, ◌>>=◌, ◌>>◌,
}
use cg_oo_o.Unit.WirePair.{AxesType}
use cg_oo_o.Unit.Port.{
  Port, BuffState, empty_buff, available_buff, full_buff, push_back_lat, get_buff_state, is_empty,
}
use cg_oo_o.Unit.Instruction.{
  Instruction, SqState, LqState, is_mem, is_load, set_lq_state, set_sq_state, set_cache_axes,
  get_lq_state, get_sq_state, is_mem_or_br_violation,
}
use cg_oo_o.Unit.Table.{Table, TableElement, push_back as table_push_back, pop_front}
use cg_oo_o.Unit.Table
use cg_oo_o.O3.Lsq
use cg_oo_o.O3.Lsq.{
  Entry, LsqId, ld_qu, st_qu, find_pending_mem_ins, set_timer, has_mem_addr,
  has_any_complete_st_from_addr, has_any_complete_ld_from_addr, del_finished_mem_axes,
  is_sq_complete, is_lq_complete,
}

pub record MemManager : Type 0 where
  pub lq : Table Instruction
  pub sq : Table Instruction
  pub memory_to_scheduler_port : Port Instruction

-- The options of the run: `g_mem_model == NAIVE_SPECUL`, `isEnSquash ()`, `isEnMemFwd ()` and
-- `g_eu_lat._st_buff_lat`.
pub record Options : Type 0 where
  pub naive_specul : Bool
  pub en_squash : Bool
  pub en_mem_fwd : Bool
  pub st_buff_lat : ℕ

abbrev pub is_full : BuffState → Bool
is_full full_buff = true
is_full _ = false

unfoldable pub get_table_state : MemManager → LsqId → Option BuffState
get_table_state s ld_qu = Table.get_table_state s.lq
get_table_state s st_qu = Table.get_table_state s.sq

unfoldable pub has_free_wire : MemManager → LsqId → AxesType → ℕ → Option Bool
has_free_wire s ld_qu axes now = Table.has_free_wire s.lq axes now
has_free_wire s st_qu axes now = Table.has_free_wire s.sq axes now

unfoldable pub update_wire_state : MemManager → LsqId → AxesType → ℕ → Option MemManager
update_wire_state s ld_qu axes now = do
  q ← Table.update_wire_state s.lq axes now
  some (record s { lq = q })
update_wire_state s st_qu axes now = do
  q ← Table.update_wire_state s.sq axes now
  some (record s { sq = q })

-- A setter on the object of the number `seq`, as the queue sees it.
unfoldable pub set_ins : ℕ → (Instruction → Option Instruction) → List Entry → Option (List Entry)
set_ins seq set [] = some []
set_ins seq set (e ∷ l) =
    if e.element.seq_num == seq
    then (set e.element >>= λ i. some ((record e { element = i }) ∷ l))
    else (set_ins seq set l >>= λ l'. some (e ∷ l'))

unfoldable pub set_in_lq : MemManager → ℕ → (Instruction → Option Instruction) → Option MemManager
set_in_lq s seq set = do
  l ← set_ins seq set s.lq.table
  some (record s { lq = record (s.lq) { table = l } })

unfoldable pub set_in_sq : MemManager → ℕ → (Instruction → Option Instruction) → Option MemManager
set_in_sq s seq set = do
  l ← set_ins seq set s.sq.table
  some (record s { sq = record (s.sq) { table = l } })

-- `pushBack`; the state is set after the push, on the object that the queue then holds.
unfoldable pub push_back : MemManager → ℕ → Instruction → Option MemManager
push_back s now ins = do
  assert (is_mem ins.ins_type)
  if is_load ins.mem_type
      then (do
        state ← Table.get_table_state s.lq
        assert (if is_full state then false else true)
        ins' ← set_lq_state ins LqState.lq_addr_wait
        (_, q) ← table_push_back s.lq now ins'
        some (record s { lq = q }))
      else (do
        state ← Table.get_table_state s.sq
        assert (if is_full state then false else true)
        ins' ← set_sq_state ins SqState.sq_addr_wait
        (_, q) ← table_push_back s.sq now ins'
        some (record s { sq = q }))

unfoldable pub mem_addr_ready : MemManager → Instruction → Option MemManager
mem_addr_ready s ins =
    if is_load ins.mem_type
    then set_in_lq s ins.seq_num (λ i. set_lq_state i LqState.lq_pending_cache_dispatch)
    else set_in_sq s ins.seq_num (λ i. set_sq_state i SqState.sq_complete)

unfoldable pub has_st_to_addr : Options → MemManager → ℕ → ℕ → Option Bool
has_st_to_addr o s addr seq = has_mem_addr o.naive_specul addr seq s.sq.table

-- `forward`, of an instruction of the load queue.
unfoldable pub forward : MemManager → ℕ → Instruction → ℕ → Option MemManager
forward s now ins latency = do
  assert (is_mem ins.ins_type && is_load ins.mem_type)
  state ← get_buff_state s.memory_to_scheduler_port
  if is_full state then some s else (do
    assert (ltb 0 latency)
    some (record s {
      memory_to_scheduler_port = (push_back_lat s.memory_to_scheduler_port now ins (latency - 1)).1;
    }))

module _ {C : Type 0} (request : C → ℕ → AxesType → Option (ℕ × C)) where
  -- `getAxesLatency`, of an instruction of the load queue.
  unfoldable pub get_axes_latency :
      Options → MemManager → C → Instruction → Option (ℕ × MemManager × C)
  get_axes_latency o s c ins = has_st_to_addr o s ins.mem_addr ins.seq_num >>= λ in_sq. elim in_sq [
    | true ↦ do
      s' ← set_in_lq s ins.seq_num (λ i. set_lq_state i LqState.lq_fwd_from_sq)
      some (o.st_buff_lat, s', c)
    | false ↦ do
      s1 ← (if is_load ins.mem_type then set_in_lq s ins.seq_num set_cache_axes else some s)
      s2 ← set_in_lq s1 ins.seq_num (λ i. set_lq_state i LqState.lq_cache_wait)
      (lat, c') ← request c ins.mem_addr AxesType.read
      some (lat, s2, c')
  ]

  -- `issueToMem (LD_QU)`
  unfoldable pub issue_load : Options → MemManager → C → ℕ → Option (Bool × MemManager × C)
  issue_load o s c now = find_pending_mem_ins ld_qu s.lq.table >>= λ pending. elim pending [
    | none ↦ some (false, s, c)
    | some e ↦ do
      (lat, s1, c') ← get_axes_latency o s c e.element
      l ← set_timer now e.element.seq_num lat s1.lq.table
      let s2 = record s1 { lq = record (s1.lq) { table = l } }
      s3 ← (if o.en_mem_fwd then forward s2 now e.element lat else some s2)
      assert (ltb 0 lat)
      some (true, s3, c')
  ]

  -- `issueToMem (ST_QU)`; where squashes are on, an empty answer is looked into before it is tested.
  unfoldable pub issue_store : Options → MemManager → C → ℕ → Option (Bool × MemManager × C)
  issue_store o s c now = find_pending_mem_ins st_qu s.sq.table >>= λ pending. elim pending [
    | none ↦ if o.en_squash then none else some (false, s, c)
    | some e ↦ do
      assert (if o.en_squash && is_mem_or_br_violation e.element then false else true)
      s1 ← set_in_sq s e.element.seq_num (λ i. set_sq_state i SqState.sq_cache_dispatch)
      (lat, c') ← request c e.element.mem_addr AxesType.write
      l ← set_timer now e.element.seq_num lat s1.sq.table
      assert (ltb 0 lat)
      some (true, record s1 { sq = record (s1.sq) { table = l } }, c')
  ]

unfoldable pub commit : MemManager → ℕ → Instruction → Option (Bool × MemManager)
commit s now ins = do
  assert (is_mem ins.ins_type)
  if is_load ins.mem_type
      then (do
        state ← Table.get_table_state s.lq
        free ← (if is_empty state then some false else Table.has_free_wire s.lq AxesType.read now)
        if free
            then (do
              (ld_ins, q) ← pop_front s.lq now
              lq_state ← get_lq_state ins
              assert (is_lq_complete lq_state)
              assert (ld_ins.seq_num == ins.seq_num)
              q' ← Table.update_wire_state q AxesType.read now
              some (true, record s { lq = q' }))
            else some (false, s))
      else (do
        sq_state ← get_sq_state ins
        assert (is_sq_complete sq_state)
        s' ← set_in_sq s ins.seq_num (λ i. set_sq_state i SqState.sq_commit)
        some (true, s'))

unfoldable pub squash : MemManager → ℕ → MemManager
squash s seq = record s {
  lq = record (s.lq) { table = Lsq.squash seq s.lq.table };
  sq = record (s.sq) { table = Lsq.squash seq s.sq.table };
}

unfoldable pub has_commit_st : MemManager → Option Bool
has_commit_st s = Lsq.has_commit s.sq.table

unfoldable pub del_a_finished_st : MemManager → ℕ → Option MemManager
del_a_finished_st s now = do q ← del_finished_mem_axes s.sq now; some (record s { sq = q })

unfoldable pub has_finished_ins : MemManager → LsqId → ℕ → Option (Option Entry)
has_finished_ins s ld_qu now = Lsq.has_finished_ins ld_qu now s.lq.table
has_finished_ins s st_qu now = Lsq.has_finished_ins st_qu now s.sq.table

unfoldable pub is_lq_violation : MemManager → Instruction → Option (Option Entry)
is_lq_violation s st_ins = do
  state ← get_sq_state st_ins
  assert (is_sq_complete state)
  waw ← has_any_complete_st_from_addr st_ins.mem_addr st_ins.seq_num s.sq.table
  has_any_complete_ld_from_addr st_ins.mem_addr st_ins.seq_num waw s.lq.table

unfoldable pub complete_ld : MemManager → Instruction → Option MemManager
complete_ld s ins = do
  _ ← get_lq_state ins
  set_in_lq s ins.seq_num (λ i. set_lq_state i LqState.lq_complete)
