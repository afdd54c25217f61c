-- ===== src/Tests/Building.antt =====
-- The building blocks of the pipeline models at concrete inputs.
use cg_oo_o.Common.{
  ℕ, ◌≤◌, ◌≡◌, refl, ◌⊎◌, true, false, List, [], ◌∷◌, ◌++◌, none, some, leb, arith,
}
use cg_oo_o.Common.Int.{pos}
use cg_oo_o.Unit.Clock.{new_timer}
use cg_oo_o.Unit.Wires.{Wires, get_num_free_wires as free_wires}
use cg_oo_o.Unit.Wires.Bandwidth.{requests, requests_fresh}
use cg_oo_o.Unit.WirePair.{WirePair, AxesType, get_num_free_wires}
use cg_oo_o.Unit.Port.{
  Port, BuffElement, BuffState, has_ready, pop_next_ready, flush_port, search_n_flush_port,
  is_ready, push_back as port_push,
}
use cg_oo_o.Unit.Port.Ready.{IsValid, TakesFirst, has_ready-pop_next_ready, is_ready-push_back}
use cg_oo_o.Unit.Port.Flush.{flush_port-eq-search_n_flush_port}
use cg_oo_o.Unit.Port.Steps.{step, step-IsValid, push}
use cg_oo_o.Unit.Table.{Table, new_element, push_back as table_push, get_table_state}
use cg_oo_o.Unit.Table.Queue.{Op, Answer, apply, queue, seen, apply-eq-queue, apply-fits}
use cg_oo_o.Unit.Instruction.{
  Instruction, PipeStage, LqState, InsType, set_pipe_stage, set_lq_state, set_pr, set_mem_violation,
  reset_states,
}
use cg_oo_o.Unit.Instruction.States.{set_all, Prefix, lq_ahead, Source, set_lq_state-Prefix}
use cg_oo_o.Unit.Instruction.Reset.{
  change, stage, pr, violation, ino_ready, IsFresh, reset_states-restores,
}
use cg_oo_o.Common.Maps.{lookup}
use cg_oo_o.Unit.RegisterFile.{RegisterFile, RegState, get_element, is_reg_valid_and_ready}
use cg_oo_o.Ino
use cg_oo_o.Tests.{alu_ins}

abbrev wires : Wires
wires = record { cycle = 3; num_free_wire = pos 0; wire_cnt = 2 }

requests_fresh_example :
    requests 4 3 wires ≡ some (2, record { cycle = 4; num_free_wire = pos 0; wire_cnt = 2 })
requests_fresh_example = requests_fresh 4 2 wires (omega arith) (omega arith)

abbrev pair : WirePair
pair = record { cycle = 3; wr_port = wires; rd_port = wires }

-- Three instructions, the second ready first.
abbrev buffer : List (BuffElement ℕ)
buffer =
    record { delay = record { start = 1; stop = 9; latency = 8; valid = true }; dyn_ins = 4 }
    ∷ record { delay = record { start = 2; stop = 3; latency = 1; valid = true }; dyn_ins = 5 }
    ∷ record { delay = record { start = 2; stop = 7; latency = 5; valid = true }; dyn_ins = 6 }
    ∷ []

abbrev latched : Port ℕ
latched = record { buff = buffer; buff_len = 4; wire_delay = 2 }

latched-IsValid : IsValid latched
latched-IsValid = record {
  timed = ((refl, omega arith), ((refl, omega arith), ((refl, omega arith), tt)));
  fits = omega arith;
  room = omega arith;
}

has_ready-pop_next_ready_example :
    ((has_ready latched 5 ≡ some false) × (pop_next_ready latched 5 ≡ none))
    ⊎ ((has_ready latched 5 ≡ some true)
        × (a : ℕ) × (b' : List (BuffElement ℕ)) × (pop_next_ready latched 5
            ≡ some (a, record latched { buff = b' }))
        × TakesFirst (λ stop. leb stop 5) buffer a b')
has_ready-pop_next_ready_example = has_ready-pop_next_ready latched 5 latched-IsValid

abbrev empty_port : Port ℕ
empty_port = record { buff = []; buff_len = 4; wire_delay = 2 }

is_ready-push_back_example : is_ready (port_push empty_port 5 4).1 6 ≡ some (leb 7 6)
is_ready-push_back_example =
    is_ready-push_back empty_port 5 6 4
      (record { timed = tt; fits = omega arith; room = omega arith }) refl

flush_port-eq-search_n_flush_port_example :
    flush_port (λ n. n) latched 5 ≡ search_n_flush_port (λ n. n) latched 5
flush_port-eq-search_n_flush_port_example =
    flush_port-eq-search_n_flush_port (λ n. n) latched 5 (omega arith, (omega arith, tt))

step-IsValid_example :
    IsValid
      (record latched { buff = buffer ++ (record { delay = new_timer 5 2; dyn_ins = 7 } ∷ []) })
step-IsValid_example =
    step-IsValid (λ n. n) 5 latched (push 7) latched-IsValid (unfold step port_push in refl)

-- A table with room for one more.
abbrev window : Table ℕ
window = record { table = new_element 4 ∷ new_element 5 ∷ []; wires = pair; table_size = 3 }

apply-eq-queue_example : seen (apply window 4 (Op.pull 1)) ≡ queue 3 (4 ∷ 5 ∷ []) (Op.pull 1)
apply-eq-queue_example =
    apply-eq-queue window 4 (Op.pull 1) (unfold get_num_free_wires free_wires in refl)
      (unfold get_num_free_wires free_wires in refl)

abbrev filled : Table ℕ
filled = record window { table = new_element 4 ∷ new_element 5 ∷ new_element 6 ∷ [] }

apply-fits_example :
    (filled.table_size ≡ 3) × (3 ≤ 3) × (get_table_state filled ≡ some BuffState.full_buff)
apply-fits_example =
    apply-fits window filled 4 (Op.push 6) (Answer.state BuffState.available_buff) (omega arith)
      (unfold apply table_push get_num_free_wires free_wires in refl)

abbrev load : Instruction
load = record (alu_ins 4 [] []) { ins_type = InsType.mem }

abbrev missed : List LqState
missed = LqState.lq_addr_wait ∷ LqState.lq_pending_cache_dispatch ∷ LqState.lq_mshr_wait ∷ []

set_lq_state-Prefix_example : (w : Source) × Prefix missed (lq_ahead w LqState.lq_no_state)
set_lq_state-Prefix_example =
    set_lq_state-Prefix load (record load { lq_state = LqState.lq_mshr_wait }) missed
      (unfold set_all set_lq_state in refl)

-- A load of what register 1 points to.
abbrev fetched : Instruction
fetched = record (alu_ins 4 (1 ∷ []) []) { ins_type = InsType.mem }

-- Register 1 was written.
abbrev written : RegisterFile
written = record {
  rf = (1, record { reg_state = RegState.done_write_reg; axesed_before = true }) ∷ [];
  rf_begin_num = 1;
  rf_end_num = 2;
  wires = pair;
}

fetched-IsFresh : IsFresh fetched
fetched-IsFresh = record {
  no_pr_wait = refl;
  no_pr_rd = refl;
  no_pr_wr = refl;
  all_wait = refl;
  unstaged = refl;
  no_lq = refl;
  no_sq = refl;
  no_violation = refl;
  no_axes = refl;
}

-- The load after its fetch, with a register, its operand taken off, and a violation.
abbrev violated : Instruction
violated = record fetched {
  ins_stage = PipeStage.fetch;
  p_wr_reg = 13 ∷ [];
  a_rd_reg_wait_list = [];
  is_mem_violation = true;
}

reset_states-restores_example : reset_states violated ≡ fetched
reset_states-restores_example =
    reset_states-restores fetched violated
      (stage PipeStage.fetch ∷ pr 13 AxesType.write ∷ ino_ready written ∷ violation ∷ [])
      fetched-IsFresh
      (unfold set_all change set_pipe_stage set_pr set_mem_violation Ino.RfManager.is_ready
          Ino.RfManager.ready_loop is_reg_valid_and_ready get_element lookup in
        refl)
