-- ===== src/Tests.antt =====
-- The theorems of the library at concrete inputs, and instructions for them.
pub mod Building
pub mod Registers
pub mod Memory
pub mod Translating
pub mod Dominating
use cg_oo_o.Common.{ℕ, false, List, [], ◌∷◌}
use cg_oo_o.Unit.Instruction.{Instruction, InsType, MemType, PipeStage, SqState, LqState}

-- An arithmetic instruction that reads `rd` and writes `wr`.
abbrev pub alu_ins : ℕ → List ℕ → List ℕ → Instruction
alu_ins seq rd wr = record {
  seq_num = seq;
  ins_type = InsType.alu;
  mem_type = MemType.load;
  mem_addr = 0;
  ins_stage = PipeStage.no_stage;
  sq_state = SqState.sq_no_state;
  lq_state = LqState.lq_no_state;
  cache_axes = false;
  is_on_wrong_path = false;
  is_mem_violation = false;
  a_rd_reg = rd;
  a_wr_reg = wr;
  a_rd_reg_wait_list = rd;
  p_rd_reg = [];
  p_wr_reg = [];
  p_rd_reg_wait_list = [];
}
