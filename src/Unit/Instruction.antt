-- ===== src/Unit/Instruction.antt =====
-- The dynamic instruction (src/backend/unit/dynInstruction.cpp): its pipeline, store queue and load
-- queue states, and its register lists. The branch attributes, the access size and the text are not
-- read by the parts that are modelled. `getInsID` checks that the sequence number is set, which is
-- its precondition here; the checks of the state setters are part of the model.
pub mod States
pub mod Reset
use cg_oo_o.Common.{
  ℕ, ◌≡◌, Bool, true, false, ◌&&◌, ◌||◌, List, [], ◌∷◌, ◌++◌, Option, none, some, ltb, ◌==◌,
  if◌then◌else◌, assert, ◌>>=◌, ◌>>◌,
}
use cg_oo_o.Unit.WirePair.{AxesType}

-- The members of PIPE_STAGE, SQ_STATE, LQ_STATE, INS_TYPE and MEM_TYPE (src/global/global.h) that
-- the setters name.
pub data PipeStage : Type 0 where
  no_stage fetch decode dispatch issue execute mem_access complete commit : PipeStage

pub data SqState : Type 0 where
  sq_no_state sq_addr_wait sq_complete sq_commit sq_cache_dispatch : SqState

pub data LqState : Type 0 where
  lq_no_state lq_addr_wait lq_pending_cache_dispatch lq_fwd_from_sq lq_mshr_wait lq_cache_wait
        lq_complete :
      LqState

pub data InsType : Type 0 where
  no_type alu mem fpu br assign nop bb_head : InsType

pub data MemType : Type 0 where
  load store : MemType

abbrev pub is_mem : InsType → Bool
is_mem mem = true
is_mem _ = false

abbrev pub is_load : MemType → Bool
is_load load = true
is_load store = false

pub record Instruction : Type 0 where
  pub seq_num : ℕ
  pub ins_type : InsType
  pub mem_type : MemType
  pub mem_addr : ℕ
  pub ins_stage : PipeStage
  pub sq_state : SqState
  pub lq_state : LqState
  pub cache_axes : Bool
  pub is_on_wrong_path : Bool
  pub is_mem_violation : Bool
  pub a_rd_reg : List ℕ
  pub a_wr_reg : List ℕ
  pub a_rd_reg_wait_list : List ℕ
  pub p_rd_reg : List ℕ
  pub p_wr_reg : List ℕ
  pub p_rd_reg_wait_list : List ℕ

unfoldable pub set_ins_id : Instruction → ℕ → Option Instruction
set_ins_id i seq = do assert (ltb 0 seq); some (record i { seq_num = seq })

unfoldable pub set_pr : Instruction → ℕ → AxesType → Option Instruction
set_pr i pr AxesType.read = some (record i {
  p_rd_reg = i.p_rd_reg ++ (pr ∷ []);
  p_rd_reg_wait_list = i.p_rd_reg_wait_list ++ (pr ∷ []);
})
set_pr i pr AxesType.write = some (record i { p_wr_reg = i.p_wr_reg ++ (pr ∷ []) })
set_pr i pr AxesType.no_axes = none

unfoldable pub set_ar : Instruction → ℕ → AxesType → Option Instruction
set_ar i ar AxesType.read = some (record i {
  a_rd_reg = i.a_rd_reg ++ (ar ∷ []);
  a_rd_reg_wait_list = i.a_rd_reg_wait_list ++ (ar ∷ []);
})
set_ar i ar AxesType.write = some (record i { a_wr_reg = i.a_wr_reg ++ (ar ∷ []) })
set_ar i ar AxesType.no_axes = none

-- The switch of `setPipeStage`: the stages from which each one may be entered.
abbrev pub stage_follows : PipeStage → PipeStage → Bool
stage_follows fetch no_stage = true
stage_follows decode fetch = true
stage_follows dispatch decode = true
stage_follows issue dispatch = true
stage_follows execute issue = true
stage_follows mem_access execute = true
stage_follows complete mem_access = true
stage_follows complete execute = true
stage_follows commit complete = true
stage_follows _ _ = false

unfoldable pub set_pipe_stage : Instruction → PipeStage → Option Instruction
set_pipe_stage i stage = do
  assert (stage_follows stage i.ins_stage)
  some (record i { ins_stage = stage })

-- The switch of `setSQstate`.
abbrev pub sq_follows : SqState → SqState → Bool
sq_follows sq_addr_wait sq_no_state = true
sq_follows sq_complete sq_addr_wait = true
sq_follows sq_commit sq_complete = true
sq_follows sq_cache_dispatch sq_commit = true
sq_follows _ _ = false

unfoldable pub set_sq_state : Instruction → SqState → Option Instruction
set_sq_state i state = do
  assert (if is_load i.mem_type then false else true)
  assert (sq_follows state i.sq_state)
  some (record i { sq_state = state })

-- The switch of `setLQstate`.
abbrev pub lq_follows : LqState → LqState → Bool
lq_follows lq_addr_wait lq_no_state = true
lq_follows lq_pending_cache_dispatch lq_addr_wait = true
lq_follows lq_fwd_from_sq lq_pending_cache_dispatch = true
lq_follows lq_mshr_wait lq_pending_cache_dispatch = true
lq_follows lq_cache_wait lq_pending_cache_dispatch = true
lq_follows lq_complete lq_fwd_from_sq = true
lq_follows lq_complete lq_mshr_wait = true
lq_follows lq_complete lq_cache_wait = true
lq_follows _ _ = false

unfoldable pub set_lq_state : Instruction → LqState → Option Instruction
set_lq_state i state = do
  assert (is_load i.mem_type)
  assert (lq_follows state i.lq_state)
  some (record i { lq_state = state })

unfoldable pub set_wrong_path : Instruction → Bool → Instruction
set_wrong_path i wrong = record i { is_on_wrong_path = wrong }

unfoldable pub set_mem_violation : Instruction → Instruction
set_mem_violation i = record i { is_mem_violation = true }

unfoldable pub set_cache_axes : Instruction → Option Instruction
set_cache_axes i = do
  assert ((if i.cache_axes then false else true) && is_mem i.ins_type && is_load i.mem_type)
  some (record i { cache_axes = true })

unfoldable pub get_sq_state : Instruction → Option SqState
get_sq_state i = do assert (if is_load i.mem_type then false else true); some i.sq_state

unfoldable pub get_lq_state : Instruction → Option LqState
get_lq_state i = do assert (is_load i.mem_type); some i.lq_state

unfoldable pub is_mem_or_br_violation : Instruction → Bool
is_mem_or_br_violation i = i.is_mem_violation || i.is_on_wrong_path

unfoldable pub is_cache_axes : Instruction → Option Bool
is_cache_axes i = do assert (is_mem i.ins_type && is_load i.mem_type); some i.cache_axes

-- Used to run an instruction again after a squash.
unfoldable pub reset_states : Instruction → Instruction
reset_states i = record i {
  p_rd_reg_wait_list = [];
  p_rd_reg = [];
  p_wr_reg = [];
  a_rd_reg_wait_list = i.a_rd_reg;
  ins_stage = PipeStage.no_stage;
  lq_state = LqState.lq_no_state;
  sq_state = SqState.sq_no_state;
  is_mem_violation = false;
  cache_axes = false;
}
