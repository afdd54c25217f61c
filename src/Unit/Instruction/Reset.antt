-- ===== src/Unit/Instruction/Reset.antt =====
-- What `resetStates` of src/backend/unit/dynInstruction.cpp undoes when an instruction is run again.
-- The architectural registers and the mark of a wrong path are not among it.
use cg_oo_o.Common.{
  ℕ, ◌≡◌, ◌∙◌, Bool, false, List, [], ◌∷◌, Option, some, ◌>>=◌, length, arith, >>=-eq-some,
}
use cg_oo_o.Unit.WirePair.{AxesType}
use cg_oo_o.Unit.Instruction.{
  PipeStage, no_stage, SqState, sq_no_state, LqState, lq_no_state, Instruction, set_pipe_stage,
  set_sq_state, set_lq_state, set_pr, set_mem_violation, set_cache_axes, reset_states,
}
use cg_oo_o.Unit.Instruction.States.{set_all}
use cg_oo_o.Unit.RegisterFile.{RegisterFile}
use cg_oo_o.Rename.{Rename}
use cg_oo_o.RfManager
use cg_oo_o.RfManager.{ready_loop}
use cg_oo_o.Ino

-- What happens to an instruction between its fetch and a squash. `o3_ready` and `ino_ready` are the calls
-- of `isReady` in the out-of-order and the in-order core, which take operands off its wait lists.
pub data Change : Type 0 where
  stage : PipeStage → Change
  sq : SqState → Change
  lq : LqState → Change
  pr : ℕ → AxesType → Change
  violation cache_axes : Change
  o3_ready : Rename → Change
  ino_ready : RegisterFile → Change

unfoldable pub change : Instruction → Change → Option Instruction
change i (stage t) = set_pipe_stage i t
change i (sq t) = set_sq_state i t
change i (lq t) = set_lq_state i t
change i (pr p axes) = set_pr i p axes
change i violation = some (set_mem_violation i)
change i cache_axes = set_cache_axes i
change i (o3_ready s) = do r ← RfManager.is_ready s i; some r.1
change i (ino_ready s) = do r ← Ino.RfManager.is_ready s i; some r.2

-- An instruction as fetch makes it.
pub record IsFresh (i : Instruction) : Type 0 where
  pub no_pr_wait : i.p_rd_reg_wait_list ≡ []
  pub no_pr_rd : i.p_rd_reg ≡ []
  pub no_pr_wr : i.p_wr_reg ≡ []
  pub all_wait : i.a_rd_reg_wait_list ≡ i.a_rd_reg
  pub unstaged : i.ins_stage ≡ no_stage
  pub no_lq : i.lq_state ≡ lq_no_state
  pub no_sq : i.sq_state ≡ sq_no_state
  pub no_violation : i.is_mem_violation ≡ false
  pub no_axes : i.cache_axes ≡ false

o3_ready-reset :
    (s : Rename) (i : Instruction) {r : Bool × Instruction}
    → RfManager.is_ready s i ≡ some r
    → reset_states r.1 ≡ reset_states i
unfolding RfManager.is_ready reset_states
o3_ready-reset s i {r} h =
    let (q, ran, now) =
      >>=-eq-some (ready_loop s (length i.p_rd_reg_wait_list) i.p_rd_reg_wait_list) _ h in
    ground (arith, now)

ino_ready-reset :
    (s : RegisterFile) (i : Instruction) {r : Bool × RegisterFile × Instruction}
    → Ino.RfManager.is_ready s i ≡ some r
    → reset_states r.2 ≡ reset_states i
unfolding Ino.RfManager.is_ready reset_states
ino_ready-reset s i {r} h =
    let (q, ran, now) =
      >>=-eq-some (Ino.RfManager.ready_loop s (length i.a_rd_reg_wait_list) i.a_rd_reg_wait_list) _
        h in
    ground (arith, now)

change-reset :
    (i i' : Instruction) (c : Change) → change i c ≡ some i' → reset_states i' ≡ reset_states i
unfolding change reset_states set_pipe_stage set_sq_state set_lq_state set_pr set_mem_violation
    set_cache_axes
change-reset i i' (stage t) h = ground (arith, h)
change-reset i i' (sq t) h = ground (arith, h)
change-reset i i' (lq t) h = ground (arith, h)
change-reset i i' (pr p AxesType.read) h = ground (arith, h)
change-reset i i' (pr p AxesType.write) h = ground (arith, h)
change-reset i i' (pr p AxesType.no_axes) h = ground (arith, h)
change-reset i i' violation h = ground (arith, h)
change-reset i i' cache_axes h = ground (arith, h)
change-reset i i' (o3_ready s) h =
    let (r, ran, now) = >>=-eq-some (RfManager.is_ready s i) (λ q. some q.1) h in
    let same : r.1 ≡ i' = cc (now) in rw (← same) (o3_ready-reset s i ran)
change-reset i i' (ino_ready s) h =
    let (r, ran, now) = >>=-eq-some (Ino.RfManager.is_ready s i) (λ q. some q.2) h in
    let same : r.2 ≡ i' = cc (now) in rw (← same) (ino_ready-reset s i ran)

reset-fresh : (i : Instruction) → IsFresh i → reset_states i ≡ i
unfolding reset_states
reset-fresh i f = cc (
  f.no_pr_wait, f.no_pr_rd, f.no_pr_wr, f.all_wait, f.unstaged, f.no_lq, f.no_sq, f.no_violation,
  f.no_axes,
)

changes-reset :
    (i i' : Instruction) (cs : List Change)
    → set_all change i cs ≡ some i'
    → reset_states i' ≡ reset_states i
unfolding set_all
changes-reset i i' [] h = cc
changes-reset i i' (c ∷ cs) h =
    let (i1, ran, more) = >>=-eq-some (change i c) (λ j. set_all change j cs) h in
    changes-reset i1 i' cs more ∙ change-reset i i1 c ran

-- A fresh instruction goes through pipeline stages and queue states, is given physical registers, is
-- marked as a memory violation or as having read the cache, and `isReady` of either core takes
-- operands off its wait lists. After any such calls in any order, none of which fails a check,
-- `resetStates` makes it again what it was.
pub reset_states-restores :
    (i i' : Instruction) (cs : List Change)
    → IsFresh i
    → set_all change i cs ≡ some i'
    → reset_states i' ≡ i
reset_states-restores i i' cs f h = changes-reset i i' cs h ∙ reset-fresh i f
