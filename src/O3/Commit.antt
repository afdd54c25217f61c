-- ===== src/O3/Commit.antt =====
-- The squash of the commit stage of the out-of-order core (src/backend/o3/commit.cpp): the reorder
-- buffer and the instruction queue are emptied from the back, and what has to run again goes to the
-- front of the code cache (src/global/g_variable.h). A loop that counts down carries the number of
-- rounds that are left, one more than the index. The energy and the statistics are left out.
pub mod Replay
use cg_oo_o.Common.{
  ℕ, zero, suc, ◌+◌, ◌-◌, ◌≡◌, Bool, true, false, ◌&&◌, List, [], ◌∷◌, Option, none, some, ltb, leb,
  ◌==◌, if◌then◌else◌, assert, ◌>>=◌, ◌>>◌,
}
use cg_oo_o.Unit.Instruction.{Instruction, PipeStage, reset_states, is_mem_or_br_violation}
use cg_oo_o.Unit.Table.{Table, TableElement, get_table_size, get_nth_unsafe, remove_nth_unsafe}

pub record CommitStage : Type 0 where
  pub rob : Table Instruction
  pub que : Table Instruction
  pub code_cache : List Instruction

abbrev pub is_execute : PipeStage → Bool
is_execute PipeStage.execute = true
is_execute _ = false

-- The loop over the reorder buffer in both squashes.
unfoldable pub squash_rob : ℕ → ℕ → Table Instruction → Option (Table Instruction)
squash_rob seq zero q = some q
squash_rob seq (suc i) q =
    if get_table_size q == 0
    then some q
    else (get_nth_unsafe q i >>= λ ins.
        if ltb ins.seq_num seq
        then some q
        else (remove_nth_unsafe q i >>= λ q'. squash_rob seq i q'))

-- The loop over the instruction queue in `memMispredSquash`.
unfoldable pub replay_younger :
    ℕ → ℕ → Table Instruction → List Instruction → Option (Table Instruction × List Instruction)
replay_younger seq zero q cache = some (q, cache)
replay_younger seq (suc i) q cache =
    if get_table_size q == 0
    then some (q, cache)
    else (get_nth_unsafe q i >>= λ ins.
        if ltb ins.seq_num seq
        then some (q, cache)
        else (remove_nth_unsafe q i >>= λ q'. replay_younger seq i q' (reset_states ins ∷ cache)))

unfoldable pub mem_mispred_squash : CommitStage → ℕ → Option CommitStage
mem_mispred_squash s seq = do
  rob ← squash_rob seq (get_table_size s.rob) s.rob
  (que, cache) ← replay_younger seq (get_table_size s.que) s.que s.code_cache
  some (record { rob = rob; que = que; code_cache = cache })

-- The search of `bpMispredSquash`, from the index `i` on: `start_indx`, and one more than `stop_indx`.
unfoldable pub find_range : ℕ → ℕ → ℕ → ℕ → List (TableElement Instruction) → Option (ℕ × ℕ)
find_range seq size i start [] = some (start, size)
find_range seq size i start (e ∷ l) =
    assert (if is_execute e.element.ins_stage then false else true) >>= λ _.
    if e.element.seq_num == seq
    then find_range seq size (i + 1) i l
    else if ltb seq e.element.seq_num
    then (if is_mem_or_br_violation e.element
        then find_range seq size (i + 1) start l
        else (assert (ltb start i) >>= λ _. some (start, i)))
    else find_range seq size (i + 1) start l

-- The instructions behind the wrong path, from the index `end` on.
unfoldable pub replay_behind :
    ℕ → ℕ → Table Instruction → List Instruction → Option (Table Instruction × List Instruction)
replay_behind end zero q cache = some (q, cache)
replay_behind end (suc k) q cache =
    if get_table_size q == 0
    then some (q, cache)
    else (get_nth_unsafe q (end + k) >>= λ ins.
        remove_nth_unsafe q (end + k) >>= λ q'. replay_behind end k q' (reset_states ins ∷ cache))

-- The instructions of the wrong path, which are deleted.
unfoldable pub delete_range : ℕ → ℕ → ℕ → Table Instruction → Option (Table Instruction)
delete_range seq start zero q = some q
delete_range seq start (suc k) q =
    if get_table_size q == 0
    then some q
    else (get_nth_unsafe q (start + k) >>= λ ins. assert (is_mem_or_br_violation ins) >>= λ _.
        assert (leb seq ins.seq_num) >>= λ _.
        remove_nth_unsafe q (start + k) >>= λ q'. delete_range seq start k q')

unfoldable pub bp_mispred_squash : CommitStage → ℕ → Option CommitStage
bp_mispred_squash s seq = do
  rob ← squash_rob seq (get_table_size s.rob) s.rob
  (start, end) ← find_range seq (get_table_size s.que) 0 0 s.que.table
  assert (ltb start end && leb end (get_table_size s.que))
  (que, cache) ← replay_behind end (get_table_size s.que - end) s.que s.code_cache
  que' ← delete_range seq start (end - start) que
  some (record { rob = rob; que = que'; code_cache = cache })

-- PIPE_SQUASH_TYPE (src/global/global.h)
pub data SquashType : Type 0 where
  no_mispred mem_mispred bp_mispred : SquashType

-- `squash`, in the state PIPE_SQUASH_ROB, and the squash type after it; it does nothing where the
-- reorder buffer is empty.
unfoldable pub squash : CommitStage → SquashType → ℕ → Option (CommitStage × SquashType)
squash s type seq = if get_table_size s.rob == 0 then some (s, type) else elim type [
  | no_mispred ↦ none
  | mem_mispred ↦ mem_mispred_squash s seq >>= λ s'. some (s', no_mispred)
  | bp_mispred ↦ bp_mispred_squash s seq >>= λ s'. some (s', no_mispred)
]
