-- ===== src/O3/Lsq.antt =====
-- The load queue and the store queue of the out-of-order core (src/backend/o3/lsq.cpp), two CAM tables
-- of instructions, oldest first. A LENGTH is an `int`, below the table's size; the loops that count
-- down end at -1. The energy and the debug text are left out.
pub mod Age
pub mod Search
pub mod Forward
use cg_oo_o.Common.{
  ℕ, zero, suc, ◌+◌, ◌-◌, ◌≡◌, Bool, true, false, ◌&&◌, ◌||◌, List, [], ◌∷◌, ◌++◌, Option, none,
  some, ltb, leb, ◌==◌, if◌then◌else◌, assert, ◌>>=◌, ◌>>◌, length, last?,
}
use cg_oo_o.Common.Back.{pop_while}
use cg_oo_o.Unit.Clock.{Timer, set_new_time, get_stop_time}
use cg_oo_o.Unit.Instruction.{
  Instruction, PipeStage, SqState, LqState, get_sq_state, get_lq_state, is_cache_axes, is_load,
}
use cg_oo_o.Unit.Table.{Table, TableElement, pull_nth}
use cg_oo_o.O3.Scan.{find_first, find_back, Verdict, found, stop, further, answer}

abbrev pub Entry : Type 0
Entry = TableElement Instruction

-- LSQ_ID (src/global/global.h)
pub data LsqId : Type 0 where
  ld_qu st_qu : LsqId

-- The tests of the stage and of the queue states.
abbrev pub is_commit : PipeStage → Bool
is_commit PipeStage.commit = true
is_commit _ = false

abbrev pub is_complete : PipeStage → Bool
is_complete PipeStage.complete = true
is_complete _ = false

abbrev pub is_mem_access : PipeStage → Bool
is_mem_access PipeStage.mem_access = true
is_mem_access _ = false

abbrev pub is_sq_commit : SqState → Bool
is_sq_commit SqState.sq_commit = true
is_sq_commit _ = false

abbrev pub is_sq_complete : SqState → Bool
is_sq_complete SqState.sq_complete = true
is_sq_complete _ = false

abbrev pub is_sq_cache_dispatch : SqState → Bool
is_sq_cache_dispatch SqState.sq_cache_dispatch = true
is_sq_cache_dispatch _ = false

abbrev pub is_lq_pending : LqState → Bool
is_lq_pending LqState.lq_pending_cache_dispatch = true
is_lq_pending _ = false

abbrev pub is_lq_complete : LqState → Bool
is_lq_complete LqState.lq_complete = true
is_lq_complete _ = false

-- LQ_FWD_FROM_SQ, LQ_MSHR_WAIT or LQ_CACHE_WAIT
abbrev pub awaits_value : LqState → Bool
awaits_value LqState.lq_fwd_from_sq = true
awaits_value LqState.lq_mshr_wait = true
awaits_value LqState.lq_cache_wait = true
awaits_value _ = false

-- The rounds of `findPendingMemIns`; `&&` looks at the queue state only in the right stage.
unfoldable pub is_pending : LsqId → Entry → Option Bool
is_pending st_qu e =
    if is_commit e.element.ins_stage
    then (get_sq_state e.element >>= λ s. some (is_sq_commit s))
    else some false
is_pending ld_qu e =
    if is_mem_access e.element.ins_stage
    then (get_lq_state e.element >>= λ s. some (is_lq_pending s))
    else some false

unfoldable pub find_pending_mem_ins : LsqId → List Entry → Option (Option Entry)
find_pending_mem_ins q l = find_first (is_pending q) l

-- `setTimer`, on the first entry of the instruction's number.
unfoldable pub set_timer : ℕ → ℕ → ℕ → List Entry → Option (List Entry)
set_timer now seq lat [] = none
set_timer now seq lat (e ∷ l) =
    if e.element.seq_num == seq
    then some ((record e { delay = set_new_time e.delay now lat }) ∷ l)
    else (set_timer now seq lat l >>= λ l'. some (e ∷ l'))

-- `squash`: the entries from the back while their number is at least `seq`.
unfoldable pub squash : ℕ → List Entry → List Entry
squash seq l = pop_while (λ e. leb seq e.element.seq_num) (length l) l

-- Has the access of an entry ended?
unfoldable pub is_finished : ℕ → Entry → Option Bool
is_finished now e =
    if e.delay.valid then (get_stop_time e.delay >>= λ t. some (leb t now)) else some false

-- `delFinishedMemAxes`, from the index `i` on: the first entry whose access has ended leaves the
-- table.
unfoldable pub del_finished_from :
    Table Instruction → ℕ → ℕ → List Entry → Option (Table Instruction)
del_finished_from t now i [] = some t
del_finished_from t now i (e ∷ l) = is_finished now e >>= λ done. elim done [
  | true ↦ do
    s ← get_sq_state e.element
    assert (is_sq_cache_dispatch s)
    (_, t') ← pull_nth t now i
    some t'
  | false ↦ del_finished_from t now (suc i) l
]

unfoldable pub del_finished_mem_axes : Table Instruction → ℕ → Option (Table Instruction)
del_finished_mem_axes t now = del_finished_from t now 0 t.table

unfoldable pub has_commit : List Entry → Option Bool
has_commit l = find_first (λ e. get_sq_state e.element >>= λ s. some (is_sq_commit s)) l >>= λ r.
    elim r [ none ↦ some false | some e ↦ some true ]

-- A round of `hasMemAddr`. `naive` is `g_var.g_mem_model == NAIVE_SPECUL`.
unfoldable pub matches_store : Bool → ℕ → ℕ → Entry → Option Verdict
matches_store naive addr seq e = some (
    if leb seq e.element.seq_num
    then further
    else if naive
        && (if is_complete e.element.ins_stage || is_commit e.element.ins_stage
            then false
            else true)
    then further
    else if e.element.mem_addr == addr
    then found
    else further)

unfoldable pub has_mem_addr : Bool → ℕ → ℕ → List Entry → Option Bool
has_mem_addr naive addr seq l = find_back (matches_store naive addr seq) l >>= λ r.
    elim (answer r) [ none ↦ some false | some e ↦ some true ]

-- A round of `hasAnyCompleteStFromAddr`.
unfoldable pub is_younger_store : ℕ → ℕ → Entry → Option Bool
is_younger_store addr seq e =
    if leb e.element.seq_num seq
    then some false
    else (get_sq_state e.element >>= λ s.
        some (if is_sq_complete s then e.element.mem_addr == addr else false))

-- NO_WAW_ST_INS
abbrev pub no_waw_st_ins : ℕ
no_waw_st_ins = 0

unfoldable pub has_any_complete_st_from_addr : ℕ → ℕ → List Entry → Option ℕ
has_any_complete_st_from_addr addr seq l = find_first (is_younger_store addr seq) l >>= λ r.
    elim r [ none ↦ some no_waw_st_ins | some e ↦ some e.element.seq_num ]

-- A round of `hasAnyCompleteLdFromAddr`.
unfoldable pub violates : ℕ → ℕ → ℕ → Entry → Option Verdict
violates addr lo hi e =
    if ltb hi e.element.seq_num
    then some further
    else if leb e.element.seq_num lo
    then some stop
    else if e.element.mem_addr == addr
    then (get_lq_state e.element >>= λ s.
        if is_lq_complete s
        then (is_cache_axes e.element >>= λ c. some (if c then found else further))
        else some further)
    else some further

-- The upper bound that the loop works with.
unfoldable pub upper : ℕ → List Entry → ℕ
upper hi l = elim (last? l) [
  | none ↦ hi
  | some e ↦ if hi == no_waw_st_ins then e.element.seq_num else hi
]

-- `for (i = table_size - 1; i > 0; i--)`: the entry at index 0 has no round.
unfoldable pub has_any_complete_ld_from_addr : ℕ → ℕ → ℕ → List Entry → Option (Option Entry)
has_any_complete_ld_from_addr addr lo hi [] = some none
has_any_complete_ld_from_addr addr lo hi (e ∷ l) =
    find_back (violates addr lo (upper hi (e ∷ l))) l >>= λ r. some (answer r)

-- The rounds of `hasFinishedIns`.
unfoldable pub is_finished_ins : LsqId → ℕ → Entry → Option Bool
is_finished_ins ld_qu now e =
    get_lq_state e.element >>= λ s. if awaits_value s then is_finished now e else some false
is_finished_ins st_qu now e =
    get_sq_state e.element >>= λ s. if is_sq_cache_dispatch s then is_finished now e else some false

unfoldable pub has_finished_ins : LsqId → ℕ → List Entry → Option (Option Entry)
has_finished_ins q now l = find_first (is_finished_ins q now) l
