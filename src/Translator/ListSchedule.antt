-- ===== src/Translator/ListSchedule.antt =====
-- The list scheduler of a basic block (src/binaryTranslator/listSchedule.cpp) with what it calls of
-- the block (basicblock.cpp). A `set<ADDR>` is a list without repetitions. The block's instructions
-- are the objects that the sorted list points to; an instruction that a pointer leads to is found
-- by its address, and the scheduler follows only pointers to instructions of the block. The search
-- for the longest path and the rounds of scheduling run on fuel, the number of the block's
-- instructions and one more: on a graph without cycles a path meets each instruction once, and each
-- round but the last schedules one at least.
pub mod Block
pub mod Chains
pub mod Longest
pub mod Paths
pub mod Pick
pub mod Marks
pub mod Rounds
pub mod Legal
use cg_oo_o.Common.{
  ℕ, zero, suc, ◌+◌, ◌-◌, Bool, true, false, not, ◌&&◌, ◌||◌, List, [], ◌∷◌, ◌++◌, Option, none,
  some, map, ltb, ◌==◌, if◌then◌else◌, assert, ◌>>=◌, ◌>>◌, length, get_elem?, set,
}
use cg_oo_o.Translator.Instruction.{
  Instruction, is_longest_path_set, get_longest_path, set_longest_path, reset_longest_path,
}
use cg_oo_o.Translator.QuickSort.{quicksort}

-- NUM_EU (src/binaryTranslator/global.h)
abbrev pub num_eu : ℕ
num_eu = 4

pub record BasicBlock : Type 0 where
  pub ins_list : List Instruction
  pub ins_addr_list : List ℕ
  pub ins_list_sch_list : List Instruction

-- `set.find (a) != set.end ()`, and `set.insert (a)`
abbrev pub contains : ℕ → List ℕ → Bool
contains a [] = false
contains a (x ∷ xs) = a == x || contains a xs

unfoldable pub set_insert : ℕ → List ℕ → List ℕ
set_insert a xs = if contains a xs then xs else xs ++ (a ∷ [])

unfoldable pub is_ins_addr_in_bb : BasicBlock → ℕ → Option Bool
is_ins_addr_in_bb bb a = do
  assert (ltb 0 (length bb.ins_addr_list))
  some (contains a bb.ins_addr_list)

-- The instruction that a pointer leads to.
abbrev pub find_ins : ℕ → List Instruction → Option Instruction
find_ins a [] = none
find_ins a (e ∷ l) = if a == e.ins_addr then some e else find_ins a l

-- `if (_critPathLen < pathLength) _critPathLen = pathLength`, where `none` is -1.
abbrev pub raise : Option ℕ → ℕ → Option ℕ
raise none p = some p
raise (some c) p = if ltb c p then some p else some c

-- The loop of `findLongestPath` over the dependents; `search` is its call of itself.
unfoldable pub crit_loop :
    (Instruction → Option ℕ) → BasicBlock → List ℕ → Option ℕ → Option (Option ℕ)
crit_loop search bb [] crit = some crit
crit_loop search bb (d ∷ deps) crit = is_ins_addr_in_bb bb d >>= λ inside. elim inside [
  | false ↦ crit_loop search bb deps crit
  | true ↦ find_ins d bb.ins_list >>= λ dep.
      (if is_longest_path_set dep then get_longest_path dep else search dep) >>= λ p.
      crit_loop search bb deps (raise crit p)
]

abbrev pub crit_path_len : ℕ → Option ℕ → ℕ
crit_path_len latency none = latency
crit_path_len latency (some c) = c + latency

unfoldable pub find_longest_path : ℕ → BasicBlock → Instruction → Option ℕ
find_longest_path zero bb ins = none
find_longest_path (suc f) bb ins =
    crit_loop (find_longest_path f bb) bb ins.dependents none >>= λ crit.
    assert (ltb 0 (crit_path_len ins.latency crit)) >>= λ _. some (crit_path_len ins.latency crit)

-- The loop that finds every longest path, from the last instruction to the first.
unfoldable pub set_paths : ℕ → BasicBlock → Option BasicBlock
set_paths zero bb = some bb
set_paths (suc i) bb = do
  ins ← get_elem? bb.ins_list i
  lp ← find_longest_path (suc (length bb.ins_list)) bb ins
  ins' ← set_longest_path ins lp
  set_paths i (record bb { ins_list = set bb.ins_list i ins' })

-- The loop over the ancestors: `scheduleIt` after it.
unfoldable pub schedule_it : BasicBlock → List ℕ → List ℕ → Bool → Option Bool
schedule_it bb scheduled [] it = some it
schedule_it bb scheduled (a ∷ ancestors) it = do
  inside ← is_ins_addr_in_bb bb a
  schedule_it bb scheduled ancestors (if inside && not (contains a scheduled) then false else it)

-- One round over the sorted list, from the counter `c` on: what goes to the end of both lists.
unfoldable pub pick : BasicBlock → List ℕ → ℕ → List Instruction → Option (List Instruction)
pick bb scheduled c [] = some []
pick bb scheduled c (ins ∷ l) = elim (ltb c num_eu) [
  | false ↦ some []
  | true ↦ elim (contains ins.ins_addr scheduled) [
    | true ↦ pick bb scheduled c l
    | false ↦ schedule_it bb scheduled ins.ancestors true >>= λ it. elim it [
      | true ↦ pick bb scheduled (c + 1) l >>= λ rest. some (ins ∷ rest)
      | false ↦ pick bb scheduled c l
    ]
  ]
]

-- The loop over what a round picked.
unfoldable pub mark_all : List Instruction → List ℕ → List ℕ
mark_all [] scheduled = scheduled
mark_all (ins ∷ l) scheduled = mark_all l (set_insert ins.ins_addr scheduled)

unfoldable pub schedule_rounds :
    ℕ → BasicBlock → List Instruction → List Instruction → List ℕ → Option (List Instruction)
schedule_rounds zero bb sort_list list_sch scheduled = none
schedule_rounds (suc f) bb sort_list list_sch scheduled =
    elim (length sort_list == length scheduled) [
      | true ↦ some list_sch
      | false ↦ pick bb scheduled 0 sort_list >>= λ picked.
          schedule_rounds f bb sort_list (list_sch ++ picked) (mark_all picked scheduled)
    ]

unfoldable pub add_to_bb_list_schedule : BasicBlock → Instruction → Option BasicBlock
add_to_bb_list_schedule bb ins = do
  inside ← is_ins_addr_in_bb bb ins.ins_addr
  assert inside
  some (record bb { ins_list_sch_list = bb.ins_list_sch_list ++ (ins ∷ []) })

unfoldable pub store_schedule : List Instruction → BasicBlock → Option BasicBlock
store_schedule [] bb = some bb
store_schedule (ins ∷ l) bb = do bb' ← add_to_bb_list_schedule bb ins; store_schedule l bb'

unfoldable pub list_schedule : BasicBlock → Option BasicBlock
list_schedule bb =
    let n = length bb.ins_list in
    set_paths n (record bb { ins_list = map reset_longest_path bb.ins_list }) >>= λ bb1.
    quicksort n bb1.ins_list 0 (n - 1) >>= λ sort_list.
    schedule_rounds (suc n) bb1 sort_list [] [] >>= λ list_sch. store_schedule list_sch bb1
