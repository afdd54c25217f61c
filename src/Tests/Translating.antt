-- ===== src/Tests/Translating.antt =====
-- The dependence analysis and the list scheduler of the translator at a concrete block: two loads
-- feed a sum that a store writes, beside an instruction that depends on nothing.
use cg_oo_o.Common.{
  ℕ, ◌<◌, ◌≤◌, ◌≡◌, refl, Bool, true, false, List, [], ◌∷◌, Option, some, none, length, count, All,
  ◌>>=◌, arith,
}
use cg_oo_o.Translator.Instruction.{Instruction, MemType, read, write}
use cg_oo_o.Translator.QuickSort.{quicksort}
use cg_oo_o.Translator.QuickSort.Swap.{addrs}
use cg_oo_o.Translator.QuickSort.Sorted.{Falls, quicksort-Falls}
use cg_oo_o.Translator.ListSchedule.{
  BasicBlock, num_eu, contains, find_longest_path, pick, list_schedule,
}
use cg_oo_o.Translator.ListSchedule.Chains.{Graph, IsAcyclic, IsLongest, Holds}
use cg_oo_o.Translator.ListSchedule.Longest.{find_longest_path_lem}
use cg_oo_o.Translator.ListSchedule.Paths.{IsBlock}
use cg_oo_o.Translator.ListSchedule.Pick.{IsReady, IsNew}
use cg_oo_o.Translator.ListSchedule.Marks.{Respects}
use cg_oo_o.Translator.ListSchedule.Rounds.{pick-progress}
use cg_oo_o.Translator.ListSchedule.Legal.{HasAncestors, HasLongest, list_schedule-Respects}
use cg_oo_o.Translator.Dependency.{DependencyTable, MemSchMode, new_dependency_table, check_all}
use cg_oo_o.Translator.ListSchedule.Block.{find_ins-some}
use cg_oo_o.Translator.Dependency.Places.{Linked}
use cg_oo_o.Translator.Dependency.Links.{index_of, graph_of, graph_of-IsAcyclic, graph_of-IsBlock}
use cg_oo_o.Translator.Dependency.Analysis.{Depends}
use cg_oo_o.Translator.Dependency.Schedule.{
  IsFresh, upto, check_all-IsBlock, list_schedule-last_writer,
}

abbrev ins : ℕ → Bool → Bool → List (ℕ × MemType) → ℕ → Instruction
ins addr mem wr regs latency = record {
  ins_addr = addr;
  is_memory = mem;
  is_wr_mem_type = wr;
  regs = regs;
  latency = latency;
  longest_path = none;
  ancestors = [];
  reg_ancestors = [];
  dependents = [];
}

-- add r4, r1, r1; load r1; load r2; add r3, r1, r2; store r3
abbrev free_add : Instruction
free_add = ins 10 false false ((1, read) ∷ (4, write) ∷ []) 1

abbrev load_1 : Instruction
load_1 = ins 20 true false ((1, write) ∷ []) 4

abbrev load_2 : Instruction
load_2 = ins 30 true false ((2, write) ∷ []) 4

abbrev sum_up : Instruction
sum_up = ins 40 false false ((1, read) ∷ (2, read) ∷ (3, write) ∷ []) 1

abbrev store_it : Instruction
store_it = ins 50 true true ((3, read) ∷ []) 2

abbrev code : List Instruction
code = free_add ∷ load_1 ∷ load_2 ∷ sum_up ∷ store_it ∷ []

abbrev block : BasicBlock
block = record {
  ins_list = code;
  ins_addr_list = 10 ∷ 20 ∷ 30 ∷ 40 ∷ 50 ∷ [];
  ins_list_sch_list = [];
}

abbrev analysed : Option (List ℕ)
analysed = check_all MemSchMode.store_order (addrs code) new_dependency_table code >>= λ (t, l).
    list_schedule (record block { ins_list = l }) >>= λ bb. some (addrs bb.ins_list_sch_list)

block-IsFresh : IsFresh block
block-IsFresh = record {
  addresses = refl;
  unique = λ a. ground arith;
  latencies = omega arith;
  unlinked = ((refl, refl), ((refl, refl), ((refl, refl), ((refl, refl), ((refl, refl), tt)))));
}

list_schedule-last_writer_example :
    (t : DependencyTable) × (l : List Instruction) × (bb' : BasicBlock) × (check_all
        MemSchMode.store_order
        (addrs code)
        new_dependency_table
        code
      ≡ some (t, l))
    × (list_schedule (record block { ins_list = l }) ≡ some bb')
    × ((a : ℕ) → count a (addrs bb'.ins_list_sch_list) ≡ count a (addrs code))
    × (contains 20 (upto 40 bb'.ins_list_sch_list) ≡ true)
list_schedule-last_writer_example =
    list_schedule-last_writer MemSchMode.store_order block block-IsFresh refl
      (free_add ∷ load_1 ∷ load_2 ∷ []) (store_it ∷ []) sum_up 1 20 refl refl refl

check_all-IsBlock_example :
    (t : DependencyTable) × (l : List Instruction) × (check_all MemSchMode.load_store_order
        (addrs code)
        new_dependency_table
        code
      ≡ some (t, l))
    × (addrs l ≡ addrs code)
    × IsAcyclic (graph_of l)
    × IsBlock (graph_of l) (record block { ins_list = l })
    × Depends l (λ r. none) code
check_all-IsBlock_example = check_all-IsBlock MemSchMode.load_store_order block block-IsFresh

-- A load that feeds a sum, linked.
abbrev feeds : Instruction
feeds = record load_1 { dependents = 40 ∷ [] }

abbrev fed : Instruction
fed = record sum_up { ancestors = 20 ∷ []; reg_ancestors = 20 ∷ [] }

abbrev pair : BasicBlock
pair = record { ins_list = feeds ∷ fed ∷ []; ins_addr_list = 20 ∷ 40 ∷ []; ins_list_sch_list = [] }

abbrev pair_graph : Graph
pair_graph = graph_of pair.ins_list

pair_unique : (a : ℕ) → count a (addrs pair.ins_list) < 2
pair_unique a = ground arith

pair-Linked : All (Linked (λ a. index_of a (20 ∷ 40 ∷ []))) pair.ins_list
unfolding index_of
pair-Linked = (
  ((λ a h. absurd (omega arith)), (λ d h. ground (arith, h))),
  (((λ a h. ground (arith, h)), (λ d h. absurd (omega arith))), tt),
)

pair-IsAcyclic : IsAcyclic pair_graph
pair-IsAcyclic = graph_of-IsAcyclic pair.ins_list pair_unique pair-Linked

pair-IsBlock : IsBlock pair_graph pair
pair-IsBlock = graph_of-IsBlock pair.ins_list pair_unique pair-Linked pair refl (omega arith)

list_schedule-Respects_example :
    (bb' : BasicBlock) × (sch : List Instruction) × (list_schedule pair ≡ some bb')
    × (bb'.ins_list_sch_list ≡ sch)
    × ((a : ℕ) → count a (addrs sch) ≡ count a (20 ∷ 40 ∷ []))
    × Respects (20 ∷ 40 ∷ []) [] sch
    × All (HasLongest pair_graph) sch
    × All (HasAncestors pair) sch
list_schedule-Respects_example = list_schedule-Respects pair_graph pair-IsAcyclic pair pair-IsBlock

pair-Holds : Holds pair_graph pair
pair-Holds = record {
  addresses = refl;
  found = λ a h. find_ins-some a pair.ins_list h;
  fits = pair-IsBlock.fits;
  known = ((λ p h. cc), ((λ p h. cc), tt));
}

find_longest_path_lem_example :
    (p : ℕ) × (find_longest_path 2 pair feeds ≡ some p) × IsLongest pair_graph 20 p × (0 < p)
find_longest_path_lem_example =
    find_longest_path_lem pair_graph pair pair-IsAcyclic pair-Holds 2 feeds
      (refl, refl, omega arith) refl (omega arith)

pick-progress_example :
    (picked : List Instruction) × (pick pair [] 0 (fed ∷ feeds ∷ []) ≡ some picked)
    × (0 < length picked)
    × (length picked ≤ num_eu)
    × All (λ e. IsReady (20 ∷ 40 ∷ []) [] e × IsNew (20 ∷ 40 ∷ []) [] e) picked
pick-progress_example =
    pick-progress pair_graph pair refl (fed ∷ feeds ∷ [])
      (record {
        covered = λ a h. ground (arith, h);
        unique = λ a. ground arith;
        within = (refl, (refl, tt));
        ordered = (pair-IsBlock.ordered.1.0, (pair-IsBlock.ordered.0, tt));
      })
      [] 40 refl refl

-- Paths of 1, 7 and 3.
abbrev unsorted : List Instruction
unsorted =
    record free_add { longest_path = some 1 }
    ∷ record load_1 { longest_path = some 7 }
    ∷ record sum_up { longest_path = some 3 }
    ∷ []

quicksort-Falls_example :
    (l' : List Instruction) × (quicksort 3 unsorted 0 2 ≡ some l')
    × (length l' ≡ 3)
    × ((a : ℕ) → count a (addrs l') ≡ count a (addrs unsorted))
    × ((P : Instruction → Type 0) → All P unsorted → All P l')
    × Falls l' 0 2
quicksort-Falls_example = quicksort-Falls unsorted (omega arith)
