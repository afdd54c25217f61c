-- ===== src/Translator/ListSchedule/Legal.antt =====
-- What the list scheduler (`listSchedule` of src/binaryTranslator/listSchedule.cpp) stores in its
-- block.
use cg_oo_o.Common.{
  ℕ, suc, ◌-◌, ◌≡◌, sym, ap, ◌∙◌, true, List, [], ◌∷◌, ◌++◌, some, ◌>>=◌, length, count, All,
  All-mono, Option-cases, inl, inr, arith,
}
use mathlib.Core.List.{append-nil, append_assoc}
use cg_oo_o.Translator.Instruction.{Instruction}
use cg_oo_o.Translator.QuickSort.{quicksort}
use cg_oo_o.Translator.QuickSort.Swap.{addrs, HasPath}
use cg_oo_o.Translator.QuickSort.Sorted.{quicksort-Falls}
use cg_oo_o.Translator.ListSchedule.{
  BasicBlock, contains, find_ins, set_paths, schedule_rounds, add_to_bb_list_schedule,
  store_schedule, list_schedule,
}
use cg_oo_o.Translator.ListSchedule.Block.{
  contains-count, count-contains, find_ins-own, is_ins_addr_in_bb-contains,
}
use cg_oo_o.Translator.ListSchedule.Chains.{Graph, IsAcyclic, IsLongest, IsKnown}
use cg_oo_o.Translator.ListSchedule.Paths.{Inside, Ordered, IsBlock, reset_all, set_paths-PathsSet}
use cg_oo_o.Translator.ListSchedule.Marks.{Respects}
use cg_oo_o.Translator.ListSchedule.Rounds.{schedule_rounds_lem}

store-one :
    (bb : BasicBlock) (ins : Instruction)
    → contains ins.ins_addr bb.ins_addr_list ≡ true
    → add_to_bb_list_schedule bb ins
      ≡ some (record bb { ins_list_sch_list = bb.ins_list_sch_list ++ (ins ∷ []) })
unfolding add_to_bb_list_schedule
store-one bb ins h = rw (is_ins_addr_in_bb-contains bb ins.ins_addr ins.ins_addr h, ◌>>=◌, h)

store_schedule_lem :
    (l : List Instruction) (bb : BasicBlock)
    → All (λ e. contains e.ins_addr bb.ins_addr_list ≡ true) l
    → store_schedule l bb ≡ some (record bb { ins_list_sch_list = bb.ins_list_sch_list ++ l })
unfolding store_schedule
store_schedule_lem [] bb ps =
    ap (λ l. some (record bb { ins_list_sch_list = l })) (sym (append-nil (bb.ins_list_sch_list)))
store_schedule_lem (e ∷ l) bb (p, ps) = rw (store-one bb e p) (
    store_schedule_lem l (record bb { ins_list_sch_list = bb.ins_list_sch_list ++ (e ∷ []) }) ps
    ∙ ap (λ m. some (record bb { ins_list_sch_list = m }))
        (append_assoc bb.ins_list_sch_list (e ∷ []) l))

-- Its longest path is set, and is that of the longest chain.
abbrev pub HasLongest : Graph → Instruction → Type 0
HasLongest g e = (p : ℕ) × (e.longest_path ≡ some p) × IsLongest g e.ins_addr p

has_longest : (g : Graph) (e : Instruction) → HasPath e → IsKnown g e → HasLongest g e
has_longest g e s k = elim (Option-cases (e.longest_path)) [
  | inl unset ↦ absurd (ground (arith, s, unset))
  | inr (p, at) ↦ (p, at, (k p at).0)
]

-- It has the ancestors of the instruction of the block at its address.
abbrev pub HasAncestors : BasicBlock → Instruction → Type 0
HasAncestors bb e =
    (d : Instruction) → find_ins e.ins_addr bb.ins_list ≡ some d → e.ancestors ≡ d.ancestors

All-both :
    (P Q R : Instruction → Type 0) (l : List Instruction)
    → ((e : Instruction) → P e → Q e → R e)
    → All P l
    → All Q l
    → All R l
All-both P Q R [] f ps qs = tt
All-both P Q R (e ∷ l) f (p, ps) (q, qs) = (f e p q, All-both P Q R l f ps qs)

runs :
    (bb bb1 : BasicBlock) (sort_list sch : List Instruction)
    → set_paths (length bb.ins_list) (record bb { ins_list = reset_all bb.ins_list }) ≡ some bb1
    → quicksort (length bb.ins_list) bb1.ins_list 0 (length bb.ins_list - 1) ≡ some sort_list
    → schedule_rounds (suc (length bb.ins_list)) bb1 sort_list [] [] ≡ some sch
    → list_schedule bb ≡ store_schedule sch bb1
unfolding list_schedule
runs bb bb1 sort_list sch h k r = rw (h, ◌>>=◌, k, r)

-- On a block whose dependences have no cycle the list scheduler fails no check and ends. It appends
-- to the stored schedule each instruction of the block as often as it stands there, every one with
-- its ancestors, behind all of them within the block, and with the latency of its longest chain of
-- dependents within the block as its longest path.
pub list_schedule-Respects :
    (g : Graph)
    → IsAcyclic g
    → (bb : BasicBlock) → IsBlock g bb
    → (bb' : BasicBlock) × (sch : List Instruction) × (list_schedule bb ≡ some bb')
      × (bb'.ins_list_sch_list ≡ bb.ins_list_sch_list ++ sch)
      × ((a : ℕ) → count a (addrs sch) ≡ count a (addrs bb.ins_list))
      × Respects g.inside [] sch
      × All (HasLongest g) sch
      × All (HasAncestors bb) sch
list_schedule-Respects g acyclic bb v =
    let n = length bb.ins_list in
    let (bb1, ran, r) = set_paths-PathsSet g acyclic bb v in
    let (sort_list, sorted, len, same, keeps, falls) = quicksort-Falls bb1.ins_list r.all_set in
    let within : All (Inside g) bb1.ins_list = r.keeps (Inside g) (λ e p h. h) v.within in
    let ordered : All (Ordered g) bb1.ins_list = r.keeps (Ordered g) (λ e p h. h) v.ordered in
    let ancestors : All (HasAncestors bb) bb1.ins_list =
      r.keeps (HasAncestors bb) (λ e p h. h)
        (All-mono bb.ins_list (λ e own d at. cc) (find_ins-own bb.ins_list v.unique)) in
    let count_bb : (a : ℕ) → count a (addrs sort_list) ≡ count a (addrs bb.ins_list) =
      λ a. same a ∙ ap (count a) (r.same_addrs) in
    let addresses : bb1.ins_addr_list ≡ g.inside = r.same_block ∙ v.addresses in
    let (sch, scheduled, (all, order, keeps')) =
      schedule_rounds_lem g bb1 addresses sort_list
        record {
          covered = λ a h.
              contains-count a (addrs sort_list)
                (omega (arith, count_bb a, count-contains a (addrs bb.ins_list) (v.covered a h)));
          unique = λ a. omega (arith, count_bb a, v.unique a);
          within = keeps (Inside g) within;
          ordered = keeps (Ordered g) ordered;
        }
        (suc n) [] (λ a. omega arith) tt (omega (arith, len, r.same_length)) in
    let known =
      All-both HasPath (IsKnown g) (HasLongest g) bb1.ins_list (has_longest g) r.all_set r.known in
    let inside : All (Inside g) sch = keeps' (Inside g) (keeps (Inside g) within) tt in
    (
      record bb1 { ins_list_sch_list = bb1.ins_list_sch_list ++ sch },
      sch,
      runs bb bb1 sort_list sch ran (rw r.same_length at sorted) scheduled
          ∙ store_schedule_lem sch bb1 (All-mono sch (λ e h. rw addresses h) inside),
      ap (λ l. l ++ sch) r.same_schedule,
      (λ a. all a ∙ count_bb a),
      order,
      keeps' (HasLongest g) (keeps (HasLongest g) known) tt,
      keeps' (HasAncestors bb) (keeps (HasAncestors bb) ancestors) tt,
    )
