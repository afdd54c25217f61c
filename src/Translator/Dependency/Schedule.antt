-- ===== src/Translator/Dependency/Schedule.antt =====
-- A block whose dependences are analysed and which is then scheduled, as
-- src/binaryTranslator/registerAllocate.cpp does (`dependencySetup`, then `listSchedule`).
use cg_oo_o.Common.{
  ℕ, ◌<◌, ◌≡◌, refl, sym, ap, ◌∙◌, ◌⊎◌, inl, inr, true, List, [], ◌∷◌, ◌++◌, Option, some, none,
  ◌==◌, if◌then◌else◌, count, All, All-mono, Bool-cases, ==→eq, arith,
}
use mathlib.Core.List.{append_assoc}
use cg_oo_o.Common.Maps.{lookup}
use cg_oo_o.Translator.Instruction.{Instruction}
use cg_oo_o.Translator.QuickSort.Swap.{addrs}
use cg_oo_o.Translator.ListSchedule.{BasicBlock, contains, list_schedule}
use cg_oo_o.Translator.ListSchedule.Block.{
  contains-count, count-contains, contains-append, find_ins-contains, find_ins-own,
}
use cg_oo_o.Translator.ListSchedule.Chains.{IsAcyclic}
use cg_oo_o.Translator.ListSchedule.Paths.{IsBlock}
use cg_oo_o.Translator.ListSchedule.Marks.{Respects, addrs-append}
use cg_oo_o.Translator.ListSchedule.Legal.{list_schedule-Respects}
use cg_oo_o.Translator.Dependency.{DependencyTable, MemSchMode, new_dependency_table, check_all}
use cg_oo_o.Translator.Dependency.Heap.{skeletons, skeletons-addrs}
use cg_oo_o.Translator.Dependency.Places.{Linked}
use cg_oo_o.Translator.Dependency.Producers.{reads_reg, writes_reg, last_writer}
use cg_oo_o.Translator.Dependency.Analysis.{Available, Depends, Depends-split, Knows, check_all_lem}
use cg_oo_o.Translator.Dependency.Links.{
  index_of, index_of-Rises, graph_of, graph_of-IsAcyclic, graph_of-IsBlock,
}

-- What the analysis starts from: the block's address set is that of its instructions, which have
-- distinct addresses, a latency and no links yet.
pub record IsFresh (bb : BasicBlock) : Type 0 where
  pub addresses : bb.ins_addr_list ≡ addrs bb.ins_list
  pub unique : (a : ℕ) → count a (addrs bb.ins_list) < 2
  pub latencies : All (λ e. 0 < e.latency) bb.ins_list
  pub unlinked : All (λ e. (e.ancestors ≡ []) × (e.dependents ≡ [])) bb.ins_list

-- The addresses that a schedule has before `x`.
abbrev pub upto : ℕ → List Instruction → List ℕ
upto x [] = []
upto x (e ∷ l) = if x == e.ins_addr then [] else e.ins_addr ∷ upto x l

latencies-same :
    (l l' : List Instruction)
    → skeletons l' ≡ skeletons l
    → All (λ e. 0 < e.latency) l
    → All (λ e. 0 < e.latency) l'
latencies-same l l' same ps = down l' (rw (← same) at (up l ps))
  where
    up :
        (l : List Instruction) → All (λ e. 0 < e.latency) l → All (λ e. 0 < e.latency) (skeletons l)
    up [] ps = tt
    up (e ∷ l) (p, ps) = (p, up l ps)

    down :
        (l : List Instruction) → All (λ e. 0 < e.latency) (skeletons l) → All (λ e. 0 < e.latency) l
    down [] ps = tt
    down (e ∷ l) (p, ps) = (p, down l ps)

Respects-upto :
    (inside seen : List ℕ) (sch : List Instruction) (p x : ℕ)
    → Respects inside seen sch
    → All (λ e. e.ins_addr ≡ x → 0 < count p e.ancestors) sch
    → contains p inside ≡ true
    → contains x (addrs sch) ≡ true
    → contains p (seen ++ upto x sch) ≡ true
Respects-upto inside seen [] p x order ps w h = cc
Respects-upto inside seen (e ∷ l) p x (mine, order) (q, ps) w h =
    elim (Bool-cases (x == e.ins_addr)) [
      | inl same ↦
          rw same (
            ground (arith, contains-append p seen [], mine p (q (sym (==→eq x e.ins_addr same))) w))
      | inr other ↦ rw other (
          rw (append_assoc seen (e.ins_addr ∷ []) (upto x l)) at (
            Respects-upto inside (seen ++ (e.ins_addr ∷ [])) l p x order ps w
              (ground (arith, h, other))))
    ]

fresh-Linked :
    (place : ℕ → ℕ) (l : List Instruction)
    → All (λ e. (e.ancestors ≡ []) × (e.dependents ≡ [])) l
    → All (Linked place) l
fresh-Linked place l ps =
    All-mono l
      (λ e u. ((λ a k. absurd (ground (arith, k, u.0))), (λ d k. absurd (ground (arith, k, u.1)))))
      ps

-- The analysis of a fresh block fails no check and leaves a block without cycles.
module _ (mode : MemSchMode) (bb : BasicBlock) (fresh : IsFresh bb) where
  abbrev place : ℕ → ℕ
  place a = index_of a (addrs bb.ins_list)

  available : All (Available bb.ins_list) bb.ins_list
  available = All-mono bb.ins_list (λ e own. (e, own, refl)) (find_ins-own bb.ins_list fresh.unique)

  start : Knows place mode 0 (λ r. none) new_dependency_table
  unfolding lookup
  start = record { visited = record { regs = tt; stores = tt }; sorted = tt; writers = λ r. refl }

  pub check_all-IsBlock :
      (t : DependencyTable) × (l : List Instruction) × (check_all mode
          (addrs bb.ins_list)
          new_dependency_table
          bb.ins_list
        ≡ some (t, l))
      × (addrs l ≡ addrs bb.ins_list)
      × IsAcyclic (graph_of l)
      × IsBlock (graph_of l) (record bb { ins_list = l })
      × Depends l (λ r. none) bb.ins_list
  check_all-IsBlock =
      let (t, l, ran, linked, same, grows, deps) =
        check_all_lem place mode bb.ins_list 0 (λ r. none) new_dependency_table bb.ins_list start
          (index_of-Rises [] (addrs bb.ins_list) (addrs bb.ins_list) refl fresh.unique) available
          (fresh-Linked place bb.ins_list fresh.unlinked) in
      let at : addrs l ≡ addrs bb.ins_list =
        sym (skeletons-addrs l) ∙ ap addrs same ∙ skeletons-addrs bb.ins_list in
      let unique : (a : ℕ) → count a (addrs l) < 2 =
        λ a. omega (arith, ap (count a) at, fresh.unique a) in
      let linked' : All (Linked (λ a. index_of a (addrs l))) l =
        All-mono l (λ e k. rw at k) linked in
      (
        t,
        l,
        ran,
        at,
        graph_of-IsAcyclic l unique linked',
        graph_of-IsBlock l unique linked' bb (fresh.addresses ∙ sym at)
            (latencies-same bb.ins_list l same fresh.latencies),
        deps,
      )

last_writer-inside :
    (r p : ℕ) (before : Option ℕ) (l : List Instruction)
    → last_writer r before l ≡ some p
    → (before ≡ some p) ⊎ (contains p (addrs l) ≡ true)
last_writer-inside r p before [] h = inl h
last_writer-inside r p before (e ∷ l) h =
    elim (last_writer-inside r p (if writes_reg r e.regs then some e.ins_addr else before) l h) [
      | inr behind ↦ inr (ground (arith, behind))
      | inl start ↦ elim (Bool-cases (writes_reg r e.regs)) [
        | inl on ↦ inr (ground (arith, start, on))
        | inr off ↦ inl (ground (arith, start, off))
      ]
    ]

-- In a fresh block let an instruction read a register that an instruction before it in the block
-- writes. Then the analysis of the block and the list scheduler after it fail no check and end. The
-- schedule has each instruction of the block as often as the block, and the last instruction before
-- the reader in the block that writes the register stands before it in the schedule too.
pub list_schedule-last_writer :
    (mode : MemSchMode) (bb : BasicBlock)
    → IsFresh bb
    → bb.ins_list_sch_list ≡ []
    → (pre post : List Instruction) (e : Instruction) (r p : ℕ) → bb.ins_list ≡ pre ++ (e ∷ post)
    → reads_reg r e.regs ≡ true
    → last_writer r none pre ≡ some p
    → (t : DependencyTable) × (l : List Instruction) × (bb' : BasicBlock) × (check_all mode
          (addrs bb.ins_list)
          new_dependency_table
          bb.ins_list
        ≡ some (t, l))
      × (list_schedule (record bb { ins_list = l }) ≡ some bb')
      × ((a : ℕ) → count a (addrs bb'.ins_list_sch_list) ≡ count a (addrs bb.ins_list))
      × (contains p (upto e.ins_addr bb'.ins_list_sch_list) ≡ true)
list_schedule-last_writer mode bb fresh empty pre post e r p shape reads writes =
    let (t, l, ran, at, acyclic, block, deps) = check_all-IsBlock mode bb fresh in
    let (bb', sch, scheduled, stored, all, order, longest, ancestors) =
      list_schedule-Respects (graph_of l) acyclic (record bb { ins_list = l }) block in
    let (d, found, anc) =
      Depends-split l (λ r. none) pre post e (rw shape at deps) r p reads writes in
    let whole : bb'.ins_list_sch_list ≡ sch = stored ∙ ap (λ m. m ++ sch) empty in
    let counts : (a : ℕ) → count a (addrs sch) ≡ count a (addrs bb.ins_list) =
      λ a. all a ∙ ap (count a) at in
    let there : contains e.ins_addr (addrs sch) ≡ true = contains-count e.ins_addr (addrs sch) (
      omega (
        arith,
        all e.ins_addr,
        count-contains e.ins_addr (addrs l) (find_ins-contains e.ins_addr l d found),
      )) in
    let earlier : contains p (addrs pre) ≡ true = elim (last_writer-inside r p none pre writes) [
      | inl no_writer ↦ cc
      | inr found ↦ found
    ] in
    let inside : contains p (addrs l) ≡ true =
      ap (contains p) (at ∙ ap addrs shape ∙ addrs-append pre (e ∷ post))
      ∙ ground (arith, contains-append p (addrs pre) (addrs (e ∷ post)), earlier) in
    (
      t,
      l,
      bb',
      ran,
      scheduled,
      (λ a. rw whole (counts a)),
      rw whole (
          Respects-upto (addrs l) [] sch p e.ins_addr order
            (All-mono sch (λ x has same. rw (has d (rw same found)) anc) ancestors) inside there),
    )
