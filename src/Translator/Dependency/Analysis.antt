-- ===== src/Translator/Dependency/Analysis.antt =====
-- The dependence analysis of a block (`data_dependency` of src/binaryTranslator/dependencySetup.cpp)
-- and the list scheduler after it (src/binaryTranslator/registerAllocate.cpp).
use cg_oo_o.Common.{
  ℕ, suc, ◌≡◌, refl, ap, ◌∙◌, Bool, true, false, ◌&&◌, List, [], ◌∷◌, ◌++◌, Option, some,
  if◌then◌else◌, All, All-mono,
}
use cg_oo_o.Common.Maps.{lookup, IsOrdered}
use cg_oo_o.Translator.Instruction.{Instruction}
use cg_oo_o.Translator.QuickSort.Swap.{addrs}
use cg_oo_o.Translator.ListSchedule.{contains, find_ins}
use cg_oo_o.Translator.ListSchedule.Block.{find_ins-contains}
use cg_oo_o.Translator.Dependency.{DependencyTable, MemSchMode, add_wr, check_all}
use cg_oo_o.Translator.Dependency.Heap.{skeletons, find_ins-same}
use cg_oo_o.Translator.Dependency.Places.{
  Linked, Visited, Visited-mono, Rises, Checked, dependency_table_check-Checked,
}
use cg_oo_o.Translator.Dependency.Producers.{
  reads_reg, writes_reg, last_writer, Grows, Grows-refl, Grows-trans, HasAncestor,
  HasAncestor-Grows, check_reads-HasAncestor, check_memory-Grows, add_regs-lookup,
}

-- The instruction at an address reads and writes the registers of `e`.
abbrev pub Available : List Instruction → Instruction → Type 0
Available heap e = (d : Instruction) × (find_ins e.ins_addr heap ≡ some d) × (d.regs ≡ e.regs)

Available-same :
    (heap heap' : List Instruction) (e : Instruction)
    → skeletons heap' ≡ skeletons heap
    → Available heap e
    → Available heap' e
Available-same heap heap' e same (d, at, regs) =
    let (d', at', sk) = find_ins-same e.ins_addr heap heap' d same at in
    (d', at', ap (λ (x : Instruction). x.regs) sk ∙ regs)

Available-inside :
    (heap : List Instruction) (e : Instruction)
    → Available heap e
    → contains e.ins_addr (addrs heap) ≡ true
Available-inside heap e (d, at, regs) = find_ins-contains e.ins_addr heap d at

-- The last writers before a list of instructions, from those of its rest.
abbrev pub Writers : Type 0
Writers = ℕ → Option ℕ

abbrev after : Writers → Instruction → Writers
after before e r = if writes_reg r e.regs then some e.ins_addr else before r

-- Each instruction depends on the last writers of what it reads.
abbrev pub Depends : List Instruction → Writers → List Instruction → Type 0
Depends heap before [] = Unit
Depends heap before (e ∷ l) =
    ((r p : ℕ) → reads_reg r e.regs ≡ true → before r ≡ some p → HasAncestor p e.ins_addr heap)
    × Depends heap (after before e) l

Depends-Grows :
    (heap heap' : List Instruction)
    → Grows heap heap'
    → (before : Writers) (e : Instruction)
    → ((r p : ℕ) → reads_reg r e.regs ≡ true → before r ≡ some p → HasAncestor p e.ins_addr heap)
    → (r p : ℕ) → reads_reg r e.regs ≡ true
    → before r ≡ some p
    → HasAncestor p e.ins_addr heap'
Depends-Grows heap heap' g before e h r p k w =
    HasAncestor-Grows p e.ins_addr heap heap' g (h r p k w)

pub Depends-split :
    (heap : List Instruction) (before : Writers) (pre post : List Instruction) (e : Instruction)
    → Depends heap before (pre ++ (e ∷ post))
    → (r p : ℕ) → reads_reg r e.regs ≡ true
    → last_writer r (before r) pre ≡ some p
    → HasAncestor p e.ins_addr heap
Depends-split heap before [] post e h r p k w = h.0 r p k w
Depends-split heap before (x ∷ pre) post e h r p k w =
    Depends-split heap (after before x) pre post e h.1 r p k w

stored_regs :
    (t : DependencyTable) (x : ℕ) (b : Bool)
    → (if b then add_wr t x else t).reg_write_list ≡ t.reg_write_list
unfolding add_wr
stored_regs t x true = refl
stored_regs t x false = refl

module _ (place : ℕ → ℕ) (mode : MemSchMode) where
  -- What the table knows before some instructions are visited.
  pub record Knows (n : ℕ) (before : Writers) (t : DependencyTable) : Type 0 where
    pub visited : Visited place n t
    pub sorted : IsOrdered t.reg_write_list
    pub writers : (r : ℕ) → lookup r t.reg_write_list ≡ before r

  module _ (e : Instruction) (n : ℕ) (before : Writers) (t t' : DependencyTable)
      (heap heap' : List Instruction) (k : Knows n before t)
      (c : Checked place mode e.ins_addr t t' heap heap') (available : Available heap e) where
    same_regs : (c.this).regs ≡ e.regs
    same_regs =
        let (d, at, regs) = available in
        let eq : c.this ≡ d = cc (c.at) in ap (λ (x : Instruction). x.regs) eq ∙ regs

    step-Knows : Knows (suc (place e.ins_addr)) (after before e) t'
    step-Knows =
        let stores = c.this.is_memory && c.this.is_wr_mem_type in
        let kept = stored_regs t e.ins_addr stores in
        let (o, look) =
          add_regs-lookup e.ins_addr c.this.regs (if stores then add_wr t e.ins_addr else t) t'
            c.regs (rw kept (k.sorted)) in
        record {
          visited = c.visited;
          sorted = o;
          writers = λ r.
              look r
              ∙ rw (kept, same_regs)
                  (ap (λ w. if writes_reg r e.regs then some e.ins_addr else w) (k.writers r));
        }

    step-Depends :
        Grows heap heap'
        × ((r p : ℕ)
            → reads_reg r e.regs ≡ true
            → before r ≡ some p
            → HasAncestor p e.ins_addr heap')
    step-Depends =
        let (grows, has) =
          check_reads-HasAncestor t e.ins_addr c.this.regs heap c.heap1 c.this c.at c.reads in
        let more : Grows c.heap1 heap' =
          rw c.memory at (check_memory-Grows mode t c.this c.heap1) in
        (
          Grows-trans heap c.heap1 heap' grows more,
          λ r p h w.
              HasAncestor-Grows p e.ins_addr c.heap1 heap' more
                (has r p (ap (λ l. reads_reg r l) same_regs ∙ h) (k.writers r ∙ w)),
        )

  pub check_all_lem :
      (l : List Instruction) (n : ℕ) (before : Writers) (t : DependencyTable)
      (heap : List Instruction)
      → Knows n before t
      → Rises place n (addrs l)
      → All (Available heap) l
      → All (Linked place) heap
      → (t' : DependencyTable) × (heap' : List Instruction) × (check_all mode (addrs l) t heap
          ≡ some (t', heap'))
        × All (Linked place) heap'
        × (skeletons heap' ≡ skeletons heap)
        × Grows heap heap'
        × Depends heap' before l
  unfolding check_all
  check_all_lem [] n before t heap k rises av ps = (t, heap, refl, ps, refl, Grows-refl heap, tt)
  check_all_lem (e ∷ l) n before t heap k (first, rises) (here, av) ps =
      let v = Visited-mono place n (place e.ins_addr) t first k.visited in
      let (t1, heap1, ran, c) =
        dependency_table_check-Checked place mode e.ins_addr t heap v (Available-inside heap e here)
          ps in
      let (grows, has) = step-Depends e n before t t1 heap heap1 k c here in
      let (t', heap', ran', ps', same, grows', deps) =
        check_all_lem l (suc (place e.ins_addr)) (after before e) t1 heap1
          (step-Knows e n before t t1 heap heap1 k c here) rises
          (All-mono l (λ d a. Available-same heap heap1 d c.same a) av) c.linked in
      (
        t',
        heap',
        rw ran ran',
        ps',
        same ∙ c.same,
        Grows-trans heap heap1 heap' grows grows',
        (Depends-Grows heap1 heap' grows' before e has, deps),
      )
