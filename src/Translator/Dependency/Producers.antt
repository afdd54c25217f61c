-- ===== src/Translator/Dependency/Producers.antt =====
-- The dependence analysis (`data_dependency` of src/binaryTranslator/dependencySetup.cpp) makes each
-- instruction depend on the last writer of every register that it reads.
use cg_oo_o.Common.{
  ℕ, ◌<◌, ◌≡◌, refl, sym, ap, ◌∙◌, inl, inr, Bool, true, false, ◌||◌, List, [], ◌∷◌, Option, some,
  ◌==◌, if◌then◌else◌, last?, count, count-append, Bool-cases, Option-cases, ==→eq, eq→==, arith,
}
use cg_oo_o.Common.Maps.{
  lookup, erase, IsOrdered, erase-IsOrdered, insert-IsOrdered, lookup-insert-erase,
}
use cg_oo_o.Translator.Instruction.{Instruction, MemType, read, write}
use cg_oo_o.Translator.ListSchedule.{contains, find_ins}
use cg_oo_o.Translator.ListSchedule.Block.{count-contains}
use cg_oo_o.Translator.Dependency.{
  DependencyTable, MemSchMode, renew, add_reg, modify_ins, set_as_dependent, set_as_ancestor,
  set_as_reg_ancestor, link, check_reads, is_ordered_access, check_memory, add_regs,
}
use cg_oo_o.Translator.Dependency.Heap.{find_ins-modify_ins}
use cg_oo_o.Translator.Dependency.Places.{reads-none, reads-old, reads-new}

abbrev pub is_read : MemType → Bool
is_read read = true
is_read write = false

-- Is the register read, or written?
abbrev pub reads_reg : ℕ → List (ℕ × MemType) → Bool
reads_reg r [] = false
reads_reg r ((q, read) ∷ regs) = r == q || reads_reg r regs
reads_reg r ((q, write) ∷ regs) = reads_reg r regs

abbrev pub writes_reg : ℕ → List (ℕ × MemType) → Bool
writes_reg r [] = false
writes_reg r ((q, write) ∷ regs) = r == q || writes_reg r regs
writes_reg r ((q, read) ∷ regs) = writes_reg r regs

-- The last of some instructions that writes the register; `before` is the last one before them.
abbrev pub last_writer : ℕ → Option ℕ → List Instruction → Option ℕ
last_writer r before [] = before
last_writer r before (e ∷ l) =
    last_writer r (if writes_reg r e.regs then some e.ins_addr else before) l

-- No instruction loses an ancestor.
abbrev pub Grows : List Instruction → List Instruction → Type 0
Grows heap heap' =
    (a : ℕ) (e : Instruction)
    → find_ins a heap ≡ some e
    → (e' : Instruction) × (find_ins a heap' ≡ some e')
      × ((p : ℕ) → 0 < count p e.ancestors → 0 < count p e'.ancestors)

pub Grows-refl : (heap : List Instruction) → Grows heap heap
Grows-refl heap a e h = (e, h, λ p k. k)

pub Grows-trans : (h1 h2 h3 : List Instruction) → Grows h1 h2 → Grows h2 h3 → Grows h1 h3
Grows-trans h1 h2 h3 g k a e h =
    let (e', at, more) = g a e h in
    let (e'', at', more') = k a e' at in (e'', at', λ p c. more' p (more p c))

modify_ins-Grows :
    (x : ℕ) (f : Instruction → Instruction) (heap : List Instruction)
    → ((e : Instruction) → (f e).ins_addr ≡ e.ins_addr)
    → ((e : Instruction) (p : ℕ) → 0 < count p e.ancestors → 0 < count p ((f e).ancestors))
    → Grows heap (modify_ins x f heap)
modify_ins-Grows x f heap h k a e at = elim (Bool-cases (a == x)) [
  | inl same ↦ (f e, ground (arith, find_ins-modify_ins a x f heap h, at, same), k e)
  | inr other ↦ (e, ground (arith, find_ins-modify_ins a x f heap h, at, other), λ p c. c)
]

link-Grows : (p x : ℕ) (heap : List Instruction) → Grows heap (link p x heap)
unfolding link
link-Grows p x heap =
    Grows-trans heap (modify_ins p (set_as_dependent x) heap)
      (modify_ins x (set_as_ancestor p) (modify_ins p (set_as_dependent x) heap))
      (modify_ins-Grows p (set_as_dependent x) heap (λ e. refl) (λ e q c. c))
      (modify_ins-Grows x (set_as_ancestor p) (modify_ins p (set_as_dependent x) heap) (λ e. refl)
        (λ e q c. omega (arith, c, count-append q e.ancestors (p ∷ []))))

-- After a link the producer is an ancestor.
abbrev pub HasAncestor : ℕ → ℕ → List Instruction → Type 0
HasAncestor p x heap = (e : Instruction) × (find_ins x heap ≡ some e) × (0 < count p e.ancestors)

pub HasAncestor-Grows :
    (p x : ℕ) (heap heap' : List Instruction)
    → Grows heap heap'
    → HasAncestor p x heap
    → HasAncestor p x heap'
HasAncestor-Grows p x heap heap' g (e, at, c) =
    let (e', at', more) = g x e at in (e', at', more p c)

link-HasAncestor :
    (p x : ℕ) (heap : List Instruction) (this : Instruction)
    → find_ins x heap ≡ some this
    → HasAncestor p x (link p x heap)
unfolding link
link-HasAncestor p x heap this at =
    let heap1 = modify_ins p (set_as_dependent x) heap in
    let (e, at1, more) =
      modify_ins-Grows p (set_as_dependent x) heap (λ e. refl) (λ e q c. c) x this at in
    (
      set_as_ancestor p e,
      ground (
        arith,
        find_ins-modify_ins x x (set_as_ancestor p) heap1 (λ e. refl),
        at1,
        eq→== x x refl,
      ),
      omega (arith, count-append p e.ancestors (p ∷ []), own p),
    )
  where
    own : (p : ℕ) → 0 < count p (p ∷ [])
    own p = ground (arith, eq→== p p refl)

linked_reg-Grows :
    (p x : ℕ) (heap : List Instruction)
    → Grows (link p x heap) (modify_ins x (set_as_reg_ancestor p) (link p x heap))
linked_reg-Grows p x heap =
    modify_ins-Grows x (set_as_reg_ancestor p) (link p x heap) (λ e. refl) (λ e q c. c)

-- The loop over the registers that are read enters each producer that the table knows.
pub check_reads-HasAncestor :
    (t : DependencyTable) (x : ℕ) (regs : List (ℕ × MemType)) (heap heap' : List Instruction)
    (this : Instruction)
    → find_ins x heap ≡ some this
    → check_reads t x regs heap ≡ some heap'
    → Grows heap heap'
      × ((r p : ℕ)
          → reads_reg r regs ≡ true
          → lookup r t.reg_write_list ≡ some p
          → HasAncestor p x heap')
unfolding check_reads
check_reads-HasAncestor t x [] heap heap' this at ran =
    let same : heap ≡ heap' = cc in (rw (← same) (Grows-refl heap), λ r p h k. cc)
check_reads-HasAncestor t x ((q, write) ∷ regs) heap heap' this at ran =
    check_reads-HasAncestor t x regs heap heap' this at ran
check_reads-HasAncestor t x ((q, read) ∷ regs) heap heap' this at ran =
    elim (Option-cases (lookup q t.reg_write_list)) [
      | inl missing ↦
          let (grows, has) =
            check_reads-HasAncestor t x regs heap heap' this at
              (sym (reads-none (λ a. a) t x q regs heap missing) ∙ ran) in
          (
            grows,
            λ r p h k. elim (Bool-cases (r == q)) [
              | inl same ↦
                  absurd (
                    ground
                      (arith, k, missing, ap (λ s. lookup s t.reg_write_list) (==→eq r q same)))
              | inr other ↦ has r p (ground (arith, h, other)) k
            ],
          )
      | inr (s, got) ↦ elim (Bool-cases (contains s this.ancestors)) [
        | inl old ↦
            let (grows, has) =
              check_reads-HasAncestor t x regs heap heap' this at
                (sym (reads-old (λ a. a) t x q regs heap s this got at old) ∙ ran) in
            (
              grows,
              λ r p h k. elim (Bool-cases (r == q)) [
                | inr other ↦ has r p (ground (arith, h, other)) k
                | inl same ↦
                    let eq : s ≡ p =
                      ground
                        (arith, k, got, ap (λ s. lookup s t.reg_write_list) (==→eq r q same)) in
                    rw (← eq) (
                      HasAncestor-Grows s x heap heap' grows
                        (this, at, count-contains s this.ancestors old))
              ],
            )
        | inr new ↦
            let heap1 = modify_ins x (set_as_reg_ancestor s) (link s x heap) in
            let grows1 =
              Grows-trans heap (link s x heap) heap1 (link-Grows s x heap)
                (linked_reg-Grows s x heap) in
            let mine =
              HasAncestor-Grows s x (link s x heap) heap1 (linked_reg-Grows s x heap)
                (link-HasAncestor s x heap this at) in
            let (this', at', more) = grows1 x this at in
            let (grows, has) =
              check_reads-HasAncestor t x regs heap1 heap' this' at'
                (sym (reads-new (λ a. a) t x q regs heap s this got at new) ∙ ran) in
            (
              Grows-trans heap heap1 heap' grows1 grows,
              λ r p h k. elim (Bool-cases (r == q)) [
                | inr other ↦ has r p (ground (arith, h, other)) k
                | inl same ↦
                    let eq : s ≡ p =
                      ground
                        (arith, k, got, ap (λ s. lookup s t.reg_write_list) (==→eq r q same)) in
                    rw (← eq) (HasAncestor-Grows s x heap1 heap' grows mine)
              ],
            )
      ]
    ]

pub check_memory-Grows :
    (mode : MemSchMode) (t : DependencyTable) (this : Instruction) (heap : List Instruction)
    → Grows heap (check_memory mode t this heap)
unfolding check_memory
check_memory-Grows mode t this heap = elim (Bool-cases (is_ordered_access mode this)) [
  | inr off ↦ rw (off, check_memory) (Grows-refl heap)
  | inl on ↦ elim (Option-cases (last? t.mem_writes)) [
    | inl empty ↦ rw (on, check_memory, empty) (Grows-refl heap)
    | inr (p, got) ↦ rw (on, check_memory, got) (link-Grows p this.ins_addr heap)
  ]
]

-- The entries after an instruction: it is the last writer of what it writes.
pub add_regs-lookup :
    (x : ℕ) (regs : List (ℕ × MemType)) (t t' : DependencyTable)
    → add_regs x regs t ≡ some t'
    → IsOrdered t.reg_write_list
    → IsOrdered t'.reg_write_list
      × ((r : ℕ)
          → lookup r t'.reg_write_list
            ≡ (if writes_reg r regs then some x else lookup r t.reg_write_list))
unfolding add_regs add_reg renew
add_regs-lookup x [] t t' ran o = let same : t ≡ t' = cc in rw (← same) (o, λ r. refl)
add_regs-lookup x ((q, read) ∷ regs) t t' ran o =
    add_regs-lookup x regs (record t { reg_read_list = renew q x t.reg_read_list }) t' ran o
add_regs-lookup x ((q, write) ∷ regs) t t' ran o =
    let m = t.reg_write_list in
    let (o', look) =
      add_regs-lookup x regs (record t { reg_write_list = renew q x m }) t' ran
        (insert-IsOrdered q x (erase q m) (erase-IsOrdered q m o)) in
    (o', λ r. look r ∙ ground (arith, lookup-insert-erase q r x m o))
