-- ===== src/Translator/Dependency/Places.antt =====
-- The dependences that the analysis enters (`dependencyTableCheck` of
-- src/binaryTranslator/instruction.cpp) lead from an instruction that was visited before to one that
-- is visited later.
use cg_oo_o.Common.{
  ℕ, suc, ◌<◌, ◌≤◌, ◌≡◌, refl, ◌∙◌, inl, inr, Bool, true, false, ◌&&◌, List, [], ◌∷◌, ◌++◌, some,
  none, ◌==◌, if◌then◌else◌, ◌>>=◌, last?, count, count-append, All, All-last, All-mono, Bool-cases,
  Option-cases, ==→eq, arith,
}
use cg_oo_o.Common.Maps.{lookup, insert, erase}
use cg_oo_o.Translator.Instruction.{Instruction, MemType, read, write}
use cg_oo_o.Translator.QuickSort.Swap.{addrs}
use cg_oo_o.Translator.ListSchedule.{contains, find_ins}
use cg_oo_o.Translator.ListSchedule.Block.{find_ins-some, find_ins-addr}
use cg_oo_o.Translator.Dependency.{
  DependencyTable, MemSchMode, renew, add_reg, reg_lookup, add_wr, modify_ins, set_as_dependent,
  set_as_ancestor, set_as_reg_ancestor, link, check_reads, is_ordered_access, check_memory,
  add_regs, dependency_table_check,
}
use cg_oo_o.Translator.Dependency.Heap.{
  modify_ins-All, skeletons, modify_ins-skeletons, link-skeletons, find_ins-same,
}

module _ (place : ℕ → ℕ) where
  -- The ancestors have places before, the dependents behind.
  abbrev pub Linked : Instruction → Type 0
  Linked e =
      ((a : ℕ) → 0 < count a e.ancestors → place a < place e.ins_addr)
      × ((d : ℕ) → 0 < count d e.dependents → place e.ins_addr < place d)

  snoc_below :
      (n p : ℕ) (xs : List ℕ)
      → place p < n
      → ((a : ℕ) → 0 < count a xs → place a < n)
      → (a : ℕ) → 0 < count a (xs ++ (p ∷ []))
      → place a < n
  snoc_below n p xs h k a c = elim (Bool-cases (a == p)) [
    | inl same ↦ rw (==→eq a p same) h
    | inr other ↦ k a (ground (arith, c, count-append a xs (p ∷ []), other))
  ]

  snoc_above :
      (n p : ℕ) (xs : List ℕ)
      → n < place p
      → ((a : ℕ) → 0 < count a xs → n < place a)
      → (a : ℕ) → 0 < count a (xs ++ (p ∷ []))
      → n < place a
  snoc_above n p xs h k a c = elim (Bool-cases (a == p)) [
    | inl same ↦ rw (==→eq a p same) h
    | inr other ↦ k a (ground (arith, c, count-append a xs (p ∷ []), other))
  ]

  link-Linked :
      (p x : ℕ) (l : List Instruction) → place p < place x → All Linked l → All Linked (link p x l)
  unfolding link
  link-Linked p x l h ps =
      modify_ins-All Linked x (set_as_ancestor p) (modify_ins p (set_as_dependent x) l)
        (λ e at k. (snoc_below (place e.ins_addr) p e.ancestors (rw at h) k.0, k.1))
        (modify_ins-All Linked p (set_as_dependent x) l
          (λ e at k. (k.0, snoc_above (place e.ins_addr) x e.dependents (rw at h) k.1)) ps)

  -- What a table leads to has places below `n`.
  abbrev pub ValuesBelow : ℕ → List (ℕ × ℕ) → Type 0
  ValuesBelow n [] = Unit
  ValuesBelow n ((k, v) ∷ m) = (place v < n) × ValuesBelow n m

  lookup-below :
      (n k v : ℕ) (m : List (ℕ × ℕ)) → ValuesBelow n m → lookup k m ≡ some v → place v < n
  unfolding lookup
  lookup-below n k v [] b h = cc
  lookup-below n k v ((j, w) ∷ m) (b, bs) h = elim (Bool-cases (k == j)) [
    | inl same ↦ let eq : w ≡ v = ground (arith, h, same) in rw (← eq) b
    | inr other ↦ lookup-below n k v m bs (ground (arith, h, other))
  ]

  erase-below : (n k : ℕ) (m : List (ℕ × ℕ)) → ValuesBelow n m → ValuesBelow n (erase k m)
  unfolding erase
  erase-below n k [] b = tt
  erase-below n k ((j, w) ∷ m) (b, bs) = ground (arith, erase-below n k m bs)

  insert-below :
      (n k v : ℕ) (m : List (ℕ × ℕ)) → place v < n → ValuesBelow n m → ValuesBelow n (insert k v m)
  unfolding insert
  insert-below n k v [] h b = (h, tt)
  insert-below n k v ((j, w) ∷ m) h (b, bs) = ground (arith, insert-below n k v m h bs)

  below_mono : (n n' : ℕ) (m : List (ℕ × ℕ)) → n ≤ n' → ValuesBelow n m → ValuesBelow n' m
  below_mono n n' [] h b = tt
  below_mono n n' ((j, w) ∷ m) h (b, bs) = (omega (arith, b), below_mono n n' m h bs)

  -- The producers that the tables know were visited before the place `n`.
  pub record Visited (n : ℕ) (t : DependencyTable) : Type 0 where
    pub regs : ValuesBelow n t.reg_write_list
    pub stores : All (λ p. place p < n) t.mem_writes

  pub Visited-mono : (n n' : ℕ) (t : DependencyTable) → n ≤ n' → Visited n t → Visited n' t
  Visited-mono n n' t h v = record {
    regs = below_mono n n' t.reg_write_list h v.regs;
    stores = All-mono t.mem_writes (λ p k. omega (arith, k)) v.stores;
  }

  -- One step of the loop over the registers that are read.
  module _ (t : DependencyTable) (x r : ℕ) (regs : List (ℕ × MemType))
      (heap : List Instruction) where
    pub reads-none :
        lookup r t.reg_write_list ≡ none
        → check_reads t x ((r, read) ∷ regs) heap ≡ check_reads t x regs heap
    unfolding check_reads reg_lookup
    reads-none h = rw (h, ◌>>=◌)

    pub reads-old :
        (p : ℕ) (this : Instruction)
        → lookup r t.reg_write_list ≡ some p
        → find_ins x heap ≡ some this
        → contains p this.ancestors ≡ true
        → check_reads t x ((r, read) ∷ regs) heap ≡ check_reads t x regs heap
    unfolding check_reads reg_lookup
    reads-old p this h k c = rw (h, ◌>>=◌, k, c)

    pub reads-new :
        (p : ℕ) (this : Instruction)
        → lookup r t.reg_write_list ≡ some p
        → find_ins x heap ≡ some this
        → contains p this.ancestors ≡ false
        → check_reads t x ((r, read) ∷ regs) heap
          ≡ check_reads t x regs (modify_ins x (set_as_reg_ancestor p) (link p x heap))
    unfolding check_reads reg_lookup
    reads-new p this h k c = rw (h, ◌>>=◌, k, c)

  linked_reg :
      (p x : ℕ) (heap : List Instruction)
      → skeletons (modify_ins x (set_as_reg_ancestor p) (link p x heap)) ≡ skeletons heap
  linked_reg p x heap =
      modify_ins-skeletons x (set_as_reg_ancestor p) (link p x heap) (λ e. refl)
      ∙ link-skeletons p x heap

  check_reads-Linked :
      (t : DependencyTable) (x : ℕ) (regs : List (ℕ × MemType)) (heap : List Instruction)
      (this : Instruction)
      → Visited (place x) t
      → find_ins x heap ≡ some this
      → All Linked heap
      → (heap' : List Instruction) × (check_reads t x regs heap ≡ some heap')
        × All Linked heap'
        × (skeletons heap' ≡ skeletons heap)
  unfolding check_reads
  check_reads-Linked t x [] heap this v at ps = (heap, refl, ps, refl)
  check_reads-Linked t x ((r, write) ∷ regs) heap this v at ps =
      check_reads-Linked t x regs heap this v at ps
  check_reads-Linked t x ((r, read) ∷ regs) heap this v at ps =
      elim (Option-cases (lookup r t.reg_write_list)) [
        | inl missing ↦
            let (heap', ran, ps', same) = check_reads-Linked t x regs heap this v at ps in
            (heap', reads-none t x r regs heap missing ∙ ran, ps', same)
        | inr (p, got) ↦ elim (Bool-cases (contains p this.ancestors)) [
          | inl old ↦
              let (heap', ran, ps', same) = check_reads-Linked t x regs heap this v at ps in
              (heap', reads-old t x r regs heap p this got at old ∙ ran, ps', same)
          | inr new ↦
              let earlier = lookup-below (place x) r p t.reg_write_list v.regs got in
              let heap1 = modify_ins x (set_as_reg_ancestor p) (link p x heap) in
              let (this', at', keeps) = find_ins-same x heap heap1 this (linked_reg p x heap) at in
              let (heap', ran, ps', same) = check_reads-Linked t x regs heap1 this' v at' (
                modify_ins-All Linked x (set_as_reg_ancestor p) (link p x heap) (λ e h k. k)
                  (link-Linked p x heap earlier ps)) in
              (
                heap',
                reads-new t x r regs heap p this got at new ∙ ran,
                ps',
                same ∙ linked_reg p x heap,
              )
        ]
      ]

  check_memory-Linked :
      (mode : MemSchMode) (t : DependencyTable) (this : Instruction) (heap : List Instruction)
      → Visited (place this.ins_addr) t
      → All Linked heap
      → All Linked (check_memory mode t this heap)
        × (skeletons (check_memory mode t this heap) ≡ skeletons heap)
  unfolding check_memory
  check_memory-Linked mode t this heap v ps = elim (Bool-cases (is_ordered_access mode this)) [
    | inr off ↦ rw (off, check_memory) (ps, refl)
    | inl on ↦ elim (Option-cases (last? t.mem_writes)) [
      | inl empty ↦ rw (on, check_memory, empty) (ps, refl)
      | inr (p, got) ↦
          let earlier = All-last (λ p. place p < place this.ins_addr) t.mem_writes p got v.stores in
          rw (on, check_memory, got)
            (link-Linked p this.ins_addr heap earlier ps, link-skeletons p this.ins_addr heap)
    ]
  ]

  add_regs-Visited :
      (x n : ℕ) (regs : List (ℕ × MemType)) (t : DependencyTable)
      → place x < n
      → Visited n t
      → (t' : DependencyTable) × (add_regs x regs t ≡ some t') × Visited n t'
  unfolding add_regs add_reg renew
  add_regs-Visited x n [] t h v = (t, refl, v)
  add_regs-Visited x n ((r, write) ∷ regs) t h v =
      add_regs-Visited x n regs (record t { reg_write_list = renew r x t.reg_write_list }) h
        (record {
          regs =
              insert-below n r x (erase r t.reg_write_list) h
                (erase-below n r t.reg_write_list v.regs);
          stores = v.stores;
        })
  add_regs-Visited x n ((r, read) ∷ regs) t h v =
      add_regs-Visited x n regs (record t { reg_read_list = renew r x t.reg_read_list }) h
        (record { regs = v.regs; stores = v.stores })

  -- The visiting order goes up in the places, from `n` on.
  abbrev pub Rises : ℕ → List ℕ → Type 0
  Rises n [] = Unit
  Rises n (x ∷ xs) = (n ≤ place x) × Rises (suc (place x)) xs

  stored :
      (x n : ℕ) (t : DependencyTable) (b : Bool)
      → place x < n
      → Visited n t
      → Visited n (if b then add_wr t x else t)
  unfolding add_wr
  stored x n t false h v = v
  stored x n t true h v = record { regs = v.regs; stores = snoc t.mem_writes v.stores }
    where
      snoc : (ps : List ℕ) → All (λ p. place p < n) ps → All (λ p. place p < n) (ps ++ (x ∷ []))
      snoc [] a = (h, tt)
      snoc (p ∷ ps) (k, a) = (k, snoc ps a)

  -- One instruction: what the parts of its check answer, and what they keep.
  pub record Checked (mode : MemSchMode) (x : ℕ) (t t' : DependencyTable)
      (heap heap' : List Instruction) : Type 0 where
    pub this : Instruction
    pub heap1 : List Instruction
    pub at : find_ins x heap ≡ some this
    pub reads : check_reads t x this.regs heap ≡ some heap1
    pub memory : check_memory mode t this heap1 ≡ heap'
    pub regs :
        add_regs x this.regs (if this.is_memory && this.is_wr_mem_type then add_wr t x else t)
        ≡ some t'
    pub linked : All Linked heap'
    pub same : skeletons heap' ≡ skeletons heap
    pub visited : Visited (suc (place x)) t'

  pub dependency_table_check-Checked :
      (mode : MemSchMode) (x : ℕ) (t : DependencyTable) (heap : List Instruction)
      → Visited (place x) t
      → contains x (addrs heap) ≡ true
      → All Linked heap
      → (t' : DependencyTable) × (heap' : List Instruction) × (dependency_table_check mode x t heap
          ≡ some (t', heap'))
        × Checked mode x t t' heap heap'
  unfolding dependency_table_check
  dependency_table_check-Checked mode x t heap v w ps =
      let (this, at) = find_ins-some x heap w in
      let own = find_ins-addr x heap this at in
      let (heap1, reads, ps1, same1) = check_reads-Linked t x this.regs heap this v at ps in
      let (ps2, same2) = check_memory-Linked mode t this heap1 (rw own v) ps1 in
      let t1 = if this.is_memory && this.is_wr_mem_type then add_wr t x else t in
      let (t2, regs, v2) = add_regs-Visited x (suc (place x)) this.regs t1 (omega arith) (
        stored x (suc (place x)) t (this.is_memory && this.is_wr_mem_type) (omega arith)
          (Visited-mono (place x) (suc (place x)) t (omega arith) v)) in
      (
        t2,
        check_memory mode t this heap1,
        rw (at, reads, ◌>>=◌, regs),
        record {
          this = this;
          heap1 = heap1;
          at = at;
          reads = reads;
          memory = refl;
          regs = regs;
          linked = ps2;
          same = same2 ∙ same1;
          visited = v2;
        },
      )
