-- ===== src/Translator/ListSchedule/Chains.antt =====
-- The graph of the dependences within a block, whose longest chains the list scheduler
-- (src/binaryTranslator/listSchedule.cpp) looks for.
use cg_oo_o.Common.{ℕ, ◌+◌, ◌<◌, ◌≤◌, ◌≡◌, true, List, some, count, All}
use cg_oo_o.Translator.Instruction.{Instruction}
use cg_oo_o.Translator.ListSchedule.{BasicBlock, contains, find_ins}

-- The dependences of a block: the latency and the dependents of an address, the addresses of the
-- block, and the places that its instructions can be put in with every dependent behind.
pub record Graph : Type 0 where
  pub latency : ℕ → ℕ
  pub dependents : ℕ → List ℕ
  pub inside : List ℕ
  pub place : ℕ → ℕ
  pub size : ℕ

-- A chain of dependents within the block from an address on, with its latency in all.
pub data Chain (g : Graph) : ℕ → ℕ → Type 0 where
  last : {a n : ℕ} → n ≡ g.latency a → Chain g a n
  link :
      {a n : ℕ} (d w : ℕ)
      → 0 < count d (g.dependents a)
      → contains d g.inside ≡ true
      → Chain g d w
      → n ≡ g.latency a + w
      → Chain g a n

abbrev pub IsLongest : Graph → ℕ → ℕ → Type 0
IsLongest g a p = Chain g a p × ((m : ℕ) → Chain g a m → m ≤ p)

-- Every dependent within the block has a place behind.
pub record IsAcyclic (g : Graph) : Type 0 where
  pub behind :
      (a d : ℕ)
      → contains a g.inside ≡ true
      → 0 < count d (g.dependents a)
      → contains d g.inside ≡ true
      → g.place a < g.place d
  pub bounded : (a : ℕ) → contains a g.inside ≡ true → g.place a < g.size

abbrev pub Fits : Graph → Instruction → Type 0
Fits g e =
    (e.latency ≡ g.latency e.ins_addr) × (e.dependents ≡ g.dependents e.ins_addr) × (0 < e.latency)

-- A longest path that is set is right.
abbrev pub IsKnown : Graph → Instruction → Type 0
IsKnown g e = (p : ℕ) → e.longest_path ≡ some p → IsLongest g e.ins_addr p × (0 < p)

-- The block holds the graph's instructions.
pub record Holds (g : Graph) (bb : BasicBlock) : Type 0 where
  pub addresses : bb.ins_addr_list ≡ g.inside
  pub found :
      (a : ℕ) → contains a g.inside ≡ true → (e : Instruction) × (find_ins a bb.ins_list ≡ some e)
  pub fits : All (Fits g) bb.ins_list
  pub known : All (IsKnown g) bb.ins_list
