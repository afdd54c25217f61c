-- ===== src/Translator/Dependency/Links.antt =====
-- Instructions that are linked in their own order (src/binaryTranslator/dependencySetup.cpp) make a
-- block without cycles.
use cg_oo_o.Common.{
  ℕ, suc, ◌<◌, ◌≡◌, refl, sym, ap, ◌∙◌, true, List, [], ◌∷◌, ◌++◌, some, none, ◌==◌, if◌then◌else◌,
  length, count, count-append, All, All-mono, eq→==, arith,
}
use mathlib.Core.List.{append_assoc}
use cg_oo_o.Translator.Instruction.{Instruction}
use cg_oo_o.Translator.QuickSort.Swap.{addrs}
use cg_oo_o.Translator.ListSchedule.{BasicBlock, contains, find_ins}
use cg_oo_o.Translator.ListSchedule.Block.{find_ins-some, find_ins-addr, find_ins-All, find_ins-own}
use cg_oo_o.Translator.ListSchedule.Chains.{Graph, IsAcyclic, Fits}
use cg_oo_o.Translator.ListSchedule.Paths.{IsBlock}
use cg_oo_o.Translator.Dependency.Places.{Linked, Rises}

-- The place of an address in the visiting order.
unfoldable pub index_of : ℕ → List ℕ → ℕ
index_of a [] = 0
index_of a (x ∷ xs) = if a == x then 0 else suc (index_of a xs)

index_of-lt : (a : ℕ) (xs : List ℕ) → contains a xs ≡ true → index_of a xs < length xs
unfolding index_of
index_of-lt a [] h = cc
index_of-lt a (x ∷ xs) h = ground (arith, index_of-lt a xs)

index_of-append :
    (pre xs : List ℕ) (x : ℕ) → count x pre ≡ 0 → index_of x (pre ++ (x ∷ xs)) ≡ length pre
unfolding index_of
index_of-append [] xs x h = ground (arith, eq→== x x refl)
index_of-append (y ∷ pre) xs x h = ground (arith, index_of-append pre xs x)

length-addrs : (l : List Instruction) → length (addrs l) ≡ length l
length-addrs [] = refl
length-addrs (e ∷ l) = ap suc (length-addrs l)

length-snoc : (pre : List ℕ) (x : ℕ) → length (pre ++ (x ∷ [])) ≡ suc (length pre)
length-snoc [] x = refl
length-snoc (y ∷ pre) x = ap suc (length-snoc pre x)

-- A list without repetitions is its own visiting order.
pub index_of-Rises :
    (pre xs all : List ℕ)
    → all ≡ pre ++ xs
    → ((a : ℕ) → count a all < 2)
    → Rises (λ a. index_of a all) (length pre) xs
index_of-Rises pre [] all shape h = tt
index_of-Rises pre (x ∷ xs) all shape h =
    let first : count x pre ≡ 0 =
      omega (arith, h x, ap (count x) shape, count-append x pre (x ∷ xs), here x xs) in
    let place : index_of x all ≡ length pre =
      ap (index_of x) shape ∙ index_of-append pre xs x first in
    (
      omega (arith, place),
      rw place (
          rw (← length-snoc pre x) (
            index_of-Rises (pre ++ (x ∷ [])) xs all (shape ∙ sym (append_assoc pre (x ∷ []) xs))
              h)),
    )
  where
    here : (x : ℕ) (xs : List ℕ) → 0 < count x (x ∷ xs)
    here x xs = ground (arith, eq→== x x refl)

-- The dependences that a block's instructions hold.
abbrev pub graph_of : List Instruction → Graph
graph_of l = record {
  latency = λ a. elim (find_ins a l) [ none ↦ 0 | some e ↦ e.latency ];
  dependents = λ a. elim (find_ins a l) [ none ↦ [] | some e ↦ e.dependents ];
  inside = addrs l;
  place = λ a. index_of a (addrs l);
  size = length l;
}

inside-own : (l : List Instruction) → All (λ e. contains e.ins_addr (addrs l) ≡ true) l
inside-own l = behind l l (λ a h. h)
  where
    behind :
        (l m : List Instruction)
        → ((a : ℕ) → contains a (addrs m) ≡ true → contains a (addrs l) ≡ true)
        → All (λ e. contains e.ins_addr (addrs l) ≡ true) m
    behind l [] h = tt
    behind l (e ∷ m) h = (
      h e.ins_addr (ground (arith, eq→== e.ins_addr e.ins_addr refl)),
      behind l m (λ a k. h a (ground (arith, k))),
    )

-- Instructions that are linked in the visiting order make a block without cycles.
module _ (l : List Instruction) (unique : (a : ℕ) → count a (addrs l) < 2)
    (linked : All (Linked (λ a. index_of a (addrs l))) l) where
  pub graph_of-IsAcyclic : IsAcyclic (graph_of l)
  graph_of-IsAcyclic = record {
    behind = λ a d h k w.
        let (e, at) = find_ins-some a l h in
        let own = find_ins-addr a l e at in
        let up = find_ins-All (Linked (λ a. index_of a (addrs l))) a l e linked at in
        let more : 0 < count d e.dependents = ground (arith, k, at) in rw own at (up.1 d more);
    bounded = λ a h. omega (arith, index_of-lt a (addrs l) h, length-addrs l);
  }

  pub graph_of-IsBlock :
      (bb : BasicBlock)
      → bb.ins_addr_list ≡ addrs l
      → All (λ e. 0 < e.latency) l
      → IsBlock (graph_of l) (record bb { ins_list = l })
  graph_of-IsBlock bb same pos = record {
    addresses = same;
    covered = λ a h. h;
    sized = omega arith;
    unique = unique;
    fits = fit l (find_ins-own l unique) pos;
    within = inside-own l;
    ordered = All-mono l (λ e up a k w. up.0 a k) linked;
  }
    where
      fit :
          (m : List Instruction)
          → All (λ e. find_ins e.ins_addr l ≡ some e) m
          → All (λ e. 0 < e.latency) m
          → All (Fits (graph_of l)) m
      fit [] own ps = tt
      fit (e ∷ m) (own, owns) (p, ps) =
          ((ground (arith, own), ground (arith, own), p), fit m owns ps)
