-- ===== src/Translator/ListSchedule/Block.antt =====
-- Instructions of a block found by their addresses (src/binaryTranslator/basicblock.cpp).
use cg_oo_o.Common.{
  ℕ, ◌<◌, ◌≡◌, refl, inl, inr, true, false, ◌||◌, List, [], ◌∷◌, ◌++◌, some, ltb, ◌==◌, length,
  count, All, Bool-cases, eq→==, arith,
}
use cg_oo_o.Translator.Instruction.{Instruction}
use cg_oo_o.Translator.QuickSort.Swap.{addrs}
use cg_oo_o.Translator.ListSchedule.{BasicBlock, contains, find_ins, is_ins_addr_in_bb}

pub contains-count : (a : ℕ) (xs : List ℕ) → 0 < count a xs → contains a xs ≡ true
contains-count a [] h = absurd (omega arith)
contains-count a (x ∷ xs) h = ground (arith, contains-count a xs)

pub count-contains : (a : ℕ) (xs : List ℕ) → contains a xs ≡ true → 0 < count a xs
count-contains a [] h = cc
count-contains a (x ∷ xs) h = ground (arith, count-contains a xs)

pub count-not_contains : (a : ℕ) (xs : List ℕ) → contains a xs ≡ false → count a xs ≡ 0
count-not_contains a [] h = refl
count-not_contains a (x ∷ xs) h = ground (arith, count-not_contains a xs)

pub contains-append :
    (a : ℕ) (xs ys : List ℕ) → contains a (xs ++ ys) ≡ (contains a xs || contains a ys)
contains-append a [] ys = refl
contains-append a (x ∷ xs) ys = ground (arith, contains-append a xs ys)

pub find_ins-addr :
    (a : ℕ) (l : List Instruction) (e : Instruction) → find_ins a l ≡ some e → e.ins_addr ≡ a
find_ins-addr a [] e h = cc
find_ins-addr a (d ∷ l) e h = ground (arith, find_ins-addr a l e)

pub find_ins-All {κ} :
    (P : Instruction → Type κ) (a : ℕ) (l : List Instruction) (e : Instruction)
    → All P l
    → find_ins a l ≡ some e
    → P e
find_ins-All P a [] e ps h = cc
find_ins-All P a (d ∷ l) e (p, ps) h = elim (Bool-cases (a == d.ins_addr)) [
  | inl same ↦ let eq : d ≡ e = ground (arith, same) in rw (← eq) p
  | inr other ↦ find_ins-All P a l e ps (ground (arith, other))
]

-- An address of the list leads to an instruction.
pub find_ins-some :
    (a : ℕ) (l : List Instruction)
    → contains a (addrs l) ≡ true
    → (e : Instruction) × (find_ins a l ≡ some e)
find_ins-some a [] h = cc
find_ins-some a (d ∷ l) h = elim (Bool-cases (a == d.ins_addr)) [
  | inl same ↦ (d, rw same)
  | inr other ↦ rw other (find_ins-some a l (ground (arith, other)))
]

-- The test of a block that has an instruction.
pub is_ins_addr_in_bb-contains :
    (bb : BasicBlock) (a b : ℕ)
    → contains b bb.ins_addr_list ≡ true
    → is_ins_addr_in_bb bb a ≡ some (contains a bb.ins_addr_list)
unfolding is_ins_addr_in_bb
is_ins_addr_in_bb-contains bb a b h = rw (nonempty (bb.ins_addr_list) h)
  where
    nonempty : (xs : List ℕ) → contains b xs ≡ true → ltb 0 (length xs) ≡ true
    nonempty [] h = cc
    nonempty (x ∷ xs) h = ground arith

pub find_ins-contains :
    (a : ℕ) (l : List Instruction) (e : Instruction)
    → find_ins a l ≡ some e
    → contains a (addrs l) ≡ true
find_ins-contains a [] e h = cc
find_ins-contains a (x ∷ l) e h = ground (arith, find_ins-contains a l e)

-- In a list without repeated addresses each instruction is found at its own.
pub find_ins-own :
    (l : List Instruction)
    → ((a : ℕ) → count a (addrs l) < 2)
    → All (λ e. find_ins e.ins_addr l ≡ some e) l
find_ins-own [] h = tt
find_ins-own (x ∷ l) h = (
  ground (arith, eq→== x.ins_addr x.ins_addr refl),
  behind l (find_ins-own l (λ a. omega (arith, h a))) (λ a c. omega (arith, h a, c)),
)
  where
    behind :
        (m : List Instruction)
        → All (λ e. find_ins e.ins_addr l ≡ some e) m
        → ((a : ℕ) → 0 < count a (addrs m) → count a (x.ins_addr ∷ []) ≡ 0)
        → All (λ e. find_ins e.ins_addr (x ∷ l) ≡ some e) m
    behind [] ps k = tt
    behind (e ∷ m) (p, ps) k = (
      ground (arith, p, k e.ins_addr, eq→== e.ins_addr e.ins_addr refl),
      behind m ps (λ a c. k a (omega (arith, c))),
    )
