-- ===== src/Translator/Dependency/Heap.antt =====
-- Writes through pointers to instructions (src/binaryTranslator/instruction.cpp): what they leave of
-- the other instructions.
use cg_oo_o.Common.{
  ℕ, ◌≡◌, refl, sym, ap, ◌∙◌, inl, inr, List, [], ◌∷◌, Option, some, none, ◌==◌, if◌then◌else◌, All,
  Bool-cases, ==→eq, arith,
}
use cg_oo_o.Translator.Instruction.{Instruction}
use cg_oo_o.Translator.QuickSort.Swap.{addrs}
use cg_oo_o.Translator.ListSchedule.{find_ins}
use cg_oo_o.Translator.Dependency.{modify_ins, set_as_dependent, set_as_ancestor, link}

pub modify_ins-All {κ} :
    (P : Instruction → Type κ) (a : ℕ) (f : Instruction → Instruction) (l : List Instruction)
    → ((e : Instruction) → e.ins_addr ≡ a → P e → P (f e))
    → All P l
    → All P (modify_ins a f l)
unfolding modify_ins
modify_ins-All P a f [] h ps = tt
modify_ins-All P a f (e ∷ l) h (p, ps) = elim (Bool-cases (a == e.ins_addr)) [
  | inl same ↦ rw same (h e (sym (==→eq a e.ins_addr same)) p, ps)
  | inr other ↦ rw other (p, modify_ins-All P a f l h ps)
]

-- An instruction without its links.
abbrev pub skeleton : Instruction → Instruction
skeleton e = record e { ancestors = []; reg_ancestors = []; dependents = [] }

abbrev pub skeletons : List Instruction → List Instruction
skeletons [] = []
skeletons (e ∷ l) = skeleton e ∷ skeletons l

pub modify_ins-skeletons :
    (a : ℕ) (f : Instruction → Instruction) (l : List Instruction)
    → ((e : Instruction) → skeleton (f e) ≡ skeleton e)
    → skeletons (modify_ins a f l) ≡ skeletons l
unfolding modify_ins
modify_ins-skeletons a f [] h = refl
modify_ins-skeletons a f (e ∷ l) h = elim (Bool-cases (a == e.ins_addr)) [
  | inl same ↦ rw same (ap (λ d. d ∷ skeletons l) (h e))
  | inr other ↦ rw other (ap (λ m. skeleton e ∷ m) (modify_ins-skeletons a f l h))
]

pub skeletons-addrs : (l : List Instruction) → addrs (skeletons l) ≡ addrs l
skeletons-addrs [] = refl
skeletons-addrs (e ∷ l) = ap (λ t. e.ins_addr ∷ t) (skeletons-addrs l)

pub link-skeletons : (p x : ℕ) (l : List Instruction) → skeletons (link p x l) ≡ skeletons l
unfolding link
link-skeletons p x l =
    modify_ins-skeletons x (set_as_ancestor p) (modify_ins p (set_as_dependent x) l) (λ e. refl)
    ∙ modify_ins-skeletons p (set_as_dependent x) l (λ e. refl)

pub find_ins-modify_ins :
    (b a : ℕ) (f : Instruction → Instruction) (l : List Instruction)
    → ((e : Instruction) → (f e).ins_addr ≡ e.ins_addr)
    → find_ins b (modify_ins a f l)
      ≡ (if b == a then elim (find_ins b l) [ none ↦ none | some e ↦ some (f e) ] else find_ins b l)
unfolding modify_ins
find_ins-modify_ins b a f [] h = ground arith
find_ins-modify_ins b a f (e ∷ l) h = ground (arith, h e, find_ins-modify_ins b a f l h)

-- The instruction with the skeleton that an address had leads to an instruction still.
pub find_ins-skeletons :
    (a : ℕ) (l : List Instruction) (e : Instruction)
    → find_ins a l ≡ some e
    → find_ins a (skeletons l) ≡ some (skeleton e)
find_ins-skeletons a [] e h = cc
find_ins-skeletons a (d ∷ l) e h = ground (arith, find_ins-skeletons a l e)

find_ins-skeletons-none :
    (a : ℕ) (l : List Instruction) → find_ins a l ≡ none → find_ins a (skeletons l) ≡ none
find_ins-skeletons-none a [] h = refl
find_ins-skeletons-none a (d ∷ l) h = ground (arith, find_ins-skeletons-none a l)

pub find_ins-same :
    (a : ℕ) (l l' : List Instruction) (e : Instruction)
    → skeletons l' ≡ skeletons l
    → find_ins a l ≡ some e
    → (e' : Instruction) × (find_ins a l' ≡ some e') × (skeleton e' ≡ skeleton e)
find_ins-same a l l' e same h = go (find_ins a l') refl
  where
    go :
        (o : Option Instruction)
        → find_ins a l' ≡ o
        → (e' : Instruction) × (find_ins a l' ≡ some e') × (skeleton e' ≡ skeleton e)
    go none k = absurd (
        ground
          (arith, find_ins-skeletons-none a l' k, find_ins-skeletons a l e h, ap (find_ins a) same))
    go (some e') k = (
      e',
      k,
      ground
          (arith, find_ins-skeletons a l' e' k, find_ins-skeletons a l e h, ap (find_ins a) same),
    )
