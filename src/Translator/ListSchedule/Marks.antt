-- ===== src/Translator/ListSchedule/Marks.antt =====
-- What a round of the list scheduler (src/binaryTranslator/listSchedule.cpp) marks as scheduled, and
-- the order that it must respect.
use cg_oo_o.Common.{
  ℕ, suc, ◌+◌, ◌<◌, ◌≡◌, refl, sym, ap, ◌∙◌, inl, inr, true, false, List, [], ◌∷◌, ◌++◌, ◌==◌,
  length, count, count-append, All, Bool-cases, ==→eq, arith,
}
use mathlib.Core.List.{append-nil, append_assoc}
use cg_oo_o.Common.Counting.{count_self}
use cg_oo_o.Translator.Instruction.{Instruction}
use cg_oo_o.Translator.QuickSort.Swap.{addrs}
use cg_oo_o.Translator.ListSchedule.{contains, set_insert, mark_all}
use cg_oo_o.Translator.ListSchedule.Block.{count-contains, count-not_contains, contains-append}
use cg_oo_o.Translator.ListSchedule.Pick.{IsReady, IsNew}

pub addrs-append : (xs ys : List Instruction) → addrs (xs ++ ys) ≡ addrs xs ++ addrs ys
addrs-append [] ys = refl
addrs-append (x ∷ xs) ys = ap (λ t. x.ins_addr ∷ t) (addrs-append xs ys)

pub length-addrs : (xs : List Instruction) → length (addrs xs) ≡ length xs
length-addrs [] = refl
length-addrs (x ∷ xs) = ap suc (length-addrs xs)

pub mark_all_lem :
    (picked : List Instruction) (scheduled : List ℕ)
    → ((a : ℕ) → count a scheduled + count a (addrs picked) < 2)
    → mark_all picked scheduled ≡ scheduled ++ addrs picked
unfolding mark_all set_insert
mark_all_lem [] scheduled h = sym (append-nil scheduled)
mark_all_lem (e ∷ l) scheduled h =
    let a = e.ins_addr in
    let new : contains a scheduled ≡ false = elim (Bool-cases (contains a scheduled)) [
      | inr n ↦ n
      | inl old ↦
          absurd (omega (arith, h a, count-contains a scheduled old, count_self a (addrs l)))
    ] in
    rw new (
      mark_all_lem l (scheduled ++ (a ∷ []))
        (λ b. omega (arith, h b, count-append b scheduled (a ∷ [])))
      ∙ append_assoc scheduled (a ∷ []) (addrs l))

-- Every instruction stands behind its ancestors within the block; `seen` is what stands before.
abbrev pub Respects : List ℕ → List ℕ → List Instruction → Type 0
Respects inside seen [] = Unit
Respects inside seen (e ∷ l) =
    ((a : ℕ) → 0 < count a e.ancestors → contains a inside ≡ true → contains a seen ≡ true)
    × Respects inside (seen ++ (e.ins_addr ∷ [])) l

pub Respects-append :
    (inside seen : List ℕ) (xs ys : List Instruction)
    → Respects inside seen xs
    → Respects inside (seen ++ addrs xs) ys
    → Respects inside seen (xs ++ ys)
Respects-append inside seen [] ys h k = rw (append-nil seen) at k
Respects-append inside seen (x ∷ xs) ys h k = (
  h.0,
  Respects-append inside (seen ++ (x.ins_addr ∷ [])) xs ys h.1
      (rw (append_assoc seen (x.ins_addr ∷ []) (addrs xs)) k),
)

pub ready-Respects :
    (inside scheduled seen : List ℕ) (l : List Instruction)
    → ((a : ℕ) → contains a scheduled ≡ true → contains a seen ≡ true)
    → All (λ e. IsReady inside scheduled e × IsNew inside scheduled e) l
    → Respects inside seen l
ready-Respects inside scheduled seen [] h ps = tt
ready-Respects inside scheduled seen (e ∷ l) h ((ready, new), ps) = (
  (λ a k w. h a (ready a k w)),
  ready-Respects inside scheduled (seen ++ (e.ins_addr ∷ [])) l
      (λ a k. ground (arith, contains-append a seen (e.ins_addr ∷ []), h a k)) ps,
)

pub picked_new :
    (inside scheduled : List ℕ) (l : List Instruction) (a : ℕ)
    → All (λ e. IsReady inside scheduled e × IsNew inside scheduled e) l
    → 0 < count a (addrs l)
    → count a scheduled ≡ 0
picked_new inside scheduled [] a ps h = absurd (omega arith)
picked_new inside scheduled (e ∷ l) a ((ready, new), ps) h = elim (Bool-cases (a == e.ins_addr)) [
  | inl same ↦ rw (==→eq a e.ins_addr same) (count-not_contains e.ins_addr scheduled new)
  | inr other ↦ picked_new inside scheduled l a ps (ground (arith, h, other))
]
