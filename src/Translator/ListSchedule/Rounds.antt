-- ===== src/Translator/ListSchedule/Rounds.antt =====
-- The rounds of the list scheduler (src/binaryTranslator/listSchedule.cpp): each takes an
-- instruction, so that they end, and none takes one before its ancestors.
use cg_oo_o.Common.{
  ℕ, zero, suc, ◌+◌, ◌<◌, ◌≤◌, ◌≡◌, sym, ◌∙◌, ◌⊎◌, inl, inr, true, false, List, [], ◌∷◌, ◌++◌, some,
  ◌==◌, ◌>>=◌, length, length-append, count, count-append, All, Bool-cases, arith,
}
use cg_oo_o.Common.Counting.{length_le_of_count, count-eq_of_length, missing}
use cg_oo_o.Translator.Instruction.{Instruction}
use cg_oo_o.Translator.QuickSort.Swap.{addrs}
use cg_oo_o.Translator.ListSchedule.{BasicBlock, num_eu, contains, mark_all, pick, schedule_rounds}
use cg_oo_o.Translator.ListSchedule.Block.{
  contains-count, count-contains, find_ins-some, find_ins-addr, find_ins-All,
}
use cg_oo_o.Translator.ListSchedule.Chains.{Graph}
use cg_oo_o.Translator.ListSchedule.Paths.{Inside, Ordered}
use cg_oo_o.Translator.ListSchedule.Pick.{IsReady, Blocked, IsNew, Picked, pick_lem}
use cg_oo_o.Translator.ListSchedule.Marks.{
  addrs-append, length-addrs, mark_all_lem, Respects, Respects-append, ready-Respects, picked_new,
}

-- The block's instructions in the order that the scheduler tries them in.
pub record Tries (g : Graph) (sort_list : List Instruction) : Type 0 where
  pub covered : (a : ℕ) → contains a g.inside ≡ true → contains a (addrs sort_list) ≡ true
  pub unique : (a : ℕ) → count a (addrs sort_list) < 2
  pub within : All (Inside g) sort_list
  pub ordered : All (Ordered g) sort_list

module _ (g : Graph) (bb : BasicBlock) (same : bb.ins_addr_list ≡ g.inside)
    (sort_list : List Instruction) (v : Tries g sort_list) where
  -- Of the instructions that are not scheduled, the first in the graph's order is ready.
  takes_one :
      (scheduled : List ℕ) (n k a : ℕ)
      → All
          (λ e. IsNew g.inside scheduled e → Blocked g.inside scheduled e.ancestors ⊎ (0 < n))
          sort_list
      → g.place a < k
      → contains a (addrs sort_list) ≡ true
      → contains a scheduled ≡ false
      → 0 < n
  takes_one scheduled n zero a progress h w new = absurd (omega arith)
  takes_one scheduled n (suc k) a progress h w new =
      let (e, got) = find_ins-some a sort_list w in
      let at = find_ins-addr a sort_list e got in
      elim (find_ins-All
        (λ e. IsNew g.inside scheduled e → Blocked g.inside scheduled e.ancestors ⊎ (0 < n)) a
        sort_list e progress got (rw at new)) [
          | inr done ↦ done
          | inl (b, anc, inb, unsched) ↦
              let earlier = find_ins-All (Ordered g) a sort_list e v.ordered got b anc inb in
              takes_one scheduled n k b progress (omega (arith, rw at at earlier)) (v.covered b inb)
                unsched
        ]

  -- A round over the whole list, while an instruction is not scheduled.
  round_lem :
      (scheduled : List ℕ) (a : ℕ)
      → contains a (addrs sort_list) ≡ true
      → contains a scheduled ≡ false
      → (picked : List Instruction) × (pick bb scheduled 0 sort_list ≡ some picked)
        × Picked g.inside scheduled 0 sort_list picked
        × (0 < length picked)
  round_lem scheduled a here new =
      let (e, got) = find_ins-some a sort_list here in
      let (picked, ran, p) =
        pick_lem g.inside scheduled bb same e.ins_addr
          (find_ins-All (Inside g) a sort_list e v.within got) 0 sort_list in
      (
        picked,
        ran,
        p,
        takes_one scheduled (length picked) (suc (g.place a)) a (p.progress (omega arith))
            (omega arith) here new,
      )

  -- While an instruction of the block is not scheduled, a round fails no check and schedules at least
  -- one instruction and at most as many as there are execution units. None of them was scheduled
  -- before, and all ancestors of each within the block were.
  pub pick-progress :
      (scheduled : List ℕ) (a : ℕ)
      → contains a (addrs sort_list) ≡ true
      → contains a scheduled ≡ false
      → (picked : List Instruction) × (pick bb scheduled 0 sort_list ≡ some picked)
        × (0 < length picked)
        × (length picked ≤ num_eu)
        × All (λ e. IsReady g.inside scheduled e × IsNew g.inside scheduled e) picked
  pick-progress scheduled a here new =
      let (picked, ran, p, taken) = round_lem scheduled a here new in
      (picked, ran, taken, omega (arith, p.width (omega arith)), p.ready)

  abbrev AllScheduled : List Instruction → List Instruction → Type 1
  AllScheduled list_sch sch =
      ((a : ℕ) → count a (addrs sch) ≡ count a (addrs sort_list))
      × Respects g.inside [] sch
      × ((P : Instruction → Type 0) → All P sort_list → All P list_sch → All P sch)

  module _ (f : ℕ) (list_sch : List Instruction) where
    ends :
        (length sort_list == length (addrs list_sch)) ≡ true
        → schedule_rounds (suc f) bb sort_list list_sch (addrs list_sch) ≡ some list_sch
    unfolding schedule_rounds
    ends h = rw (h, schedule_rounds)

    goes :
        (picked : List Instruction)
        → (length sort_list == length (addrs list_sch)) ≡ false
        → pick bb (addrs list_sch) 0 sort_list ≡ some picked
        → mark_all picked (addrs list_sch) ≡ addrs (list_sch ++ picked)
        → schedule_rounds (suc f) bb sort_list list_sch (addrs list_sch)
          ≡ schedule_rounds f bb sort_list (list_sch ++ picked) (addrs (list_sch ++ picked))
    unfolding schedule_rounds
    goes picked h p m = rw (h, schedule_rounds, p, ◌>>=◌, m)

  All-append :
      (P : Instruction → Type 0) (xs ys : List Instruction) → All P xs → All P ys → All P (xs ++ ys)
  All-append P [] ys ps qs = qs
  All-append P (x ∷ xs) ys (p, ps) qs = (p, All-append P xs ys ps qs)

  pub schedule_rounds_lem :
      (f : ℕ) (list_sch : List Instruction)
      → ((a : ℕ) → count a (addrs list_sch) ≤ count a (addrs sort_list))
      → Respects g.inside [] list_sch
      → length sort_list < length list_sch + f
      → (sch : List Instruction) × (schedule_rounds f bb sort_list list_sch (addrs list_sch)
          ≡ some sch)
        × AllScheduled list_sch sch
  schedule_rounds_lem zero list_sch subset order fuel = absurd (
      omega (
        arith,
        length_le_of_count (addrs list_sch) (addrs sort_list) subset,
        length-addrs list_sch,
        length-addrs sort_list,
      ))
  schedule_rounds_lem (suc f) list_sch subset order fuel =
      let scheduled = addrs list_sch in
      let short = length_le_of_count scheduled (addrs sort_list) subset in
      let size = length-addrs sort_list in
      elim (Bool-cases (length sort_list == length scheduled)) [
        | inl done ↦ (
          list_sch,
          ends f list_sch done,
          (
            count-eq_of_length scheduled (addrs sort_list) subset (ground (arith, size, done)),
            order,
            (λ P all now. now),
          ),
        )
        | inr more ↦
            let (a, there, gone) =
              missing scheduled (addrs sort_list) v.unique (ground (arith, size, short, more)) in
            let here = contains-count a (addrs sort_list) there in
            let new : contains a scheduled ≡ false = elim (Bool-cases (contains a scheduled)) [
              | inr n ↦ n
              | inl old ↦ absurd (omega (arith, gone, count-contains a scheduled old))
            ] in
            let (picked, ran, p, taken) = round_lem scheduled a here new in
            let joint : (b : ℕ)
                → count b scheduled + count b (addrs picked) ≤ count b (addrs sort_list) =
              λ b. elim (Bool-cases (count b (addrs picked) == 0)) [
                | inl out ↦ ground (arith, out, subset b)
                | inr taken_b ↦ omega (
                  arith,
                  p.subset b,
                  picked_new g.inside scheduled picked b p.ready (ground (arith, taken_b)),
                )
              ] in
            let marked : mark_all picked scheduled ≡ addrs (list_sch ++ picked) =
              mark_all_lem picked scheduled (λ b. omega (arith, joint b, v.unique b))
              ∙ sym (addrs-append list_sch picked) in
            let (sch, ran', (all, order', keeps)) =
              schedule_rounds_lem f (list_sch ++ picked)
                (λ b.
                  rw (addrs-append list_sch picked)
                    (omega (arith, joint b, count-append b scheduled (addrs picked))))
                (Respects-append g.inside [] list_sch picked order
                  (ready-Respects g.inside scheduled scheduled picked (λ b h. h) p.ready))
                (omega (arith, taken, length-append list_sch picked)) in
            (
              sch,
              goes f list_sch picked more ran marked ∙ ran',
              (
                all,
                order',
                (λ P ps now. keeps P ps (All-append P list_sch picked now (p.keeps P ps))),
              ),
            )
      ]
