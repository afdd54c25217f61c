-- ===== src/Translator/ListSchedule/Pick.antt =====
-- One round of the list scheduler (src/binaryTranslator/listSchedule.cpp): which instructions it
-- takes, and why it takes one at least.
use cg_oo_o.Common.{
  ℕ, suc, ◌+◌, ◌<◌, ◌≤◌, ◌≡◌, refl, ap, ◌∙◌, ◌⊎◌, inl, inr, Bool, true, false, not, ◌&&◌, List, [],
  ◌∷◌, some, ltb, ◌==◌, if◌then◌else◌, ◌>>=◌, length, count, All, Bool-cases, ==→eq, eq→==, ltb→lt,
  arith,
}
use cg_oo_o.Translator.Instruction.{Instruction}
use cg_oo_o.Translator.QuickSort.Swap.{addrs}
use cg_oo_o.Translator.ListSchedule.{
  BasicBlock, num_eu, contains, is_ins_addr_in_bb, schedule_it, pick,
}
use cg_oo_o.Translator.ListSchedule.Block.{is_ins_addr_in_bb-contains}

module _ (inside scheduled : List ℕ) where
  -- All ancestors of the block are scheduled, or one is not.
  abbrev pub IsReady : Instruction → Type 0
  IsReady e =
      (a : ℕ) → 0 < count a e.ancestors → contains a inside ≡ true → contains a scheduled ≡ true

  abbrev pub Blocked : List ℕ → Type 0
  Blocked ancestors =
      (a : ℕ) × (0 < count a ancestors)
      × (contains a inside ≡ true)
      × (contains a scheduled ≡ false)

  abbrev pub IsNew : Instruction → Type 0
  IsNew e = contains e.ins_addr scheduled ≡ false

  -- What a round takes of the rest of the list, from a counter on.
  pub record Picked (c : ℕ) (l picked : List Instruction) : Type 1 where
    pub ready : All (λ e. IsReady e × IsNew e) picked
    pub subset : (a : ℕ) → count a (addrs picked) ≤ count a (addrs l)
    pub width : c ≤ num_eu → length picked + c ≤ num_eu
    pub keeps : (P : Instruction → Type 0) → All P l → All P picked
    pub progress : c < num_eu → All (λ e. IsNew e → Blocked e.ancestors ⊎ (0 < length picked)) l

  module _ (bb : BasicBlock) (same : bb.ins_addr_list ≡ inside) (b : ℕ)
      (nonempty : contains b inside ≡ true) where
    test : (a : ℕ) → is_ins_addr_in_bb bb a ≡ some (contains a inside)
    test a =
        is_ins_addr_in_bb-contains bb a b (rw same nonempty) ∙ ap (λ xs. some (contains a xs)) same

    abbrev after : ℕ → Bool → Bool
    after a it = if contains a inside && not (contains a scheduled) then false else it

    schedule_it_lem :
        (ds : List ℕ) (it : Bool)
        → (r : Bool) × (schedule_it bb scheduled ds it ≡ some r)
          × (r ≡ true
              → (it ≡ true)
                × ((a : ℕ)
                    → 0 < count a ds
                    → contains a inside ≡ true
                    → contains a scheduled ≡ true))
          × (r ≡ false → (it ≡ false) ⊎ Blocked ds)
    unfolding schedule_it
    schedule_it_lem [] it = (it, refl, (λ h. (h, λ a k w. absurd (omega arith))), (λ h. inl h))
    schedule_it_lem (a ∷ ds) it =
        let (r, ran, good, bad) = schedule_it_lem ds (after a it) in
        (
          r,
          rw (test a) ran,
          (λ h.
              let (was, all) = good h in
              (
                ground (arith, was),
                λ d k w. elim (Bool-cases (d == a)) [
                  | inl eq ↦
                      rw (==→eq d a eq)
                        (ground (arith, was, ap (λ x. contains x inside) (==→eq d a eq)))
                  | inr other ↦ all d (ground (arith, other)) w
                ],
              )),
          (λ h. elim (bad h) [
            | inr (d, k, w, n) ↦ inr (d, omega (arith, k), w, n)
            | inl off ↦ elim (Bool-cases it) [
              | inr was ↦ inl was
              | inl was ↦ inr (
                a,
                ground (arith, eq→== a a refl),
                ground (arith, off, was),
                ground (arith, off, was),
              )
            ]
          ]),
        )

    -- The cases of one step.
    module _ (c : ℕ) (ins : Instruction) (l : List Instruction) where
      pick-full : ltb c num_eu ≡ false → pick bb scheduled c (ins ∷ l) ≡ some []
      unfolding pick
      pick-full h = rw (h, pick)

      pick-old :
          ltb c num_eu ≡ true
          → contains ins.ins_addr scheduled ≡ true
          → pick bb scheduled c (ins ∷ l) ≡ pick bb scheduled c l
      unfolding pick
      pick-old h k = rw (h, pick, k)

      pick-blocked :
          ltb c num_eu ≡ true
          → contains ins.ins_addr scheduled ≡ false
          → schedule_it bb scheduled ins.ancestors true ≡ some false
          → pick bb scheduled c (ins ∷ l) ≡ pick bb scheduled c l
      unfolding pick
      pick-blocked h k s = rw (h, pick, k, s, ◌>>=◌)

      pick-takes :
          (rest : List Instruction)
          → ltb c num_eu ≡ true
          → contains ins.ins_addr scheduled ≡ false
          → schedule_it bb scheduled ins.ancestors true ≡ some true
          → pick bb scheduled (c + 1) l ≡ some rest
          → pick bb scheduled c (ins ∷ l) ≡ some (ins ∷ rest)
      unfolding pick
      pick-takes rest h k s r = rw (h, pick, k, s, ◌>>=◌, r)

    everywhere :
        (l : List Instruction) (n : ℕ) → All (λ e. IsNew e → Blocked e.ancestors ⊎ (0 < suc n)) l
    everywhere [] n = tt
    everywhere (e ∷ l) n = ((λ k. inr (omega arith)), everywhere l n)

    -- A step that passes an instruction over.
    passes :
        (c : ℕ) (ins : Instruction) (l picked : List Instruction)
        → Picked c l picked
        → (IsNew ins → Blocked ins.ancestors ⊎ (0 < length picked))
        → Picked c (ins ∷ l) picked
    passes c ins l picked p why = record {
      ready = p.ready;
      subset = λ a. omega (arith, p.subset a);
      width = p.width;
      keeps = λ P ps. p.keeps P ps.1;
      progress = λ h. (why, p.progress h);
    }

    pub pick_lem :
        (c : ℕ) (l : List Instruction)
        → (picked : List Instruction) × (pick bb scheduled c l ≡ some picked) × Picked c l picked
    unfolding pick
    pick_lem c [] = (
      [],
      refl,
      record {
        ready = tt;
        subset = λ a. omega arith;
        width = λ h. omega arith;
        keeps = λ P ps. tt;
        progress = λ h. tt;
      },
    )
    pick_lem c (ins ∷ l) = elim (Bool-cases (ltb c num_eu)) [
      | inr full ↦ (
        [],
        pick-full c ins l full,
        record {
          ready = tt;
          subset = λ a. omega arith;
          width = λ h. omega arith;
          keeps = λ P ps. tt;
          progress = λ h. absurd (ground (arith, full, h));
        },
      )
      | inl room ↦ elim (Bool-cases (contains ins.ins_addr scheduled)) [
        | inl old ↦
            let (picked, ran, p) = pick_lem c l in
            (picked, pick-old c ins l room old ∙ ran, passes c ins l picked p (λ h. cc))
        | inr new ↦
            let (r, sched, good, bad) = schedule_it_lem ins.ancestors true in
            elim (Bool-cases r) [
              | inr off ↦
                  let (picked, ran, p) = pick_lem c l in
                  let blocked = bad off in
                  (
                    picked,
                    pick-blocked c ins l room new (sched ∙ ap some off) ∙ ran,
                    passes c ins l picked p (λ h. elim blocked [ inl e ↦ cc | inr b ↦ inl b ]),
                  )
              | inl on ↦
                  let (rest, ran, p) = pick_lem (c + 1) l in
                  (
                    ins ∷ rest,
                    pick-takes c ins l rest room new (sched ∙ ap some on) ran,
                    record {
                      ready = (((good on).1, new), p.ready);
                      subset = λ a. omega (arith, p.subset a);
                      width = λ h. omega (arith, p.width (omega (arith, ltb→lt c num_eu room)));
                      keeps = λ P ps. (ps.0, p.keeps P ps.1);
                      progress = λ h. (λ k. inr (omega arith), everywhere l (length rest));
                    },
                  )
            ]
      ]
    ]
