-- ===== src/Ino/RfManager/Repeats.antt =====
-- What the in-order register file manager (src/backend/ino/rfManager.cpp) does with a destination that
-- stands twice in an instruction.
use cg_oo_o.Common.{
  ℕ, ◌<◌, ◌≡◌, ◌↔◌, refl, ◌∙◌, inl, inr, true, false, List, [], ◌∷◌, none, some, ◌==◌, ltb, arith,
  Bool-cases, ==→eq, count, All, All-mono,
}
use cg_oo_o.Unit.Instruction.{Instruction}
use cg_oo_o.Unit.RegisterFile.{RegisterFile, is_reg_busy}
use cg_oo_o.Unit.RegisterFile.Scoreboard.{Usable, Usable-cases, reserve_reg_again, reserve_reg-busy}
use cg_oo_o.Ino.RfManager.{can_reserve_rf, reserve_regs, reserve_rf}
use cg_oo_o.Ino.RfManager.Hazards.{none_busy-All, reserve_regs-Marked}

-- A register that waits cannot be reserved again.
reserve_regs-busy :
    (s : RegisterFile) (rs : List ℕ) (r : ℕ)
    → All (Usable s) rs
    → 0 < count r rs
    → is_reg_busy s r ≡ some true
    → reserve_regs s rs ≡ none
unfolding reserve_regs
reserve_regs-busy s [] r u h busy = absurd (omega (arith, h))
reserve_regs-busy s (x ∷ rs) r (u, us) h busy = elim (Usable-cases s x u) [
  | inr waits ↦ rw (reserve_reg_again s x waits) refl
  | inl idle ↦
      let other : (r == x) ≡ false = elim (Bool-cases (r == x)) [
        | inr no_match ↦ no_match
        | inl same ↦ absurd (ground (arith, busy, idle, same, ==→eq r x same))
      ] in
      let (s1, ran, marks, keep) = reserve_reg-busy s x u idle in
      rw ran (
        reserve_regs-busy s1 rs r (All-mono rs keep us) (ground (arith, h, other))
          (marks r ∙ ground (arith, other, busy)))
]

reserve_regs-repeated :
    (s : RegisterFile) (rs : List ℕ) (r : ℕ)
    → All (Usable s) rs
    → 1 < count r rs
    → reserve_regs s rs ≡ none
unfolding reserve_regs
reserve_regs-repeated s [] r u h = absurd (omega (arith, h))
reserve_regs-repeated s (x ∷ rs) r (u, us) h = elim (Usable-cases s x u) [
  | inr waits ↦ rw (reserve_reg_again s x waits) refl
  | inl idle ↦
      let (s1, ran, marks, keep) = reserve_reg-busy s x u idle in
      rw ran (elim (Bool-cases (r == x)) [
        | inl same ↦
            reserve_regs-busy s1 rs r (All-mono rs keep us) (ground (arith, h, same))
              (marks r ∙ ground (arith, same))
        | inr other ↦ reserve_regs-repeated s1 rs r (All-mono rs keep us) (ground (arith, h, other))
      ])
]

-- On destinations that were made and of which `canReserveRF` finds none waiting, `reserveRF` passes its
-- checks just when no destination stands twice; otherwise a check stops the program.
pub reserve_rf-repeated :
    (s : RegisterFile) (i : Instruction)
    → All (Usable s) i.a_wr_reg
    → can_reserve_rf s i ≡ some true
    → (((s1 : RegisterFile) × (reserve_rf s i ≡ some s1)) ↔ ((r : ℕ) → count r i.a_wr_reg < 2))
      × ((r : ℕ) → 1 < count r i.a_wr_reg → reserve_rf s i ≡ none)
unfolding reserve_rf can_reserve_rf
reserve_rf-repeated s i u can = (
  (
    λ (s1, ran) r. elim (Bool-cases (ltb 1 (count r i.a_wr_reg))) [
      | inr once ↦ ground (arith, once)
      | inl twice ↦ cc (reserve_regs-repeated s i.a_wr_reg r u (ground (arith, twice)), ran)
    ],
    λ once.
        let (s1, ran, _, _) =
          reserve_regs-Marked s i.a_wr_reg u (none_busy-All s i.a_wr_reg can) once in
        (s1, ran),
  ),
  λ r twice. reserve_regs-repeated s i.a_wr_reg r u twice,
)
