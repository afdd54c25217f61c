-- ===== src/Ino/RfManager/Hazards.antt =====
-- The hazards that the in-order register file manager (src/backend/ino/rfManager.cpp) holds back.
use cg_oo_o.Common.{
  ℕ, zero, suc, ◌≤◌, ◌<◌, ◌≡◌, refl, sym, ap, ◌∙◌, inl, inr, Bool, true, false, List, [], ◌∷◌, ◌++◌,
  some, ◌==◌, if◌then◌else◌, arith, Bool-cases, Option-cases, length, last?, last?-none, drop_last,
  drop_last-append-last, count, All, All-mono, All-mono-count, All-count, All-drop_last, All-last,
  length-drop_last,
}
use cg_oo_o.Unit.Instruction.{Instruction}
use cg_oo_o.Unit.RegisterFile.{RegisterFile, is_reg_busy}
use cg_oo_o.Unit.RegisterFile.Scoreboard.{
  Usable, reserve_reg-busy, update_reg-busy, is_reg_valid_and_ready-busy,
}
use cg_oo_o.Ino.RfManager.{
  ready_loop, is_ready, none_busy, can_reserve_rf, reserve_regs, reserve_rf, write_regs,
  write_to_rf,
}

none_busy-idle :
    (s : RegisterFile) (xs : List ℕ) (r : ℕ)
    → is_reg_busy s r ≡ some false
    → none_busy s (xs ++ (r ∷ [])) ≡ none_busy s xs
unfolding none_busy
none_busy-idle s [] r h = rw h
none_busy-idle s (x ∷ xs) r h = ground (arith, none_busy-idle s xs r h)

none_busy-wait :
    (s : RegisterFile) (xs : List ℕ) (r : ℕ)
    → All (Usable s) xs
    → is_reg_busy s r ≡ some true
    → none_busy s (xs ++ (r ∷ [])) ≡ some false
unfolding none_busy is_reg_busy
none_busy-wait s [] r u h = ground (arith, h)
none_busy-wait s (x ∷ xs) r ((e, at, seen), u) h = ground (arith, at, none_busy-wait s xs r u h)

none_busy-same :
    (s s' : RegisterFile) (xs : List ℕ)
    → ((q : ℕ) → is_reg_busy s' q ≡ is_reg_busy s q)
    → none_busy s' xs ≡ none_busy s xs
unfolding none_busy
none_busy-same s s' [] same = refl
none_busy-same s s' (x ∷ xs) same = ground (arith, same x, none_busy-same s s' xs same)

ready_loop-none_busy :
    (s : RegisterFile) (f : ℕ) (l : List ℕ)
    → length l ≤ f
    → All (Usable s) l
    → (b : Bool) × (s' : RegisterFile) × (l' : List ℕ) × (ready_loop s f l ≡ some (b, s', l'))
      × (none_busy s l ≡ some b)
      × ((q : ℕ) → is_reg_busy s' q ≡ is_reg_busy s q)
unfolding ready_loop none_busy
ready_loop-none_busy s zero [] h u = (true, s, [], refl, refl, λ q. refl)
ready_loop-none_busy s zero (x ∷ l) h u = absurd (omega arith)
ready_loop-none_busy s (suc f) l h u = elim (Option-cases (last? l)) [
  | inl empty ↦ (true, s, l, rw (last?-none l empty), rw (last?-none l empty), λ q. refl)
  | inr (r, last) ↦
      let split = drop_last-append-last l r last in
      let front = All-drop_last (Usable s) l u in
      let (b, s1, ran, state, same, keep) =
        is_reg_valid_and_ready-busy s r (All-last (Usable s) l r last u) in
      elim (Bool-cases b) [
        | inl ready ↦
            let (b', s2, l', ran', idle, same') =
              ready_loop-none_busy s1 f (drop_last l) (omega (arith, h, length-drop_last l r last))
                (All-mono (drop_last l) keep front) in
            (
              b',
              s2,
              l',
              rw (last, ready_loop, ran, ready) ran',
              ap (none_busy s) split
                  ∙ none_busy-idle s (drop_last l) r (rw ready at state)
                  ∙ sym (none_busy-same s s1 (drop_last l) same)
                  ∙ idle,
              λ q. same' q ∙ same q,
            )
        | inr waits ↦ (
          false,
          s1,
          l,
          rw (last, ready_loop, ran, waits),
          ap (none_busy s) split ∙ none_busy-wait s (drop_last l) r front (rw waits at state),
          same,
        )
      ]
]

-- On registers that were made, `isReady` answers, without a failed check, just what the forward scan
-- for a waiting register answers of the operands that are left: it is ready when no operand waits.
-- It makes no register wait or stop waiting.
pub is_ready-none_busy :
    (s : RegisterFile) (i : Instruction)
    → All (Usable s) i.a_rd_reg_wait_list
    → (b : Bool) × (s' : RegisterFile) × (i' : Instruction) × (is_ready s i ≡ some (b, s', i'))
      × (none_busy s i.a_rd_reg_wait_list ≡ some b)
      × ((q : ℕ) → is_reg_busy s' q ≡ is_reg_busy s q)
unfolding is_ready
is_ready-none_busy s i u =
    let (b, s', l, ran, answer, same) =
      ready_loop-none_busy s (length i.a_rd_reg_wait_list) i.a_rd_reg_wait_list (omega arith) u in
    (b, s', record i { a_rd_reg_wait_list = l }, rw ran, answer, same)

-- The registers of a list are in the state `b`, and the others are as before.
pub Marked : RegisterFile → List ℕ → Bool → RegisterFile → Type 0
Marked s rs b s' =
    (q : ℕ) → is_reg_busy s' q ≡ (if count q rs == 0 then is_reg_busy s q else some b)

pub none_busy-All :
    (s : RegisterFile) (rs : List ℕ)
    → none_busy s rs ≡ some true
    → All (λ r. is_reg_busy s r ≡ some false) rs
unfolding none_busy
none_busy-All s [] h = tt
none_busy-All s (r ∷ rs) h =
    let (here, rest) : (is_reg_busy s r ≡ some false) × (none_busy s rs ≡ some true) =
      ground (arith, h) in
    (here, none_busy-All s rs rest)

pub reserve_regs-Marked :
    (s : RegisterFile) (rs : List ℕ)
    → All (Usable s) rs
    → All (λ r. is_reg_busy s r ≡ some false) rs
    → ((r : ℕ) → count r rs < 2)
    → (s' : RegisterFile) × (reserve_regs s rs ≡ some s')
      × Marked s rs true s'
      × ((q : ℕ) → Usable s q → Usable s' q)
unfolding reserve_regs Marked
reserve_regs-Marked s [] u idle once = (s, refl, λ q. refl, λ q k. k)
reserve_regs-Marked s (r ∷ rs) (u, us) (idle, rest) once =
    let (s1, ran, busy, keep) = reserve_reg-busy s r u idle in
    let still : All (λ q. is_reg_busy s1 q ≡ some false) rs =
      All-mono-count rs (λ q k e. busy q ∙ ground (arith, k, e, once r)) rest in
    let (s2, ran', busy', keep') =
      reserve_regs-Marked s1 rs (All-mono rs keep us) still (λ q. omega (arith, once q)) in
    (s2, rw ran ran', λ q. ground (arith, busy q, busy' q), λ q k. keep' q (keep q k))

write_regs-Marked :
    (s : RegisterFile) (rs : List ℕ)
    → All (Usable s) rs
    → All (λ r. is_reg_busy s r ≡ some true) rs
    → ((r : ℕ) → count r rs < 2)
    → (s' : RegisterFile) × (write_regs s rs ≡ some s')
      × Marked s rs false s'
      × ((q : ℕ) → Usable s q → Usable s' q)
unfolding write_regs Marked
write_regs-Marked s [] u waits once = (s, refl, λ q. refl, λ q k. k)
write_regs-Marked s (r ∷ rs) (u, us) (wait, rest) once =
    let (s1, ran, busy, keep) = update_reg-busy s r u wait in
    let still : All (λ q. is_reg_busy s1 q ≡ some true) rs =
      All-mono-count rs (λ q k e. busy q ∙ ground (arith, k, e, once r)) rest in
    let (s2, ran', busy', keep') =
      write_regs-Marked s1 rs (All-mono rs keep us) still (λ q. omega (arith, once q)) in
    (s2, rw ran ran', λ q. ground (arith, busy q, busy' q), λ q k. keep' q (keep q k))

none_busy-blocked :
    (s : RegisterFile) (l : List ℕ) (r : ℕ)
    → All (Usable s) l
    → 0 < count r l
    → is_reg_busy s r ≡ some true
    → none_busy s l ≡ some false
unfolding none_busy is_reg_busy
none_busy-blocked s [] r u h busy = absurd (omega arith)
none_busy-blocked s (x ∷ l) r ((e, at, seen), u) h busy = elim (Bool-cases (r == x)) [
  | inl same ↦ ground (arith, same, busy)
  | inr other ↦ ground (arith, at, none_busy-blocked s l r u (ground (arith, other, h)) busy)
]

-- The destinations of an instruction that `canReserveRF` lets through, registers that were made and
-- none twice, are reserved without a failed check, and then just these registers have begun to wait. Writing them
-- back fails no check either, and leaves the registers that wait as before the reservation.
pub reserve_rf-write_to_rf :
    (s : RegisterFile) (i : Instruction)
    → All (Usable s) i.a_wr_reg
    → ((r : ℕ) → count r i.a_wr_reg < 2)
    → can_reserve_rf s i ≡ some true
    → (s1 : RegisterFile) × (s2 : RegisterFile) × (reserve_rf s i ≡ some s1)
      × Marked s i.a_wr_reg true s1
      × (write_to_rf s1 i ≡ some s2)
      × ((q : ℕ) → is_reg_busy s2 q ≡ is_reg_busy s q)
unfolding reserve_rf write_to_rf can_reserve_rf Marked
reserve_rf-write_to_rf s i u once can =
    let idle = none_busy-All s i.a_wr_reg can in
    let (s1, ran, busy, keep) = reserve_regs-Marked s i.a_wr_reg u idle once in
    let waits : All (λ r. is_reg_busy s1 r ≡ some true) i.a_wr_reg =
      All-mono-count i.a_wr_reg (λ q k e. busy q ∙ ground (arith, k)) u in
    let (s2, ran', busy', keep') =
      write_regs-Marked s1 i.a_wr_reg (All-mono i.a_wr_reg keep u) waits once in
    (
      s1,
      s2,
      ran,
      busy,
      ran',
      λ q. elim (Bool-cases (count q i.a_wr_reg == 0)) [
        | inl absent ↦ ground (arith, busy q, busy' q, absent)
        | inr here ↦
            busy' q
            ∙ rw here (
                sym (
                  All-count (λ r. is_reg_busy s r ≡ some false) i.a_wr_reg q idle
                    (ground (arith, here))))
      ],
    )

-- While the destinations of the instruction `i` are reserved, an instruction that reads one of them
-- is not ready, and an instruction that writes one of them cannot reserve its own.
pub reserve_rf-blocks :
    (s : RegisterFile) (i j : Instruction) (r : ℕ)
    → All (Usable s) i.a_wr_reg
    → All (Usable s) j.a_rd_reg_wait_list
    → All (Usable s) j.a_wr_reg
    → ((q : ℕ) → count q i.a_wr_reg < 2)
    → can_reserve_rf s i ≡ some true
    → 0 < count r i.a_wr_reg
    → (s1 : RegisterFile) × (reserve_rf s i ≡ some s1)
      × (0 < count r j.a_rd_reg_wait_list
          → (s2 : RegisterFile) × (j' : Instruction) × (is_ready s1 j ≡ some (false, s2, j')))
      × (0 < count r j.a_wr_reg → can_reserve_rf s1 j ≡ some false)
unfolding reserve_rf can_reserve_rf Marked
reserve_rf-blocks s i j r u reads writes once can dest =
    let (s1, ran, busy, keep) =
      reserve_regs-Marked s i.a_wr_reg u (none_busy-All s i.a_wr_reg can) once in
    let waits : is_reg_busy s1 r ≡ some true = busy r ∙ ground (arith, dest) in
    (
      s1,
      ran,
      λ h.
          let made = All-mono j.a_rd_reg_wait_list keep reads in
          let (b, s2, j', answer, scan, same) = is_ready-none_busy s1 j made in
          let late : b ≡ false =
            cc (scan, none_busy-blocked s1 j.a_rd_reg_wait_list r made h waits) in
          (s2, j', rw late at answer),
      λ h. none_busy-blocked s1 j.a_wr_reg r (All-mono j.a_wr_reg keep writes) h waits,
    )
