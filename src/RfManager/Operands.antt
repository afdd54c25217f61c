-- ===== src/RfManager/Operands.antt =====
-- The loops of src/backend/o3/rfManager.cpp over the operands of one instruction.
use mathlib.Core.List.{append-nil, append_assoc}
use cg_oo_o.Common.{
  ℕ, suc, ◌≤◌, ◌<◌, ◌≡◌, refl, sym, ap, ◌∙◌, false, List, [], ◌∷◌, ◌++◌, some, length, count, arith,
  eq→==, All,
}
use cg_oo_o.Common.Maps.{lookup}
use cg_oo_o.Common.Values.{values, count-values-append}
use cg_oo_o.Unit.Instruction.{Instruction, set_pr}
use cg_oo_o.Rename.{
  Rename, RegRenState, renamed_invalid, renamed_valid, rename_reg, get_num_available_pr,
}
use cg_oo_o.Rename.Inv.{Inv, Flight, state_of, replay, lookup-replay, replay-has}
use cg_oo_o.RfManager.{
  rename_reads, rename_writes, rename_regs, complete_writes, complete_regs, commit_writes,
  commit_regs,
}
use cg_oo_o.RfManager.Write.{rename_write-Inv}
use cg_oo_o.RfManager.Commit.{complete-Inv, commit_write-Inv}

-- The destinations of an instruction and the registers that it was given, one to one.
abbrev pub pairs : List ℕ → List ℕ → Flight
pairs [] ps = []
pairs (a ∷ ars) [] = []
pairs (a ∷ ars) (p ∷ ps) = (a, p) ∷ pairs ars ps

-- An architectural register that the tables know.
abbrev pub Known : Rename → ℕ → Type 0
Known s a = (q : ℕ) × (lookup a s.crat ≡ some q)

abbrev pub InState : Rename → RegRenState → ℕ → Type 0
InState s st p = state_of s.rf p ≡ some st

-- Each operand is read through the map `m`.
abbrev pub Reads : List (ℕ × ℕ) → List ℕ → List ℕ → Type 0
Reads m [] [] = Unit
Reads m [] (p ∷ ps) = ⊥
Reads m (a ∷ ars) [] = ⊥
Reads m (a ∷ ars) (p ∷ ps) = (lookup a m ≡ some p) × Reads m ars ps

rename_reg-found :
    (s : Rename) (fl : Flight) (a p : ℕ)
    → Inv s fl
    → lookup a s.frat ≡ some p
    → rename_reg s a ≡ some p
unfolding rename_reg
rename_reg-found s fl a p v found =
    let known = lookup-replay a p s.crat fl v.ordered (sym (v.front a) ∙ found) in
    let range = v.range p (omega (arith, v.parts p, known)) in ground (arith, found)

rename_reads-Reads :
    (s : Rename) (fl : Flight) (ars : List ℕ) (i : Instruction)
    → Inv s fl
    → All (Known s) ars
    → (ps : List ℕ) × (rename_reads s ars i
        ≡ some (record i {
          p_rd_reg = i.p_rd_reg ++ ps;
          p_rd_reg_wait_list = i.p_rd_reg_wait_list ++ ps;
        }))
      × Reads s.frat ars ps
unfolding rename_reads set_pr
rename_reads-Reads s fl [] i v k =
    ([], rw (append-nil i.p_rd_reg, append-nil i.p_rd_reg_wait_list), tt)
rename_reads-Reads s fl (a ∷ ars) i v ((q, known), k) =
    let (p, mapping) = replay-has a q s.crat fl v.ordered known in
    let found : lookup a s.frat ≡ some p = v.front a ∙ mapping in
    let (ps, ran, reads) =
      rename_reads-Reads s fl ars
        (record i {
          p_rd_reg = i.p_rd_reg ++ (p ∷ []);
          p_rd_reg_wait_list = i.p_rd_reg_wait_list ++ (p ∷ []);
        })
        v k in
    (p ∷ ps, rw (rename_reg-found s fl a p v found) (ran ∙ simp append_assoc), (found, reads))

pub Known-All :
    (s s' : Rename) (ars : List ℕ) → s'.crat ≡ s.crat → All (Known s) ars → All (Known s') ars
Known-All s s' [] e k = tt
Known-All s s' (a ∷ ars) e ((q, known), k) = ((q, rw e known), Known-All s s' ars e k)

pub InState-All :
    (s s' : Rename) (st : RegRenState) (ps : List ℕ)
    → ((p : ℕ) → 0 < count p ps → state_of s'.rf p ≡ state_of s.rf p)
    → All (InState s st) ps
    → All (InState s' st) ps
InState-All s s' st [] same k = tt
InState-All s s' st (p ∷ ps) same (here, k) =
    (same p (ground arith) ∙ here, InState-All s s' st ps (λ r h. same r (ground arith)) k)

rename_writes-Inv :
    (s : Rename) (fl : Flight) (ars : List ℕ) (i : Instruction)
    → Inv s fl
    → All (Known s) ars
    → length ars ≤ length s.available_pr_set
    → (ps : List ℕ) × (s' : Rename) × (rename_writes s ars i
        ≡ some (s', record i { p_wr_reg = i.p_wr_reg ++ ps }))
      × (length ps ≡ length ars)
      × (s'.crat ≡ s.crat)
      × All (InState s' renamed_invalid) ps
      × ((r : ℕ) → 0 < count r (values fl) → state_of s'.rf r ≡ state_of s.rf r)
      × Inv s' (fl ++ pairs ars ps)
unfolding rename_writes set_pr
rename_writes-Inv s fl [] i v k room =
    ([], s, rw (append-nil i.p_wr_reg), refl, refl, tt, λ r h. refl, rw (append-nil fl) v)
rename_writes-Inv s fl (a ∷ ars) i v ((q, known), k) room =
    let (p, s1, ran, was_free, mapped, crat, state, same, fewer, inv) =
      rename_write-Inv s fl a q v known (omega (arith, room)) in
    let (ps, s2, ran', len, crat', states, same', inv') =
      rename_writes-Inv s1 (fl ++ ((a, p) ∷ [])) ars
        (record i { p_wr_reg = i.p_wr_reg ++ (p ∷ []) }) inv (Known-All s s1 ars crat k)
        (omega (arith, room, fewer)) in
    (
      p ∷ ps,
      s2,
      rw ran (ran' ∙ simp append_assoc),
      ap suc len,
      crat' ∙ crat,
      (same' p (ground (arith, count-values-append p fl ((a, p) ∷ []))) ∙ state, states),
      λ r h. same' r (omega (arith, count-values-append r fl ((a, p) ∷ []))) ∙ same r h,
      rw append_assoc at inv',
    )

-- An instruction whose operands are architectural registers and whose destinations find enough free
-- registers is renamed without a failed check. Its sources read the map from before its own
-- destinations; each destination gets one register, whose value is not there yet; the pairs go into
-- flight in their order, and the registers in flight before keep their states.
pub rename_regs-Inv :
    (s : Rename) (fl : Flight) (i : Instruction)
    → Inv s fl
    → All (Known s) i.a_rd_reg_wait_list
    → All (Known s) i.a_wr_reg
    → length i.a_wr_reg ≤ length s.available_pr_set
    → (rs : List ℕ) × (ps : List ℕ) × (s' : Rename) × (rename_regs s i
        ≡ some (
          false,
          s',
          record i {
            p_rd_reg = i.p_rd_reg ++ rs;
            p_rd_reg_wait_list = i.p_rd_reg_wait_list ++ rs;
            p_wr_reg = i.p_wr_reg ++ ps;
          },
        ))
      × Reads s.frat i.a_rd_reg_wait_list rs
      × (length ps ≡ length i.a_wr_reg)
      × (s'.crat ≡ s.crat)
      × All (InState s' renamed_invalid) ps
      × ((r : ℕ) → 0 < count r (values fl) → state_of s'.rf r ≡ state_of s.rf r)
      × Inv s' (fl ++ pairs i.a_wr_reg ps)
unfolding rename_regs get_num_available_pr
rename_regs-Inv s fl i v reads writes room =
    let (rs, ran, mapped) = rename_reads-Reads s fl i.a_rd_reg_wait_list i v reads in
    let (ps, s', ran', len, crat, states, same, inv) =
      rename_writes-Inv s fl i.a_wr_reg
        (record i { p_rd_reg = i.p_rd_reg ++ rs; p_rd_reg_wait_list = i.p_rd_reg_wait_list ++ rs })
        v writes room in
    (rs, ps, s', ground (arith, ran, ran'), mapped, len, crat, states, same, inv)

complete_writes-Inv :
    (s : Rename) (fl : Flight) (ps : List ℕ)
    → Inv s fl
    → All (λ p. 0 < count p (values fl)) ps
    → All (InState s renamed_invalid) ps
    → ((r : ℕ) → count r ps < 2)
    → (s' : Rename) × (complete_writes s ps ≡ some s')
      × (s'.crat ≡ s.crat)
      × All (InState s' renamed_valid) ps
      × ((r : ℕ) → count r ps ≡ 0 → state_of s'.rf r ≡ state_of s.rf r)
      × Inv s' fl
unfolding complete_writes
complete_writes-Inv s fl [] v flying waits once = (s, refl, refl, tt, λ r h. refl, v)
complete_writes-Inv s fl (p ∷ ps) v (here, flying) (wait, waits) once =
    let (s1, ran, state, same, crat, inv) = complete-Inv s fl p v here wait in
    let others =
      InState-All s s1 renamed_invalid ps (λ r h. same r (λ e. ground (arith, h, e, once r)))
        waits in
    let (s2, ran', crat', states, same', inv') =
      complete_writes-Inv s1 fl ps inv flying others (λ r. omega (arith, once r)) in
    (
      s2,
      rw ran ran',
      crat' ∙ crat,
      (same' p (ground (arith, once p)) ∙ state, states),
      λ r h. same' r (ground (arith, h)) ∙ same r (λ e. ground (arith, h, e)),
      inv',
    )

-- An instruction in flight whose destinations wait for their values completes without a failed
-- check: afterwards the values of its destinations, and of no other register, have come.
pub complete_regs-Inv :
    (s : Rename) (fl : Flight) (i : Instruction)
    → Inv s fl
    → All (λ p. 0 < count p (values fl)) i.p_wr_reg
    → All (InState s renamed_invalid) i.p_wr_reg
    → ((r : ℕ) → count r i.p_wr_reg < 2)
    → (s' : Rename) × (complete_regs s i ≡ some s')
      × (s'.crat ≡ s.crat)
      × All (InState s' renamed_valid) i.p_wr_reg
      × ((r : ℕ) → count r i.p_wr_reg ≡ 0 → state_of s'.rf r ≡ state_of s.rf r)
      × Inv s' fl
unfolding complete_regs
complete_regs-Inv s fl i v flying waits once =
    complete_writes-Inv s fl i.p_wr_reg v flying waits once

pub count-pairs :
    (r : ℕ) (ars ps : List ℕ)
    → length ars ≡ length ps
    → count r (values (pairs ars ps)) ≡ count r ps
count-pairs r [] [] h = refl
count-pairs r [] (p ∷ ps) h = absurd (omega arith)
count-pairs r (a ∷ ars) [] h = absurd (omega arith)
count-pairs r (a ∷ ars) (p ∷ ps) h = omega (arith, count-pairs r ars ps (omega (arith, h)))

commit_writes-Inv :
    (s : Rename) (fl : Flight) (ps ars : List ℕ)
    → length ars ≡ length ps
    → Inv s (pairs ars ps ++ fl)
    → All (InState s renamed_valid) ps
    → (s' : Rename) × (commit_writes s ps ars ≡ some s')
      × (s'.crat ≡ replay s.crat (pairs ars ps))
      × (s'.frat ≡ s.frat)
      × ((r : ℕ) → 0 < count r (values fl) → state_of s'.rf r ≡ state_of s.rf r)
      × Inv s' fl
unfolding commit_writes
commit_writes-Inv s fl [] [] len v done = (s, refl, refl, refl, λ r h. refl, v)
commit_writes-Inv s fl [] (a ∷ ars) len v done = absurd (omega arith)
commit_writes-Inv s fl (p ∷ ps) [] len v done = absurd (omega arith)
commit_writes-Inv s fl (p ∷ ps) (a ∷ ars) len v (here, done) =
    let (q, s1, ran, old, crat, frat, free, same, inv) =
      commit_write-Inv s (pairs ars ps ++ fl) a p v here in
    let others =
      InState-All s s1 renamed_valid ps
        (λ r h. same r (
          omega (
            arith,
            h,
            count-values-append r (pairs ars ps) fl,
            count-pairs r ars ps (omega (arith, len)),
          )))
        done in
    let (s2, ran', crat', frat', same', inv') =
      commit_writes-Inv s1 fl ps ars (omega (arith, len)) inv others in
    (
      s2,
      rw ran ran',
      crat' ∙ ap (λ m. replay m (pairs ars ps)) crat,
      frat' ∙ frat,
      λ r h. same' r h ∙ same r (omega (arith, h, count-values-append r (pairs ars ps) fl)),
      inv',
    )

-- The instruction at the head of the reorder buffer commits without a failed check once the values
-- of its destinations have come: the committed map takes up its pairs in their order, the
-- speculative map stays, and the invariant holds with the rest in flight.
pub commit_regs-Inv :
    (s : Rename) (fl : Flight) (i : Instruction)
    → length i.a_wr_reg ≡ length i.p_wr_reg
    → Inv s (pairs i.a_wr_reg i.p_wr_reg ++ fl)
    → All (InState s renamed_valid) i.p_wr_reg
    → (s' : Rename) × (commit_regs s i ≡ some s')
      × (s'.crat ≡ replay s.crat (pairs i.a_wr_reg i.p_wr_reg))
      × (s'.frat ≡ s.frat)
      × ((r : ℕ) → 0 < count r (values fl) → state_of s'.rf r ≡ state_of s.rf r)
      × Inv s' fl
unfolding commit_regs
commit_regs-Inv s fl i len v done =
    rw (eq→== (length i.a_wr_reg) (length i.p_wr_reg) len)
      (commit_writes-Inv s fl i.p_wr_reg i.a_wr_reg len v done)
