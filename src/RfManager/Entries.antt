-- ===== src/RfManager/Entries.antt =====
-- The instructions of the reorder buffer against the rename tables of src/backend/o3/rfManager.cpp, and
-- the completion of one of them.
use mathlib.Core.List.{append-nil, append_assoc}
use cg_oo_o.Common.{
  ℕ, zero, suc, ◌+◌, ◌<◌, ◌≡◌, refl, sym, ap, inl, inr, true, false, List, [], ◌∷◌, ◌++◌, some,
  if◌then◌else◌, length, count, arith, Bool-cases, All,
}
use cg_oo_o.Common.Maps.{lookup}
use cg_oo_o.Common.Values.{values, count-values-append}
use cg_oo_o.Rename.{Rename, renamed_invalid, renamed_valid}
use cg_oo_o.Rename.Inv.{Inv, Flight, state_of}
use cg_oo_o.RfManager.{complete_regs}
use cg_oo_o.RfManager.Operands.{pairs, InState, InState-All, complete_regs-Inv, count-pairs}
use cg_oo_o.RfManager.Core.{Entry, Event, dispatch, complete, commit, squash, complete_nth}

-- The renames in flight of a reorder buffer, oldest first.
abbrev pub flight : List Entry → Flight
flight [] = []
flight (e ∷ rob) = pairs e.ins.a_wr_reg e.ins.p_wr_reg ++ flight rob

-- The destinations of an instruction have their values just when it is complete.
abbrev pub Fits : Rename → Entry → Type 0
Fits s e =
    (length e.ins.a_wr_reg ≡ length e.ins.p_wr_reg)
    × All (InState s (if e.done then renamed_valid else renamed_invalid)) e.ins.p_wr_reg

abbrev pub Operand : List (ℕ × ℕ) → ℕ → Type 0
Operand m a = (q : ℕ) × (lookup a m ≡ some q)

-- A dispatched instruction is new, and its operands are architectural registers.
abbrev pub Operands : List (ℕ × ℕ) → Event → Type 0
Operands m (dispatch i) =
    All (Operand m) i.a_rd_reg_wait_list × All (Operand m) i.a_wr_reg × (i.p_wr_reg ≡ [])
Operands m (complete n) = Unit
Operands m commit = Unit
Operands m squash = Unit

Fits-mono :
    (s s' : Rename) (e : Entry)
    → ((r : ℕ) → 0 < count r e.ins.p_wr_reg → state_of s'.rf r ≡ state_of s.rf r)
    → Fits s e
    → Fits s' e
Fits-mono s s' e same (len, states) = (
  len,
  InState-All s s' (if e.done then renamed_valid else renamed_invalid) e.ins.p_wr_reg same states,
)

pub flight-append :
    (rob : List Entry) (e : Entry)
    → flight (rob ++ (e ∷ [])) ≡ flight rob ++ pairs e.ins.a_wr_reg e.ins.p_wr_reg
flight-append [] e = append-nil (pairs e.ins.a_wr_reg e.ins.p_wr_reg)
flight-append (d ∷ rob) e = rw (flight-append rob e) (
    sym (
      append_assoc (pairs d.ins.a_wr_reg d.ins.p_wr_reg) (flight rob)
        (pairs e.ins.a_wr_reg e.ins.p_wr_reg)))

count-flight :
    (r : ℕ) (e : Entry) (rob : List Entry)
    → length e.ins.a_wr_reg ≡ length e.ins.p_wr_reg
    → count r (values (flight (e ∷ rob))) ≡ count r e.ins.p_wr_reg + count r (values (flight rob))
count-flight r e rob len = omega (
  arith,
  count-values-append r (pairs e.ins.a_wr_reg e.ins.p_wr_reg) (flight rob),
  count-pairs r e.ins.a_wr_reg e.ins.p_wr_reg len,
)

pub Fits-All :
    (s s' : Rename) (rob : List Entry)
    → ((r : ℕ) → 0 < count r (values (flight rob)) → state_of s'.rf r ≡ state_of s.rf r)
    → All (Fits s) rob
    → All (Fits s') rob
Fits-All s s' [] same fits = tt
Fits-All s s' (e ∷ rob) same (fit, fits) = (
  Fits-mono s s' e (λ r h. same r (omega (arith, h, count-flight r e rob fit.0))) fit,
  Fits-All s s' rob (λ r h. same r (omega (arith, h, count-flight r e rob fit.0))) fits,
)

pub Fits-append :
    (s : Rename) (rob : List Entry) (e : Entry)
    → All (Fits s) rob
    → Fits s e
    → All (Fits s) (rob ++ (e ∷ []))
Fits-append s [] e fits fit = (fit, tt)
Fits-append s (d ∷ rob) e (one, fits) fit = (one, Fits-append s rob e fits fit)

All-self : {P : ℕ → Type 0} (ps : List ℕ) → ((r : ℕ) → 0 < count r ps → P r) → All P ps
All-self [] h = tt
All-self (p ∷ ps) h = (h p (ground arith), All-self ps (λ r k. h r (omega (arith, k))))

complete_nth-skip :
    (s : Rename) (e : Entry) (rob : List Entry)
    → e.done ≡ true
    → complete_nth s 0 (e ∷ rob) ≡ some (s, e ∷ rob)
unfolding complete_nth
complete_nth-skip s e rob h = simp h

complete_nth-here :
    (s s' : Rename) (e : Entry) (rob : List Entry)
    → e.done ≡ false
    → complete_regs s e.ins ≡ some s'
    → complete_nth s 0 (e ∷ rob) ≡ some (s', (record e { done = true }) ∷ rob)
unfolding complete_nth
complete_nth-here s s' e rob h ran = simp (h, ran)

pub complete_nth-Fits :
    (s : Rename) (fl : Flight) (rob : List Entry) (n : ℕ)
    → Inv s (fl ++ flight rob)
    → All (Fits s) rob
    → (s' : Rename) × (rob' : List Entry) × (complete_nth s n rob ≡ some (s', rob'))
      × (s'.crat ≡ s.crat)
      × (flight rob' ≡ flight rob)
      × All (Fits s') rob'
      × ((r : ℕ) → count r (values (flight rob)) ≡ 0 → state_of s'.rf r ≡ state_of s.rf r)
      × Inv s' (fl ++ flight rob)
unfolding complete_nth
complete_nth-Fits s fl [] n v fits = (s, [], refl, refl, refl, tt, λ r h. refl, v)
complete_nth-Fits s fl (e ∷ rob) zero v ((len, states), fits) = elim (Bool-cases e.done) [
  | inl h ↦
      (s, e ∷ rob, complete_nth-skip s e rob h, refl, refl, ((len, states), fits), λ r h. refl, v)
  | inr h ↦
      let waits : All (InState s renamed_invalid) e.ins.p_wr_reg = rw h at states in
      let counts = λ (r : ℕ). count-flight r e rob len in
      let sum = λ (r : ℕ). count-values-append r fl (flight (e ∷ rob)) in
      let (s', ran, crat, states', same, inv) =
        complete_regs-Inv s (fl ++ flight (e ∷ rob)) e.ins v
          (All-self e.ins.p_wr_reg (λ r k. omega (arith, k, counts r, sum r))) waits
          (λ r. omega (arith, counts r, sum r, v.parts r, v.once r)) in
      (
        s',
        (record e { done = true }) ∷ rob,
        complete_nth-here s s' e rob h ran,
        crat,
        refl,
        (
          (len, states'),
          Fits-All s s' rob (λ r k. same r (omega (arith, k, counts r, sum r, v.parts r, v.once r)))
              fits,
        ),
        λ r k. same r (omega (arith, k, counts r)),
        inv,
      )
]
complete_nth-Fits s fl (e ∷ rob) (suc n) v (fit, fits) =
    let mine = pairs e.ins.a_wr_reg e.ins.p_wr_reg in
    let counts = λ (r : ℕ). count-flight r e rob fit.0 in
    let sum = λ (r : ℕ). count-values-append r fl (flight (e ∷ rob)) in
    let (s', rob', ran, crat, order, fits', same, inv) =
      complete_nth-Fits s (fl ++ mine) rob n (rw (append_assoc fl mine (flight rob)) v) fits in
    (
      s',
      e ∷ rob',
      rw ran,
      crat,
      ap (λ f. mine ++ f) order,
      (
        Fits-mono s s' e (λ r k. same r (omega (arith, k, counts r, sum r, v.parts r, v.once r)))
            fit,
        fits',
      ),
      λ r k. same r (omega (arith, k, counts r)),
      rw (append_assoc fl mine (flight rob)) at inv,
    )
