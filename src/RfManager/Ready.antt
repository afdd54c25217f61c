-- ===== src/RfManager/Ready.antt =====
-- When an instruction is ready (`isReady` of src/backend/o3/rfManager.cpp).
use cg_oo_o.Common.{
  ℕ, zero, suc, ◌+◌, ◌≤◌, ◌<◌, ◌≡◌, refl, sym, ap, ◌∙◌, ◌⊎◌, inl, inr, Bool, true, false, List, [],
  ◌∷◌, ◌++◌, some, arith, Option-cases, length, count, last?, last?-none, drop_last,
  drop_last-append-last, All, All-drop_last, All-last, length-drop_last,
}
use mathlib.Core.List.{append-nil, append_assoc}
use cg_oo_o.Common.Values.{values}
use cg_oo_o.Unit.Instruction.{Instruction}
use cg_oo_o.Rename.{Rename, renamed_invalid, renamed_valid, arch_reg, is_pr_valid}
use cg_oo_o.Rename.Inv.{Inv, Flight, state_of}
use cg_oo_o.RfManager.{ready_loop, is_ready}

-- The register is held by the committed map or by an instruction in flight.
abbrev pub IsHeld : Rename → Flight → ℕ → Type 0
IsHeld s fl r = 0 < count r (values s.crat) + count r (values fl)

-- Its value is there: it was committed, or the instruction that gives it has completed.
abbrev pub HasValue : Rename → ℕ → Type 0
HasValue s r = (state_of s.rf r ≡ some arch_reg) ⊎ (state_of s.rf r ≡ some renamed_valid)

-- The instruction that gives its value has not completed.
abbrev pub Awaits : Rename → ℕ → Type 0
Awaits s r = state_of s.rf r ≡ some renamed_invalid

IsHeld-cases :
    (s : Rename) (fl : Flight) (r : ℕ)
    → Inv s fl
    → IsHeld s fl r
    → ((is_pr_valid s r ≡ some true) × HasValue s r) ⊎ ((is_pr_valid s r ≡ some false) × Awaits s r)
unfolding is_pr_valid state_of
IsHeld-cases s fl r v h =
    let range = v.range r (omega (arith, v.parts r, h)) in
    elim (by_count (count r (values s.crat)) (count r (values fl)) h) [
      | inl mapped ↦ inl (ground (arith, range, v.arch r mapped), inl (v.arch r mapped))
      | inr flying ↦ elim (v.renamed r flying) [
        | inl waits ↦ inr (ground (arith, range, waits), waits)
        | inr done ↦ inl (ground (arith, range, done), inr done)
      ]
    ]
  where
    by_count : (m n : ℕ) → 0 < m + n → (0 < m) ⊎ (0 < n)
    by_count zero n k = inr (omega (arith, k))
    by_count (suc m) n k = inl (omega arith)

All-snoc : (P : ℕ → Type 0) (xs : List ℕ) (x : ℕ) → All P xs → P x → All P (xs ++ (x ∷ []))
All-snoc P [] x ps p = (p, tt)
All-snoc P (y ∷ xs) x (q, ps) p = (q, All-snoc P xs x ps p)

-- The operands `l` were asked for from the back: those of `taken` have their values, and those of
-- `left` are left, none if the answer is yes, and otherwise with one that waits at the end.
pub record Asked (s : Rename) (l : List ℕ) (answer : Bool) (left : List ℕ) : Type 0 where
  pub taken : List ℕ
  pub split : l ≡ left ++ taken
  pub values_there : All (HasValue s) taken
  pub stops :
      ((answer ≡ true) × (left ≡ []))
      ⊎ ((answer ≡ false) × (r : ℕ) × (last? left ≡ some r) × Awaits s r)

ready_loop-Asked :
    (s : Rename) (fl : Flight)
    → Inv s fl
    → (f : ℕ) (l : List ℕ) → length l ≤ f
    → All (IsHeld s fl) l
    → (b : Bool) × (l' : List ℕ) × (ready_loop s f l ≡ some (b, l')) × Asked s l b l'
unfolding ready_loop
ready_loop-Asked s fl v zero [] h u = (
  true,
  [],
  refl,
  record { taken = []; split = refl; values_there = tt; stops = inl (refl, refl) },
)
ready_loop-Asked s fl v zero (x ∷ l) h u = absurd (omega arith)
ready_loop-Asked s fl v (suc f) l h u = elim (Option-cases (last? l)) [
  | inl empty ↦ rw (last?-none l empty) (
    true,
    [],
    refl,
    record { taken = []; split = refl; values_there = tt; stops = inl (refl, refl) },
  )
  | inr (r, last) ↦ elim (IsHeld-cases s fl r v (All-last (IsHeld s fl) l r last u)) [
    | inl (valid, value) ↦
        let (b, l', ran, a) =
          ready_loop-Asked s fl v f (drop_last l) (omega (arith, h, length-drop_last l r last))
            (All-drop_last (IsHeld s fl) l u) in
        (
          b,
          l',
          rw (last, ready_loop, valid) ran,
          record {
            taken = a.taken ++ (r ∷ []);
            split =
                drop_last-append-last l r last
                ∙ ap (λ xs. xs ++ (r ∷ [])) a.split
                ∙ append_assoc l' a.taken (r ∷ []);
            values_there = All-snoc (HasValue s) a.taken r a.values_there value;
            stops = a.stops;
          },
        )
    | inr (invalid, waits) ↦ (
      false,
      l,
      rw (last, ready_loop, invalid) refl,
      record {
        taken = [];
        split = sym (append-nil l);
        values_there = tt;
        stops = inr (refl, r, last, waits);
      },
    )
  ]
]

-- With the tables in order and every operand that is left held by the committed map or by an
-- instruction in flight, `isReady` fails no check. From the back of the list it takes the operands
-- whose values are there, committed or completed, and stops at one whose value is awaited. It says
-- yes just when none is left, and changes nothing of the instruction but that list.
pub is_ready-Asked :
    (s : Rename) (fl : Flight) (i : Instruction)
    → Inv s fl
    → All (IsHeld s fl) i.p_rd_reg_wait_list
    → (b : Bool) × (left : List ℕ) × (is_ready s i
        ≡ some (b, record i { p_rd_reg_wait_list = left }))
      × Asked s i.p_rd_reg_wait_list b left
unfolding is_ready
is_ready-Asked s fl i v u =
    let (b, left, ran, a) =
      ready_loop-Asked s fl v (length i.p_rd_reg_wait_list) i.p_rd_reg_wait_list (omega arith) u in
    (b, left, rw ran refl, a)
