-- ===== src/Common/Back.antt =====
-- Loops that take elements off the back of a list until a test fails, and the loop that goes
-- through the whole list instead.
use Prim.Native.Nat.{ℕ, zero, suc, ◌≤◌}
use mathlib.Core.Path.{◌≡◌, refl, sym, ap, ◌∙◌}
use mathlib.Core.Logic.{inl, inr}
use mathlib.Core.Bool.{Bool, true, false}
use mathlib.Core.Option.{none, some}
use mathlib.Core.List.{List, [], ◌∷◌}
use native.Mathlib.Omega.{arith}
use cg_oo_o.Common.Tests.{if◌then◌else◌, Bool-cases, Option-cases}
use cg_oo_o.Common.Lists.{length, last?, last?-none, drop_last}

module _ {ℓ} {A : Type ℓ} (drop : A → Bool) where
  -- `while` the last element passes the test, remove it; the list's length is fuel enough.
  unfoldable pub pop_while : ℕ → List A → List A
  pop_while zero b = b
  pop_while (suc f) b = elim (last? b) [
    | none ↦ b
    | some e ↦ elim (drop e) [ true ↦ pop_while f (drop_last b) | false ↦ b ]
  ]

  -- Remove every element that passes the test.
  unfoldable pub remove_if : List A → List A
  remove_if [] = []
  remove_if (e ∷ b) = let rest = remove_if b in if drop e then rest else e ∷ rest

  -- Once an element passes the test, all behind it do.
  abbrev pub IsMonotone : List A → Type 0
  IsMonotone [] = Unit
  IsMonotone (e ∷ []) = Unit
  IsMonotone (e ∷ d ∷ b) = (drop e ≡ true → drop d ≡ true) × IsMonotone (d ∷ b)

  drop_last-IsMonotone : (b : List A) → IsMonotone b → IsMonotone (drop_last b)
  drop_last-IsMonotone [] m = tt
  drop_last-IsMonotone (e ∷ []) m = tt
  drop_last-IsMonotone (e ∷ d ∷ []) m = tt
  drop_last-IsMonotone (e ∷ d ∷ c ∷ b) m = (m.0, drop_last-IsMonotone (d ∷ c ∷ b) m.1)

  length-drop_last : (b : List A) (e : A) → last? b ≡ some e → suc (length (drop_last b)) ≡ length b
  length-drop_last [] e h = cc
  length-drop_last (d ∷ []) e h = refl
  length-drop_last (d ∷ c ∷ b) e h = ap suc (length-drop_last (c ∷ b) e h)

  -- The last element passes: it is the one that the whole-list loop removes last.
  remove_if-last :
      (b : List A) (e : A)
      → last? b ≡ some e
      → drop e ≡ true
      → remove_if b ≡ remove_if (drop_last b)
  unfolding remove_if
  remove_if-last [] e h t = cc
  remove_if-last (d ∷ []) e h t = ground (arith)
  remove_if-last (d ∷ c ∷ b) e h t =
      ap (λ r. if drop d then r else d ∷ r) (remove_if-last (c ∷ b) e h t)

  first_fails :
      (d : A) (b : List A) (e : A)
      → IsMonotone (d ∷ b)
      → last? (d ∷ b) ≡ some e
      → drop e ≡ false
      → drop d ≡ false
  first_fails d [] e m h t = cc
  first_fails d (c ∷ b) e m h t = elim (Bool-cases (drop d)) [
    | inl passes ↦ cc (m.0 passes, first_fails c b e m.1 h t)
    | inr fails ↦ fails
  ]

  -- The last element fails: no element passes.
  remove_if-none :
      (b : List A) (e : A) → IsMonotone b → last? b ≡ some e → drop e ≡ false → remove_if b ≡ b
  unfolding remove_if
  remove_if-none [] e m h t = refl
  remove_if-none (d ∷ []) e m h t = rw (first_fails d [] e m h t)
  remove_if-none (d ∷ c ∷ b) e m h t =
      rw (first_fails d (c ∷ b) e m h t) (ap (λ r. d ∷ r) (remove_if-none (c ∷ b) e m.1 h t))

  -- On a list that the test splits in two, both loops do the same.
  pub pop_while-eq-remove_if :
      (f : ℕ) (b : List A) → length b ≤ f → IsMonotone b → pop_while f b ≡ remove_if b
  unfolding pop_while remove_if
  pop_while-eq-remove_if zero [] h m = refl
  pop_while-eq-remove_if zero (e ∷ b) h m = absurd (omega arith)
  pop_while-eq-remove_if (suc f) b h m = elim (Option-cases (last? b)) [
    | inl none_left ↦ rw (last?-none b none_left)
    | inr (e, last) ↦ elim (Bool-cases (drop e)) [
      | inl passes ↦
          rw (last, pop_while, passes)
            (pop_while-eq-remove_if f (drop_last b) (omega (arith, length-drop_last b e last))
                (drop_last-IsMonotone b m)
              ∙ sym (remove_if-last b e last passes))
      | inr fails ↦ rw (last, pop_while, fails) (sym (remove_if-none b e m last fails))
    ]
  ]
