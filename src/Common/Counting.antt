-- ===== src/Common/Counting.antt =====
-- Lists compared by how often each number stands in them.
use Prim.Native.Nat.{ℕ, suc, ◌+◌, ◌<◌, ◌≤◌}
use mathlib.Core.Path.{◌≡◌, refl}
use mathlib.Core.Logic.{◌⊎◌, inl, inr}
use mathlib.Core.List.{List, [], ◌∷◌}
use native.Mathlib.Omega.{arith}
use cg_oo_o.Common.Tests.{◌==◌, if◌then◌else◌, Bool-cases, eq→==}
use cg_oo_o.Common.Lists.{length, count}

-- Without the first occurrence.
remove : ℕ → List ℕ → List ℕ
remove a [] = []
remove a (x ∷ xs) = if a == x then xs else x ∷ remove a xs

length-remove : (a : ℕ) (xs : List ℕ) → 0 < count a xs → suc (length (remove a xs)) ≡ length xs
unfolding remove
length-remove a [] h = absurd (omega arith)
length-remove a (x ∷ xs) h = ground (arith, length-remove a xs)

count-remove :
    (a b : ℕ) (xs : List ℕ)
    → 0 < count a xs
    → (if b == a then 1 else 0) + count b (remove a xs) ≡ count b xs
unfolding remove
count-remove a b [] h = absurd (omega arith)
count-remove a b (x ∷ xs) h = ground (arith, count-remove a b xs)

pub count_self : (x : ℕ) (xs : List ℕ) → 0 < count x (x ∷ xs)
count_self x xs = ground (arith, eq→== x x refl)

pub length_le_of_count :
    (xs ys : List ℕ) → ((a : ℕ) → count a xs ≤ count a ys) → length xs ≤ length ys
length_le_of_count [] ys h = omega arith
length_le_of_count (x ∷ xs) ys h =
    let there : 0 < count x ys = omega (arith, h x, count_self x xs) in
    omega (
      arith,
      length-remove x ys there,
      length_le_of_count xs (remove x ys) (λ a. omega (arith, h a, count-remove x a ys there)),
    )

pub count-eq_of_length :
    (xs ys : List ℕ)
    → ((a : ℕ) → count a xs ≤ count a ys)
    → length xs ≡ length ys
    → (a : ℕ) → count a xs ≡ count a ys
count-eq_of_length [] [] h e a = refl
count-eq_of_length [] (y ∷ ys) h e a = absurd (omega (arith, e))
count-eq_of_length (x ∷ xs) ys h e a =
    let there : 0 < count x ys = omega (arith, h x, count_self x xs) in
    omega (
      arith,
      count-remove x a ys there,
      count-eq_of_length xs (remove x ys) (λ b. omega (arith, h b, count-remove x b ys there))
          (omega (arith, e, length-remove x ys there)) a,
    )

-- Either all are there, or one is not.
all_or_missing :
    (xs ys : List ℕ)
    → ((a : ℕ) → 0 < count a ys → 0 < count a xs) ⊎ ((a : ℕ) × (0 < count a ys) × (count a xs ≡ 0))
all_or_missing xs [] = inl (λ a h. absurd (omega arith))
all_or_missing xs (y ∷ ys) = elim (Bool-cases (count y xs == 0)) [
  | inl gone ↦ inr (y, count_self y ys, ground (arith, gone))
  | inr there ↦ elim (all_or_missing xs ys) [
    | inr (a, h, k) ↦ inr (a, omega (arith, h), k)
    | inl all ↦ inl (λ a h. elim (Bool-cases (a == y)) [
      | inl same ↦ ground (arith, there, same)
      | inr other ↦ all a (ground (arith, h, other))
    ])
  ]
]

-- A longer list without repetitions has a number that the other has not.
pub missing :
    (xs ys : List ℕ)
    → ((a : ℕ) → count a ys < 2)
    → length xs < length ys
    → (a : ℕ) × (0 < count a ys) × (count a xs ≡ 0)
missing xs ys unique short = elim (all_or_missing xs ys) [
  | inr found ↦ found
  | inl all ↦ absurd (
      omega (
        arith,
        length_le_of_count ys xs (λ a. elim (Bool-cases (count a ys == 0)) [
          | inl gone ↦ ground (arith, gone)
          | inr there ↦ omega (arith, unique a, all a (ground (arith, there)))
        ]),
      ))
]
