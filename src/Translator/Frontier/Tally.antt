-- ===== src/Translator/Frontier/Tally.antt =====
-- How many blocks pass a test: the measure of the search of `findDF`
-- (src/binaryTranslator/dominator.cpp).
use cg_oo_o.Common.{
  ℕ, ◌+◌, ◌≤◌, ◌<◌, ◌≡◌, refl, inl, inr, Bool, true, false, List, [], ◌∷◌, ◌==◌, if◌then◌else◌,
  length, Bool-cases, ==→eq, eq→==, arith,
}
use cg_oo_o.Translator.Dominator.Sets.{In}

-- The number of blocks of a list that pass a test.
abbrev pub tally : (ℕ → Bool) → List ℕ → ℕ
tally f [] = 0
tally f (m ∷ ms) = (if f m then 1 else 0) + tally f ms

tally_le :
    (f h : ℕ → Bool) (ms : List ℕ)
    → ((m : ℕ) → In m ms → f m ≡ true → h m ≡ true)
    → tally f ms ≤ tally h ms
tally_le f h [] sub = omega arith
tally_le f h (m ∷ ms) sub =
    let rest = tally_le f h ms (λ k at. sub k (omega (arith, at))) in
    elim (Bool-cases (f m)) [
      | inl yes_f ↦ ground (arith, rest, yes_f, sub m (ground (arith, eq→== m m refl)) yes_f)
      | inr no_f ↦ ground (arith, rest, no_f)
    ]

pub tally_lt :
    (f h : ℕ → Bool) (ms : List ℕ) (n : ℕ)
    → ((m : ℕ) → In m ms → f m ≡ true → h m ≡ true)
    → In n ms
    → f n ≡ false
    → h n ≡ true
    → tally f ms < tally h ms
tally_lt f h [] n sub at no_f yes_h = absurd (omega (arith, at))
tally_lt f h (m ∷ ms) n sub at no_f yes_h = elim (Bool-cases (n == m)) [
  | inl same ↦
      let no_m : f m ≡ false = rw (← ==→eq n m same) no_f in
      let yes_m : h m ≡ true = rw (← ==→eq n m same) yes_h in
      ground (arith, no_m, yes_m, tally_le f h ms (λ k at. sub k (omega (arith, at))))
  | inr other ↦
      let rest =
        tally_lt f h ms n (λ k at. sub k (omega (arith, at))) (ground (arith, at, other)) no_f
          yes_h in
      elim (Bool-cases (f m)) [
        | inl yes_f ↦ ground (arith, rest, yes_f, sub m (ground (arith, eq→== m m refl)) yes_f)
        | inr no_m ↦ ground (arith, rest, no_m)
      ]
]

pub tally-length : (f : ℕ → Bool) (ms : List ℕ) → tally f ms ≤ length ms
tally-length f [] = omega arith
tally-length f (m ∷ ms) = ground (arith, tally-length f ms)
