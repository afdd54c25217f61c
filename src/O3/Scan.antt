-- ===== src/O3/Scan.antt =====
-- Loops over the entries of a table that look for one: from the front, and from the back.
use cg_oo_o.Common.{
  ◌≡◌, refl, ap, Bool, true, false, List, [], ◌∷◌, ◌++◌, Option, none, some, ◌⊎◌, inl, inr, ◌>>=◌,
  All, arith,
}

-- The first element that passes a test, which may itself fail a check.
unfoldable pub find_first {ℓ} : {A : Type ℓ} → (A → Option Bool) → List A → Option (Option A)
find_first test [] = some none
find_first test (x ∷ l) =
    test x >>= λ b. elim b [ true ↦ some (some x) | false ↦ find_first test l ]

-- What a round of a loop says: the element is found, none will be, or look further.
pub data Verdict : Type 0 where
  found stop further : Verdict

-- The loop from the back of the list: the rounds of the tail are run before that of the head, which
-- is run if all of them looked further.
pub data Found {ℓ} (A : Type ℓ) : Type ℓ where
  at : A → Found A
  stopped nowhere : Found A

abbrev pub judge {ℓ} : {A : Type ℓ} → A → Verdict → Found A
judge x found = at x
judge x stop = stopped
judge x further = nowhere

unfoldable pub find_back {ℓ} : {A : Type ℓ} → (A → Option Verdict) → List A → Option (Found A)
find_back test [] = some nowhere
find_back test (x ∷ l) = find_back test l >>= λ r. elim r [
  | at y ↦ some (at y)
  | stopped ↦ some stopped
  | nowhere ↦ test x >>= λ v. some (judge x v)
]

abbrev pub is_over {ℓ} : {A : Type ℓ} → Found A → Bool
is_over nowhere = false
is_over _ = true

-- What the loop's caller returns.
abbrev pub answer {ℓ} : {A : Type ℓ} → Found A → Option A
answer (at x) = some x
answer stopped = none
answer nowhere = none

-- `x` stands in the list, and `P` holds of all behind it.
abbrev pub Last {ℓ κ} : {A : Type ℓ} → (A → Type κ) → A → List A → Type (ℓ ⊔ κ)
Last P x l = (pre : List _) × (post : List _) × (l ≡ pre ++ (x ∷ post)) × All P post

-- `x` stands in the list, and `P` holds of all before it.
abbrev pub First {ℓ κ} : {A : Type ℓ} → (A → Type κ) → A → List A → Type (ℓ ⊔ κ)
First P x l = (pre : List _) × (post : List _) × (l ≡ pre ++ (x ∷ post)) × All P pre

module _ {ℓ} {A : Type ℓ} where
  pub find_first-none :
      (test : A → Option Bool) (l : List A)
      → find_first test l ≡ some none
      → All (λ y. test y ≡ some false) l
  unfolding find_first
  find_first-none test [] h = tt
  find_first-none test (x ∷ l) h =
      let (miss, rest) : (test x ≡ some false) × (find_first test l ≡ some none) =
        ground (arith, h) in
      (miss, find_first-none test l rest)

  rounds :
      (test : A → Option Bool) (y : A) (l : List A) (x : A)
      → find_first test (y ∷ l) ≡ some (some x)
      → ((y ≡ x) × (test x ≡ some true))
        ⊎ ((test y ≡ some false) × (find_first test l ≡ some (some x)))
  unfolding find_first
  rounds test y l x h = ground (arith, h)

  pub find_first-some :
      (test : A → Option Bool) (l : List A) (x : A)
      → find_first test l ≡ some (some x)
      → (test x ≡ some true) × First (λ y. test y ≡ some false) x l
  find_first-some test [] x h = unfold find_first in cc
  find_first-some test (y ∷ l) x h = elim (rounds test y l x h) [
    | inl (same, hit) ↦ (hit, ([], l, ap (λ z. z ∷ l) same, tt))
    | inr (miss, rest) ↦
        let (hit, (pre, post, split, before)) = find_first-some test l x rest in
        (hit, (y ∷ pre, post, ap (λ m. y ∷ m) split, (miss, before)))
  ]

  -- A loop that ends without an answer looked further in every round.
  pub find_back-nowhere :
      (test : A → Option Verdict) (l : List A)
      → find_back test l ≡ some nowhere
      → All (λ y. test y ≡ some further) l
  unfolding find_back
  find_back-nowhere test [] h = tt
  find_back-nowhere test (y ∷ l) h =
      let (rest, miss) : (find_back test l ≡ some nowhere) × (test y ≡ some further) =
        ground (arith, h) in
      (miss, find_back-nowhere test l rest)

  -- The round of the head is run if all others looked further.
  back_rounds :
      (test : A → Option Verdict) (y : A) (l : List A) (r : Found A)
      → find_back test (y ∷ l) ≡ some r
      → ((find_back test l ≡ some nowhere) × ((test y >>= λ v. some (judge y v)) ≡ some r))
        ⊎ ((find_back test l ≡ some r) × (is_over r ≡ true))
  unfolding find_back
  back_rounds test y l r h = ground (arith, h)

  at_here :
      (test : A → Option Verdict) (y x : A)
      → (test y >>= λ v. some (judge y v)) ≡ some (at x)
      → (y ≡ x) × (test x ≡ some found)
  at_here test y x h = ground (arith, h)

  stop_here :
      (test : A → Option Verdict) (y : A)
      → (test y >>= λ v. some (judge y v)) ≡ some stopped
      → test y ≡ some stop
  stop_here test y h = ground (arith, h)

  -- Behind the element that the loop finds, each round looked further.
  pub find_back-at :
      (test : A → Option Verdict) (l : List A) (x : A)
      → find_back test l ≡ some (at x)
      → (test x ≡ some found) × Last (λ y. test y ≡ some further) x l
  unfolding find_back
  find_back-at test [] x h = cc
  find_back-at test (y ∷ l) x h = elim (back_rounds test y l (at x) h) [
    | inl (rest, here) ↦
        let (same, hit) = at_here test y x here in
        (hit, ([], l, ap (λ z. z ∷ l) same, find_back-nowhere test l rest))
    | inr (rest, looked) ↦
        let (hit, (pre, post, split, after)) = find_back-at test l x rest in
        (hit, (y ∷ pre, post, ap (λ m. y ∷ m) split, after))
  ]

  -- A loop that is stopped looked further in every round before.
  pub find_back-stopped :
      (test : A → Option Verdict) (l : List A)
      → find_back test l ≡ some stopped
      → (x : A) × (test x ≡ some stop) × Last (λ y. test y ≡ some further) x l
  unfolding find_back
  find_back-stopped test [] h = cc
  find_back-stopped test (y ∷ l) h = elim (back_rounds test y l stopped h) [
    | inl (rest, here) ↦ (y, stop_here test y here, ([], l, refl, find_back-nowhere test l rest))
    | inr (rest, looked) ↦
        let (x, end, (pre, post, split, after)) = find_back-stopped test l rest in
        (x, end, (y ∷ pre, post, ap (λ m. y ∷ m) split, after))
  ]

  back_step :
      (test : A → Option Verdict) (y : A) (l : List A) (r : Found A) (v : Verdict)
      → find_back test l ≡ some r
      → test y ≡ some v
      → (r' : Found A) × (find_back test (y ∷ l) ≡ some r')
  unfolding find_back
  back_step test y l (at z) v ran here = (at z, rw ran)
  back_step test y l stopped v ran here = (stopped, rw ran)
  back_step test y l nowhere v ran here = (judge y v, rw (ran, here))

  -- Where no round fails a check, the loop ends.
  pub find_back-total :
      (test : A → Option Verdict) (l : List A)
      → ((y : A) → (v : Verdict) × (test y ≡ some v))
      → (r : Found A) × (find_back test l ≡ some r)
  unfolding find_back
  find_back-total test [] h = (nowhere, refl)
  find_back-total test (y ∷ l) h =
      let (r, ran) = find_back-total test l h in
      let (v, here) = h y in back_step test y l r v ran here
