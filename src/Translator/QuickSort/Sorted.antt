-- ===== src/Translator/QuickSort/Sorted.antt =====
-- The sort (`quicksortLongestPath` of src/binaryTranslator/quickSort.cpp) puts long paths first.
use cg_oo_o.Common.{
  ℕ, zero, suc, ◌+◌, ◌-◌, ◌<◌, ◌≤◌, ◌≡◌, refl, ap, ◌∙◌, inl, inr, true, false, List, [], ◌∷◌, some,
  ltb, ◌==◌, ◌>>=◌, length, count, All, Bool-cases, ltb→lt, ==→eq, arith,
}
use cg_oo_o.Translator.Instruction.{Instruction}
use cg_oo_o.Translator.QuickSort.{partition, quicksort}
use cg_oo_o.Translator.QuickSort.Swap.{addrs, HasPath, path_at}
use cg_oo_o.Translator.QuickSort.Kept.{Kept, Kept-refl, Kept-trans, Kept-wider}
use cg_oo_o.Translator.QuickSort.Partition.{partition_lem}

-- No element of a range has a shorter path than one behind it.
abbrev pub Falls : List Instruction → ℕ → ℕ → Type 0
Falls l lo hi = (i j : ℕ) → lo ≤ i → i ≤ j → j ≤ hi → path_at l j ≤ path_at l i

module _ (f : ℕ) (l l1 l2 l3 : List Instruction) (lo hi n : ℕ) where
  recurses :
      ltb lo hi ≡ true
      → partition l lo hi ≡ some (l1, n)
      → quicksort f l1 lo (n - 1) ≡ some l2
      → quicksort f l2 (n + 1) hi ≡ some l3
      → quicksort (suc f) l lo hi ≡ some l3
  unfolding quicksort
  recurses more p q r = rw (more, quicksort, p, ◌>>=◌, q, r)

stays :
    (f : ℕ) (l : List Instruction) (lo hi : ℕ) → ltb lo hi ≡ false → quicksort f l lo hi ≡ some l
unfolding quicksort
stays zero l lo hi h = rw h
stays (suc f) l lo hi h = rw (h, quicksort)

-- The two halves, each sorted by itself, and the pivot between them.
module _ {l1 l2 l3 : List Instruction} (lo hi n : ℕ) (n1 : lo ≤ n) (n2 : n ≤ hi)
    (front : (i : ℕ) → lo ≤ i → i < n → path_at l1 n ≤ path_at l1 i)
    (back : (i : ℕ) → n < i → i ≤ hi → path_at l1 i ≤ path_at l1 n) (k2 : Kept l1 l2 lo (n - 1))
    (k3 : Kept l2 l3 (n + 1) hi) (s2 : Falls l2 lo (n - 1)) (s3 : Falls l3 (n + 1) hi) where
  at_pivot : (i : ℕ) → n ≡ 0 → i ≤ n - 1 → path_at l1 i ≡ path_at l1 n
  at_pivot i z h = ap (path_at l1) (omega arith)

  pivot_kept : path_at l3 n ≡ path_at l1 n
  pivot_kept = k3.before n (omega arith) ∙ elim (Bool-cases (n == 0)) [
    | inr more ↦ k2.behind n (ground (arith, more))
    | inl none_left ↦
        let z = ==→eq n 0 none_left in
        omega (
          arith,
          k2.at_least (path_at l1 n) (λ i p q. omega (arith, at_pivot i z q)) n n1
              (omega (arith, z)),
          k2.at_most (path_at l1 n) (λ i p q. omega (arith, at_pivot i z q)) n n1
              (omega (arith, z)),
        )
  ]

  front_kept : (i : ℕ) → lo ≤ i → i < n → path_at l1 n ≤ path_at l3 i
  front_kept i p q = omega (
    arith,
    k3.before i (omega arith),
    k2.at_least (path_at l1 n) (λ j x y. front j x (omega arith)) i p (omega arith),
  )

  back_kept : (i : ℕ) → n < i → i ≤ hi → path_at l3 i ≤ path_at l1 n
  back_kept i p q =
      k3.at_most (path_at l1 n)
        (λ j x y. omega (arith, k2.behind j (omega arith), back j (omega arith) y)) i (omega arith)
        q

  front_Falls : (i j : ℕ) → lo ≤ i → i ≤ j → j < n → path_at l3 j ≤ path_at l3 i
  front_Falls i j p q r =
      omega (arith, k3.before i (omega arith), k3.before j (omega arith), s2 i j p q (omega arith))

  halves-Falls : Falls l3 lo hi
  halves-Falls i j p q r = elim (Bool-cases (ltb j n)) [
    | inl low ↦ front_Falls i j p q (ltb→lt j n low)
    | inr high ↦ elim (Bool-cases (ltb n i)) [
      | inl above ↦ s3 i j (omega (arith, ltb→lt n i above)) q r
      | inr below ↦ ground (
        arith,
        pivot_kept,
        high,
        below,
        ap (path_at l3) {x = i} {y = n},
        ap (path_at l3) {x = j} {y = n},
        front_kept i p,
        back_kept j,
      )
    ]
  ]

Falls-point : (l : List Instruction) (lo hi : ℕ) → ltb lo hi ≡ false → Falls l lo hi
Falls-point l lo hi h i j p q r = omega (arith, ap (path_at l) (point i j p q r))
  where
    point : (i j : ℕ) → lo ≤ i → i ≤ j → j ≤ hi → i ≡ j
    point i j p q r = ground (arith, h)

-- The range sorted with the length of it as fuel.
sort_range :
    (f : ℕ) (l : List Instruction) (lo hi : ℕ)
    → All HasPath l
    → hi < length l
    → hi - lo ≤ f
    → (l' : List Instruction) × (quicksort f l lo hi ≡ some l') × Kept l l' lo hi × Falls l' lo hi
sort_range zero l lo hi s len fuel =
    let done : ltb lo hi ≡ false = ground arith in
    (l, stays zero l lo hi done, Kept-refl l lo hi, Falls-point l lo hi done)
sort_range (suc f) l lo hi s len fuel = elim (Bool-cases (ltb lo hi)) [
  | inr done ↦ (l, stays (suc f) l lo hi done, Kept-refl l lo hi, Falls-point l lo hi done)
  | inl more ↦
      let lt = ltb→lt lo hi more in
      let (l1, n, ran, k1, n1, n2, front, back) = partition_lem l lo hi s lt len in
      let (l2, ran2, k2, s2) =
        sort_range f l1 lo (n - 1) (k1.keeps HasPath s) (omega (arith, k1.same_length, n2))
          (omega (arith, n1, n2)) in
      -- The right part may be empty, with its left end behind the list.
      let (l3, ran3, k3, s3) =
        sort_range f l2 (n + 1) hi (k2.keeps HasPath (k1.keeps HasPath s))
          (omega (arith, k1.same_length, k2.same_length)) (omega (arith, n1, n2)) in
      (
        l3,
        recurses f l l1 l2 l3 lo hi n more ran ran2 ran3,
        Kept-trans k1 (
            Kept-trans (Kept-wider k2 lo hi (omega arith) (omega (arith, n2)))
              (Kept-wider k3 lo hi (omega (arith, n1)) (omega arith))),
        halves-Falls lo hi n n1 n2 front back k2 k3 s2 s3,
      )
]

-- On instructions whose longest paths are set, the sort of a whole list fails no check and ends. It
-- keeps the addresses, each as often as it was there, and what holds of every element, and afterwards no instruction has a shorter
-- path than one behind it.
pub quicksort-Falls :
    (l : List Instruction)
    → All HasPath l
    → (l' : List Instruction) × (quicksort (length l) l 0 (length l - 1) ≡ some l')
      × (length l' ≡ length l)
      × ((a : ℕ) → count a (addrs l') ≡ count a (addrs l))
      × ((P : Instruction → Type 0) → All P l → All P l')
      × Falls l' 0 (length l - 1)
quicksort-Falls [] s =
    ([], stays 0 [] 0 0 refl, refl, (λ a. refl), (λ P a. a), Falls-point [] 0 0 refl)
quicksort-Falls (e ∷ l) s =
    let (l', ran, k, falls) =
      sort_range (length (e ∷ l)) (e ∷ l) 0 (length (e ∷ l) - 1) s (omega arith) (omega arith) in
    (l', ran, k.same_length, k.same_addrs, k.keeps, falls)
