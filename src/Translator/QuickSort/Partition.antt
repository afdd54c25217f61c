-- ===== src/Translator/QuickSort/Partition.antt =====
-- The partition of a range about its first element (`partitionLongestPath` of
-- src/binaryTranslator/quickSort.cpp).
use cg_oo_o.Common.{
  ℕ, zero, suc, ◌-◌, ◌<◌, ◌≤◌, ◌≡◌, refl, ◌∙◌, inl, inr, true, false, List, some, ltb, leb, ◌==◌,
  ◌>>=◌, length, All, Bool-cases, leb→le, ltb→lt, arith,
}
use cg_oo_o.Translator.Instruction.{Instruction}
use cg_oo_o.Translator.QuickSort.{swap, scan_left, scan_right, partition_loop, partition}
use cg_oo_o.Translator.QuickSort.Swap.{HasPath, path_at, nth_path-some, Swapped, swap-Swapped}
use cg_oo_o.Translator.QuickSort.Kept.{Kept, Kept-refl, Kept-trans, swap-Kept}
use cg_oo_o.Translator.QuickSort.Scans.{scan_left_lem, scan_right_lem}

-- What the outer loop starts from, and ends with: the pivot at `lo`, what is not below it on its
-- right up to `left`, and what is not above it behind `right`.
pub record Around (l : List Instruction) (pivot lo left right hi : ℕ) : Type 0 where
  pub own : path_at l lo ≡ pivot
  pub front : (i : ℕ) → lo < i → i ≤ left → pivot ≤ path_at l i
  pub back : (i : ℕ) → right < i → i ≤ hi → path_at l i ≤ pivot

-- The exchange of the two elements that the scans stopped at.
swap-Around :
    {l l' : List Instruction} {pivot lo left right hi : ℕ} (m n : ℕ)
    → Around l pivot lo left right hi
    → Swapped l l' m n
    → lo ≤ left
    → left < m
    → m < n
    → n ≤ right
    → right ≤ hi
    → ((i : ℕ) → left < i → i < m → pivot ≤ path_at l i)
    → path_at l m ≤ pivot
    → ((i : ℕ) → n < i → i ≤ right → path_at l i ≤ pivot)
    → pivot ≤ path_at l n
    → Around l' pivot lo m n hi
swap-Around {lo} {left} {right} m n a s h1 h2 h3 h4 h5 passed low passed' high = record {
  own = ground (arith, s.paths lo, a.own);
  front = λ i p q. elim (Bool-cases (leb i left)) [
    | inl old ↦ ground (arith, s.paths i, a.front i p (leb→le i left old))
    | inr new ↦ elim (Bool-cases (ltb i m)) [
      | inl inside ↦ ground (arith, s.paths i, passed i (ground (arith, new)) (ltb→lt i m inside))
      | inr at ↦ ground (arith, s.paths i)
    ]
  ];
  back = λ i p q. elim (Bool-cases (leb i right)) [
    | inl new ↦ ground (arith, s.paths i, passed' i p (leb→le i right new))
    | inr old ↦ ground (arith, s.paths i, a.back i (ground (arith, old)) q)
  ];
}

module _ (pivot lo hi : ℕ) where
  -- One round that exchanges, and one that ends the loop.
  module _ (f : ℕ) (l l' : List Instruction) (left right m n : ℕ)
      (scanned : scan_left (right - left) l pivot left right ≡ some m)
      (scanned' : scan_right l pivot right ≡ some n) where
    loop-goes :
        ltb m n ≡ true
        → swap l m n ≡ some l'
        → partition_loop (suc f) l pivot left right ≡ partition_loop f l' pivot m n
    unfolding partition_loop
    loop-goes more swapped = rw (scanned, scanned', ◌>>=◌, more, swapped)

    loop-ends : ltb m n ≡ false → partition_loop (suc f) l pivot left right ≡ some (l, n)
    unfolding partition_loop
    loop-ends done = rw (scanned, scanned', ◌>>=◌, done)

  loop_lem :
      (f : ℕ) (l : List Instruction) (left right : ℕ)
      → All HasPath l
      → lo ≤ left
      → left < right
      → right ≤ hi
      → hi < length l
      → right - left ≤ f
      → Around l pivot lo left right hi
      → (l' : List Instruction) × (n : ℕ) × (partition_loop f l pivot left right ≡ some (l', n))
        × Kept l l' lo hi
        × (lo ≤ n)
        × (n ≤ hi)
        × ((i : ℕ) → lo < i → i < n → pivot ≤ path_at l' i)
        × ((i : ℕ) → n < i → i ≤ hi → path_at l' i ≤ pivot)
        × (pivot ≤ path_at l' n)
        × (path_at l' lo ≡ pivot)
  loop_lem zero l left right s h1 h2 h3 len fuel a = absurd (omega arith)
  loop_lem (suc f) l left right s h1 h2 h3 len fuel a =
      let (m, ran, m1, m2, passed, low) =
        scan_left_lem (right - left) l pivot left right s h2 (omega arith) (omega arith) in
      let (n, ran', n1, n2, passed', high) =
        scan_right_lem l pivot lo right s (omega arith) (omega arith) a.own in
      elim (Bool-cases (ltb m n)) [
        | inl more ↦
            let mn = ltb→lt m n more in
            let (l', swapped, sw) =
              swap-Swapped l m n (omega (arith, mn, n2)) (omega (arith, n2)) in
            let a' =
              swap-Around m n a sw h1 m1 mn n2 h3 passed (low (omega (arith, mn, n2))) passed'
                high in
            let (l'', p, ran'', k, p1, p2, front, back, high', own) =
              loop_lem f l' m n (sw.keeps HasPath s) (omega (arith, m1)) mn (omega (arith, n2))
                (omega (arith, sw.same_length)) (omega (arith, m1, mn, n2)) a' in
            (
              l'',
              p,
              loop-goes f l l' left right m n ran ran' more swapped ∙ ran'',
              Kept-trans
                  (swap-Kept m n lo hi sw (omega (arith, m1)) (omega (arith, mn, n2))
                    (omega (arith, m1, mn)) (omega (arith, n2)))
                  k,
              p1,
              p2,
              front,
              back,
              high',
              own,
            )
        | inr done ↦
            let stop : n ≤ m = ground (arith, done) in
            (
              l,
              n,
              loop-ends f l l left right m n ran ran' done,
              Kept-refl l lo hi,
              n1,
              omega (arith, n2),
              (λ i p q. elim (Bool-cases (leb i left)) [
                | inl old ↦ a.front i p (leb→le i left old)
                | inr new ↦ passed i (ground (arith, new)) (omega (arith, q, stop))
              ]),
              (λ i p q. elim (Bool-cases (leb i right)) [
                | inl new ↦ passed' i p (leb→le i right new)
                | inr old ↦ a.back i (ground (arith, old)) q
              ]),
              high,
              a.own,
            )
      ]

-- The partition fails no check and moves the elements of the range so that the one at the place it
-- answers with is not above those before it and not below those behind it.
pub partition_lem :
    (l : List Instruction) (lo hi : ℕ)
    → All HasPath l
    → lo < hi
    → hi < length l
    → (l' : List Instruction) × (n : ℕ) × (partition l lo hi ≡ some (l', n))
      × Kept l l' lo hi
      × (lo ≤ n)
      × (n ≤ hi)
      × ((i : ℕ) → lo ≤ i → i < n → path_at l' n ≤ path_at l' i)
      × ((i : ℕ) → n < i → i ≤ hi → path_at l' i ≤ path_at l' n)
unfolding partition
partition_lem l lo hi s h len =
    let pivot = path_at l lo in
    let got = nth_path-some l lo s (omega arith) in
    let start : Around l pivot lo lo hi hi = record {
      own = refl;
      front = λ i p q. absurd (omega arith);
      back = λ i p q. absurd (omega arith);
    } in
    let (l1, n, ran, k, n1, n2, front, back, high, own) =
      loop_lem pivot lo hi (hi - lo) l lo hi s (omega arith) h (omega arith) len (omega arith)
        start in
    let (l2, swapped, sw) =
      swap-Swapped l1 lo n (omega (arith, k.same_length)) (omega (arith, n2, k.same_length)) in
    let placed : path_at l2 n ≡ pivot = ground (arith, sw.paths n, own) in
    (
      l2,
      n,
      rw (got, ran, swapped),
      Kept-trans k (swap-Kept lo n lo hi sw (omega arith) (omega arith) n1 n2),
      n1,
      n2,
      (λ i p q. elim (Bool-cases (i == lo)) [
        | inl first ↦ ground (arith, sw.paths i, placed, high, first)
        | inr other ↦ ground (arith, sw.paths i, placed, front i (ground (arith, other)) q)
      ]),
      (λ i p q. ground (arith, sw.paths i, placed, back i p q)),
    )
