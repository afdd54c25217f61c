-- ===== src/Translator/QuickSort/Scans.antt =====
-- The two scans of the partition (src/binaryTranslator/quickSort.cpp).
use cg_oo_o.Common.{
  ℕ, zero, suc, ◌+◌, ◌-◌, ◌<◌, ◌≤◌, ◌≡◌, sym, ap, ◌∙◌, inl, inr, true, false, List, some, ltb, ◌==◌,
  ◌>>=◌, length, All, Bool-cases, le→leb, ltb→lt, ==→eq, arith,
}
use cg_oo_o.Translator.Instruction.{Instruction}
use cg_oo_o.Translator.QuickSort.{nth_path, scan_left, scan_right}
use cg_oo_o.Translator.QuickSort.Swap.{HasPath, path_at, nth_path-some}

-- One round of a scan.
module _ (f : ℕ) (l : List Instruction) (pivot left right p : ℕ) where
  scan_left-goes :
      ltb (left + 1) right ≡ true
      → nth_path l (left + 1) ≡ some p
      → ltb pivot p ≡ true
      → scan_left (suc f) l pivot left right ≡ scan_left f l pivot (left + 1) right
  unfolding scan_left
  scan_left-goes more got go = rw (more, got, ◌>>=◌, go)

  scan_left-stops :
      ltb (left + 1) right ≡ true
      → nth_path l (left + 1) ≡ some p
      → ltb pivot p ≡ false
      → scan_left (suc f) l pivot left right ≡ some (left + 1)
  unfolding scan_left
  scan_left-stops more got go = rw (more, got, ◌>>=◌, go)

module _ (l : List Instruction) (pivot r p : ℕ) where
  scan_right-goes :
      nth_path l (suc r) ≡ some p
      → ltb p pivot ≡ true
      → scan_right l pivot (suc r) ≡ scan_right l pivot r
  unfolding scan_right
  scan_right-goes got go = rw (got, ◌>>=◌, go)

  scan_right-stops :
      nth_path l (suc r) ≡ some p → ltb p pivot ≡ false → scan_right l pivot (suc r) ≡ some (suc r)
  unfolding scan_right
  scan_right-stops got go = rw (got, ◌>>=◌, go)

-- The scan from the left stops right of where it began, at the right end or at an element that is
-- not above the pivot; all that it passed is.
pub scan_left_lem :
    (f : ℕ) (l : List Instruction) (pivot left right : ℕ)
    → All HasPath l
    → left < right
    → right < length l
    → right - left ≤ f
    → (m : ℕ) × (scan_left f l pivot left right ≡ some m)
      × (left < m)
      × (m ≤ right)
      × ((i : ℕ) → left < i → i < m → pivot ≤ path_at l i)
      × (m < right → path_at l m ≤ pivot)
unfolding scan_left
scan_left_lem zero l pivot left right s h len fuel = absurd (omega arith)
scan_left_lem (suc f) l pivot left right s h len fuel = elim (Bool-cases (ltb (left + 1) right)) [
  | inr last ↦ (
    left + 1,
    rw last,
    omega arith,
    omega arith,
    λ i p q. absurd (omega arith),
    λ q. absurd (ground (arith, last)),
  )
  | inl more ↦
      let got = nth_path-some l (left + 1) s (omega arith) in
      elim (Bool-cases (ltb pivot (path_at l (left + 1)))) [
        | inr stop ↦ (
          left + 1,
          scan_left-stops f l pivot left right (path_at l (left + 1)) more got stop,
          omega arith,
          omega arith,
          λ i p q. absurd (omega arith),
          λ q. ground (arith, stop),
        )
        | inl go ↦
            let (m, ran, a, b, passed, stopped) =
              scan_left_lem f l pivot (left + 1) right s (ltb→lt (left + 1) right more) len
                (omega arith) in
            (
              m,
              scan_left-goes f l pivot left right (path_at l (left + 1)) more got go ∙ ran,
              omega (arith, a),
              b,
              (λ i p q. elim (Bool-cases (i == left + 1)) [
                | inl same ↦ rw (==→eq i (left + 1) same) (ground (arith, go))
                | inr other ↦ passed i (ground (arith, other)) q
              ]),
              stopped,
            )
      ]
]

-- The scan from the right stops at the pivot's own place at the latest.
pub scan_right_lem :
    (l : List Instruction) (pivot orig right : ℕ)
    → All HasPath l
    → orig ≤ right
    → right < length l
    → path_at l orig ≡ pivot
    → (m : ℕ) × (scan_right l pivot right ≡ some m)
      × (orig ≤ m)
      × (m ≤ right)
      × ((i : ℕ) → m < i → i ≤ right → path_at l i ≤ pivot)
      × (pivot ≤ path_at l m)
unfolding scan_right
scan_right_lem l pivot orig zero s h len own =
    let got = nth_path-some l 0 s len in
    let place : orig ≡ 0 = omega arith in
    let low : path_at l 0 ≡ pivot = ap (path_at l) (sym place) ∙ own in
    (
      0,
      rw (got, le→leb pivot (path_at l 0) (omega (arith, low))),
      omega arith,
      omega arith,
      λ i p q. absurd (omega arith),
      omega (arith, low),
    )
scan_right_lem l pivot orig (suc r) s h len own =
    let got = nth_path-some l (suc r) s len in
    elim (Bool-cases (ltb (path_at l (suc r)) pivot)) [
      | inr stop ↦ (
        suc r,
        scan_right-stops l pivot r (path_at l (suc r)) got stop,
        h,
        omega arith,
        λ i p q. absurd (omega arith),
        ground (arith, stop),
      )
      | inl go ↦ elim (Bool-cases (orig == suc r)) [
        | inl same ↦ absurd (ground (arith, own, go, ap (path_at l) (==→eq orig (suc r) same)))
        | inr other ↦
            let (m, ran, a, b, passed, stopped) =
              scan_right_lem l pivot orig r s (ground (arith, other)) (omega arith) own in
            (
              m,
              scan_right-goes l pivot r (path_at l (suc r)) got go ∙ ran,
              a,
              omega (arith, b),
              (λ i p q. elim (Bool-cases (i == suc r)) [
                | inl same ↦ rw (==→eq i (suc r) same) (ground (arith, go))
                | inr different ↦ passed i p (ground (arith, different))
              ]),
              stopped,
            )
      ]
    ]
