-- ===== src/Translator/QuickSort.antt =====
-- The sort of a block's instructions by their longest path (src/binaryTranslator/quickSort.cpp), on
-- the `List` of src/binaryTranslator/list.h, whose `Nth`, `RemoveAt` and `InsertAt` check the index.
-- A right end of -1, that of an empty list or left of a pivot at 0, is 0 here: both are not above
-- the left end 0, and the call returns. Each loop runs on fuel: the distance between its two
-- indices, which it makes smaller in every round.
pub mod Swap
pub mod Kept
pub mod Scans
pub mod Partition
pub mod Sorted
use cg_oo_o.Common.{
  ℕ, zero, suc, ◌+◌, ◌-◌, true, false, List, [], ◌∷◌, Option, none, some, ltb, leb, if◌then◌else◌,
  assert, ◌>>=◌, ◌>>◌, length, get_elem?, erase_idx,
}
use cg_oo_o.Translator.Instruction.{Instruction, get_longest_path}

-- `InsertAt`, for an index that is not above the length.
abbrev pub insert_idx : List Instruction → ℕ → Instruction → List Instruction
insert_idx xs zero e = e ∷ xs
insert_idx [] (suc i) e = []
insert_idx (x ∷ xs) (suc i) e = x ∷ insert_idx xs i e

abbrev pub remove_at : List Instruction → ℕ → Option (List Instruction)
remove_at l i = do assert (ltb i (length l)); some (erase_idx l i)

abbrev pub insert_at : List Instruction → Instruction → ℕ → Option (List Instruction)
insert_at l e i = do assert (leb i (length l)); some (insert_idx l i e)

unfoldable pub swap : List Instruction → ℕ → ℕ → Option (List Instruction)
swap l x y = do
  temp_x ← get_elem? l x
  temp_y ← get_elem? l y
  l1 ← remove_at l x
  l2 ← insert_at l1 temp_y x
  l3 ← remove_at l2 y
  insert_at l3 temp_x y

-- `list->Nth (i)->getLongestPath ()`
unfoldable pub nth_path : List Instruction → ℕ → Option ℕ
nth_path l i = do e ← get_elem? l i; get_longest_path e

-- `do { left++; } while (left < right && …)`
unfoldable pub scan_left : ℕ → List Instruction → ℕ → ℕ → ℕ → Option ℕ
scan_left zero l pivot left right = none
scan_left (suc f) l pivot left right =
    if ltb (left + 1) right
    then (nth_path l (left + 1) >>= λ p. elim (ltb pivot p) [
      | true ↦ scan_left f l pivot (left + 1) right
      | false ↦ some (left + 1)
    ])
    else some (left + 1)

-- `while (… < pivotValue) right--;`
unfoldable pub scan_right : List Instruction → ℕ → ℕ → Option ℕ
scan_right l pivot zero = do p ← nth_path l 0; assert (leb pivot p); some 0
scan_right l pivot (suc r) = nth_path l (suc r) >>= λ p. elim (ltb p pivot) [
  | true ↦ scan_right l pivot r
  | false ↦ some (suc r)
]

-- The outer loop, and the `right` after it.
unfoldable pub partition_loop : ℕ → List Instruction → ℕ → ℕ → ℕ → Option (List Instruction × ℕ)
partition_loop zero l pivot left right = none
partition_loop (suc f) l pivot left right = scan_left (right - left) l pivot left right >>= λ left'.
    scan_right l pivot right >>= λ right'. elim (ltb left' right') [
      | true ↦ swap l left' right' >>= λ l'. partition_loop f l' pivot left' right'
      | false ↦ some (l, right')
    ]

unfoldable pub partition : List Instruction → ℕ → ℕ → Option (List Instruction × ℕ)
partition l left right = nth_path l left >>= λ pivot.
    partition_loop (right - left) l pivot left right >>= λ (l', right').
    swap l' left right' >>= λ l''. some (l'', right')

unfoldable pub quicksort : ℕ → List Instruction → ℕ → ℕ → Option (List Instruction)
quicksort zero l left right = if ltb left right then none else some l
quicksort (suc f) l left right = elim (ltb left right) [
  | true ↦ partition l left right >>= λ (l1, pivot).
      quicksort f l1 left (pivot - 1) >>= λ l2. quicksort f l2 (pivot + 1) right
  | false ↦ some l
]
