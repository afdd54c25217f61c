-- ===== src/O3/Lsq/Age.antt =====
-- The squash of a queue of src/backend/o3/lsq.cpp, whose entries stand in the order of their ages.
use cg_oo_o.Common.{ℕ, ◌<◌, ◌≡◌, List, [], ◌∷◌, leb, length, arith}
use cg_oo_o.Common.Back.{remove_if, IsMonotone, pop_while-eq-remove_if}
use cg_oo_o.O3.Lsq.{Entry, squash}

-- Oldest first, no number twice.
abbrev pub IsAged : List Entry → Type 0
IsAged [] = Unit
IsAged (e ∷ []) = Unit
IsAged (e ∷ d ∷ l) = (e.element.seq_num < d.element.seq_num) × IsAged (d ∷ l)

IsAged-IsMonotone :
    (seq : ℕ) (l : List Entry) → IsAged l → IsMonotone (λ e. leb seq e.element.seq_num) l
IsAged-IsMonotone seq [] a = tt
IsAged-IsMonotone seq (e ∷ []) a = tt
IsAged-IsMonotone seq (e ∷ d ∷ l) (younger, a) =
    (λ h. ground (arith, h, younger), IsAged-IsMonotone seq (d ∷ l) a)

-- On a queue in the order of age, the squash, which stops at the first entry from the back that stays,
-- removes every entry of the squashed number or a younger one, and no other.
pub squash-eq-remove_if :
    (seq : ℕ) (l : List Entry)
    → IsAged l
    → squash seq l ≡ remove_if (λ e. leb seq e.element.seq_num) l
unfolding squash
squash-eq-remove_if seq l a =
    pop_while-eq-remove_if (λ e. leb seq e.element.seq_num) (length l) l (omega arith)
      (IsAged-IsMonotone seq l a)
