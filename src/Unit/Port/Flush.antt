-- ===== src/Unit/Port/Flush.antt =====
-- The two ways in which a port drops squashed instructions (src/backend/unit/port.cpp).
use cg_oo_o.Common.{ℕ, ◌≤◌, ◌≡◌, ap, List, [], ◌∷◌, length, arith}
use cg_oo_o.Common.Back.{pop_while-eq-remove_if, IsMonotone}
use cg_oo_o.Unit.Port.{BuffElement, Port, at_or_after, flush_port, search_n_flush_port}

module _ {ℓ} {A : Type ℓ} (ins_id : A → ℕ) where
  -- The instructions stand in program order.
  abbrev pub InOrder : List (BuffElement A) → Type 0
  InOrder [] = Unit
  InOrder (e ∷ []) = Unit
  InOrder (e ∷ d ∷ b) = (ins_id e.dyn_ins ≤ ins_id d.dyn_ins) × InOrder (d ∷ b)

  InOrder-IsMonotone :
      (seq : ℕ) (b : List (BuffElement A)) → InOrder b → IsMonotone (at_or_after ins_id seq) b
  InOrder-IsMonotone seq [] o = tt
  InOrder-IsMonotone seq (e ∷ []) o = tt
  InOrder-IsMonotone seq (e ∷ d ∷ b) o = (λ h. ground arith, InOrder-IsMonotone seq (d ∷ b) o.1)

  -- On a port in program order the flush from the back, which stops at the first instruction that
  -- is older than the squash, drops exactly the instructions that the flush of the whole port drops.
  pub flush_port-eq-search_n_flush_port :
      (p : Port A) (seq : ℕ)
      → InOrder p.buff
      → flush_port ins_id p seq ≡ search_n_flush_port ins_id p seq
  unfolding flush_port search_n_flush_port
  flush_port-eq-search_n_flush_port p seq o =
      ap (λ b. record p { buff = b })
        (pop_while-eq-remove_if (at_or_after ins_id seq) (length p.buff) p.buff (omega arith)
          (InOrder-IsMonotone seq p.buff o))
