-- ===== src/Translator/Dominator/Exact.antt =====
-- The sets in which `build_dominators` (src/binaryTranslator/dominator.cpp) ends, where one block has
-- no ancestors.
use cg_oo_o.Common.{
  ℕ, suc, ◌+◌, ◌*◌, ◌≡◌, ◌↔◌, inl, inr, true, false, List, some, length, eq→==, arith,
}
use cg_oo_o.Translator.ListSchedule.{contains}
use cg_oo_o.Translator.ListSchedule.Block.{contains-count, count-contains}
use cg_oo_o.Translator.Dominator.{Cfg, Store, init_all, build_dominators}
use cg_oo_o.Translator.Dominator.Sets.{In}
use cg_oo_o.Translator.Dominator.Walks.{
  Walk, start, extend, Dominates, Closed, Inv, fresh, init_all-Inv,
}
use cg_oo_o.Translator.Dominator.Passes.{Ended, passes_lem, total_le}
use cg_oo_o.Translator.Dominator.Stable.{IsRoot, Stable, pass-Stable}

-- What stands in a set stands on every walk.
walk_lem :
    (g : Cfg)
    → Closed g
    → (s : Store) → Inv g s
    → ((n : ℕ) → In n g.bb_list → Stable g s n (s n))
    → (n : ℕ) (l : List ℕ) → In n g.bb_list
    → Walk g n l
    → ((s n).dom_set_is_all ≡ false) × ((d : ℕ) → In d (s n).dominator_map → In d l)
walk_lem g closed s inv stable n l at (start m _ e) =
    let (_, own, self) = (inv n at).entry ((inv n at).of_entry e) in (own, λ d h. rw self at h)
walk_lem g closed s inv stable n l at (extend p m l' w q) =
    let (own_p, on_p) = walk_lem g closed s inv stable p l' (closed n at p q) w in
    let (covered, owns) = stable n at in
    (
      owns p q own_p,
      λ d h. elim (covered (owns p q own_p) d h) [
        | inl self ↦ ground (arith, eq→== d n self)
        | inr k ↦ omega (arith, on_p d (k p q own_p))
      ],
    )

Ended-Dominates :
    (g : Cfg)
    → Closed g
    → (r : ℕ) → IsRoot g r
    → (s : Store) → Ended g s
    → (n : ℕ) → In n g.bb_list
    → (l : List ℕ) → Walk g n l
    → ((s n).dom_set_is_all ≡ false)
      × ((d : ℕ) → (contains d (s n).dominator_map ≡ true) ↔ Dominates g d n)
Ended-Dominates g closed r root s e n at l w =
    let (_, stable) =
      pass-Stable g closed r root g.bb_list (λ m k. k) e.before s e.before_Inv e.last in
    let (own, _) = walk_lem g closed s e.inv stable n l at w in
    (
      own,
      λ d. (
        λ h k v.
            let (_, on) = walk_lem g closed s e.inv stable n k at v in
            on d (count-contains d ((s n).dominator_map) h),
        λ h. contains-count d ((s n).dominator_map) ((e.inv n at).kept own d h),
      ),
    )

-- In a closed graph whose one block without ancestors is the root, `build_dominators` ends within
-- N * (N + 2) + 1 passes over its N blocks, and leaves each block that a walk from the root reaches
-- with a set that is not marked as all blocks, and that holds just the blocks that stand on every
-- such walk.
pub build_dominators-Dominates :
    (g : Cfg)
    → Closed g
    → (r : ℕ) → IsRoot g r
    → (s : Store) × (build_dominators (suc (length g.bb_list * (length g.bb_list + 2))) g fresh
        ≡ some s)
      × ((n : ℕ)
          → In n g.bb_list
          → (l : List ℕ) → Walk g n l
          → ((s n).dom_set_is_all ≡ false)
            × ((d : ℕ) → (contains d (s n).dominator_map ≡ true) ↔ Dominates g d n))
unfolding build_dominators
build_dominators-Dominates g closed r root =
    let inv = init_all-Inv g in
    let (s, result, ended) =
      passes_lem (suc (length g.bb_list * (length g.bb_list + 2))) g closed
        (init_all g g.bb_list fresh) inv
        (omega (arith, total_le g (init_all g g.bb_list fresh) inv g.bb_list (λ n at. at))) in
    (s, result, Ended-Dominates g closed r root s ended)
