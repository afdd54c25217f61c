-- ===== src/Translator/DomTree/Unique.antt =====
-- The tree that the passes of src/binaryTranslator/dominator.cpp build: each block but the root is the
-- child of its immediate dominator.
use cg_oo_o.Common.{
  ℕ, suc, ◌+◌, ◌*◌, ◌≡◌, ◌≢◌, ◌↔◌, sym, inl, inr, true, false, List, [], ◌∷◌, ◌==◌, some, length,
  Bool-cases, ==→eq, arith,
}
use cg_oo_o.Translator.ListSchedule.{contains}
use cg_oo_o.Translator.Dominator.{Cfg, Store, build_dominators}
use cg_oo_o.Translator.Dominator.Sets.{In}
use cg_oo_o.Translator.Dominator.Walks.{Walk, start, Closed, fresh}
use cg_oo_o.Translator.Dominator.Stable.{IsRoot, root-Dominates}
use cg_oo_o.Translator.Dominator.Exact.{build_dominators-Dominates}
use cg_oo_o.Translator.DomTree.{dom_tree}
use cg_oo_o.Translator.DomTree.Order.{IsImmediate, IsImmediate-unique}
use cg_oo_o.Translator.DomTree.Built.{fresh_tree, Parent}
use cg_oo_o.Translator.DomTree.Parents.{
  strict_of, strict-Dominates, Parent-IsImmediate, nearest, idom_set-Parent, children-Parent,
}

-- In a closed graph whose one block without ancestors is the root, with the dominators that
-- `build_dominators` ends with, the passes for strict dominators, immediate dominators and the tree
-- leave the root without an immediate dominator, and every other block that a walk reaches with just
-- one: its nearest strict dominator, which is the one block that has it as a child.
pub dom_tree-IsImmediate :
    (g : Cfg)
    → Closed g
    → (r : ℕ) → IsRoot g r
    → (s : Store) × (build_dominators (suc (length g.bb_list * (length g.bb_list + 2))) g fresh
        ≡ some s)
      × ((e : ℕ) → (contains e (dom_tree s g fresh_tree r).idom_set) ≡ false)
      × ((n : ℕ)
          → In n g.bb_list
          → n ≢ r
          → (l : List ℕ) → Walk g n l
          → (d : ℕ) × IsImmediate g d n
            × ((e : ℕ) → (contains e (dom_tree s g fresh_tree n).idom_set ≡ true) ↔ (e ≡ d))
            × ((e : ℕ) → (contains n (dom_tree s g fresh_tree e).children_map ≡ true) ↔ (e ≡ d)))
dom_tree-IsImmediate g closed r root =
    let (s, result, exact) = build_dominators-Dominates g closed r root in
    (
      s,
      result,
      λ e. elim (Bool-cases (contains e ((dom_tree s g fresh_tree r).idom_set))) [
        | inr none_there ↦ none_there
        | inl h ↦
            let p = (idom_set-Parent g s r root.listed e).0 h in
            let w = start r root.listed root.entry in
            let k = (strict-Dominates g s exact r (r ∷ []) root.listed w e).0 p.0 in
            absurd (k.1 (on_root e r (k.0 (r ∷ []) w)))
      ],
      λ n at not_r l w.
          let strict = strict-Dominates g s exact n l at w in
          let (d, is_d) =
            nearest g n l w (strict_of g s n) strict r
              ((strict r).1 (root-Dominates g r root n, λ eq. not_r (sym eq))) in
          let same : (e : ℕ) → Parent (strict_of g s) n e ↔ (e ≡ d) = λ e. (
            λ p.
                IsImmediate-unique g e d n l w
                  ((Parent-IsImmediate g closed s exact n l at w e).0 p) is_d,
            λ eq. (Parent-IsImmediate g closed s exact n l at w e).1 (rw eq is_d),
          ) in
          (
            d,
            is_d,
            λ e. (
              λ h. (same e).0 ((idom_set-Parent g s n at e).0 h),
              λ eq. (idom_set-Parent g s n at e).1 ((same e).1 eq),
            ),
            λ e. (
              λ h. (same e).0 ((children-Parent g s n at e).0 h),
              λ eq. (children-Parent g s n at e).1 ((same e).1 eq),
            ),
          ),
    )
  where
    on_root : (e r : ℕ) → In e (r ∷ []) → e ≡ r
    on_root e r h = ground (arith, h, ==→eq e r, Bool-cases (e == r))
