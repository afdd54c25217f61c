-- ===== src/Translator/Frontier/Tree.antt =====
-- The tree that the passes before the frontiers build (src/binaryTranslator/dominator.cpp), as the search
-- for the frontiers needs it.
use cg_oo_o.Common.{ℕ, ◌≡◌, ◌↔◌, sym, ◌∙◌, inl, inr, List, arith}
use cg_oo_o.Translator.ListSchedule.Block.{contains-count, count-contains}
use cg_oo_o.Translator.Dominator.{Cfg, Store}
use cg_oo_o.Translator.Dominator.Sets.{In}
use cg_oo_o.Translator.Dominator.Walks.{Walk, Closed}
use cg_oo_o.Translator.Dominator.Stable.{IsRoot, root-Dominates}
use cg_oo_o.Translator.DomTree.{build_strict_dominators, dom_tree}
use cg_oo_o.Translator.DomTree.Order.{IsImmediate}
use cg_oo_o.Translator.DomTree.Built.{fresh_tree, build_idom_lem}
use cg_oo_o.Translator.DomTree.Children.{
  build_dominator_tree-SameParents, build_dominator_tree-cases, build_dominator_tree-Unique,
}
use cg_oo_o.Translator.DomTree.Parents.{
  IsExact, Walk-listed, strict_of, strict_of-Built, strict-Dominates, Parent-IsImmediate, nearest,
  idom_store, childless, children-Parent,
}
use cg_oo_o.Translator.Frontier.Below.{IsTree}

abbrev pub Reached : Cfg → Type 0
Reached g = (n : ℕ) → In n g.bb_list → (l : List ℕ) × Walk g n l

dom_tree-strict :
    (g : Cfg) (s : Store) (n : ℕ) → (dom_tree s g fresh_tree n).s_dominator_map ≡ strict_of g s n
dom_tree-strict g s n =
    let (b, _) =
      build_idom_lem (strict_of g s) g.bb_list (build_strict_dominators s g.bb_list fresh_tree)
        (strict_of-Built g s) in
    let (_, _, k) = build_dominator_tree-SameParents g.bb_list (idom_store g s) n in k ∙ b.same n

children-IsImmediate :
    (g : Cfg)
    → Closed g
    → Reached g
    → (s : Store) → IsExact g s
    → (d c : ℕ)
    → In c (dom_tree s g fresh_tree d).children_map ↔ (In c g.bb_list × IsImmediate g d c)
children-IsImmediate g closed reached s exact d c = (
  λ h. elim (build_dominator_tree-cases g.bb_list (idom_store g s) d c h) [
    | inr old ↦ absurd (omega (arith, rw (childless g s d) at old))
    | inl (at, _) ↦
        let (l, w) = reached c at in
        (
          at,
          (Parent-IsImmediate g closed s exact c l at w d).0 (
              (children-Parent g s c at d).0
                (contains-count c ((dom_tree s g fresh_tree d).children_map) h)),
        )
  ],
  λ (at, i).
      let (l, w) = reached c at in
      count-contains c ((dom_tree s g fresh_tree d).children_map)
        ((children-Parent g s c at d).1 ((Parent-IsImmediate g closed s exact c l at w d).1 i)),
)

pub dom_tree-IsTree :
    (g : Cfg)
    → Closed g
    → (r : ℕ) → IsRoot g r
    → Reached g
    → (s : Store) → IsExact g s
    → IsTree g r (dom_tree s g fresh_tree)
dom_tree-IsTree g closed r root reached s exact = record {
  root = root.listed;
  at_root = root-Dominates g r root;
  reached = reached;
  strict = λ n at d.
      let (l, w) = reached n at in
      let (a, b) = strict-Dominates g s exact n l at w d in
      (λ h. a (rw (dom_tree-strict g s n) at h), λ h. rw (dom_tree-strict g s n) (b h));
  children = children-IsImmediate g closed reached s exact;
  unique =
      build_dominator_tree-Unique g.bb_list (idom_store g s)
        (λ m a. rw (childless g s m) (omega arith));
  immediate = λ n at not_r.
      let (l, w) = reached n at in
      let strict = strict-Dominates g s exact n l at w in
      let (d, i) =
        nearest g n l w (strict_of g s n) strict r
          ((strict r).1 (root-Dominates g r root n, λ eq. not_r (sym eq))) in
      (d, Walk-listed g closed n d l at w (i.dominates l w), i);
}
