-- ===== src/Translator/DomTree/Parents.antt =====
-- The parents that the passes of src/binaryTranslator/dominator.cpp find are the immediate dominators.
use cg_oo_o.Common.{
  ℕ, ◌≡◌, ◌≢◌, ◌↔◌, refl, sym, ◌∙◌, inl, inr, true, false, List, [], ◌∷◌, ◌==◌, Bool-cases, ==→eq,
  eq→==, arith,
}
use cg_oo_o.Translator.ListSchedule.{contains}
use cg_oo_o.Translator.ListSchedule.Block.{contains-count, count-contains}
use cg_oo_o.Translator.Dominator.{Cfg, Store}
use cg_oo_o.Translator.Dominator.Sets.{In}
use cg_oo_o.Translator.Dominator.Walks.{Walk, start, extend, Dominates, Closed}
use cg_oo_o.Translator.DomTree.{TreeStore, build_strict_dominators, build_idom, dom_tree}
use cg_oo_o.Translator.DomTree.Order.{upto_walk, Dominates-refl, IsImmediate, nearest_of}
use cg_oo_o.Translator.DomTree.Built.{
  fresh_tree, Parent, Built, build_strict_dominators-cases, build_strict_dominators-In,
  build_strict_dominators-others, build_idom_lem, build_idom-children,
}
use cg_oo_o.Translator.DomTree.Children.{
  build_dominator_tree-SameParents, build_dominator_tree-cases, build_dominator_tree-In,
}

-- The sets of the blocks that walks reach are those of their dominators.
abbrev pub IsExact : Cfg → Store → Type 0
IsExact g s =
    (n : ℕ)
    → In n g.bb_list
    → (l : List ℕ) → Walk g n l
    → ((s n).dom_set_is_all ≡ false)
      × ((d : ℕ) → (contains d (s n).dominator_map ≡ true) ↔ Dominates g d n)

pub Walk-listed :
    (g : Cfg)
    → Closed g
    → (n d : ℕ) (l : List ℕ) → In n g.bb_list
    → Walk g n l
    → In d l
    → In d g.bb_list
Walk-listed g closed n d l at (start m _ e) h = elim (Bool-cases (d == n)) [
  | inl same ↦ rw (==→eq d n same) at
  | inr other ↦ absurd (ground (arith, h, other))
]
Walk-listed g closed n d l at (extend p m l' w q) h = elim (Bool-cases (d == n)) [
  | inl same ↦ rw (==→eq d n same) at
  | inr other ↦ Walk-listed g closed p d l' (closed n at p q) w (ground (arith, h, other))
]

abbrev pub strict_of : Cfg → Store → ℕ → List ℕ
strict_of g s n = (build_strict_dominators s g.bb_list fresh_tree n).s_dominator_map

-- The strict dominators of a block that a walk reaches.
pub strict-Dominates :
    (g : Cfg) (s : Store)
    → IsExact g s
    → (n : ℕ) (l : List ℕ) → In n g.bb_list
    → Walk g n l
    → (d : ℕ) → In d (strict_of g s n) ↔ (Dominates g d n × (d ≢ n))
strict-Dominates g s exact n l at w d =
    let (_, both) = exact n at l w in
    (
      λ h. elim (build_strict_dominators-cases s g.bb_list fresh_tree n d h) [
        | inl (k, other) ↦ ((both d).0 (contains-count d ((s n).dominator_map) k), other)
        | inr none_yet ↦ absurd (omega (arith, none_yet))
      ],
      λ (h, other).
          build_strict_dominators-In s g.bb_list fresh_tree n d
            (inl (at, (count-contains d ((s n).dominator_map) ((both d).1 h), other))),
    )

pub Parent-IsImmediate :
    (g : Cfg)
    → Closed g
    → (s : Store) → IsExact g s
    → (n : ℕ) (l : List ℕ) → In n g.bb_list
    → Walk g n l
    → (d : ℕ) → Parent (strict_of g s) n d ↔ IsImmediate g d n
Parent-IsImmediate g closed s exact n l at w d = (
  λ (h, others).
      let (dom, not_n) = (strict-Dominates g s exact n l at w d).0 h in
      let u = upto_walk g n d l w (dom l w) in
      let listed = Walk-listed g closed n d l at w (dom l w) in
      record {
        other = not_n;
        dominates = dom;
        nearest = λ e e_not_n e_dom. elim (Bool-cases (d == e)) [
          | inl same ↦ rw (← ==→eq d e same) (Dominates-refl g d)
          | inr not_e ↦
              let k =
                others e ((strict-Dominates g s exact n l at w e).1 (e_dom, e_not_n))
                  (λ eq. ground (arith, not_e, eq→== d e eq)) in
              ((strict-Dominates g s exact d u.blocks listed u.walk e).0 k).0
        ];
      },
  λ h.
      let u = upto_walk g n d l w (h.dominates l w) in
      let listed = Walk-listed g closed n d l at w (h.dominates l w) in
      (
        (strict-Dominates g s exact n l at w d).1 (h.dominates, h.other),
        λ e k not_e.
            let (e_dom, e_not_n) = (strict-Dominates g s exact n l at w e).0 k in
            (strict-Dominates g s exact d u.blocks listed u.walk e).1
              (h.nearest e e_not_n e_dom, λ eq. not_e (sym eq)),
      ),
)

-- A block that has a strict dominator has a nearest one.
pub nearest :
    (g : Cfg) (n : ℕ) (l : List ℕ)
    → Walk g n l
    → (xs : List ℕ) → ((e : ℕ) → In e xs ↔ (Dominates g e n × (e ≢ n)))
    → (x : ℕ) → In x xs
    → (d : ℕ) × IsImmediate g d n
nearest g n l w [] h x at = absurd (omega (arith, at))
nearest g n l w (y ∷ ys) h x at =
    let (d, here, near) = nearest_of g n l w y ys (λ e k. ((h e).0 k).0) in
    (
      d,
      record {
        other = ((h d).0 here).1;
        dominates = ((h d).0 here).0;
        nearest = λ e other dom. near e ((h e).1 (dom, other));
      },
    )

pub strict_of-Built :
    (g : Cfg) (s : Store) → Built (strict_of g s) (build_strict_dominators s g.bb_list fresh_tree)
strict_of-Built g s = record {
  same = λ m. refl;
  parents = λ m d h.
      let (p, _, _) = build_strict_dominators-others s g.bb_list fresh_tree m in
      absurd (omega (arith, rw p at h));
  idoms = λ m d h.
      let (_, i, _) = build_strict_dominators-others s g.bb_list fresh_tree m in
      absurd (omega (arith, rw i at h));
}

abbrev pub idom_store : Cfg → Store → TreeStore
idom_store g s = build_idom g.bb_list (build_strict_dominators s g.bb_list fresh_tree)

-- The fields of a block of the list after the last pass.
pub idom_set-Parent :
    (g : Cfg) (s : Store) (n : ℕ)
    → In n g.bb_list
    → (e : ℕ)
    → (contains e (dom_tree s g fresh_tree n).idom_set ≡ true) ↔ Parent (strict_of g s) n e
idom_set-Parent g s n at e =
    let (b, finds) =
      build_idom_lem (strict_of g s) g.bb_list (build_strict_dominators s g.bb_list fresh_tree)
        (strict_of-Built g s) in
    let (_, i, _) = build_dominator_tree-SameParents g.bb_list (idom_store g s) n in
    (
      λ h. b.idoms n e (count-contains e ((idom_store g s n).idom_set) (rw i at h)),
      λ p. rw i (contains-count e ((idom_store g s n).idom_set) (finds n e (inl (at, p))).1),
    )

pub childless : (g : Cfg) (s : Store) (e : ℕ) → (idom_store g s e).children_map ≡ []
childless g s e =
    let (_, _, c) = build_strict_dominators-others s g.bb_list fresh_tree e in
    build_idom-children g.bb_list (build_strict_dominators s g.bb_list fresh_tree) e ∙ c

pub children-Parent :
    (g : Cfg) (s : Store) (n : ℕ)
    → In n g.bb_list
    → (e : ℕ)
    → (contains n (dom_tree s g fresh_tree e).children_map ≡ true) ↔ Parent (strict_of g s) n e
children-Parent g s n at e =
    let (b, finds) =
      build_idom_lem (strict_of g s) g.bb_list (build_strict_dominators s g.bb_list fresh_tree)
        (strict_of-Built g s) in
    (
      λ h.
          elim (build_dominator_tree-cases g.bb_list (idom_store g s) e n
            (count-contains n ((dom_tree s g fresh_tree e).children_map) h)) [
              | inl (_, p) ↦ b.parents n e p
              | inr old ↦ absurd (omega (arith, rw (childless g s e) at old))
            ],
      λ p. contains-count n ((dom_tree s g fresh_tree e).children_map) (
          build_dominator_tree-In g.bb_list (idom_store g s) e n
            (inl (at, (finds n e (inl (at, p))).0))),
    )
