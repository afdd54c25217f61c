-- ===== src/Tests/Dominating.antt =====
-- The dominators and the dominator tree of the translator at two concrete graphs.
use cg_oo_o.Common.{
  ℕ, inl, inr, Bool-cases, ==→eq, ◌≡◌, ◌≢◌, ◌↔◌, refl, true, false, List, [], ◌∷◌, some, ◌==◌,
  if◌then◌else◌, arith,
}
use cg_oo_o.Translator.ListSchedule.{contains, set_insert}
use cg_oo_o.Translator.Dominator.{
  Cfg, Store, visit, pass, passes, find_intersection, intersect_rest, intersect, set_dominators,
  set_dominators_self, init_block, init_all, build_dominators,
}
use cg_oo_o.Translator.Dominator.Sets.{In}
use cg_oo_o.Translator.Dominator.Walks.{Closed, Walk, start, extend, Dominates, fresh}
use cg_oo_o.Translator.Frontier.{DfStore, build_dominance_frontier}
use cg_oo_o.Translator.Frontier.Tree.{Reached}
use cg_oo_o.Translator.Frontier.Exact.{IsAtFrontier, build_dominance_frontier-IsAtFrontier}
use cg_oo_o.Translator.DomTree.{dom_tree}
use cg_oo_o.Translator.DomTree.Order.{IsImmediate}
use cg_oo_o.Translator.DomTree.Built.{fresh_tree}
use cg_oo_o.Translator.DomTree.Unique.{dom_tree-IsImmediate}
use cg_oo_o.Translator.Dominator.Stable.{IsRoot}
use cg_oo_o.Translator.Dominator.Exact.{build_dominators-Dominates}

-- A branch and its join, with a way back from the join to one side.
abbrev diamond : Cfg
diamond = record {
  bb_list = 0 ∷ 1 ∷ 2 ∷ 3 ∷ [];
  ancestors = λ n.
      if n == 1 then 0 ∷ 3 ∷ [] else if n == 2 then 0 ∷ [] else if n == 3 then 1 ∷ 2 ∷ [] else [];
}

diamond-Closed : Closed diamond
diamond-Closed n at p h = ground (arith, at, h)

diamond-IsRoot : IsRoot diamond 0
diamond-IsRoot = record {
  listed = omega arith;
  entry = refl;
  only = λ n at e. ground (arith, at, e);
}

build_dominators-Dominates_example :
    (s : Store) × (build_dominators 25 diamond fresh ≡ some s)
    × ((n : ℕ)
        → In n (0 ∷ 1 ∷ 2 ∷ 3 ∷ [])
        → (l : List ℕ) → Walk diamond n l
        → ((s n).dom_set_is_all ≡ false)
          × ((d : ℕ) → (contains d (s n).dominator_map ≡ true) ↔ Dominates diamond d n))
build_dominators-Dominates_example =
    build_dominators-Dominates diamond diamond-Closed 0 diamond-IsRoot

dom_tree-IsImmediate_example :
    (s : Store) × (build_dominators 25 diamond fresh ≡ some s)
    × ((e : ℕ) → (contains e (dom_tree s diamond fresh_tree 0).idom_set) ≡ false)
    × ((n : ℕ)
        → In n (0 ∷ 1 ∷ 2 ∷ 3 ∷ [])
        → n ≢ 0
        → (l : List ℕ) → Walk diamond n l
        → (d : ℕ) × IsImmediate diamond d n
          × ((e : ℕ) → (contains e (dom_tree s diamond fresh_tree n).idom_set ≡ true) ↔ (e ≡ d))
          × ((e : ℕ)
              → (contains n (dom_tree s diamond fresh_tree e).children_map ≡ true) ↔ (e ≡ d)))
dom_tree-IsImmediate_example = dom_tree-IsImmediate diamond diamond-Closed 0 diamond-IsRoot

abbrev descendants : ℕ → List ℕ
descendants n =
    if n == 0
    then 1 ∷ 2 ∷ []
    else if n == 1
    then 3 ∷ []
    else if n == 2
    then 3 ∷ []
    else if n == 3
    then 1 ∷ []
    else []

walk_0 : Walk diamond 0 (0 ∷ [])
walk_0 = start 0 (omega arith) refl

walk_1 : Walk diamond 1 (1 ∷ 0 ∷ [])
walk_1 = extend 0 1 (0 ∷ []) walk_0 (omega arith)

diamond-Reached : Reached diamond
diamond-Reached n at = elim (Bool-cases (n == 0)) [
  | inl n_0 ↦ (0 ∷ [], rw (==→eq n 0 n_0) walk_0)
  | inr not_0 ↦ elim (Bool-cases (n == 1)) [
    | inl n_1 ↦ (1 ∷ 0 ∷ [], rw (==→eq n 1 n_1) walk_1)
    | inr not_1 ↦ elim (Bool-cases (n == 2)) [
      | inl n_2 ↦ (2 ∷ 0 ∷ [], rw (==→eq n 2 n_2) (extend 0 2 (0 ∷ []) walk_0 (omega arith)))
      | inr not_2 ↦
          let n_3 : n ≡ 3 =
            ground (arith, at, not_0, not_1, not_2, ==→eq n 3, Bool-cases (n == 3)) in
          (3 ∷ 1 ∷ 0 ∷ [], rw n_3 (extend 1 3 (1 ∷ 0 ∷ []) walk_1 (omega arith)))
    ]
  ]
]

build_dominance_frontier-IsAtFrontier_example :
    (s : Store) × (s' : DfStore) × (build_dominators 25 diamond fresh ≡ some s)
    × (build_dominance_frontier 4
          (dom_tree s diamond fresh_tree)
          descendants
          diamond
          (λ n. record { visited = true; dominance_frontier = [] })
        ≡ some s')
    × ((n : ℕ)
        → In n (0 ∷ 1 ∷ 2 ∷ 3 ∷ [])
        → ((s' n).visited ≡ false)
          × ((u : ℕ)
              → (contains u (s' n).dominance_frontier ≡ true)
                ↔ IsAtFrontier diamond descendants n u))
build_dominance_frontier-IsAtFrontier_example =
    build_dominance_frontier-IsAtFrontier diamond diamond-Closed (λ a. ground arith) 0
      diamond-IsRoot diamond-Reached descendants (λ p at u h. ground (arith, at, h))
      (λ n. record { visited = true; dominance_frontier = [] })

-- Two entry points, 4 and 5, join at 1, which alone leads to 0; the list has the joins first.
abbrev two_entries : Cfg
two_entries = record {
  bb_list = 0 ∷ 1 ∷ 2 ∷ 3 ∷ 4 ∷ 5 ∷ [];
  ancestors = λ n.
      if n == 0
      then 1 ∷ []
      else if n == 1
      then 2 ∷ 3 ∷ []
      else if n == 2
      then 4 ∷ []
      else if n == 3
      then 5 ∷ []
      else [];
}

-- The loop ends with block 0 still marked as dominated by all blocks, and block 1 not in its set.
two_entries-lost :
    (s : Store) × (build_dominators 49 two_entries fresh ≡ some s)
    × ((s 0).dom_set_is_all ≡ true)
    × (contains 1 (s 0).dominator_map ≡ false)
unfolding build_dominators init_all init_block set_dominators_self set_insert passes pass visit
    find_intersection intersect_rest intersect set_dominators
two_entries-lost = (_, refl, refl, refl)

-- Yet block 1 stands on every walk to block 0.
two_entries-Dominates : Dominates two_entries 1 0
two_entries-Dominates l (start n at e) = cc
two_entries-Dominates l (extend p n l' w at) = by_last p l' (ground (arith, at)) w
  where
    by_last : (p : ℕ) (l' : List ℕ) → p ≡ 1 → Walk two_entries p l' → In 1 (0 ∷ l')
    by_last p l' e (start q at none_before) = ground (arith, e)
    by_last p l' e (extend o q m w at) = ground (arith, e)
