-- ===== src/Translator/DomTree/Children.antt =====
-- What `build_dominator_tree` (src/binaryTranslator/dominator.cpp) leaves in the blocks.
use cg_oo_o.Common.{
  ℕ, ◌≡◌, refl, ◌∙◌, ◌⊎◌, inl, inr, List, [], ◌∷◌, ◌==◌, Bool-cases, ==→eq, eq→==, arith,
}
use cg_oo_o.Translator.ListSchedule.{set_insert}
use cg_oo_o.Translator.Dominator.{update}
use cg_oo_o.Translator.Dominator.Sets.{
  In, Unique, set_insert_self, set_insert_of, set_insert-cases, set_insert-Unique,
}
use cg_oo_o.Translator.DomTree.{TreeStore, add_child, build_dom_tree, build_dominator_tree}

-- The fields that this pass reads are not changed.
abbrev pub SameParents : TreeStore → TreeStore → Type 0
SameParents t t' =
    (m : ℕ)
    → ((t' m).parents_map ≡ (t m).parents_map)
      × ((t' m).idom_set ≡ (t m).idom_set)
      × ((t' m).s_dominator_map ≡ (t m).s_dominator_map)

add-SameParents : (n d : ℕ) (t : TreeStore) → SameParents t (update t d (add_child n (t d)))
unfolding add_child
add-SameParents n d t m = elim (Bool-cases (m == d)) [
  | inl same ↦ let eq : m ≡ d = ==→eq m d same in rw (eq, eq→== d d refl) (refl, refl, refl)
  | inr other ↦ rw other (refl, refl, refl)
]

build_dom_tree-SameParents :
    (n : ℕ) (ds : List ℕ) (t : TreeStore) → SameParents t (build_dom_tree n ds t)
unfolding build_dom_tree
build_dom_tree-SameParents n [] t m = (refl, refl, refl)
build_dom_tree-SameParents n (d ∷ ds) t m =
    let (p, i, k) = build_dom_tree-SameParents n ds (update t d (add_child n (t d))) m in
    let (q, j, l) = add-SameParents n d t m in (p ∙ q, i ∙ j, k ∙ l)

add-cases :
    (n d : ℕ) (t : TreeStore) (e c : ℕ)
    → In c (update t d (add_child n (t d)) e).children_map
    → ((c ≡ n) × (e ≡ d)) ⊎ In c (t e).children_map
unfolding add_child
add-cases n d t e c h = elim (Bool-cases (e == d)) [
  | inr other ↦ inr (rw other at h)
  | inl same ↦
      let eq : e ≡ d = ==→eq e d same in
      let k : In c (set_insert n ((t d).children_map)) = rw (eq, eq→== d d refl) at h in
      elim (set_insert-cases n c ((t d).children_map) k) [
        | inl new ↦ inl (new, eq)
        | inr old ↦ inr (rw eq old)
      ]
]

add-In :
    (n d : ℕ) (t : TreeStore) (e c : ℕ)
    → ((c ≡ n) × (e ≡ d)) ⊎ In c (t e).children_map
    → In c (update t d (add_child n (t d)) e).children_map
unfolding add_child
add-In n d t e c (inl (new, eq)) =
    rw (eq, eq→== d d refl, new) (set_insert_self n ((t d).children_map))
add-In n d t e c (inr old) = elim (Bool-cases (e == d)) [
  | inr other ↦ rw other old
  | inl same ↦
      let eq : e ≡ d = ==→eq e d same in
      rw (eq, eq→== d d refl) (set_insert_of n c ((t d).children_map) (rw eq at old))
]

build_dom_tree-cases :
    (n : ℕ) (ds : List ℕ) (t : TreeStore) (e c : ℕ)
    → In c (build_dom_tree n ds t e).children_map
    → ((c ≡ n) × In e ds) ⊎ In c (t e).children_map
unfolding build_dom_tree
build_dom_tree-cases n [] t e c h = inr h
build_dom_tree-cases n (d ∷ ds) t e c h =
    elim (build_dom_tree-cases n ds (update t d (add_child n (t d))) e c h) [
      | inl (eq, at) ↦ inl (eq, omega (arith, at))
      | inr old ↦ elim (add-cases n d t e c old) [
        | inl (eq, at) ↦ inl (eq, ground (arith, eq→== e d at))
        | inr older ↦ inr older
      ]
    ]

build_dom_tree-In :
    (n : ℕ) (ds : List ℕ) (t : TreeStore) (e c : ℕ)
    → ((c ≡ n) × In e ds) ⊎ In c (t e).children_map
    → In c (build_dom_tree n ds t e).children_map
unfolding build_dom_tree
build_dom_tree-In n [] t e c (inl (_, at)) = absurd (omega (arith, at))
build_dom_tree-In n [] t e c (inr old) = old
build_dom_tree-In n (d ∷ ds) t e c (inr old) =
    build_dom_tree-In n ds (update t d (add_child n (t d))) e c (inr (add-In n d t e c (inr old)))
build_dom_tree-In n (d ∷ ds) t e c (inl (eq, at)) =
    build_dom_tree-In n ds (update t d (add_child n (t d))) e c (elim (Bool-cases (e == d)) [
      | inl same ↦ inr (add-In n d t e c (inl (eq, ==→eq e d same)))
      | inr other ↦ inl (eq, ground (arith, at, other))
    ])

pub build_dominator_tree-SameParents :
    (ns : List ℕ) (t : TreeStore) → SameParents t (build_dominator_tree ns t)
unfolding build_dominator_tree
build_dominator_tree-SameParents [] t m = (refl, refl, refl)
build_dominator_tree-SameParents (n ∷ ns) t m =
    let (p, i, k) =
      build_dominator_tree-SameParents ns (build_dom_tree n ((t n).parents_map) t) m in
    let (q, j, l) = build_dom_tree-SameParents n ((t n).parents_map) t m in (p ∙ q, i ∙ j, k ∙ l)

-- A block becomes a child of each of its parents, and of no other block.
pub build_dominator_tree-cases :
    (ns : List ℕ) (t : TreeStore) (e c : ℕ)
    → In c (build_dominator_tree ns t e).children_map
    → (In c ns × In e (t c).parents_map) ⊎ In c (t e).children_map
unfolding build_dominator_tree
build_dominator_tree-cases [] t e c h = inr h
build_dominator_tree-cases (n ∷ ns) t e c h =
    elim (build_dominator_tree-cases ns (build_dom_tree n ((t n).parents_map) t) e c h) [
      | inl (at, p) ↦
          let (q, _, _) = build_dom_tree-SameParents n ((t n).parents_map) t c in
          inl (omega (arith, at), rw (← q) p)
      | inr old ↦ elim (build_dom_tree-cases n ((t n).parents_map) t e c old) [
        | inl (eq, at) ↦ inl (ground (arith, eq→== c n eq), rw eq at)
        | inr older ↦ inr older
      ]
    ]

pub build_dominator_tree-In :
    (ns : List ℕ) (t : TreeStore) (e c : ℕ)
    → (In c ns × In e (t c).parents_map) ⊎ In c (t e).children_map
    → In c (build_dominator_tree ns t e).children_map
unfolding build_dominator_tree
build_dominator_tree-In [] t e c (inl (at, _)) = absurd (omega (arith, at))
build_dominator_tree-In [] t e c (inr old) = old
build_dominator_tree-In (n ∷ ns) t e c h =
    let step = build_dom_tree-In n ((t n).parents_map) t e c in
    build_dominator_tree-In ns (build_dom_tree n ((t n).parents_map) t) e c (elim h [
      | inr old ↦ inr (step (inr old))
      | inl (at, p) ↦ elim (Bool-cases (c == n)) [
        | inl same ↦ let eq : c ≡ n = ==→eq c n same in inr (step (inl (eq, rw eq at p)))
        | inr other ↦
            let (q, _, _) = build_dom_tree-SameParents n ((t n).parents_map) t c in
            inl (ground (arith, at, other), rw q p)
      ]
    ])

-- The children are a set.
build_dom_tree-Unique :
    (n : ℕ) (ds : List ℕ) (t : TreeStore)
    → ((m : ℕ) → Unique (t m).children_map)
    → (m : ℕ) → Unique (build_dom_tree n ds t m).children_map
unfolding build_dom_tree add_child
build_dom_tree-Unique n [] t u m = u m
build_dom_tree-Unique n (d ∷ ds) t u m =
    build_dom_tree-Unique n ds (update t d (add_child n (t d))) after m
  where
    after : (k : ℕ) → Unique (update t d (add_child n (t d)) k).children_map
    after k = elim (Bool-cases (k == d)) [
      | inl same ↦
          let eq : k ≡ d = ==→eq k d same in
          rw (eq, eq→== d d refl) (set_insert-Unique n ((t d).children_map) (u d))
      | inr other ↦ rw other (u k)
    ]

pub build_dominator_tree-Unique :
    (ns : List ℕ) (t : TreeStore)
    → ((m : ℕ) → Unique (t m).children_map)
    → (m : ℕ) → Unique (build_dominator_tree ns t m).children_map
unfolding build_dominator_tree
build_dominator_tree-Unique [] t u m = u m
build_dominator_tree-Unique (n ∷ ns) t u m =
    build_dominator_tree-Unique ns (build_dom_tree n ((t n).parents_map) t)
      (build_dom_tree-Unique n ((t n).parents_map) t u) m
