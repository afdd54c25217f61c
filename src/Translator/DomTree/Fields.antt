-- ===== src/Translator/DomTree/Fields.antt =====
-- What the three passes that build the dominator tree (src/binaryTranslator/dominator.cpp) leave in the
-- fields of the blocks.
use cg_oo_o.Common.{
  ℕ, ◌≡◌, ◌≢◌, refl, ◌⊎◌, inl, inr, true, false, List, [], ◌∷◌, ◌==◌, if◌then◌else◌, count,
  Bool-cases, ==→eq, eq→==, arith,
}
use cg_oo_o.Translator.ListSchedule.{contains, set_insert}
use cg_oo_o.Translator.ListSchedule.Block.{contains-count, count-contains}
use cg_oo_o.Translator.Dominator.Sets.{In, set_insert_self, set_insert_of, set_insert-cases}
use cg_oo_o.Translator.DomTree.{
  TreeInfo, TreeStore, set_difference, insert_all, is_not_parent, not_parents, find_parents,
}

pub count-set_difference :
    (d : ℕ) (xs ys : List ℕ)
    → count d (set_difference xs ys) ≡ (if contains d ys then 0 else count d xs)
unfolding set_difference
count-set_difference d [] ys = ground arith
count-set_difference d (x ∷ xs) ys = elim (Bool-cases (d == x)) [
  | inl same ↦ let eq : d ≡ x = ==→eq d x same in ground (arith, count-set_difference d xs ys, eq)
  | inr other ↦ ground (arith, count-set_difference d xs ys, other)
]

pub insert_all_of : (d : ℕ) (xs s : List ℕ) → In d s → In d (insert_all xs s)
unfolding insert_all
insert_all_of d [] s h = h
insert_all_of d (x ∷ xs) s h = insert_all_of d xs (set_insert x s) (set_insert_of x d s h)

pub insert_all-In : (d : ℕ) (xs s : List ℕ) → In d xs → In d (insert_all xs s)
unfolding insert_all
insert_all-In d [] s h = absurd (omega (arith, h))
insert_all-In d (x ∷ xs) s h = elim (Bool-cases (d == x)) [
  | inl same ↦ insert_all_of d xs (set_insert x s) (rw (==→eq d x same) (set_insert_self x s))
  | inr other ↦ insert_all-In d xs (set_insert x s) (ground (arith, h, other))
]

pub insert_all-cases : (d : ℕ) (xs s : List ℕ) → In d (insert_all xs s) → In d xs ⊎ In d s
unfolding insert_all
insert_all-cases d [] s h = inr h
insert_all-cases d (x ∷ xs) s h = elim (insert_all-cases d xs (set_insert x s) h) [
  | inl at ↦ inl (omega (arith, at))
  | inr at ↦ elim (set_insert-cases x d s at) [
    | inl eq ↦ inl (ground (arith, eq→== d x eq))
    | inr old ↦ inr old
  ]
]

-- Each other strict dominator is one of this block's too.
abbrev pub HasOthers : ℕ → TreeInfo → List ℕ → Type 0
HasOthers d v all = (e : ℕ) → In e all → d ≢ e → In e v.s_dominator_map

is_not_parent-false :
    (d : ℕ) (v : TreeInfo) (all : List ℕ) → is_not_parent d v all ≡ false → HasOthers d v all
unfolding is_not_parent
is_not_parent-false d v [] h e at other = absurd (omega (arith, at))
is_not_parent-false d v (x ∷ all) h e at other = elim (Bool-cases (d == x)) [
  | inl same ↦
      let eq : d ≡ x = ==→eq d x same in
      is_not_parent-false d v all (ground (arith, h, same)) e
        (elim (Bool-cases (e == x)) [
          | inl at_x ↦ absurd (other (rw (==→eq e x at_x) eq))
          | inr not_x ↦ ground (arith, at, not_x)
        ])
        other
  | inr not_d ↦ elim (Bool-cases (contains x (v.s_dominator_map))) [
    | inr missing ↦ absurd (ground (arith, h, not_d, missing))
    | inl has ↦ elim (Bool-cases (e == x)) [
      | inl at_x ↦ rw (==→eq e x at_x) (count-contains x (v.s_dominator_map) has)
      | inr not_x ↦
          is_not_parent-false d v all (ground (arith, h, not_d, has)) e (ground (arith, at, not_x))
            other
    ]
  ]
]

is_not_parent-HasOthers :
    (d : ℕ) (v : TreeInfo) (all : List ℕ) → HasOthers d v all → is_not_parent d v all ≡ false
unfolding is_not_parent
is_not_parent-HasOthers d v [] h = refl
is_not_parent-HasOthers d v (x ∷ all) h =
    let rest = is_not_parent-HasOthers d v all (λ e at other. h e (omega (arith, at)) other) in
    elim (Bool-cases (d == x)) [
      | inl same ↦ ground (arith, same, rest)
      | inr not_d ↦
          let has : contains x v.s_dominator_map ≡ true =
            contains-count x (v.s_dominator_map)
              (h x (ground (arith, eq→== x x refl)) (λ eq. ground (arith, not_d, eq→== d x eq))) in
          ground (arith, not_d, has, rest)
    ]

count-not_parents :
    (t : TreeStore) (all ds acc : List ℕ) (d : ℕ)
    → In d (not_parents t all ds acc)
    → In d acc ⊎ (is_not_parent d (t d) all ≡ true)
unfolding not_parents
count-not_parents t all [] acc d h = inl h
count-not_parents t all (x ∷ ds) acc d h = elim (Bool-cases (is_not_parent x (t x) all)) [
  | inr p ↦ count-not_parents t all ds acc d (rw p at h)
  | inl p ↦ elim (count-not_parents t all ds (set_insert x acc) d (rw p at h)) [
    | inr q ↦ inr q
    | inl at ↦ elim (set_insert-cases x d acc at) [ inl eq ↦ inr (rw eq p) | inr old ↦ inl old ]
  ]
]

not_parents_of :
    (t : TreeStore) (all ds acc : List ℕ) (d : ℕ) → In d acc → In d (not_parents t all ds acc)
unfolding not_parents
not_parents_of t all [] acc d h = h
not_parents_of t all (x ∷ ds) acc d h = elim (Bool-cases (is_not_parent x (t x) all)) [
  | inr p ↦ rw p (not_parents_of t all ds acc d h)
  | inl p ↦ rw p (not_parents_of t all ds (set_insert x acc) d (set_insert_of x d acc h))
]

not_parents-In :
    (t : TreeStore) (all ds acc : List ℕ) (d : ℕ)
    → In d ds
    → is_not_parent d (t d) all ≡ true
    → In d (not_parents t all ds acc)
unfolding not_parents
not_parents-In t all [] acc d h p = absurd (omega (arith, h))
not_parents-In t all (x ∷ ds) acc d h p = elim (Bool-cases (d == x)) [
  | inl same ↦
      let q : is_not_parent x (t x) all ≡ true = rw (← ==→eq d x same) p in
      rw q
        (not_parents_of t all ds (set_insert x acc) d (rw (==→eq d x same) (set_insert_self x acc)))
  | inr other ↦
      not_parents-In t all ds (if is_not_parent x (t x) all then set_insert x acc else acc) d
        (ground (arith, h, other)) p
]

-- The parents that are found are the strict dominators that have all the others.
pub find_parents-cases :
    (t : TreeStore) (n d : ℕ)
    → In d (find_parents t n)
    → (In d (t n).s_dominator_map × HasOthers d (t d) (t n).s_dominator_map)
      ⊎ In d (t n).parents_map
find_parents-cases t n d h =
    let all = (t n).s_dominator_map in
    elim (insert_all-cases d (set_difference all (not_parents t all all [])) ((t n).parents_map)
      h) [
        | inr old ↦ inr old
        | inl new ↦
            let outside : contains d (not_parents t all all []) ≡ false =
              elim (Bool-cases (contains d (not_parents t all all []))) [
                | inr out ↦ out
                | inl inside ↦ absurd (
                    ground
                      (arith, new, count-set_difference d all (not_parents t all all []), inside))
              ] in
            inl (
              ground (arith, new, count-set_difference d all (not_parents t all all []), outside),
              is_not_parent-false d (t d) all (elim (Bool-cases (is_not_parent d (t d) all)) [
                | inr no_parent ↦ no_parent
                | inl p ↦
                    let at : In d all = ground (
                      arith,
                      new,
                      count-set_difference d all (not_parents t all all []),
                      outside,
                    ) in
                    absurd (
                      ground (
                        arith,
                        contains-count d (not_parents t all all [])
                            (not_parents-In t all all [] d at p),
                        outside,
                      ))
              ]),
            )
      ]

pub find_parents-In :
    (t : TreeStore) (n d : ℕ)
    → In d (t n).s_dominator_map
    → HasOthers d (t d) (t n).s_dominator_map
    → In d (find_parents t n)
find_parents-In t n d at others =
    let all = (t n).s_dominator_map in
    let outside : contains d (not_parents t all all []) ≡ false =
      elim (Bool-cases (contains d (not_parents t all all []))) [
        | inr out ↦ out
        | inl inside ↦
            elim (count-not_parents t all all [] d
              (count-contains d (not_parents t all all []) inside)) [
                | inl none_yet ↦ absurd (omega (arith, none_yet))
                | inr p ↦ absurd (ground (arith, p, is_not_parent-HasOthers d (t d) all others))
              ]
      ] in
    insert_all-In d (set_difference all (not_parents t all all [])) ((t n).parents_map)
      (ground (arith, at, count-set_difference d all (not_parents t all all []), outside))
