-- ===== src/Translator/DomTree/Built.antt =====
-- What the passes for the strict and the immediate dominators (src/binaryTranslator/dominator.cpp) leave
-- in the blocks.
use cg_oo_o.Common.{
  ℕ, ◌≡◌, ◌≢◌, refl, ◌⊎◌, inl, inr, List, [], ◌∷◌, ◌==◌, Bool-cases, ==→eq, eq→==, arith,
}
use cg_oo_o.Translator.Dominator.{Store, update}
use cg_oo_o.Translator.Dominator.Sets.{In}
use cg_oo_o.Translator.DomTree.{
  TreeInfo, TreeStore, set_difference, insert_all, build_s_dominators, find_parents,
  build_immediate_dominators, build_strict_dominators, build_idom,
}
use cg_oo_o.Translator.DomTree.Fields.{
  count-set_difference, insert_all_of, insert_all-In, insert_all-cases, find_parents-cases,
  find_parents-In,
}

abbrev pub fresh_tree : TreeStore
fresh_tree n = record { s_dominator_map = []; parents_map = []; idom_set = []; children_map = [] }

abbrev pub Strict : Store → ℕ → ℕ → Type 0
Strict doms n d = In d (doms n).dominator_map × (d ≢ n)

build_s_dominators-cases :
    (doms : Store) (n : ℕ) (v : TreeInfo) (d : ℕ)
    → In d (build_s_dominators doms n v).s_dominator_map
    → Strict doms n d ⊎ In d v.s_dominator_map
unfolding build_s_dominators
build_s_dominators-cases doms n v d h =
    let dom = (doms n).dominator_map in
    elim (insert_all-cases d (set_difference dom (n ∷ [])) v.s_dominator_map h) [
      | inr old ↦ inr old
      | inl new ↦ inl (
        ground (arith, new, count-set_difference d dom (n ∷ [])),
        λ eq. ground (arith, new, count-set_difference d dom (n ∷ []), eq→== d n eq),
      )
    ]

build_s_dominators-In :
    (doms : Store) (n : ℕ) (v : TreeInfo) (d : ℕ)
    → Strict doms n d ⊎ In d v.s_dominator_map
    → In d (build_s_dominators doms n v).s_dominator_map
unfolding build_s_dominators
build_s_dominators-In doms n v d (inl (at, other)) =
    insert_all-In d (set_difference ((doms n).dominator_map) (n ∷ [])) v.s_dominator_map
      (elim (Bool-cases (d == n)) [
        | inl same ↦ absurd (other (==→eq d n same))
        | inr not_n ↦
            ground (arith, at, count-set_difference d ((doms n).dominator_map) (n ∷ []), not_n)
      ])
build_s_dominators-In doms n v d (inr old) =
    insert_all_of d (set_difference ((doms n).dominator_map) (n ∷ [])) v.s_dominator_map old

pub build_strict_dominators-cases :
    (doms : Store) (ns : List ℕ) (t : TreeStore) (m d : ℕ)
    → In d (build_strict_dominators doms ns t m).s_dominator_map
    → Strict doms m d ⊎ In d (t m).s_dominator_map
unfolding build_strict_dominators
build_strict_dominators-cases doms [] t m d h = inr h
build_strict_dominators-cases doms (n ∷ ns) t m d h =
    elim (build_strict_dominators-cases doms ns (update t n (build_s_dominators doms n (t n))) m d
      h) [
        | inl new ↦ inl new
        | inr old ↦ elim (Bool-cases (m == n)) [
          | inl same ↦
              rw (==→eq m n same) (
                build_s_dominators-cases doms n (t n) d
                  (rw (==→eq m n same, eq→== n n refl) at old))
          | inr other ↦ inr (rw other at old)
        ]
      ]

pub build_strict_dominators-In :
    (doms : Store) (ns : List ℕ) (t : TreeStore) (m d : ℕ)
    → (In m ns × Strict doms m d) ⊎ In d (t m).s_dominator_map
    → In d (build_strict_dominators doms ns t m).s_dominator_map
unfolding build_strict_dominators
build_strict_dominators-In doms [] t m d (inl (at, _)) = absurd (omega (arith, at))
build_strict_dominators-In doms [] t m d (inr old) = old
build_strict_dominators-In doms (n ∷ ns) t m d h =
    build_strict_dominators-In doms ns (update t n (build_s_dominators doms n (t n))) m d
      (elim (Bool-cases (m == n)) [
        | inl same ↦
            let eq : m ≡ n = ==→eq m n same in
            inr (
              rw (eq, eq→== n n refl)
                (build_s_dominators-In doms n (t n) d
                  (elim h [ inl (_, new) ↦ inl (rw eq at new) | inr old ↦ inr (rw eq at old) ])))
        | inr other ↦ elim h [
          | inl (at, new) ↦ inl (ground (arith, at, other), new)
          | inr old ↦ inr (rw other old)
        ]
      ])

-- What that pass leaves alone.
pub build_strict_dominators-others :
    (doms : Store) (ns : List ℕ) (t : TreeStore) (m : ℕ)
    → ((build_strict_dominators doms ns t m).parents_map ≡ (t m).parents_map)
      × ((build_strict_dominators doms ns t m).idom_set ≡ (t m).idom_set)
      × ((build_strict_dominators doms ns t m).children_map ≡ (t m).children_map)
unfolding build_strict_dominators build_s_dominators
build_strict_dominators-others doms [] t m = (refl, refl, refl)
build_strict_dominators-others doms (n ∷ ns) t m =
    let (p, i, c) =
      build_strict_dominators-others doms ns (update t n (build_s_dominators doms n (t n))) m in
    elim (Bool-cases (m == n)) [
      | inl same ↦
          let eq : m ≡ n = ==→eq m n same in
          (ground (arith, p, same, eq), ground (arith, i, same, eq), ground (arith, c, same, eq))
      | inr other ↦ (ground (arith, p, other), ground (arith, i, other), ground (arith, c, other))
    ]

-- A strict dominator that has all the others, in given strict dominators.
abbrev pub Parent : (ℕ → List ℕ) → ℕ → ℕ → Type 0
Parent strict n d = In d (strict n) × ((e : ℕ) → In e (strict n) → d ≢ e → In e (strict d))

-- The fields hold nothing else.
pub record Built (strict : ℕ → List ℕ) (t : TreeStore) : Type 0 where
  pub same : (m : ℕ) → (t m).s_dominator_map ≡ strict m
  pub parents : (m d : ℕ) → In d (t m).parents_map → Parent strict m d
  pub idoms : (m d : ℕ) → In d (t m).idom_set → Parent strict m d

found-Parent :
    (strict : ℕ → List ℕ) (t : TreeStore)
    → Built strict t
    → (n d : ℕ) → In d (find_parents t n)
    → Parent strict n d
found-Parent strict t b n d h = elim (find_parents-cases t n d h) [
  | inr old ↦ b.parents n d old
  | inl (at, others) ↦
      (rw (← b.same n) at, λ e k not_e. rw (← b.same d) (others e (rw (b.same n) k) not_e))
]

Parent-found :
    (strict : ℕ → List ℕ) (t : TreeStore)
    → Built strict t
    → (n d : ℕ) → Parent strict n d
    → In d (find_parents t n)
Parent-found strict t b n d (at, others) =
    find_parents-In t n d (rw (b.same n) at)
      (λ e k not_e. rw (b.same d) (others e (rw (← b.same n) k) not_e))

Built-update :
    (strict : ℕ → List ℕ) (t : TreeStore)
    → Built strict t
    → (n : ℕ) → Built strict (update t n (build_immediate_dominators t n))
unfolding build_immediate_dominators
Built-update strict t b n = record {
  same = λ m. elim (Bool-cases (m == n)) [
    | inl same ↦ let eq : m ≡ n = ==→eq m n same in rw (eq, eq→== n n refl) (b.same n)
    | inr other ↦ rw other (b.same m)
  ];
  parents = λ m d h. elim (Bool-cases (m == n)) [
    | inl same ↦
        let eq : m ≡ n = ==→eq m n same in
        rw eq (found-Parent strict t b n d (rw (eq, eq→== n n refl) at h))
    | inr other ↦ b.parents m d (rw other at h)
  ];
  idoms = λ m d h. elim (Bool-cases (m == n)) [
    | inl same ↦
        let eq : m ≡ n = ==→eq m n same in
        let k : In d (insert_all (find_parents t n) ((t n).idom_set)) =
          rw (eq, eq→== n n refl) at h in
        elim (insert_all-cases d (find_parents t n) ((t n).idom_set) k) [
          | inl new ↦ rw eq (found-Parent strict t b n d new)
          | inr old ↦ rw eq (b.idoms n d old)
        ]
    | inr other ↦ b.idoms m d (rw other at h)
  ];
}

-- The block is in both fields.
abbrev pub InBoth : ℕ → TreeInfo → Type 0
InBoth d v = In d v.parents_map × In d v.idom_set

update-InBoth :
    (strict : ℕ → List ℕ) (t : TreeStore)
    → Built strict t
    → (n m d : ℕ) → ((m ≡ n) × Parent strict m d) ⊎ InBoth d (t m)
    → InBoth d (update t n (build_immediate_dominators t n) m)
unfolding build_immediate_dominators
update-InBoth strict t b n m d (inl (eq, p)) =
    let at : In d (find_parents t n) = Parent-found strict t b n d (rw eq at p) in
    rw (eq, eq→== n n refl) (at, insert_all-In d (find_parents t n) ((t n).idom_set) at)
update-InBoth strict t b n m d (inr (p, i)) = elim (Bool-cases (m == n)) [
  | inr other ↦ rw other (p, i)
  | inl same ↦
      let eq : m ≡ n = ==→eq m n same in
      let at : In d (find_parents t n) = Parent-found strict t b n d (b.parents n d (rw eq at p)) in
      rw (eq, eq→== n n refl) (at, insert_all-In d (find_parents t n) ((t n).idom_set) at)
]

pub build_idom_lem :
    (strict : ℕ → List ℕ) (ns : List ℕ) (t : TreeStore)
    → Built strict t
    → Built strict (build_idom ns t)
      × ((m d : ℕ) → (In m ns × Parent strict m d) ⊎ InBoth d (t m) → InBoth d (build_idom ns t m))
unfolding build_idom
build_idom_lem strict [] t b =
    (b, λ m d h. elim h [ inl (at, _) ↦ absurd (omega (arith, at)) | inr old ↦ old ])
build_idom_lem strict (n ∷ ns) t b =
    let (b', rest) =
      build_idom_lem strict ns (update t n (build_immediate_dominators t n))
        (Built-update strict t b n) in
    (
      b',
      λ m d h. rest m d (elim h [
        | inr old ↦ inr (update-InBoth strict t b n m d (inr old))
        | inl (at, p) ↦ elim (Bool-cases (m == n)) [
          | inl same ↦ inr (update-InBoth strict t b n m d (inl (==→eq m n same, p)))
          | inr other ↦ inl (ground (arith, at, other), p)
        ]
      ]),
    )

-- It leaves the children alone.
pub build_idom-children :
    (ns : List ℕ) (t : TreeStore) (m : ℕ) → (build_idom ns t m).children_map ≡ (t m).children_map
unfolding build_idom build_immediate_dominators
build_idom-children [] t m = refl
build_idom-children (n ∷ ns) t m =
    let rest = build_idom-children ns (update t n (build_immediate_dominators t n)) m in
    elim (Bool-cases (m == n)) [
      | inl same ↦ let eq : m ≡ n = ==→eq m n same in ground (arith, rest, same, eq)
      | inr other ↦ ground (arith, rest, other)
    ]
