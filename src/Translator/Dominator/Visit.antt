-- ===== src/Translator/Dominator/Visit.antt =====
-- A visit of a block by the loop of `build_dominators` (src/binaryTranslator/dominator.cpp): it
-- keeps the invariant, and lowers a measure when it reports a change.
use cg_oo_o.Common.{
  ℕ, ◌+◌, ◌-◌, ◌≤◌, ◌≡◌, refl, ◌⊎◌, inl, inr, Bool, true, false, not, List, [], ◌∷◌, ◌==◌,
  if◌then◌else◌, some, none, length, Bool-cases, Option-cases, eq→==, count, length-append, arith,
}
use cg_oo_o.Common.Counting.{length_le_of_count}
use cg_oo_o.Translator.ListSchedule.{contains, set_insert}
use cg_oo_o.Translator.ListSchedule.Block.{contains-count}
use cg_oo_o.Translator.Dominator.{
  Cfg, DomInfo, Store, set_dominators_self, set_dominators, has_other, find_intersection, visit,
}
use cg_oo_o.Translator.Dominator.Sets.{
  In, Unique, InAll, IsIntersection, find_intersection-some, set_insert_self, set_insert_of,
  set_insert-cases, set_insert-Unique, has_other-some,
}
use cg_oo_o.Translator.Dominator.Walks.{Dominates-ancestor, Closed, At, Inv, Shrunk, Shrunk-refl}

-- The three ways through the body of the loop.
pub visit_entry :
    (g : Cfg) (s : Store) (n : ℕ) → (s n).entry_point ≡ true → visit g s n ≡ (false, s n)
unfolding visit
visit_entry g s n h = ground (arith, h)

abbrev pub with_self : ℕ → DomInfo → DomInfo
with_self n v = record v { dominator_map = set_insert n v.dominator_map }

pub visit_alone :
    (g : Cfg) (s : Store) (n : ℕ)
    → (s n).entry_point ≡ false
    → find_intersection s (g.ancestors n) ≡ none
    → visit g s n ≡ (not (contains n (s n).dominator_map), with_self n (s n))
unfolding visit set_dominators_self set_insert
visit_alone g s n h k = elim (Bool-cases (contains n ((s n).dominator_map))) [
  | inl old ↦ ground (arith, h, k, old)
  | inr new ↦ ground (arith, h, k, new)
]

abbrev pub with_set : ℕ → List ℕ → DomInfo → DomInfo
with_set n i v = record v { dom_set_is_all = false; dominator_map = set_insert n i }

abbrev pub reported : ℕ → List ℕ → DomInfo → Bool
reported n i v =
    if length v.dominator_map == length (set_insert n i)
    then has_other v.dominator_map (set_insert n i)
    else true

pub visit_intersection :
    (g : Cfg) (s : Store) (n : ℕ) (i : List ℕ)
    → (s n).entry_point ≡ false
    → find_intersection s (g.ancestors n) ≡ some i
    → visit g s n ≡ (reported n i (s n), with_set n i (s n))
unfolding visit set_dominators
visit_intersection g s n i h k = ground (arith, h, k)

-- What a block must satisfy after the visit.
abbrev pub Keeps : Cfg → Store → ℕ → DomInfo → Type 0
Keeps g s n w = At g s n w × Shrunk (s n) w

alone-Keeps :
    (g : Cfg) (s : Store) (n : ℕ)
    → In n g.bb_list
    → (s n).entry_point ≡ false
    → At g s n (s n)
    → Keeps g s n (with_self n (s n))
alone-Keeps g s n at inner a = (
  record {
    entry = λ h. absurd (ground (arith, h, inner));
    of_entry = a.of_entry;
    unique = set_insert-Unique n ((s n).dominator_map) a.unique;
    listed = λ d h. elim (set_insert-cases n d ((s n).dominator_map) h) [
      | inl self ↦ rw self at
      | inr old ↦ a.listed d old
    ];
    all_self = λ all d h. elim (set_insert-cases n d ((s n).dominator_map) h) [
      | inl self ↦ self
      | inr old ↦ a.all_self all d old
    ];
    kept = λ own d h. set_insert_of n d ((s n).dominator_map) (a.kept own d h);
    shrinks = λ _ own d h. set_insert_of n d ((s n).dominator_map) (a.shrinks inner own d h);
  },
  λ own. (
    own,
    λ d h. elim (set_insert-cases n d ((s n).dominator_map) h) [
      | inl self ↦ a.shrinks inner own d (inl self)
      | inr old ↦ old
    ],
  ),
)

-- The new set holds the block and what all ancestors hold.
covered-In :
    (s : Store) (n d : ℕ) (ps i : List ℕ)
    → IsIntersection s ps i
    → (d ≡ n) ⊎ InAll s d ps
    → In d (set_insert n i)
covered-In s n d ps i f (inl self) = rw self (set_insert_self n i)
covered-In s n d ps i f (inr k) = set_insert_of n d i (f.of_all d k)

pub In-covered :
    (s : Store) (n d : ℕ) (ps i : List ℕ)
    → IsIntersection s ps i
    → In d (set_insert n i)
    → (d ≡ n) ⊎ InAll s d ps
In-covered s n d ps i f h = elim (set_insert-cases n d i h) [
  | inl self ↦ inl self
  | inr old ↦ inr (f.in_all d old)
]

some-Keeps :
    (g : Cfg)
    → Closed g
    → (s : Store) → Inv g s
    → (n : ℕ) (i : List ℕ) → In n g.bb_list
    → (s n).entry_point ≡ false
    → IsIntersection s (g.ancestors n) i
    → Keeps g s n (with_set n i (s n))
some-Keeps g closed s inv n i at inner f = (
  record {
    entry = λ h. absurd (ground (arith, h, inner));
    of_entry = (inv n at).of_entry;
    unique = set_insert-Unique n i (f.unique (λ p h. (inv p (closed n at p h)).unique));
    listed = λ d h. elim (set_insert-cases n d i h) [
      | inl self ↦ rw self at
      | inr old ↦
          (inv f.first (closed n at f.first f.first_in)).listed d
            (f.in_all d old f.first f.first_in f.first_own)
    ];
    all_self = λ h. cc;
    kept = λ _ d h. covered-In s n d (g.ancestors n) i f (elim (Dominates-ancestor g d n h) [
      | inl self ↦ inl self
      | inr k ↦ inr (λ p h own. (inv p (closed n at p h)).kept own d (k p h))
    ]);
    shrinks = λ _ _ d h. covered-In s n d (g.ancestors n) i f h;
  },
  λ own. (refl, λ d h. (inv n at).shrinks inner own d (In-covered s n d (g.ancestors n) i f h)),
)

-- A measure of a block: it falls as a set appears, and as it loses elements.
abbrev pub weight : ℕ → DomInfo → ℕ
weight size v =
    if v.dom_set_is_all then size + 2 - length v.dominator_map else length v.dominator_map

pub length_le : (xs ys : List ℕ) → Unique xs → ((d : ℕ) → In d xs → In d ys) → length xs ≤ length ys
length_le xs ys u h = length_le_of_count xs ys (λ a. elim (Bool-cases (count a xs == 0)) [
  | inl gone ↦ ground (arith, gone)
  | inr there ↦ omega (arith, u a, h a (ground (arith, there)))
])

abbrev pub points : Bool → ℕ
points c = if c then 1 else 0

length-set_insert :
    (n : ℕ) (xs : List ℕ) → length (set_insert n xs) ≡ points (not (contains n xs)) + length xs
unfolding set_insert
length-set_insert n xs = elim (Bool-cases (contains n xs)) [
  | inl old ↦ ground (arith, old)
  | inr new ↦ rw new (omega (arith, length-append xs (n ∷ [])))
]

-- A block without a set has no element but itself.
all-short :
    (g : Cfg) (s : Store) (n : ℕ) (v : DomInfo)
    → At g s n v
    → v.dom_set_is_all ≡ true
    → length v.dominator_map ≤ 1
all-short g s n v a all =
    length_le v.dominator_map (n ∷ []) a.unique
      (λ d h. ground (arith, eq→== d n (a.all_self all d h)))

alone-falls :
    (g : Cfg) (s : Store) (n : ℕ)
    → (s n).entry_point ≡ false
    → At g s n (s n)
    → weight (length g.bb_list) (with_self n (s n)) + points (not (contains n (s n).dominator_map))
      ≤ weight (length g.bb_list) (s n)
alone-falls g s n inner a = elim (Bool-cases ((s n).dom_set_is_all)) [
  | inl all ↦
      ground (arith, all, length-set_insert n ((s n).dominator_map), all-short g s n (s n) a all)
  | inr own ↦
      let known : contains n ((s n).dominator_map) ≡ true =
        contains-count n ((s n).dominator_map) (a.shrinks inner own n (inl refl)) in
      ground (arith, own, length-set_insert n ((s n).dominator_map), known)
]

some-falls :
    (g : Cfg) (s : Store) (n : ℕ) (i : List ℕ)
    → (s n).entry_point ≡ false
    → At g s n (s n)
    → Keeps g s n (with_set n i (s n))
    → weight (length g.bb_list) (with_set n i (s n)) + points (reported n i (s n))
      ≤ weight (length g.bb_list) (s n)
some-falls g s n i inner a (b, below) = elim (Bool-cases ((s n).dom_set_is_all)) [
  | inl all ↦ ground (
    arith,
    all,
    all-short g s n (s n) a all,
    length_le (set_insert n i) g.bb_list b.unique b.listed,
  )
  | inr own ↦
      let (_, less) = below own in
      ground (
        arith,
        own,
        length_le (set_insert n i) ((s n).dominator_map) b.unique less,
        has_other-some ((s n).dominator_map) (set_insert n i) less,
      )
]

pub visit_lem :
    (g : Cfg)
    → Closed g
    → (s : Store) → Inv g s
    → (n : ℕ) → In n g.bb_list
    → Keeps g s n (visit g s n).1
      × (weight (length g.bb_list) (visit g s n).1 + points (visit g s n).0
          ≤ weight (length g.bb_list) (s n))
visit_lem g closed s inv n at = elim (Bool-cases ((s n).entry_point)) [
  | inl entry ↦ rw (visit_entry g s n entry) ((inv n at, Shrunk-refl (s n)), omega arith)
  | inr inner ↦ elim (Option-cases (find_intersection s (g.ancestors n))) [
    | inl none_own ↦
        rw (visit_alone g s n inner none_own)
          (alone-Keeps g s n at inner (inv n at), alone-falls g s n inner (inv n at))
    | inr (i, found) ↦
        let keeps =
          some-Keeps g closed s inv n i at inner
            (find_intersection-some s (g.ancestors n) i found) in
        rw (visit_intersection g s n i inner found)
          (keeps, some-falls g s n i inner (inv n at) keeps)
  ]
]
