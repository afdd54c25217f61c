-- ===== src/Translator/Dominator/Sets.antt =====
-- The sets of blocks that `build_dominators` (src/binaryTranslator/dominator.cpp) intersects.
use cg_oo_o.Common.{
  ℕ, ◌+◌, ◌≡◌, refl, ◌⊎◌, inl, inr, true, false, List, [], ◌∷◌, some, none, ◌<◌, ◌==◌,
  if◌then◌else◌, length, count, count-append, Bool-cases, ==→eq, eq→==, arith,
}
use cg_oo_o.Common.Counting.{count-eq_of_length}
use cg_oo_o.Translator.ListSchedule.{contains, set_insert}
use cg_oo_o.Translator.ListSchedule.Block.{contains-count, count-contains, count-not_contains}
use cg_oo_o.Translator.Dominator.{Store, has_other, intersect, intersect_rest, find_intersection}

abbrev pub In : ℕ → List ℕ → Type 0
In d xs = 0 < count d xs

abbrev pub Unique : List ℕ → Type 0
Unique xs = (a : ℕ) → count a xs < 2

-- What an insertion holds.
pub count-set_insert :
    (n d : ℕ) (xs : List ℕ)
    → count d (set_insert n xs)
      ≡ (if contains n xs then count d xs else (if d == n then 1 else 0) + count d xs)
unfolding set_insert
count-set_insert n d xs = elim (Bool-cases (contains n xs)) [
  | inl old ↦ ground (arith, old)
  | inr new ↦ rw new (omega (arith, count-append d xs (n ∷ [])))
]

pub set_insert_self : (n : ℕ) (xs : List ℕ) → In n (set_insert n xs)
set_insert_self n xs = ground (arith, count-set_insert n n xs, count-contains n xs, eq→== n n refl)

pub set_insert_of : (n d : ℕ) (xs : List ℕ) → In d xs → In d (set_insert n xs)
set_insert_of n d xs h = ground (arith, count-set_insert n d xs, h)

pub set_insert-cases : (n d : ℕ) (xs : List ℕ) → In d (set_insert n xs) → (d ≡ n) ⊎ In d xs
set_insert-cases n d xs h = elim (Bool-cases (d == n)) [
  | inl same ↦ inl (==→eq d n same)
  | inr other ↦ inr (ground (arith, count-set_insert n d xs, h, other))
]

pub set_insert-Unique : (n : ℕ) (xs : List ℕ) → Unique xs → Unique (set_insert n xs)
set_insert-Unique n xs u a = elim (Bool-cases (a == n)) [
  | inl same ↦
      let eq : a ≡ n = ==→eq a n same in
      ground (arith, count-set_insert n a xs, count-not_contains n xs, u a, eq)
  | inr other ↦ ground (arith, count-set_insert n a xs, u a, other)
]

-- An intersection holds what both sets hold, as often as the first.
pub count-intersect :
    (d : ℕ) (xs ys : List ℕ) → count d (intersect xs ys) ≡ (if contains d ys then count d xs else 0)
unfolding intersect
count-intersect d [] ys = ground arith
count-intersect d (x ∷ xs) ys = elim (Bool-cases (d == x)) [
  | inl same ↦ let eq : d ≡ x = ==→eq d x same in ground (arith, count-intersect d xs ys, eq)
  | inr other ↦ ground (arith, count-intersect d xs ys, other)
]

-- In the set of each of these ancestors that has one.
abbrev pub InAll : Store → ℕ → List ℕ → Type 0
InAll s d ps = (p : ℕ) → In p ps → (s p).dom_set_is_all ≡ false → In d (s p).dominator_map

pub InAll-tail : (s : Store) (d p : ℕ) (ps : List ℕ) → InAll s d (p ∷ ps) → InAll s d ps
InAll-tail s d p ps h q at own = h q (omega (arith, at)) own

pub InAll-head :
    (s : Store) (d p : ℕ) (ps : List ℕ)
    → InAll s d (p ∷ ps)
    → (s p).dom_set_is_all ≡ false
    → In d (s p).dominator_map
InAll-head s d p ps h own = h p (ground (arith, eq→== p p refl)) own

pub InAll-cons :
    (s : Store) (d p : ℕ) (ps : List ℕ)
    → ((s p).dom_set_is_all ≡ false → In d (s p).dominator_map)
    → InAll s d ps
    → InAll s d (p ∷ ps)
InAll-cons s d p ps h rest q at own = elim (Bool-cases (q == p)) [
  | inl same ↦ let eq : q ≡ p = ==→eq q p same in rw eq (h (rw (← eq) own))
  | inr other ↦ rest q (ground (arith, at, other)) own
]

pub intersect_rest-In :
    (s : Store) (d : ℕ) (ps acc : List ℕ) → In d acc → InAll s d ps → In d (intersect_rest s ps acc)
unfolding intersect_rest
intersect_rest-In s d [] acc h k = h
intersect_rest-In s d (p ∷ ps) acc h k = elim (Bool-cases ((s p).dom_set_is_all)) [
  | inl all ↦ rw all (intersect_rest-In s d ps acc h (InAll-tail s d p ps k))
  | inr own ↦ rw own (
      intersect_rest-In s d ps (intersect acc ((s p).dominator_map))
        (ground (
          arith,
          count-intersect d acc ((s p).dominator_map),
          contains-count d ((s p).dominator_map) (InAll-head s d p ps k own),
          h,
        ))
        (InAll-tail s d p ps k))
]

pub In-intersect_rest :
    (s : Store) (d : ℕ) (ps acc : List ℕ) → In d (intersect_rest s ps acc) → In d acc × InAll s d ps
unfolding intersect_rest
In-intersect_rest s d [] acc h = (h, λ p at. absurd (omega (arith, at)))
In-intersect_rest s d (p ∷ ps) acc h = elim (Bool-cases ((s p).dom_set_is_all)) [
  | inl all ↦
      let (k, rest) = In-intersect_rest s d ps acc (rw all at h) in
      (k, InAll-cons s d p ps (λ own. cc) rest)
  | inr own ↦
      let (k, rest) =
        In-intersect_rest s d ps (intersect acc ((s p).dominator_map)) (rw own at h) in
      (
        ground (arith, count-intersect d acc ((s p).dominator_map), k),
        InAll-cons s d p ps
            (λ _. ground (
              arith,
              count-intersect d acc ((s p).dominator_map),
              count-contains d ((s p).dominator_map),
              k,
            ))
            rest,
      )
]

pub intersect_rest-Unique :
    (s : Store) (ps acc : List ℕ) → Unique acc → Unique (intersect_rest s ps acc)
unfolding intersect_rest
intersect_rest-Unique s [] acc u = u
intersect_rest-Unique s (p ∷ ps) acc u =
    intersect_rest-Unique s ps
      (if (s p).dom_set_is_all then acc else intersect acc ((s p).dominator_map))
      (λ a. ground (arith, count-intersect a acc ((s p).dominator_map), u a))

-- What `find_intersection` finds.
pub record IsIntersection (s : Store) (ps i : List ℕ) : Type 0 where
  pub first : ℕ
  pub first_in : In first ps
  pub first_own : (s first).dom_set_is_all ≡ false
  pub of_all : (d : ℕ) → InAll s d ps → In d i
  pub in_all : (d : ℕ) → In d i → InAll s d ps
  pub unique : ((p : ℕ) → In p ps → Unique ((s p).dominator_map)) → Unique i

pub find_intersection-some :
    (s : Store) (ps i : List ℕ) → find_intersection s ps ≡ some i → IsIntersection s ps i
unfolding find_intersection
find_intersection-some s [] i h = cc
find_intersection-some s (p ∷ ps) i h = elim (Bool-cases ((s p).dom_set_is_all)) [
  | inl all ↦
      let r = find_intersection-some s ps i (rw all at h) in
      record {
        first = r.first;
        first_in = omega (arith, r.first_in);
        first_own = r.first_own;
        of_all = λ d k. r.of_all d (InAll-tail s d p ps k);
        in_all = λ d k. InAll-cons s d p ps (λ own. cc) (r.in_all d k);
        unique = λ u. r.unique (λ q at. u q (omega (arith, at)));
      }
  | inr own ↦
      let eq : intersect_rest s ps ((s p).dominator_map) ≡ i = ground (arith, h, own) in
      record {
        first = p;
        first_in = ground (arith, eq→== p p refl);
        first_own = own;
        of_all = λ d k. rw (← eq) (
            intersect_rest-In s d ps ((s p).dominator_map) (InAll-head s d p ps k own)
              (InAll-tail s d p ps k));
        in_all = λ d k.
            let (at, rest) = In-intersect_rest s d ps ((s p).dominator_map) (rw eq k) in
            InAll-cons s d p ps (λ _. at) rest;
        unique = λ u. rw (← eq) (
            intersect_rest-Unique s ps ((s p).dominator_map)
              (u p (ground (arith, eq→== p p refl))));
      }
]

pub find_intersection-none :
    (s : Store) (ps : List ℕ)
    → find_intersection s ps ≡ none
    → (p : ℕ) → In p ps
    → (s p).dom_set_is_all ≡ true
unfolding find_intersection
find_intersection-none s [] h p at = absurd (omega (arith, at))
find_intersection-none s (q ∷ ps) h p at = elim (Bool-cases ((s q).dom_set_is_all)) [
  | inr own ↦ absurd (ground (arith, h, own))
  | inl all ↦ elim (Bool-cases (p == q)) [
    | inl same ↦ rw (==→eq p q same) all
    | inr other ↦ find_intersection-none s ps (rw all at h) p (ground (arith, at, other))
  ]
]

-- A set without other elements.
pub has_other-none : (old new : List ℕ) → has_other old new ≡ false → (d : ℕ) → In d new → In d old
has_other-none old [] h d at = absurd (omega (arith, at))
has_other-none old (x ∷ new) h d at = elim (Bool-cases (d == x)) [
  | inl same ↦ let eq : d ≡ x = ==→eq d x same in count-contains d old (ground (arith, h, eq))
  | inr other ↦ has_other-none old new (ground (arith, h)) d (ground (arith, at, other))
]

pub has_other-some :
    (old new : List ℕ) → ((d : ℕ) → In d new → In d old) → has_other old new ≡ false
has_other-some old [] h = refl
has_other-some old (x ∷ new) h = ground (
  arith,
  contains-count x old (h x (ground (arith, eq→== x x refl))),
  has_other-some old new (λ d at. h d (omega (arith, at))),
)

-- Two sets of one size, one of which holds the other, hold the same.
pub In-of_length :
    (xs ys : List ℕ)
    → Unique xs
    → ((d : ℕ) → In d xs → In d ys)
    → length xs ≡ length ys
    → (d : ℕ) → In d ys
    → In d xs
In-of_length xs ys u h e d at = omega (
  arith,
  count-eq_of_length xs ys
      (λ a. elim (Bool-cases (count a xs == 0)) [
        | inl gone ↦ ground (arith, gone)
        | inr there ↦ omega (arith, u a, h a (ground (arith, there)))
      ])
      e d,
  at,
)
