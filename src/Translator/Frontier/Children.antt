-- ===== src/Translator/Frontier/Children.antt =====
-- The loop of `findDF` (src/binaryTranslator/dominator.cpp) over the children of a block.
use cg_oo_o.Common.{
  ℕ, ◌≡◌, ◌↔◌, refl, ◌⊎◌, inl, inr, Bool, true, false, ◌||◌, List, [], ◌∷◌, Option, some, ◌==◌,
  Bool-cases, ==→eq, eq→==, arith,
}
use cg_oo_o.Translator.ListSchedule.{contains, set_insert}
use cg_oo_o.Translator.Dominator.{Cfg}
use cg_oo_o.Translator.Dominator.Sets.{In, Unique, set_insert_self, set_insert_of, set_insert-cases}
use cg_oo_o.Translator.Dominator.Walks.{Dominates}
use cg_oo_o.Translator.DomTree.{TreeStore}
use cg_oo_o.Translator.DomTree.Order.{IsImmediate}
use cg_oo_o.Translator.Frontier.{DfInfo, DfStore, add_frontier}
use cg_oo_o.Translator.Frontier.Below.{IsTree, below, not_below_child, apart}

-- A block dominates one whose descendant it does not strictly dominate.
abbrev pub IsFrontier : Cfg → TreeStore → (ℕ → List ℕ) → ℕ → ℕ → Type 0
IsFrontier g t descendants n u =
    (p : ℕ) × In p g.bb_list
    × In u (descendants p)
    × Dominates g n p
    × (contains n (t u).s_dominator_map ≡ false)

abbrev pub Finished : Cfg → TreeStore → (ℕ → List ℕ) → ℕ → DfInfo → Type 0
Finished g t descendants n v =
    (v.visited ≡ true) × ((u : ℕ) → In u v.dominance_frontier ↔ IsFrontier g t descendants n u)

-- What a loop over candidates adds.
abbrev pub Added : TreeStore → ℕ → ℕ → List ℕ → Type 0
Added t n u us = In u us × (contains n (t u).s_dominator_map ≡ false)

abbrev with_frontier : ℕ → DfInfo → DfInfo
with_frontier x v = record v { dominance_frontier = set_insert x v.dominance_frontier }

skips :
    (t : TreeStore) (n x : ℕ) (us : List ℕ) (v : DfInfo)
    → contains n (t x).s_dominator_map ≡ true
    → add_frontier t n (x ∷ us) v ≡ add_frontier t n us v
unfolding add_frontier
skips t n x us v h = ground (arith, h)

adds :
    (t : TreeStore) (n x : ℕ) (us : List ℕ) (v : DfInfo)
    → contains n (t x).s_dominator_map ≡ false
    → add_frontier t n (x ∷ us) v ≡ add_frontier t n us (with_frontier x v)
unfolding add_frontier
adds t n x us v h = ground (arith, h)

pub add_frontier-cases :
    (t : TreeStore) (n : ℕ) (us : List ℕ) (v : DfInfo) (u : ℕ)
    → In u (add_frontier t n us v).dominance_frontier
    → In u v.dominance_frontier ⊎ Added t n u us
unfolding add_frontier
add_frontier-cases t n [] v u h = inl h
add_frontier-cases t n (x ∷ us) v u h = elim (Bool-cases (contains n ((t x).s_dominator_map))) [
  | inl strict ↦ elim (add_frontier-cases t n us v u (rw (skips t n x us v strict) at h)) [
    | inl old ↦ inl old
    | inr (at, new) ↦ inr (omega (arith, at), new)
  ]
  | inr free ↦
      elim (add_frontier-cases t n us (with_frontier x v) u (rw (adds t n x us v free) at h)) [
        | inr (at, new) ↦ inr (omega (arith, at), new)
        | inl k ↦ elim (set_insert-cases x u v.dominance_frontier k) [
          | inl eq ↦ inr (ground (arith, eq→== u x eq), rw eq free)
          | inr old ↦ inl old
        ]
      ]
]

pub add_frontier-In :
    (t : TreeStore) (n : ℕ) (us : List ℕ) (v : DfInfo) (u : ℕ)
    → In u v.dominance_frontier ⊎ Added t n u us
    → In u (add_frontier t n us v).dominance_frontier
unfolding add_frontier
add_frontier-In t n [] v u (inl old) = old
add_frontier-In t n [] v u (inr (at, _)) = absurd (omega (arith, at))
add_frontier-In t n (x ∷ us) v u h = elim (Bool-cases (contains n ((t x).s_dominator_map))) [
  | inl strict ↦ rw (skips t n x us v strict) (
      add_frontier-In t n us v u (elim h [
        | inl old ↦ inl old
        | inr (at, new) ↦ elim (Bool-cases (u == x)) [
          | inl same ↦
              let strict_u : contains n (t u).s_dominator_map ≡ true = rw (==→eq u x same) strict in
              absurd (ground (arith, strict_u, new))
          | inr other ↦ inr (ground (arith, at, other), new)
        ]
      ]))
  | inr free ↦ rw (adds t n x us v free) (
      add_frontier-In t n us (with_frontier x v) u (elim h [
        | inl old ↦ inl (set_insert_of x u v.dominance_frontier old)
        | inr (at, new) ↦ elim (Bool-cases (u == x)) [
          | inl same ↦ inl (rw (==→eq u x same) (set_insert_self x v.dominance_frontier))
          | inr other ↦ inr (ground (arith, at, other), new)
        ]
      ]))
]

pub add_frontier-visited :
    (t : TreeStore) (n : ℕ) (us : List ℕ) (v : DfInfo) → (add_frontier t n us v).visited ≡ v.visited
unfolding add_frontier
add_frontier-visited t n [] v = refl
add_frontier-visited t n (x ∷ us) v = elim (Bool-cases (contains n ((t x).s_dominator_map))) [
  | inl strict ↦ rw (skips t n x us v strict) (add_frontier-visited t n us v)
  | inr free ↦ rw (adds t n x us v free) (add_frontier-visited t n us (with_frontier x v))
]

-- Below one of the blocks.
abbrev pub any_below : TreeStore → List ℕ → ℕ → Bool
any_below t [] m = false
any_below t (c ∷ cs) m = below t c m || any_below t cs m

pub any_below-In :
    (t : TreeStore) (cs : List ℕ) (m : ℕ)
    → any_below t cs m ≡ true
    → (c : ℕ) × In c cs × (below t c m ≡ true)
any_below-In t [] m h = cc
any_below-In t (c ∷ cs) m h = elim (Bool-cases (below t c m)) [
  | inl under ↦ (c, ground (arith, eq→== c c refl), under)
  | inr not_under ↦
      let (d, at, under) = any_below-In t cs m (rw not_under at h) in (d, omega (arith, at), under)
]

pub In-any_below :
    (t : TreeStore) (cs : List ℕ) (m c : ℕ) → In c cs → below t c m ≡ true → any_below t cs m ≡ true
In-any_below t [] m c at h = absurd (omega (arith, at))
In-any_below t (d ∷ cs) m c at h = elim (Bool-cases (c == d)) [
  | inl same ↦ let k : below t d m ≡ true = rw (← ==→eq c d same) h in rw k refl
  | inr other ↦ elim (Bool-cases (below t d m)) [
    | inl under ↦ rw under refl
    | inr not_under ↦ rw not_under (In-any_below t cs m c (ground (arith, at, other)) h)
  ]
]

module _ (g : Cfg) (r : ℕ) (t : TreeStore) (tree : IsTree g r t) (descendants : ℕ → List ℕ) where
  -- What a search from a block does, of which nothing below it is visited.
  pub record Searched (c : ℕ) (s s' : DfStore) : Type 0 where
    pub finished : (m : ℕ) → In m g.bb_list → below t c m ≡ true → Finished g t descendants m (s' m)
    pub frame : (m : ℕ) → In m g.bb_list → below t c m ≡ false → s' m ≡ s m

  abbrev pub Searches : (ℕ → DfStore → Option DfStore) → ℕ → Type 0
  Searches search c =
      (s : DfStore)
      → ((m : ℕ) → In m g.bb_list → below t c m ≡ true → (s m).visited ≡ false)
      → (s' : DfStore) × (search c s ≡ some s') × Searched c s s'

  pub record SearchedAll (n : ℕ) (cs : List ℕ) (s s' : DfStore) : Type 0 where
    pub finished :
        (m : ℕ) → In m g.bb_list → any_below t cs m ≡ true → Finished g t descendants m (s' m)
    pub frame : (m : ℕ) → In m g.bb_list → any_below t cs m ≡ false → (m == n) ≡ false → s' m ≡ s m
    pub own_visited : (s' n).visited ≡ (s n).visited
    pub own_frontier :
        (u : ℕ)
        → In u (s' n).dominance_frontier ↔ (
            In u (s n).dominance_frontier
            ⊎ ((c : ℕ) × In c cs
                × IsFrontier g t descendants c u
                × (contains n (t u).s_dominator_map ≡ false)))

  -- The children of a block that are left.
  pub record AreChildren (search : ℕ → DfStore → Option DfStore) (n : ℕ) (cs : List ℕ)
      : Type 0 where
    pub immediate : (c : ℕ) → In c cs → IsImmediate g n c
    pub searches : (c : ℕ) → In c cs → Searches search c
    pub unique : Unique cs
    pub listed : (c : ℕ) → In c cs → In c g.bb_list

  pub tail-AreChildren :
      (search : ℕ → DfStore → Option DfStore) (n c : ℕ) (cs : List ℕ)
      → AreChildren search n (c ∷ cs)
      → AreChildren search n cs
  tail-AreChildren search n c cs a = record {
    immediate = λ d at. a.immediate d (omega (arith, at));
    searches = λ d at. a.searches d (omega (arith, at));
    unique = λ d. omega (arith, a.unique d);
    listed = λ d at. a.listed d (omega (arith, at));
  }

  pub any_below-other :
      (search : ℕ → DfStore → Option DfStore) (n : ℕ) (cs : List ℕ)
      → AreChildren search n cs
      → In n g.bb_list
      → (m : ℕ) → any_below t cs m ≡ true
      → (m == n) ≡ false
  any_below-other search n cs a at m h = elim (Bool-cases (m == n)) [
    | inr other ↦ other
    | inl same ↦
        let (c, at_c, under) = any_below-In t cs m h in
        let under_n : below t c n ≡ true = rw (← ==→eq m n same) under in
        absurd (ground (arith, under_n, not_below_child g r t tree n c at (a.immediate c at_c)))
  ]

  pub any_below-apart :
      (search : ℕ → DfStore → Option DfStore) (n c : ℕ) (cs : List ℕ)
      → AreChildren search n (c ∷ cs)
      → In n g.bb_list
      → (m : ℕ) → In m g.bb_list
      → any_below t cs m ≡ true
      → below t c m ≡ false
  any_below-apart search n c cs a at m at_m h = elim (Bool-cases (below t c m)) [
    | inr out ↦ out
    | inl inside ↦
        let (d, at_d, under) = any_below-In t cs m h in
        let self : In c (c ∷ cs) = ground (arith, eq→== c c refl) in
        let same : c ≡ d =
          apart g r t tree n c d m at at_m (a.immediate c self)
            (a.immediate d (omega (arith, at_d))) inside under in
        let twice : In c cs = rw same at_d in
        absurd (ground (arith, a.unique c, twice, eq→== c c refl))
  ]
