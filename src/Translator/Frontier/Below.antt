-- ===== src/Translator/Frontier/Below.antt =====
-- The blocks below a block in the dominator tree (src/binaryTranslator/dominator.cpp).
use cg_oo_o.Common.{
  ℕ, zero, suc, ◌<◌, ◌≡◌, ◌≢◌, ◌↔◌, refl, sym, inl, inr, Bool, true, false, ◌||◌, List, ◌==◌,
  length, Bool-cases, ==→eq, eq→==, arith,
}
use cg_oo_o.Translator.ListSchedule.{contains}
use cg_oo_o.Translator.ListSchedule.Block.{contains-count, count-contains}
use cg_oo_o.Translator.Dominator.{Cfg}
use cg_oo_o.Translator.Dominator.Sets.{In, Unique}
use cg_oo_o.Translator.Dominator.Walks.{Walk, Dominates}
use cg_oo_o.Translator.DomTree.{TreeStore}
use cg_oo_o.Translator.DomTree.Order.{
  upto_walk, IsImmediate, Dominates-refl, Dominates-trans, Dominates-antisym, Dominates-total,
}

-- A graph whose blocks are all reached, with its dominator tree.
pub record IsTree (g : Cfg) (r : ℕ) (t : TreeStore) : Type 0 where
  pub root : In r g.bb_list
  pub at_root : (n : ℕ) → Dominates g r n
  pub reached : (n : ℕ) → In n g.bb_list → (l : List ℕ) × Walk g n l
  pub strict :
      (n : ℕ) → In n g.bb_list → (d : ℕ) → In d (t n).s_dominator_map ↔ (Dominates g d n × (d ≢ n))
  pub children : (d c : ℕ) → In c (t d).children_map ↔ (In c g.bb_list × IsImmediate g d c)
  pub unique : (d : ℕ) → Unique ((t d).children_map)
  pub immediate : (n : ℕ) → In n g.bb_list → n ≢ r → (d : ℕ) × In d g.bb_list × IsImmediate g d n

abbrev pub below : TreeStore → ℕ → ℕ → Bool
below t n m = n == m || contains n (t m).s_dominator_map

module _ (g : Cfg) (r : ℕ) (t : TreeStore) (tree : IsTree g r t) where
  pub below-Dominates : (n m : ℕ) → In m g.bb_list → below t n m ≡ true → Dominates g n m
  below-Dominates n m at h = elim (Bool-cases (n == m)) [
    | inl same ↦ rw (==→eq n m same) (Dominates-refl g m)
    | inr other ↦
        ((tree.strict m at n).0
          (count-contains n ((t m).s_dominator_map) (ground (arith, h, other)))).0
  ]

  pub Dominates-below : (n m : ℕ) → In m g.bb_list → Dominates g n m → below t n m ≡ true
  Dominates-below n m at h = elim (Bool-cases (n == m)) [
    | inl same ↦ rw same refl
    | inr other ↦
        let k : contains n (t m).s_dominator_map ≡ true =
          contains-count n ((t m).s_dominator_map)
            ((tree.strict m at n).1 (h, λ eq. ground (arith, other, eq→== n m eq))) in
        ground (arith, k)
  ]

  -- Neither of two blocks that dominate each other is another one.
  pub antisym : (d e : ℕ) → In d g.bb_list → Dominates g d e → Dominates g e d → d ≡ e
  antisym d e at h k = let (l, w) = tree.reached d at in Dominates-antisym g d e l w h k

  pub not_below_child : (n c : ℕ) → In n g.bb_list → IsImmediate g n c → below t c n ≡ false
  not_below_child n c at i = elim (Bool-cases (below t c n)) [
    | inr out ↦ out
    | inl h ↦ absurd (i.other (antisym n c at i.dominates (below-Dominates c n at h)))
  ]

  apart_one :
      (n c c' : ℕ)
      → In n g.bb_list
      → IsImmediate g n c
      → IsImmediate g n c'
      → Dominates g c c'
      → c ≡ c'
  apart_one n c c' at i i' h = elim (Bool-cases (c == c')) [
    | inl same ↦ ==→eq c c' same
    | inr other ↦ absurd (
        i.other (
          antisym n c at i.dominates (i'.nearest c (λ eq. ground (arith, other, eq→== c c' eq)) h)))
  ]

  -- No block is below two children of a block.
  pub apart :
      (n c c' m : ℕ)
      → In n g.bb_list
      → In m g.bb_list
      → IsImmediate g n c
      → IsImmediate g n c'
      → below t c m ≡ true
      → below t c' m ≡ true
      → c ≡ c'
  apart n c c' m at at_m i i' h h' =
      let (l, w) = tree.reached m at_m in
      elim (Dominates-total g c c' m l w (below-Dominates c m at_m h)
        (below-Dominates c' m at_m h')) [
          | inl k ↦ apart_one n c c' at i i' k
          | inr k ↦ sym (apart_one n c' c at i' i k)
        ]

  -- The child on the way down to a block.
  way_down :
      (k n m : ℕ) (l : List ℕ)
      → length l < k
      → In m g.bb_list
      → Walk g m l
      → Dominates g n m
      → n ≢ m
      → (c : ℕ) × In c (t n).children_map × Dominates g c m
  way_down zero n m l short at w h other = absurd (omega (arith, short))
  way_down (suc f) n m l short at w h other =
      let not_r : m ≢ r = λ eq. other (antisym-root n m at h (rw eq (tree.at_root n))) in
      let (d, at_d, i) = tree.immediate m at not_r in
      elim (Bool-cases (n == d)) [
        | inl same ↦ (m, rw (==→eq n d same) ((tree.children d m).1 (at, i)), Dominates-refl g m)
        | inr not_d ↦
            let u = upto_walk g m d l w (i.dominates l w) in
            let (c, at_c, down) =
              way_down f n d u.blocks
                (omega (
                  arith,
                  short,
                  u.strictly (ground (arith, i.other, ==→eq d m, Bool-cases (d == m))),
                ))
                at_d u.walk (i.nearest n other h) (λ eq. ground (arith, not_d, eq→== n d eq)) in
            (c, at_c, Dominates-trans g c d m down i.dominates)
      ]
    where
      antisym-root : (n m : ℕ) → In m g.bb_list → Dominates g n m → Dominates g m n → n ≡ m
      antisym-root n m at h k = sym (antisym m n at k h)

  pub way_down_lem :
      (n m : ℕ)
      → In m g.bb_list
      → below t n m ≡ true
      → (n == m) ≡ false
      → (c : ℕ) × In c (t n).children_map × (below t c m ≡ true)
  way_down_lem n m at h other =
      let (l, w) = tree.reached m at in
      let (c, at_c, down) =
        way_down (suc (length l)) n m l (omega arith) at w (below-Dominates n m at h)
          (λ eq. ground (arith, other, eq→== n m eq)) in
      (c, at_c, Dominates-below c m at down)
