-- ===== src/Translator/DomTree/Order.antt =====
-- The order of the dominators of a block: what makes the tree of
-- src/binaryTranslator/dominator.cpp a tree.
use cg_oo_o.Common.{
  ℕ, zero, suc, ◌<◌, ◌≤◌, ◌≡◌, ◌≢◌, refl, sym, ◌⊎◌, inl, inr, true, false, List, [], ◌∷◌, ◌==◌,
  length, Bool-cases, ==→eq, eq→==, arith,
}
use cg_oo_o.Translator.Dominator.{Cfg}
use cg_oo_o.Translator.Dominator.Sets.{In}
use cg_oo_o.Translator.Dominator.Walks.{Walk, start, extend, Dominates, Dominates-ancestor}

-- The walk up to a block that stands on it.
pub record Upto (g : Cfg) (n d : ℕ) (l : List ℕ) : Type 0 where
  pub blocks : List ℕ
  pub walk : Walk g d blocks
  pub shorter : length blocks ≤ length l
  pub strictly : (d == n) ≡ false → length blocks < length l
  pub within : (a : ℕ) → In a blocks → In a l

here : (g : Cfg) (n d : ℕ) (l : List ℕ) → Walk g n l → (d == n) ≡ true → Upto g n d l
here g n d l w same = rw (==→eq d n same) (record {
  blocks = l;
  walk = w;
  shorter = omega arith;
  strictly = λ other. absurd (ground (arith, other, eq→== n n refl));
  within = λ a k. k;
})

pub upto_walk : (g : Cfg) (n d : ℕ) (l : List ℕ) → Walk g n l → In d l → Upto g n d l
upto_walk g n d l (start m at e) h =
    here g n d l (start m at e) (ground (arith, h, Bool-cases (d == n)))
upto_walk g n d l (extend p m l' w at) h = elim (Bool-cases (d == n)) [
  | inl same ↦ here g n d l (extend p m l' w at) same
  | inr other ↦
      let u = upto_walk g p d l' w (ground (arith, h, other)) in
      record {
        blocks = u.blocks;
        walk = u.walk;
        shorter = omega (arith, u.shorter);
        strictly = λ _. omega (arith, u.shorter);
        within = λ a k. omega (arith, u.within a k);
      }
]

pub Dominates-trans : (g : Cfg) (a b c : ℕ) → Dominates g a b → Dominates g b c → Dominates g a c
Dominates-trans g a b c h k l w =
    let u = upto_walk g c b l w (k l w) in u.within a (h u.blocks u.walk)

-- Two blocks that a walk reaches do not dominate each other.
Dominates-antisym_fuel :
    (k : ℕ) (g : Cfg) (d e : ℕ) (l : List ℕ)
    → length l < k
    → Walk g d l
    → Dominates g d e
    → Dominates g e d
    → d ≡ e
Dominates-antisym_fuel zero g d e l short w h k = absurd (omega (arith, short))
Dominates-antisym_fuel (suc f) g d e l short w h k = elim (Bool-cases (e == d)) [
  | inl same ↦ sym (==→eq e d same)
  | inr other ↦
      let u = upto_walk g d e l w (k l w) in
      sym (
        Dominates-antisym_fuel f g e d u.blocks (omega (arith, short, u.strictly other)) u.walk k h)
]

pub Dominates-antisym :
    (g : Cfg) (d e : ℕ) (l : List ℕ) → Walk g d l → Dominates g d e → Dominates g e d → d ≡ e
Dominates-antisym g d e l = Dominates-antisym_fuel (suc (length l)) g d e l (omega arith)

pub Dominates-refl : (g : Cfg) (n : ℕ) → Dominates g n n
Dominates-refl g n l (start m at e) = ground (arith, eq→== n n refl)
Dominates-refl g n l (extend p m l' w at) = ground (arith, eq→== n n refl)

-- Of two dominators of a block that a walk reaches, one dominates the other.
pub Dominates-total :
    (g : Cfg) (d e n : ℕ) (l : List ℕ)
    → Walk g n l
    → Dominates g d n
    → Dominates g e n
    → Dominates g d e ⊎ Dominates g e d
Dominates-total g d e n l (start m at no_ancestors) h k =
    let eq : d ≡ n =
      ground (arith, h (n ∷ []) (start n at no_ancestors), ==→eq d n, Bool-cases (d == n)) in
    inr (rw eq k)
Dominates-total g d e n l (extend p m l' w at) h k = elim (Dominates-ancestor g d n h) [
  | inl eq ↦ inr (rw eq k)
  | inr above_d ↦ elim (Dominates-ancestor g e n k) [
    | inl eq ↦ inl (rw eq h)
    | inr above_e ↦ Dominates-total g d e p l' w (above_d p at) (above_e p at)
  ]
]

-- The nearest of the strict dominators of a block.
pub record IsImmediate (g : Cfg) (d n : ℕ) : Type 0 where
  pub other : d ≢ n
  pub dominates : Dominates g d n
  pub nearest : (e : ℕ) → e ≢ n → Dominates g e n → Dominates g e d

pub IsImmediate-unique :
    (g : Cfg) (d e n : ℕ) (l : List ℕ) → Walk g n l → IsImmediate g d n → IsImmediate g e n → d ≡ e
IsImmediate-unique g d e n l w h k =
    let u = upto_walk g n d l w (h.dominates l w) in
    Dominates-antisym g d e u.blocks u.walk (k.nearest d h.other h.dominates)
      (h.nearest e k.other k.dominates)

-- One of some dominators is dominated by all of them.
pub nearest_of :
    (g : Cfg) (n : ℕ) (l : List ℕ)
    → Walk g n l
    → (x : ℕ) (xs : List ℕ) → ((e : ℕ) → In e (x ∷ xs) → Dominates g e n)
    → (d : ℕ) × In d (x ∷ xs) × ((e : ℕ) → In e (x ∷ xs) → Dominates g e d)
nearest_of g n l w x [] h = (
  x,
  ground (arith, eq→== x x refl),
  λ e at.
      let eq : e ≡ x = ground (arith, at, ==→eq e x, Bool-cases (e == x)) in
      rw eq (Dominates-refl g x),
)
nearest_of g n l w x (y ∷ ys) h =
    let (d, at, near) = nearest_of g n l w y ys (λ e k. h e (omega (arith, k))) in
    let far : In d (x ∷ y ∷ ys) = omega (arith, at) in
    let self : In x (x ∷ y ∷ ys) = ground (arith, eq→== x x refl) in
    elim (Dominates-total g x d n l w (h x self) (h d far)) [
      | inl below ↦ (
        d,
        far,
        λ e k. elim (Bool-cases (e == x)) [
          | inl same ↦ rw (==→eq e x same) below
          | inr not_x ↦ near e (ground (arith, k, not_x))
        ],
      )
      | inr above ↦ (
        x,
        self,
        λ e k. elim (Bool-cases (e == x)) [
          | inl same ↦ rw (==→eq e x same) (Dominates-refl g x)
          | inr not_x ↦ Dominates-trans g e d x (near e (ground (arith, k, not_x))) above
        ],
      )
    ]
