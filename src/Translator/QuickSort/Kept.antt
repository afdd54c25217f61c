-- ===== src/Translator/QuickSort/Kept.antt =====
-- What the routines of the sort (src/binaryTranslator/quickSort.cpp) keep outside their range.
use cg_oo_o.Common.{
  ℕ, ◌<◌, ◌≤◌, ◌≡◌, refl, ◌∙◌, inl, inr, List, ltb, length, count, All, Bool-cases, ltb→lt, arith,
}
use cg_oo_o.Translator.Instruction.{Instruction}
use cg_oo_o.Translator.QuickSort.Swap.{addrs, path_at, Swapped}

-- What a routine that only moves the elements from `lo` to `hi` keeps.
pub record Kept (l l' : List Instruction) (lo hi : ℕ) : Type 1 where
  pub same_length : length l' ≡ length l
  pub same_addrs : (a : ℕ) → count a (addrs l') ≡ count a (addrs l)
  pub keeps : (P : Instruction → Type 0) → All P l → All P l'
  pub before : (i : ℕ) → i < lo → path_at l' i ≡ path_at l i
  pub behind : (i : ℕ) → hi < i → path_at l' i ≡ path_at l i
  pub at_least :
      (b : ℕ)
      → ((i : ℕ) → lo ≤ i → i ≤ hi → b ≤ path_at l i)
      → (i : ℕ) → lo ≤ i
      → i ≤ hi
      → b ≤ path_at l' i
  pub at_most :
      (b : ℕ)
      → ((i : ℕ) → lo ≤ i → i ≤ hi → path_at l i ≤ b)
      → (i : ℕ) → lo ≤ i
      → i ≤ hi
      → path_at l' i ≤ b

pub Kept-refl : (l : List Instruction) (lo hi : ℕ) → Kept l l lo hi
Kept-refl l lo hi = record {
  same_length = refl;
  same_addrs = λ a. refl;
  keeps = λ P a. a;
  before = λ i h. refl;
  behind = λ i h. refl;
  at_least = λ b h. h;
  at_most = λ b h. h;
}

pub Kept-trans :
    {l m n : List Instruction} {lo hi : ℕ} → Kept l m lo hi → Kept m n lo hi → Kept l n lo hi
Kept-trans k k' = record {
  same_length = k'.same_length ∙ k.same_length;
  same_addrs = λ a. k'.same_addrs a ∙ k.same_addrs a;
  keeps = λ P a. k'.keeps P (k.keeps P a);
  before = λ i h. k'.before i h ∙ k.before i h;
  behind = λ i h. k'.behind i h ∙ k.behind i h;
  at_least = λ b h. k'.at_least b (k.at_least b h);
  at_most = λ b h. k'.at_most b (k.at_most b h);
}

-- A smaller range is moved.
module _ {l l' : List Instruction} {lo hi : ℕ} (k : Kept l l' lo hi) where
  part_of_range :
      (P : ℕ → Type 0) (i : ℕ) → ((i < lo) → P i) → ((hi < i) → P i) → (lo ≤ i → i ≤ hi → P i) → P i
  part_of_range P i f g h = elim (Bool-cases (ltb i lo)) [
    | inl out ↦ f (ltb→lt i lo out)
    | inr low ↦ elim (Bool-cases (ltb hi i)) [
      | inl out ↦ g (ltb→lt hi i out)
      | inr high ↦ h (ground (arith, low)) (ground (arith, high))
    ]
  ]

  pub Kept-wider : (lo' hi' : ℕ) → lo' ≤ lo → hi ≤ hi' → Kept l l' lo' hi'
  Kept-wider lo' hi' hl hh = record {
    same_length = k.same_length;
    same_addrs = k.same_addrs;
    keeps = k.keeps;
    before = λ i h. k.before i (omega arith);
    behind = λ i h. k.behind i (omega arith);
    at_least = λ b h i p q.
        part_of_range (λ j. b ≤ path_at l' j) i (λ out. rw (k.before i out) (h i p q))
          (λ out. rw (k.behind i out) (h i p q))
          (λ p' q'. k.at_least b (λ j x y. h j (omega arith) (omega arith)) i p' q');
    at_most = λ b h i p q.
        part_of_range (λ j. path_at l' j ≤ b) i (λ out. rw (k.before i out) (h i p q))
          (λ out. rw (k.behind i out) (h i p q))
          (λ p' q'. k.at_most b (λ j x y. h j (omega arith) (omega arith)) i p' q');
  }

pub swap-Kept :
    {l l' : List Instruction} (x y lo hi : ℕ)
    → Swapped l l' x y
    → lo ≤ x
    → x ≤ hi
    → lo ≤ y
    → y ≤ hi
    → Kept l l' lo hi
swap-Kept x y lo hi s a e c d = record {
  same_length = s.same_length;
  same_addrs = s.same_addrs;
  keeps = s.keeps;
  before = λ i h. ground (arith, s.paths i);
  behind = λ i h. ground (arith, s.paths i);
  at_least = λ b h i p q. ground (arith, s.paths i, h i p q, h x a e, h y c d);
  at_most = λ b h i p q. ground (arith, s.paths i, h i p q, h x a e, h y c d);
}
