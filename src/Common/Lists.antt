-- ===== src/Common/Lists.antt =====
-- Lists measured, indexed and counted by native numbers, under the library's names.
use Prim.Native.Nat.{ℕ, zero, suc, ◌+◌, ◌<◌}
use mathlib.Core.Path.{◌≡◌, refl, ap, ◌∙◌}
use mathlib.Core.List.{List, [], ◌∷◌, ◌++◌}
use mathlib.Core.Option.{Option, none, some}
use native.Mathlib.Omega.{arith}
use mathlib.Core.Logic.{inl, inr}
use cg_oo_o.Common.Tests.{◌==◌, if◌then◌else◌, Bool-cases, ==→eq}

module _ {ℓ} {A : Type ℓ} where
  abbrev pub length : List A → ℕ
  length [] = 0
  length (x ∷ xs) = suc (length xs)

  abbrev pub get_elem? : List A → ℕ → Option A
  get_elem? [] i = none
  get_elem? (x ∷ xs) zero = some x
  get_elem? (x ∷ xs) (suc i) = get_elem? xs i

  -- Without the element at an index; an index out of range leaves the list as it is.
  abbrev pub erase_idx : List A → ℕ → List A
  erase_idx [] i = []
  erase_idx (x ∷ xs) zero = xs
  erase_idx (x ∷ xs) (suc i) = x ∷ erase_idx xs i

  abbrev pub last? : List A → Option A
  last? [] = none
  last? (x ∷ []) = some x
  last? (x ∷ y ∷ xs) = last? (y ∷ xs)

  -- Without the last element.
  abbrev pub drop_last : List A → List A
  drop_last [] = []
  drop_last (x ∷ []) = []
  drop_last (x ∷ y ∷ xs) = x ∷ drop_last (y ∷ xs)

  pub length-append : (xs ys : List A) → length (xs ++ ys) ≡ length xs + length ys
  length-append [] ys = omega arith
  length-append (x ∷ xs) ys = omega (arith, length-append xs ys)

  pub last?-append : (xs : List A) (x : A) → last? (xs ++ (x ∷ [])) ≡ some x
  last?-append [] x = refl
  last?-append (y ∷ []) x = refl
  last?-append (y ∷ z ∷ xs) x = last?-append (z ∷ xs) x

  pub drop_last-append : (xs : List A) (x : A) → drop_last (xs ++ (x ∷ [])) ≡ xs
  drop_last-append [] x = refl
  drop_last-append (y ∷ []) x = refl
  drop_last-append (y ∷ z ∷ xs) x = ap (λ t. y ∷ t) (drop_last-append (z ∷ xs) x)

  pub drop_last-append-last :
      (xs : List A) (x : A) → last? xs ≡ some x → xs ≡ drop_last xs ++ (x ∷ [])
  drop_last-append-last [] x h = cc
  drop_last-append-last (y ∷ []) x h = cc
  drop_last-append-last (y ∷ z ∷ xs) x h = ap (λ t. y ∷ t) (drop_last-append-last (z ∷ xs) x h)

  pub last?-none : (b : List A) → last? b ≡ none → b ≡ []
  last?-none [] h = refl
  last?-none (e ∷ []) h = cc
  last?-none (e ∷ d ∷ b) h = cc (last?-none (d ∷ b) h)

abbrev pub count : ℕ → List ℕ → ℕ
count p [] = 0
count p (x ∷ xs) = (if p == x then 1 else 0) + count p xs

pub count-append : (p : ℕ) (xs ys : List ℕ) → count p (xs ++ ys) ≡ count p xs + count p ys
count-append p [] ys = omega arith
count-append p (x ∷ xs) ys = omega (arith, count-append p xs ys)

abbrev pub All {ℓ κ} : {A : Type ℓ} → (A → Type κ) → List A → Type κ
All P [] = Unit
All P (x ∷ xs) = P x × All P xs

pub All-mono {ℓ κ μ} :
    {A : Type ℓ} {P : A → Type κ} {Q : A → Type μ} (xs : List A)
    → ((x : A) → P x → Q x)
    → All P xs
    → All Q xs
All-mono [] f ps = tt
All-mono (x ∷ xs) f (p, ps) = (f x p, All-mono xs f ps)

pub All-drop_last {ℓ κ} :
    {A : Type ℓ} (P : A → Type κ) (xs : List A) → All P xs → All P (drop_last xs)
All-drop_last P [] ps = tt
All-drop_last P (x ∷ []) ps = tt
All-drop_last P (x ∷ y ∷ xs) (p, ps) = (p, All-drop_last P (y ∷ xs) ps)

pub All-last {ℓ κ} :
    {A : Type ℓ} (P : A → Type κ) (xs : List A) (x : A) → last? xs ≡ some x → All P xs → P x
All-last P [] x h ps = cc
All-last P (y ∷ []) x h (p, ps) = let same : y ≡ x = cc in rw (← same) p
All-last P (y ∷ z ∷ xs) x h (p, ps) = All-last P (z ∷ xs) x h ps

pub length-drop_last {ℓ} :
    {A : Type ℓ} (xs : List A) (x : A) → last? xs ≡ some x → suc (length (drop_last xs)) ≡ length xs
length-drop_last [] x h = cc
length-drop_last (y ∷ []) x h = refl
length-drop_last (y ∷ z ∷ xs) x h = ap suc (length-drop_last (z ∷ xs) x h)

pub All-mono-count {κ μ} :
    {P : ℕ → Type κ} {Q : ℕ → Type μ} (xs : List ℕ)
    → ((x : ℕ) → 0 < count x xs → P x → Q x)
    → All P xs
    → All Q xs
All-mono-count [] f ps = tt
All-mono-count (x ∷ xs) f (p, ps) =
    (f x (ground arith) p, All-mono-count xs (λ y h. f y (omega (arith, h))) ps)

pub All-count {κ} : (P : ℕ → Type κ) (xs : List ℕ) (x : ℕ) → All P xs → 0 < count x xs → P x
All-count P [] x ps h = absurd (omega arith)
All-count P (y ∷ xs) x (p, ps) h = elim (Bool-cases (x == y)) [
  | inl same ↦ rw (==→eq x y same) p
  | inr other ↦ All-count P xs x ps (ground (arith, h, other))
]

-- A write at an index; out of range it changes nothing.
abbrev pub set {ℓ} : {A : Type ℓ} → List A → ℕ → A → List A
set [] i v = []
set (x ∷ xs) zero v = v ∷ xs
set (x ∷ xs) (suc i) v = x ∷ set xs i v

pub length-set {ℓ} : {A : Type ℓ} (l : List A) (i : ℕ) (e : A) → length (set l i e) ≡ length l
length-set [] i e = refl
length-set (x ∷ l) zero e = refl
length-set (x ∷ l) (suc i) e = ap suc (length-set l i e)

pub get_elem?-set {ℓ} :
    {A : Type ℓ} (l : List A) (i : ℕ) (e : A) (j : ℕ)
    → i < length l
    → get_elem? (set l i e) j ≡ (if j == i then some e else get_elem? l j)
get_elem?-set [] i e j h = absurd (omega arith)
get_elem?-set (x ∷ l) zero e zero h = refl
get_elem?-set (x ∷ l) zero e (suc j) h = ground arith
get_elem?-set (x ∷ l) (suc i) e zero h = ground arith
get_elem?-set (x ∷ l) (suc i) e (suc j) h = get_elem?-set l i e j (omega arith) ∙ ground arith

pub All-set {ℓ κ} :
    {A : Type ℓ} (P : A → Type κ) (l : List A) (i : ℕ) (e : A) → All P l → P e → All P (set l i e)
All-set P [] i e s h = tt
All-set P (x ∷ l) zero e s h = (h, s.1)
All-set P (x ∷ l) (suc i) e s h = (s.0, All-set P l i e s.1 h)

pub All-get {ℓ κ} :
    {A : Type ℓ} (P : A → Type κ) (l : List A) (i : ℕ) (e : A)
    → All P l
    → get_elem? l i ≡ some e
    → P e
All-get P [] i e s h = cc
All-get P (d ∷ l) zero e s h = let same : d ≡ e = cc in rw (← same) (s.0)
All-get P (d ∷ l) (suc i) e s h = All-get P l i e s.1 h

pub get_elem?-lt {ℓ} :
    {A : Type ℓ} (l : List A) (i : ℕ) → i < length l → (e : A) × (get_elem? l i ≡ some e)
get_elem?-lt [] i h = absurd (omega arith)
get_elem?-lt (e ∷ l) zero h = (e, refl)
get_elem?-lt (e ∷ l) (suc i) h = get_elem?-lt l i (omega arith)
