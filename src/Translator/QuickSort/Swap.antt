-- ===== src/Translator/QuickSort/Swap.antt =====
-- The exchange of two elements (`swap` of src/binaryTranslator/quickSort.cpp).
use cg_oo_o.Common.{
  ℕ, zero, suc, ◌+◌, ◌<◌, ◌≡◌, refl, ap, ◌∙◌, true, List, [], ◌∷◌, none, some, ltb, leb, ◌==◌,
  if◌then◌else◌, assert, ◌>>=◌, length, get_elem?, erase_idx, count, All, set, length-set,
  get_elem?-set, All-set, All-get, get_elem?-lt, lt→ltb, le→leb, arith,
}
use cg_oo_o.Translator.Instruction.{Instruction, get_longest_path}
use cg_oo_o.Translator.QuickSort.{insert_idx, swap, nth_path}

abbrev pub addrs : List Instruction → List ℕ
addrs [] = []
addrs (e ∷ l) = e.ins_addr ∷ addrs l

abbrev pub path_of : Instruction → ℕ
path_of e = elim (e.longest_path) [ none ↦ 0 | some p ↦ p ]

abbrev pub HasPath : Instruction → Type 0
HasPath e = 0 < path_of e

abbrev pub path_at : List Instruction → ℕ → ℕ
path_at l i = elim (get_elem? l i) [ none ↦ 0 | some e ↦ path_of e ]

get_longest_path-HasPath : (e : Instruction) → HasPath e → get_longest_path e ≡ some (path_of e)
unfolding get_longest_path
get_longest_path-HasPath e h = ground arith

path_at-get :
    (l : List Instruction) (i : ℕ) (e : Instruction)
    → get_elem? l i ≡ some e
    → path_at l i ≡ path_of e
path_at-get l i e h = ground arith

pub nth_path-some :
    (l : List Instruction) (i : ℕ)
    → All HasPath l
    → i < length l
    → nth_path l i ≡ some (path_at l i)
unfolding nth_path
nth_path-some l i s h =
    let (e, got) = get_elem?-lt l i h in
    let set_path = get_longest_path-HasPath e (All-get HasPath l i e s got) in
    rw (path_at-get l i e got) (rw got set_path)

insert-erase :
    (l : List Instruction) (i : ℕ) (e : Instruction)
    → i < length l
    → insert_idx (erase_idx l i) i e ≡ set l i e
insert-erase [] i e h = absurd (omega arith)
insert-erase (x ∷ l) zero e h = refl
insert-erase (x ∷ l) (suc i) e h = ap (λ t. x ∷ t) (insert-erase l i e (omega arith))

length-erase :
    (l : List Instruction) (i : ℕ) → i < length l → suc (length (erase_idx l i)) ≡ length l
length-erase [] i h = absurd (omega arith)
length-erase (x ∷ l) zero h = refl
length-erase (x ∷ l) (suc i) h = ap suc (length-erase l i (omega arith))

abbrev here : ℕ → Instruction → ℕ
here a e = if a == e.ins_addr then 1 else 0

count-set :
    (a : ℕ) (l : List Instruction) (i : ℕ) (e old : Instruction)
    → get_elem? l i ≡ some old
    → count a (addrs (set l i e)) + here a old ≡ count a (addrs l) + here a e
count-set a [] i e old h = cc
count-set a (x ∷ l) zero e old h = let same : x ≡ old = cc in rw same (omega arith)
count-set a (x ∷ l) (suc i) e old h = omega (arith, count-set a l i e old h)

-- What an exchange leaves: the same addresses, all paths set, and the two elements in each other's
-- place.
pub record Swapped (l l' : List Instruction) (x y : ℕ) : Type 1 where
  pub same_length : length l' ≡ length l
  pub same_addrs : (a : ℕ) → count a (addrs l') ≡ count a (addrs l)
  pub keeps : (P : Instruction → Type 0) → All P l → All P l'
  pub paths :
      (i : ℕ)
      → path_at l' i ≡ (if i == x then path_at l y else if i == y then path_at l x else path_at l i)

replace-step :
    (l : List Instruction) (i : ℕ) (e : Instruction)
    → i < length l
    → (assert (ltb i (length l)) >>= λ _. some (erase_idx l i)) ≡ some (erase_idx l i)
replace-step l i e h = rw (lt→ltb i (length l) h)

pub swap-Swapped :
    (l : List Instruction) (x y : ℕ)
    → x < length l
    → y < length l
    → (l' : List Instruction) × (swap l x y ≡ some l') × Swapped l l' x y
unfolding swap
swap-Swapped l x y hx hy =
    let (tx, gx) = get_elem?-lt l x hx in
    let (ty, gy) = get_elem?-lt l y hy in
    let m = set l x ty in
    let hm : y < length m = omega (arith, length-set l x ty) in
    let gm : get_elem? m y ≡ (if y == x then some ty else get_elem? l y) =
      get_elem?-set l x ty y hx in
    let got : get_elem? m y ≡ some ty = ground (arith, gm, gy) in
    let le1 : leb x (length (erase_idx l x)) ≡ true =
      le→leb x (length (erase_idx l x)) (omega (arith, length-erase l x hx)) in
    let le2 : leb y (length (erase_idx m y)) ≡ true =
      le→leb y (length (erase_idx m y)) (omega (arith, length-erase m y hm)) in
    (
      set m y tx,
      rw (
        gx,
        gy,
        lt→ltb x (length l) hx,
        le1,
        insert-erase l x ty hx,
        lt→ltb y (length m) hm,
        le2,
        insert-erase m y tx hm,
      ),
      record {
        same_length = length-set m y tx ∙ length-set l x ty;
        same_addrs = λ a. omega (arith, count-set a m y tx ty got, count-set a l x ty tx gx);
        keeps = λ P a.
            All-set P m y tx (All-set P l x ty a (All-get P l y ty a gy)) (All-get P l x tx a gx);
        paths = λ i. ground (arith, get_elem?-set m y tx i hm, get_elem?-set l x ty i hx, gx, gy);
      },
    )
