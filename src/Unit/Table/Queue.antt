-- ===== src/Unit/Table/Queue.antt =====
-- The tables of src/backend/unit/table.cpp as bounded queues: what the operations do to the elements,
-- apart from the wires.
use cg_oo_o.Common.{
  ℕ, zero, suc, ◌-◌, ◌≤◌, ◌≡◌, refl, sym, ap, ◌∙◌, inl, inr, true, false, List, [], ◌∷◌, ◌++◌,
  Option, none, some, ltb, leb, ◌==◌, if◌then◌else◌, ◌>>=◌, length, last?, drop_last, get_elem?,
  erase_idx, map, arith, Option-cases, Bool-cases, length-append,
}
use cg_oo_o.Unit.Port.{BuffState, empty_buff, available_buff, full_buff}
use cg_oo_o.Unit.WirePair.{AxesType}
use cg_oo_o.Unit.Table.{
  Table, TableElement, new_element, can_access, push_back, pop_back, pop_front, pull_nth,
  get_table_state,
}

-- The operations that change a table, and what they answer.
pub data Op {ℓ} (A : Type ℓ) : Type ℓ where
  push : A → Op A
  pop_first pop_last : Op A
  pull : ℕ → Op A

pub data Answer {ℓ} (A : Type ℓ) : Type ℓ where
  state : BuffState → Answer A
  item : A → Answer A

module _ {ℓ} {A : Type ℓ} where
  abbrev pub contents : Table A → List A
  contents t = map (λ e. e.element) t.table

  unfoldable pub apply : Table A → ℕ → Op A → Option (Answer A × Table A)
  apply t now (push x) = push_back t now x >>= λ r. some (state r.0, r.1)
  apply t now pop_first = pop_front t now >>= λ r. some (item r.0, r.1)
  apply t now pop_last = pop_back t now >>= λ r. some (item r.0, r.1)
  apply t now (pull n) = pull_nth t now n >>= λ r. some (item r.0, r.1)

  -- A queue of at most `size` elements, oldest first.
  unfoldable pub queue : ℕ → List A → Op A → Option (Answer A × List A)
  queue size l (push x) =
      if leb size (length l)
      then some (state full_buff, l)
      else some (state available_buff, l ++ (x ∷ []))
  queue size [] pop_first = none
  queue size (x ∷ l) pop_first = some (item x, l)
  queue size l pop_last = last? l >>= λ x. some (item x, drop_last l)
  queue size l (pull n) = get_elem? l n >>= λ x. some (item x, erase_idx l n)

  length-map : (l : List (TableElement A)) → length (map (λ e. e.element) l) ≡ length l
  length-map [] = refl
  length-map (e ∷ l) = ap suc (length-map l)

  get_elem?-map :
      (l : List (TableElement A)) (n : ℕ)
      → get_elem? (map (λ e. e.element) l) n ≡ (get_elem? l n >>= λ e. some e.element)
  get_elem?-map [] n = refl
  get_elem?-map (e ∷ l) zero = refl
  get_elem?-map (e ∷ l) (suc n) = get_elem?-map l n

  erase_idx-map :
      (l : List (TableElement A)) (n : ℕ)
      → map (λ e. e.element) (erase_idx l n) ≡ erase_idx (map (λ e. e.element) l) n
  erase_idx-map [] n = refl
  erase_idx-map (e ∷ l) zero = refl
  erase_idx-map (e ∷ l) (suc n) = ap (λ r. e.element ∷ r) (erase_idx-map l n)

  append-map :
      (l : List (TableElement A)) (e : TableElement A)
      → map (λ e. e.element) (l ++ (e ∷ [])) ≡ map (λ e. e.element) l ++ (e.element ∷ [])
  append-map [] e = refl
  append-map (d ∷ l) e = ap (λ r. d.element ∷ r) (append-map l e)

  last?-map :
      (l : List (TableElement A))
      → last? (map (λ e. e.element) l) ≡ (last? l >>= λ e. some e.element)
  last?-map [] = refl
  last?-map (e ∷ []) = refl
  last?-map (e ∷ d ∷ l) = last?-map (d ∷ l)

  -- The last element is the one at the index that `popBack` removes.
  erase_idx-last :
      (l : List (TableElement A)) (n : ℕ)
      → suc n ≡ length l
      → map (λ e. e.element) (erase_idx l n) ≡ drop_last (map (λ e. e.element) l)
  erase_idx-last [] n h = refl
  erase_idx-last (e ∷ []) zero h = refl
  erase_idx-last (e ∷ []) (suc n) h = absurd (omega arith)
  erase_idx-last (e ∷ d ∷ l) zero h = absurd (omega arith)
  erase_idx-last (e ∷ d ∷ l) (suc n) h =
      ap (λ r. e.element ∷ r) (erase_idx-last (d ∷ l) n (omega arith))

  -- What an operation answers and leaves in the table.
  abbrev pub seen : Option (Answer A × Table A) → Option (Answer A × List A)
  seen none = none
  seen (some (r, t)) = some (r, contents t)

  erase-contents :
      (t : Table A) (n : ℕ)
      → contents (record t { table = erase_idx t.table n }) ≡ erase_idx (contents t) n
  erase-contents t n = erase_idx-map t.table n

  get_elem?-in :
      (l : List (TableElement A)) (n : ℕ) (e : TableElement A)
      → get_elem? l n ≡ some e
      → ltb 0 (length l) ≡ true
  get_elem?-in [] n e h = cc
  get_elem?-in (d ∷ l) n e h = ground arith

  pull-eq-queue :
      (t : Table A) (now n : ℕ)
      → can_access t AxesType.read now ≡ some true
      → seen (pull_nth t now n >>= λ r. some (item r.0, r.1))
        ≡ (get_elem? (contents t) n >>= λ x. some (item x, erase_idx (contents t) n))
  unfolding pull_nth
  pull-eq-queue t now n r = elim (Option-cases (get_elem? t.table n)) [
    | inl absent ↦ elim (Bool-cases (ltb 0 (length t.table))) [
      | inl some_in ↦ rw (r, get_elem?-map t.table n, absent, some_in)
      | inr empty ↦ rw (get_elem?-map t.table n, absent, empty)
    ]
    | inr (e, at) ↦
        rw (r, get_elem?-map t.table n, get_elem?-in t.table n e at, at)
          (ap (λ l. some (item e.element, l)) (erase-contents t n))
  ]

  pop_first-eq-queue : (size : ℕ) (l : List A) → queue size l pop_first ≡ queue size l (pull 0)
  unfolding queue
  pop_first-eq-queue size [] = refl
  pop_first-eq-queue size (x ∷ l) = refl

  last?-empty : (l : List (TableElement A)) → ltb 0 (length l) ≡ false → last? l ≡ none
  last?-empty [] h = refl
  last?-empty (e ∷ l) h = absurd (ground (arith, h))

  pop_last-eq-queue :
      (t : Table A) (now : ℕ)
      → can_access t AxesType.write now ≡ some true
      → seen (pop_back t now >>= λ r. some (item r.0, r.1))
        ≡ (last? (contents t) >>= λ x. some (item x, drop_last (contents t)))
  unfolding pop_back
  pop_last-eq-queue t now w = elim (Bool-cases (ltb 0 (length t.table))) [
    | inl some_in ↦ elim (Option-cases (last? t.table)) [
      | inl absent ↦ rw (w, last?-map t.table, some_in, absent)
      | inr (e, at) ↦
          rw (w, last?-map t.table, some_in, at)
            (ap (λ l. some (item e.element, l))
              (erase_idx-last t.table (length t.table - 1) (ground (arith, some_in))))
    ]
    | inr empty ↦ rw (w, last?-map t.table, empty, last?-empty t.table empty)
  ]

  -- While a wire of each side is free, the operations on a table are those on a queue of its size:
  -- elements come out at the front in the order in which they went in, a full table takes none, and
  -- an operation fails its check just where the queue has no such element.
  pub apply-eq-queue :
      (t : Table A) (now : ℕ) (op : Op A)
      → can_access t AxesType.read now ≡ some true
      → can_access t AxesType.write now ≡ some true
      → seen (apply t now op) ≡ queue t.table_size (contents t) op
  unfolding apply queue push_back pop_back pop_front pull_nth
  apply-eq-queue t now (push x) r w = elim (Bool-cases (leb t.table_size (length t.table))) [
    | inl full ↦ rw (w, length-map t.table, full)
    | inr space ↦
        rw (w, length-map t.table, space)
          (ap (λ l. some (state available_buff, l)) (append-map t.table (new_element x)))
  ]
  apply-eq-queue t now pop_first r w =
      pull-eq-queue t now 0 r ∙ sym (pop_first-eq-queue t.table_size (contents t))
  apply-eq-queue t now pop_last r w = pop_last-eq-queue t now w
  apply-eq-queue t now (pull n) r w = pull-eq-queue t now n r

  length-erase_idx : (l : List (TableElement A)) (n : ℕ) → length (erase_idx l n) ≤ length l
  length-erase_idx [] n = omega arith
  length-erase_idx (e ∷ l) zero = omega arith
  length-erase_idx (e ∷ l) (suc n) = omega (arith, length-erase_idx l n)

  -- A table that holds at most its size is left so by every operation, and `getTableState`, whose
  -- check then passes, answers full just at the size and empty just at no element.
  pub apply-fits :
      (t t' : Table A) (now : ℕ) (op : Op A) (r : Answer A)
      → length t.table ≤ t.table_size
      → apply t now op ≡ some (r, t')
      → (t'.table_size ≡ t.table_size)
        × (length t'.table ≤ t'.table_size)
        × (get_table_state t'
            ≡ some (
                if length t'.table == t'.table_size
                then full_buff
                else if length t'.table == 0
                then empty_buff
                else available_buff))
  unfolding apply push_back pop_back pop_front pull_nth get_table_state
  apply-fits t t' now (push x) r fits h =
      ground (arith, h, length-append t.table (new_element x ∷ []))
  apply-fits t t' now pop_first r fits h = ground (arith, h, length-erase_idx t.table 0)
  apply-fits t t' now pop_last r fits h =
      ground (arith, h, length-erase_idx t.table (length t.table - 1))
  apply-fits t t' now (pull n) r fits h = ground (arith, h, length-erase_idx t.table n)
