-- ===== src/Unit/RegisterFile/Scoreboard.antt =====
-- The register file of src/backend/unit/registerFile.cpp as a scoreboard: which registers wait for a
-- write, and what each operation does to that.
use cg_oo_o.Common.{
  ℕ, ◌≡◌, refl, ◌∙◌, ◌⊎◌, inl, inr, Bool, true, false, not, none, some, Option-cases, ◌==◌,
  if◌then◌else◌, ◌>>=◌, arith, Bool-cases,
}
use cg_oo_o.Common.Maps.{modify, lookup-modify}
use cg_oo_o.Unit.RegisterFile.{
  wait_on_write_reg, done_write_reg, RegisterElement, RegisterFile, get_element, update_reg,
  reserve_reg, is_reg_valid_and_ready, is_reg_busy, set_state, first_read, is_no_val, is_done,
  is_waiting,
}

-- The register was made, and if it was read before it holds a value or waits for one.
abbrev pub Usable : RegisterFile → ℕ → Type 0
Usable s r =
    (e : RegisterElement) × (get_element s r ≡ some e)
    × (e.axesed_before ≡ true → is_no_val e.reg_state ≡ false)

get_element-modify :
    (s : RegisterFile) (k r : ℕ) (f : RegisterElement → RegisterElement)
    → get_element (record s { rf = modify k f s.rf }) r
      ≡ (if r == k then (get_element s r >>= λ e. some (f e)) else get_element s r)
unfolding get_element
get_element-modify s k r f = ground (arith, lookup-modify k r f s.rf)

abbrev IsSeen : RegisterElement → Type 0
IsSeen e = e.axesed_before ≡ true → is_no_val e.reg_state ≡ false

Usable-modify :
    (s : RegisterFile) (k r : ℕ) (f : RegisterElement → RegisterElement)
    → ((e : RegisterElement) → IsSeen e → IsSeen (f e))
    → Usable s r
    → Usable (record s { rf = modify k f s.rf }) r
Usable-modify s k r f keep (e, at, seen) = elim (Bool-cases (r == k)) [
  | inl same ↦ (f e, get_element-modify s k r f ∙ rw (same, at), keep e seen)
  | inr other ↦ (e, get_element-modify s k r f ∙ rw (other, at), seen)
]

-- A register that does not wait can be reserved; then it waits, and no other register changes.
pub reserve_reg-busy :
    (s : RegisterFile) (r : ℕ)
    → Usable s r
    → is_reg_busy s r ≡ some false
    → (s' : RegisterFile) × (reserve_reg s r ≡ some s')
      × ((q : ℕ) → is_reg_busy s' q ≡ (if q == r then some true else is_reg_busy s q))
      × ((q : ℕ) → Usable s q → Usable s' q)
unfolding reserve_reg is_reg_busy
reserve_reg-busy s r (e, at, seen) idle = (
  record s { rf = modify r (set_state wait_on_write_reg) s.rf },
  ground (arith, at, idle),
  λ q. ground (arith, at, get_element-modify s r q (set_state wait_on_write_reg)),
  λ q u. Usable-modify s r q (set_state wait_on_write_reg) (λ d k h. refl) u,
)

-- A register that waits is written; then it waits no more, and no other register changes.
pub update_reg-busy :
    (s : RegisterFile) (r : ℕ)
    → Usable s r
    → is_reg_busy s r ≡ some true
    → (s' : RegisterFile) × (update_reg s r ≡ some s')
      × ((q : ℕ) → is_reg_busy s' q ≡ (if q == r then some false else is_reg_busy s q))
      × ((q : ℕ) → Usable s q → Usable s' q)
unfolding update_reg is_reg_busy
update_reg-busy s r (e, at, seen) busy = (
  record s { rf = modify r (set_state done_write_reg) s.rf },
  ground (arith, at, busy),
  λ q. ground (arith, at, get_element-modify s r q (set_state done_write_reg)),
  λ q u. Usable-modify s r q (set_state done_write_reg) (λ d k h. refl) u,
)

-- A register is ready just when it does not wait; the answer makes no register wait or stop waiting.
pub is_reg_valid_and_ready-busy :
    (s : RegisterFile) (r : ℕ)
    → Usable s r
    → (b : Bool) × (s' : RegisterFile) × (is_reg_valid_and_ready s r ≡ some (b, s'))
      × (is_reg_busy s r ≡ some (not b))
      × ((q : ℕ) → is_reg_busy s' q ≡ is_reg_busy s q)
      × ((q : ℕ) → Usable s q → Usable s' q)
unfolding is_reg_valid_and_ready is_reg_busy
is_reg_valid_and_ready-busy s r (e, at, seen) = elim (Bool-cases (e.axesed_before)) [
  | inl before ↦ (
    is_done e.reg_state,
    s,
    ground (arith, at, seen),
    ground (arith, at, seen),
    λ q. refl,
    λ q u. u,
  )
  | inr never ↦ (
    is_done (first_read e).reg_state,
    record s { rf = modify r first_read s.rf },
    ground (arith, at),
    ground (arith, at),
    λ q. ground (arith, at, get_element-modify s r q first_read),
    λ q u. Usable-modify s r q first_read (λ d k h. ground arith) u,
  )
]

-- A register that was made waits or does not.
pub Usable-cases :
    (s : RegisterFile) (r : ℕ)
    → Usable s r
    → (is_reg_busy s r ≡ some false) ⊎ (is_reg_busy s r ≡ some true)
unfolding is_reg_busy
Usable-cases s r (e, at, seen) = elim (Bool-cases (is_waiting e.reg_state)) [
  | inl waits ↦ inr (ground (arith, at, waits))
  | inr idle ↦ inl (ground (arith, at, idle))
]

-- A register that waits is not reserved again.
pub reserve_reg_again :
    (s : RegisterFile) (r : ℕ) → is_reg_busy s r ≡ some true → reserve_reg s r ≡ none
unfolding is_reg_busy reserve_reg
reserve_reg_again s r h = ground (arith, h, Option-cases (get_element s r))
