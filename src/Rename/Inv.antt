-- ===== src/Rename/Inv.antt =====
-- What the rename tables of src/backend/unit/registerRename.cpp keep to: each physical register is
-- held by the committed map, by an instruction in flight, or by the free list.
use cg_oo_o.Common.{
  ℕ, ◌+◌, ◌≤◌, ◌<◌, ◌≡◌, refl, ◌∙◌, ◌⊎◌, List, [], ◌∷◌, ◌++◌, Option, some, ◌==◌, if◌then◌else◌,
  length, count, arith, ◌>>=◌, inl, inr, Bool-cases,
}
use cg_oo_o.Common.Maps.{
  lookup, insert, erase, modify, keys, IsOrdered, insert-IsOrdered, erase-IsOrdered, lookup-modify,
  lookup-erase_self, lookup-insert-erase,
}
use cg_oo_o.Common.Values.{values, count-values-insert, count-values-erase_le, count-values-lookup}
use cg_oo_o.Rename.{
  Rename, RegElem, RegRenState, available, renamed_invalid, renamed_valid, arch_reg,
}

-- The renames in flight, oldest first: an architectural register and its new physical register.
abbrev pub Flight : Type 0
Flight = List (ℕ × ℕ)

-- A map with the entry of one key renewed, as `update_cRAT` does it.
abbrev pub assign : ℕ → ℕ → List (ℕ × ℕ) → List (ℕ × ℕ)
assign a p m = insert a p (erase a m)

-- The committed map as it will be once the renames in flight have committed in their order.
abbrev pub replay : List (ℕ × ℕ) → Flight → List (ℕ × ℕ)
replay crat [] = crat
replay crat ((a, p) ∷ fl) = replay (assign a p crat) fl

unfoldable pub state_of : List (ℕ × RegElem) → ℕ → Option RegRenState
state_of rf p = do e ← lookup p rf; some e.reg_state

unfoldable pub prev_of : List (ℕ × RegElem) → ℕ → Option ℕ
prev_of rf p = do e ← lookup p rf; e.prev_pr

-- Each rename in flight remembers the register that held its value when all before it are done.
abbrev pub Chain : List (ℕ × RegElem) → List (ℕ × ℕ) → Flight → Type 0
Chain rf crat [] = Unit
Chain rf crat ((a, p) ∷ fl) =
    (q : ℕ) × (lookup a crat ≡ some q) × (prev_of rf p ≡ some q) × Chain rf (assign a p crat) fl

-- `s` with `fl` in flight.
pub record Inv (s : Rename) (fl : Flight) : Type 0 where
  pub ordered : IsOrdered s.crat
  pub ordered_frat : IsOrdered s.frat
  pub once : (p : ℕ) → count p (keys s.rf) < 2
  pub parts :
      (p : ℕ)
      → count p (values s.crat) + count p (values fl) + count p s.available_pr_set
        ≡ count p (keys s.rf)
  pub arch : (p : ℕ) → 0 < count p (values s.crat) → state_of s.rf p ≡ some arch_reg
  pub renamed :
      (p : ℕ)
      → 0 < count p (values fl)
      → (state_of s.rf p ≡ some renamed_invalid) ⊎ (state_of s.rf p ≡ some renamed_valid)
  pub free : (p : ℕ) → 0 < count p s.available_pr_set → state_of s.rf p ≡ some available
  pub front : (a : ℕ) → lookup a s.frat ≡ lookup a (replay s.crat fl)
  pub chain : Chain s.rf s.crat fl
  pub room : length s.available_pr_set + length fl ≡ s.r_size
  pub total : length s.crat + s.r_size ≡ length s.rf
  pub range : (p : ℕ) → 0 < count p (keys s.rf) → (s.p_lo ≤ p) × (p ≤ s.p_hi)

pub assign-IsOrdered : (a p : ℕ) (m : List (ℕ × ℕ)) → IsOrdered m → IsOrdered (assign a p m)
assign-IsOrdered a p m o = insert-IsOrdered a p (erase a m) (erase-IsOrdered a m o)

pub replay-IsOrdered : (m : List (ℕ × ℕ)) (fl : Flight) → IsOrdered m → IsOrdered (replay m fl)
replay-IsOrdered m [] o = o
replay-IsOrdered m ((a, p) ∷ fl) o = replay-IsOrdered (assign a p m) fl (assign-IsOrdered a p m o)

pub replay-append :
    (m : List (ℕ × ℕ)) (fl : Flight) (a p : ℕ)
    → replay m (fl ++ ((a, p) ∷ [])) ≡ assign a p (replay m fl)
replay-append m [] a p = refl
replay-append m ((b, q) ∷ fl) a p = replay-append (assign b q m) fl a p

-- The chain reads the elements of the registers in flight alone.
pub Chain-mono :
    (rf rf' : List (ℕ × RegElem)) (m : List (ℕ × ℕ)) (fl : Flight)
    → ((p : ℕ) → 0 < count p (values fl) → prev_of rf' p ≡ prev_of rf p)
    → Chain rf m fl
    → Chain rf' m fl
Chain-mono rf rf' m [] same c = tt
Chain-mono rf rf' m ((a, p) ∷ fl) same c = (
  c.0,
  c.1,
  same p (ground arith) ∙ c.2,
  Chain-mono rf rf' (assign a p m) fl (λ r h. same r (ground arith)) c.3,
)

pub Chain-append :
    (rf : List (ℕ × RegElem)) (m : List (ℕ × ℕ)) (fl : Flight) (a p q : ℕ)
    → lookup a (replay m fl) ≡ some q
    → prev_of rf p ≡ some q
    → Chain rf m fl
    → Chain rf m (fl ++ ((a, p) ∷ []))
Chain-append rf m [] a p q h k c = (q, h, k, tt)
Chain-append rf m ((b, r) ∷ fl) a p q h k c =
    (c.0, c.1, c.2, Chain-append rf (assign b r m) fl a p q h k c.3)

-- What a write to one element changes.
pub state_of-modify :
    (k j : ℕ) (f : RegElem → RegElem) (rf : List (ℕ × RegElem))
    → state_of (modify k f rf) j
      ≡ (if j == k then (lookup j rf >>= λ e. some (f e).reg_state) else state_of rf j)
unfolding state_of
state_of-modify k j f rf = ground (arith, lookup-modify k j f rf)

pub prev_of-modify :
    (k j : ℕ) (f : RegElem → RegElem) (rf : List (ℕ × RegElem))
    → prev_of (modify k f rf) j
      ≡ (if j == k then (lookup j rf >>= λ e. (f e).prev_pr) else prev_of rf j)
unfolding prev_of
prev_of-modify k j f rf = ground (arith, lookup-modify k j f rf)

-- What an architectural register will map to is mapped already or in flight.
pub count-replay :
    (p : ℕ) (m : List (ℕ × ℕ)) (fl : Flight)
    → IsOrdered m
    → count p (values (replay m fl)) ≤ count p (values m) + count p (values fl)
count-replay p m [] o = omega arith
count-replay p m ((a, q) ∷ fl) o = omega (
  arith,
  count-replay p (assign a q m) fl (assign-IsOrdered a q m o),
  count-values-insert p a q (erase a m) (lookup-erase_self a m o),
  count-values-erase_le p a m,
)

pub lookup-replay :
    (a q : ℕ) (m : List (ℕ × ℕ)) (fl : Flight)
    → IsOrdered m
    → lookup a (replay m fl) ≡ some q
    → 0 < count q (values m) + count q (values fl)
lookup-replay a q m fl o h =
    omega (arith, count-replay q m fl o, count-values-lookup a q (replay m fl) h)

-- A key of the map stays one.
pub replay-has :
    (a q : ℕ) (m : List (ℕ × ℕ)) (fl : Flight)
    → IsOrdered m
    → lookup a m ≡ some q
    → (r : ℕ) × (lookup a (replay m fl) ≡ some r)
replay-has a q m [] o h = (q, h)
replay-has a q m ((b, p) ∷ fl) o h = elim (Bool-cases (a == b)) [
  | inl same ↦
      replay-has a p (assign b p m) fl (assign-IsOrdered b p m o)
        (rw (lookup-insert-erase b a p m o, same))
  | inr other ↦
      replay-has a q (assign b p m) fl (assign-IsOrdered b p m o)
        (rw (lookup-insert-erase b a p m o, other) h)
]
