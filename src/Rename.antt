-- ===== src/Rename.antt =====
-- The register rename tables of the out-of-order core (src/backend/unit/registerRename.cpp and .h).
-- A pointer to an `o3_regElem` is the register's number, its key in `_RF`, where every element is
-- made once and stays; so the tables alias the elements of `rf` as they do in the source.
-- The statistics are left out. The check of a size that is a difference of two is written as a sum.
-- Numbers of registers are `unsigned`: only the constructor counts them
-- up, where the wrap at 2^32 is written out.
pub mod Inv
pub mod Recovery
pub mod Init
use cg_oo_o.Common.{
  ℕ, zero, suc, ◌+◌, ◌-◌, ◌%◌, ◌^◌, ◌≡◌, Bool, true, false, ◌&&◌, ◌||◌, List, [], ◌∷◌, ◌++◌, Option,
  none, some, ltb, leb, ◌==◌, if◌then◌else◌, assert, ◌>>=◌, ◌>>◌, length, last?, drop_last,
}
use cg_oo_o.Common.Int.{ℤ}
use cg_oo_o.Common.Maps.{lookup, insert, erase, modify}
use cg_oo_o.Unit.WirePair
use cg_oo_o.Unit.WirePair.{WirePair, AxesType, new_wire_pair}

-- REG_REN_STATE (src/global/global.h)
pub data RegRenState : Type 0 where
  available renamed_invalid renamed_valid arch_reg : RegRenState

abbrev pub tag : RegRenState → ℕ
tag available = 0
tag renamed_invalid = 1
tag renamed_valid = 2
tag arch_reg = 3

infix 50 ◌is◌
abbrev pub ◌is◌ : RegRenState → RegRenState → Bool
s is t = tag s == tag t

-- `o3_regElem`
pub record RegElem : Type 0 where
  pub reg_state : RegRenState
  pub prev_pr : Option ℕ

-- The dimensions read from the configuration. `r_lo` and `r_hi` are read and not used.
pub record Config : Type 0 where
  pub a_size : ℕ
  pub a_lo : ℕ
  pub a_hi : ℕ
  pub p_size : ℕ
  pub p_lo : ℕ
  pub p_hi : ℕ
  pub r_size : ℕ

pub record Rename : Type 0 where
  pub config : Config
  pub open config use *
  pub wires : WirePair
  pub frat : List (ℕ × ℕ)
  pub crat : List (ℕ × ℕ)
  pub rf : List (ℕ × RegElem)
  -- The back of the vector is the end of the list.
  pub available_pr_set : List ℕ

abbrev pub is_in {ℓ} : {V : Type ℓ} → Option V → Bool
is_in none = false
is_in (some v) = true

-- `x++` on an `unsigned`
abbrev pub increment : ℕ → ℕ
increment x = (x + 1) % 2 ^ 32

-- What the constructor builds up: `PR_counter` and the tables.
pub record Tables : Type 0 where
  pub counter : ℕ
  pub frat : List (ℕ × ℕ)
  pub crat : List (ℕ × ℕ)
  pub rf : List (ℕ × RegElem)
  pub available_pr_set : List ℕ

unfoldable pub add_arch : ℕ → Tables → Tables
add_arch a t = record {
  counter = increment t.counter;
  frat = insert a t.counter t.frat;
  crat = insert a t.counter t.crat;
  rf = insert t.counter (record { reg_state = arch_reg; prev_pr = none }) t.rf;
  available_pr_set = t.available_pr_set;
}

-- `for (a_reg = lo; a_reg <= hi; a_reg++)`; `none` where the fuel runs out.
unfoldable pub fill_arch : ℕ → ℕ → ℕ → Tables → Option Tables
fill_arch zero hi a t = none
fill_arch (suc f) hi a t =
    let rest = fill_arch f hi (increment a) (add_arch a t) in if leb a hi then rest else some t

unfoldable pub add_rename : Tables → Tables
add_rename t = record t {
  counter = increment t.counter;
  rf = insert t.counter (record { reg_state = available; prev_pr = none }) t.rf;
  available_pr_set = t.available_pr_set ++ (t.counter ∷ []);
}

-- `while (PR_counter <= hi)`
unfoldable pub fill_rename : ℕ → ℕ → Tables → Option Tables
fill_rename zero hi t = none
fill_rename (suc f) hi t =
    let rest = fill_rename f hi (add_rename t) in if leb t.counter hi then rest else some t

-- The fuel of a loop up to `hi` from `lo`: one call for each round, and one for the test that ends
-- it. A `hi` of 2^32 - 1 makes the loop of the source run for ever, and that of the model stop.
abbrev pub rounds : ℕ → ℕ → ℕ
rounds lo hi = suc (hi + 1 - lo)

-- The constructor, with the wires that its initialisers make.
unfoldable pub new_rename : Config → WirePair → Option Rename
new_rename c w = do
  t ←
      fill_arch (rounds c.a_lo c.a_hi) c.a_hi c.a_lo
        (record { counter = c.p_lo; frat = []; crat = []; rf = []; available_pr_set = [] })
  u ← fill_rename (rounds t.counter c.p_hi) c.p_hi t
  assert (length u.available_pr_set == c.r_size)
  assert (length u.rf == c.p_size)
  assert (length u.frat == c.a_size)
  assert (length u.crat == c.a_size)
  some (record {
    config = c;
    wires = w;
    frat = u.frat;
    crat = u.crat;
    rf = u.rf;
    available_pr_set = u.available_pr_set;
  })

abbrev pub in_range : Rename → ℕ → Bool
in_range s p = leb s.p_lo p && leb p s.p_hi

unfoldable pub rename_reg : Rename → ℕ → Option ℕ
rename_reg s a = do p ← lookup a s.frat; assert (in_range s p); some p

unfoldable pub update_frat : Rename → ℕ → ℕ → Option Rename
update_frat s a p = do
  e ← lookup p s.rf
  assert (e.reg_state is available)
  some (record s { frat = insert a p (if is_in (lookup a s.frat) then erase a s.frat else s.frat) })

unfoldable pub update_crat : Rename → ℕ → ℕ → Option Rename
update_crat s a p = do
  old ← lookup a s.crat
  o ← lookup old s.rf
  assert (o.reg_state is available)
  e ← lookup p s.rf
  assert (e.reg_state is arch_reg)
  some (record s { crat = insert a p (erase a s.crat) })

unfoldable pub is_any_pr_available : Rename → Bool
is_any_pr_available s = if length s.available_pr_set == 0 then false else true

unfoldable pub get_available_pr : Rename → Option (ℕ × Rename)
get_available_pr s = do
  p ← last? s.available_pr_set
  e ← lookup p s.rf
  assert (e.reg_state is available)
  assert (in_range s p)
  some (p, record s { available_pr_set = drop_last s.available_pr_set })

unfoldable pub set_as_available_pr : Rename → ℕ → Option Rename
set_as_available_pr s p = do
  _ ← lookup p s.rf
  assert (leb (length (s.available_pr_set ++ (p ∷ []))) s.r_size)
  some (record s {
    available_pr_set = s.available_pr_set ++ (p ∷ []);
    rf = modify p (λ e. record e { prev_pr = none }) s.rf;
  })

unfoldable pub get_num_available_pr : Rename → ℕ
get_num_available_pr s = length s.available_pr_set

unfoldable pub get_prev_pr : Rename → ℕ → Option ℕ
get_prev_pr s p = do e ← lookup p s.rf; e.prev_pr

unfoldable pub update_pr : Rename → ℕ → ℕ → RegRenState → Option Rename
update_pr s new_pr prev state = do
  e ← lookup new_pr s.rf
  _ ← lookup prev s.rf
  assert (e.reg_state is available && state is renamed_invalid)
  some (record s {
    rf = modify new_pr (λ e. record e { prev_pr = some prev; reg_state = state }) s.rf;
  })

-- The transitions that `updatePRstate` lets through.
abbrev pub may_become : RegRenState → RegRenState → Bool
may_become old new =
    (old is available && new is renamed_invalid)
    || (old is renamed_invalid && new is renamed_valid)
    || (old is renamed_valid && new is arch_reg)
    || (old is arch_reg && new is available)

unfoldable pub update_pr_state : Rename → ℕ → RegRenState → Option Rename
update_pr_state s p state = do
  e ← lookup p s.rf
  assert (may_become e.reg_state state)
  some (record s { rf = modify p (λ e. record e { reg_state = state }) s.rf })

unfoldable pub squash_pr_state : Rename → ℕ → Option Rename
squash_pr_state s p = do
  e ← lookup p s.rf
  assert (e.reg_state is renamed_invalid || e.reg_state is renamed_valid)
  some (record s { rf = modify p (λ e. record e { reg_state = available }) s.rf })

unfoldable pub get_pr_state : Rename → ℕ → Option RegRenState
get_pr_state s p = do e ← lookup p s.rf; some e.reg_state

unfoldable pub is_pr_valid : Rename → ℕ → Option Bool
is_pr_valid s p = do
  assert (in_range s p)
  e ← lookup p s.rf
  assert (if e.reg_state is available then false else true)
  some (e.reg_state is arch_reg || e.reg_state is renamed_valid)

-- What `squashRenameReg` works on: `_fRAT`, `_RF` and the copy `rf` of it.
pub record Squash : Type 0 where
  pub frat : List (ℕ × ℕ)
  pub all : List (ℕ × RegElem)
  pub rest : List (ℕ × RegElem)

-- A squashed element: its state, and no previous register.
abbrev pub reset : RegRenState → RegElem → RegElem
reset state e = record e { reg_state = state; prev_pr = none }

-- The loop over `_cRAT`: one entry, and all.
abbrev pub squash_one : ℕ → ℕ → Squash → Squash
squash_one a p q = record {
  frat = insert a p q.frat;
  all = modify p (reset arch_reg) q.all;
  rest = erase p q.rest;
}

unfoldable pub squash_arch : List (ℕ × ℕ) → Squash → Squash
squash_arch [] q = q
squash_arch ((a, p) ∷ m) q = squash_arch m (squash_one a p q)

-- The loop over what is left of the copy, whose elements are those of `_RF`.
unfoldable pub squash_rest :
    List (ℕ × RegElem) → List (ℕ × RegElem) → List ℕ → List (ℕ × RegElem) × List ℕ
squash_rest [] all avail = (all, avail)
squash_rest ((p, _) ∷ m) all avail =
    squash_rest m (modify p (reset available) all) (avail ++ (p ∷ []))

unfoldable pub squash_rename_reg : Rename → Option Rename
squash_rename_reg s = do
  let q = squash_arch s.crat (record { frat = []; all = s.rf; rest = s.rf })
  assert (length q.frat == length s.crat)
  assert (length q.rest + length s.crat == length s.rf)
  let r = squash_rest q.rest q.all []
  assert (leb (length r.1) s.r_size)
  some (record s { frat = q.frat; rf = r.0; available_pr_set = r.1 })

-- `hasFreeWire`, `updateWireState` and `getNumFreeWires`
unfoldable pub has_free_wire : Rename → AxesType → ℕ → Option Bool
has_free_wire s axes now = WirePair.has_free_wire s.wires axes now

unfoldable pub update_wire_state : Rename → AxesType → ℕ → Option Rename
update_wire_state s axes now = do
  w ← WirePair.update_wire_state s.wires axes now
  some (record s { wires = w })

unfoldable pub get_num_free_wires : Rename → AxesType → ℕ → Option ℤ
get_num_free_wires s axes now = WirePair.get_num_free_wires s.wires axes now
