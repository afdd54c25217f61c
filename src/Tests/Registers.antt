-- ===== src/Tests/Registers.antt =====
-- The register renaming at concrete inputs.
use cg_oo_o.Common.{
  ℕ, suc, ◌+◌, ◌≤◌, ◌<◌, ◌≡◌, refl, ◌⊎◌, inl, inr, false, List, [], ◌∷◌, ◌++◌, none, some, ◌>>=◌,
  length, count, arith, All,
}
use cg_oo_o.Common.Int.{pos}
use cg_oo_o.Common.Maps.{lookup, insert, erase, keys}
use cg_oo_o.Common.Values.{values}
use cg_oo_o.Unit.WirePair.{WirePair}
use cg_oo_o.Unit.Instruction.{Instruction}
use cg_oo_o.Rename.{
  Rename, Config, RegRenState, available, renamed_invalid, renamed_valid, arch_reg, new_rename,
  squash_rename_reg,
}
use cg_oo_o.Rename.Inv.{Inv, Flight, replay, state_of, prev_of}
use cg_oo_o.Rename.Init.{Consistent, new_rename-Inv}
use cg_oo_o.Rename.Recovery.{squash_rename_reg-Inv}
use cg_oo_o.RfManager.{rename_regs, rename_write, complete_regs, commit_regs, commit_write}
use cg_oo_o.RfManager.Write.{rename_write-Inv}
use cg_oo_o.RfManager.Commit.{commit_write-Inv}
use cg_oo_o.RfManager.Operands.{
  InState, Reads, pairs, rename_regs-Inv, complete_regs-Inv, commit_regs-Inv,
}
use cg_oo_o.RfManager.Core.{Core, Event, dispatch, complete, commit, squash, run, start}
use cg_oo_o.RfManager.Entries.{flight}
use cg_oo_o.RfManager.Run.{IsValid, start-run-IsValid}
use cg_oo_o.Common.{Bool}
use cg_oo_o.RfManager.{is_ready}
use cg_oo_o.RfManager.Ready.{IsHeld, Asked, is_ready-Asked}
use cg_oo_o.Tests.{alu_ins}

-- Two architectural registers, 1 and 2, and four physical ones, 10 to 13.
abbrev small : Config
small = record { a_size = 2; a_lo = 1; a_hi = 2; p_size = 4; p_lo = 10; p_hi = 13; r_size = 2 }

small-Consistent : Consistent small
small-Consistent = record {
  arch_regs = refl;
  phys_regs = refl;
  sizes = refl;
  a_top = omega arith;
  p_top = omega arith;
}

abbrev two_wires : WirePair
two_wires = record {
  cycle = 0;
  wr_port = record { cycle = 0; num_free_wire = pos 0; wire_cnt = 2 };
  rd_port = record { cycle = 0; num_free_wire = pos 0; wire_cnt = 2 };
}

-- Register 1 is renamed to 13, whose value has come if the state says so.
abbrev renamed : RegRenState → Rename
renamed state = record {
  config = small;
  wires = two_wires;
  frat = (1, 13) ∷ (2, 11) ∷ [];
  crat = (1, 10) ∷ (2, 11) ∷ [];
  rf =
      (10, record { reg_state = arch_reg; prev_pr = none })
      ∷ (11, record { reg_state = arch_reg; prev_pr = none })
      ∷ (12, record { reg_state = available; prev_pr = none })
      ∷ (13, record { reg_state = state; prev_pr = some 10 })
      ∷ [];
  available_pr_set = 12 ∷ [];
}

abbrev in_flight : Flight
in_flight = (1, 13) ∷ []

renamed-Inv :
    (state : RegRenState)
    → (state ≡ renamed_invalid) ⊎ (state ≡ renamed_valid)
    → Inv (renamed state) in_flight
unfolding state_of lookup prev_of insert erase
renamed-Inv state two = record {
  ordered = ground arith;
  ordered_frat = ground arith;
  once = λ p. ground arith;
  parts = λ p. ground arith;
  arch = λ p h. ground (arith, h);
  renamed = λ p h. ground (arith, h, two);
  free = λ p h. ground (arith, h);
  front = λ a. ground arith;
  chain = (10, refl, refl, tt);
  room = refl;
  total = refl;
  range = λ p h. ground (arith, h);
}

waiting-Inv : Inv (renamed renamed_invalid) in_flight
waiting-Inv = renamed-Inv renamed_invalid (inl refl)

done-Inv : Inv (renamed renamed_valid) in_flight
done-Inv = renamed-Inv renamed_valid (inr refl)

squash_rename_reg-Inv_example :
    (s' : Rename) × (squash_rename_reg (renamed renamed_invalid) ≡ some s')
    × (s'.crat ≡ (1, 10) ∷ (2, 11) ∷ [])
    × (s'.frat ≡ (1, 10) ∷ (2, 11) ∷ [])
    × ((p : ℕ)
        → count p s'.available_pr_set + count p (values (renamed renamed_invalid).crat)
          ≡ count p (keys (renamed renamed_invalid).rf))
    × Inv s' []
squash_rename_reg-Inv_example =
    squash_rename_reg-Inv (renamed renamed_invalid) in_flight waiting-Inv

abbrev add : Instruction
add = alu_ins 5 (1 ∷ 2 ∷ []) (2 ∷ [])

rename_regs-Inv_example :
    (rs : List ℕ) × (ps : List ℕ) × (s' : Rename) × (rename_regs (renamed renamed_invalid) add
      ≡ some (false, s', record add { p_rd_reg = rs; p_rd_reg_wait_list = rs; p_wr_reg = ps }))
    × Reads (renamed renamed_invalid).frat (1 ∷ 2 ∷ []) rs
    × (length ps ≡ 1)
    × (s'.crat ≡ (1, 10) ∷ (2, 11) ∷ [])
    × All (InState s' renamed_invalid) ps
    × ((r : ℕ)
        → 0 < count r (values in_flight)
        → state_of s'.rf r ≡ state_of (renamed renamed_invalid).rf r)
    × Inv s' (in_flight ++ pairs (2 ∷ []) ps)
rename_regs-Inv_example =
    rename_regs-Inv (renamed renamed_invalid) in_flight add waiting-Inv
      ((10, unfold lookup in refl), ((11, unfold lookup in refl), tt))
      ((11, unfold lookup in refl), tt) (omega arith)

-- The instruction whose destination is in flight.
abbrev given : Instruction
given = record (alu_ins 4 [] (1 ∷ [])) { p_wr_reg = 13 ∷ [] }

complete_regs-Inv_example :
    (s' : Rename) × (complete_regs (renamed renamed_invalid) given ≡ some s')
    × (s'.crat ≡ (1, 10) ∷ (2, 11) ∷ [])
    × All (InState s' renamed_valid) (13 ∷ [])
    × ((r : ℕ) → count r (13 ∷ []) ≡ 0 → state_of s'.rf r ≡ state_of (renamed renamed_invalid).rf r)
    × Inv s' in_flight
complete_regs-Inv_example =
    complete_regs-Inv (renamed renamed_invalid) in_flight given waiting-Inv (omega arith, tt)
      (unfold state_of lookup in refl, tt) (λ r. ground arith)

commit_regs-Inv_example :
    (s' : Rename) × (commit_regs (renamed renamed_valid) given ≡ some s')
    × (s'.crat ≡ replay (renamed renamed_valid).crat in_flight)
    × (s'.frat ≡ (1, 13) ∷ (2, 11) ∷ [])
    × ((r : ℕ) → 0 < count r (values []) → state_of s'.rf r ≡ state_of (renamed renamed_valid).rf r)
    × Inv s' []
commit_regs-Inv_example =
    commit_regs-Inv (renamed renamed_valid) [] given refl done-Inv
      (unfold state_of lookup in refl, tt)

rename_write-Inv_example :
    (p : ℕ) × (s' : Rename) × (rename_write (renamed renamed_invalid) 2 ≡ some (p, s'))
    × (0 < count p (12 ∷ []))
    × (lookup 2 s'.frat ≡ some p)
    × (s'.crat ≡ (1, 10) ∷ (2, 11) ∷ [])
    × (state_of s'.rf p ≡ some renamed_invalid)
    × ((r : ℕ)
        → 0 < count r (values in_flight)
        → state_of s'.rf r ≡ state_of (renamed renamed_invalid).rf r)
    × (suc (length s'.available_pr_set) ≡ 1)
    × Inv s' (in_flight ++ ((2, p) ∷ []))
rename_write-Inv_example =
    rename_write-Inv (renamed renamed_invalid) in_flight 2 11 waiting-Inv (unfold lookup in refl)
      (omega arith)

commit_write-Inv_example :
    (q : ℕ) × (s' : Rename) × (commit_write (renamed renamed_valid) 13 1 ≡ some s')
    × (lookup 1 (renamed renamed_valid).crat ≡ some q)
    × (s'.crat ≡ replay (renamed renamed_valid).crat in_flight)
    × (s'.frat ≡ (1, 13) ∷ (2, 11) ∷ [])
    × (s'.available_pr_set ≡ 12 ∷ q ∷ [])
    × ((r : ℕ) → 0 < count r (values []) → state_of s'.rf r ≡ state_of (renamed renamed_valid).rf r)
    × Inv s' []
commit_write-Inv_example =
    commit_write-Inv (renamed renamed_valid) [] 1 13 done-Inv (unfold state_of lookup in refl)

new_rename-Inv_example :
    (s : Rename) × (new_rename small two_wires ≡ some s)
    × (s.config ≡ small)
    × (length s.crat ≡ 2)
    × (length s.available_pr_set ≡ 2)
    × ((a : ℕ) → 1 ≤ a → a ≤ 2 → (p : ℕ) × (lookup a s.crat ≡ some p))
    × Inv s []
new_rename-Inv_example = new_rename-Inv small two_wires small-Consistent

-- Two instructions, one more than the free registers allow, and a squash.
abbrev events : List Event
events =
    dispatch (alu_ins 4 (2 ∷ []) (1 ∷ []))
    ∷ dispatch (alu_ins 5 (1 ∷ []) (1 ∷ []))
    ∷ dispatch (alu_ins 6 [] (2 ∷ []))
    ∷ complete 0
    ∷ commit
    ∷ commit
    ∷ squash
    ∷ dispatch (alu_ins 5 (1 ∷ []) (1 ∷ []))
    ∷ []

abbrev InBounds : ℕ → Type 0
InBounds a = (1 ≤ a) × (a ≤ 2)

one : InBounds 1
one = (omega arith, omega arith)

two : InBounds 2
two = (omega arith, omega arith)

start-run-IsValid_example :
    (c : Core) × ((start small two_wires >>= λ c0. run c0 events) ≡ some c)
    × ((p : ℕ)
        → count p (values c.tables.crat)
            + count p (values (flight c.rob))
            + count p c.tables.available_pr_set
          ≡ count p (keys c.tables.rf))
    × ((a : ℕ) → lookup a c.tables.frat ≡ lookup a (replay c.tables.crat (flight c.rob)))
    × IsValid c
start-run-IsValid_example = start-run-IsValid small two_wires events small-Consistent (
  ((two, tt), (one, tt), refl),
  (
    ((one, tt), (one, tt), refl),
    ((tt, (two, tt), refl), (tt, (tt, (tt, (tt, (((one, tt), (one, tt), refl), tt)))))),
  ),
)

-- An instruction that waits for the registers 11 and 13.
abbrev reader : Instruction
reader = record (alu_ins 6 (1 ∷ 2 ∷ []) []) { p_rd_reg_wait_list = 11 ∷ 13 ∷ [] }

reader-IsHeld : All (IsHeld (renamed renamed_invalid) in_flight) (11 ∷ 13 ∷ [])
reader-IsHeld = (omega arith, (omega arith, tt))

is_ready-Asked_example :
    (b : Bool) × (left : List ℕ) × (is_ready (renamed renamed_invalid) reader
      ≡ some (b, record reader { p_rd_reg_wait_list = left }))
    × Asked (renamed renamed_invalid) (11 ∷ 13 ∷ []) b left
is_ready-Asked_example =
    is_ready-Asked (renamed renamed_invalid) in_flight reader waiting-Inv reader-IsHeld
