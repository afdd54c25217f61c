-- ===== src/Tests/Memory.antt =====
-- The load and store queues, the commit stage and the in-order scoreboard at concrete inputs.
use cg_oo_o.Common.{
  ℕ, ◌≤◌, ◌<◌, ◌≡◌, ◌↔◌, none, refl, ◌⊎◌, Bool, true, false, List, [], ◌∷◌, some, leb, count, arith,
  All,
}
use cg_oo_o.Common.Back.{remove_if}
use cg_oo_o.Common.Int.{pos}
use cg_oo_o.Common.Maps.{lookup}
use cg_oo_o.Unit.Clock.{unset}
use cg_oo_o.Unit.Instruction.{
  Instruction, InsType, MemType, SqState, LqState, get_lq_state, get_sq_state, is_cache_axes,
}
use cg_oo_o.Unit.RegisterFile.{RegisterFile, RegState, get_element, is_reg_busy}
use cg_oo_o.Unit.RegisterFile.Scoreboard.{Usable}
use cg_oo_o.Ino.RfManager.{is_ready, none_busy, can_reserve_rf, reserve_rf, write_to_rf}
use cg_oo_o.Ino.RfManager.Hazards.{
  Marked, is_ready-none_busy, reserve_rf-write_to_rf, reserve_rf-blocks,
}
use cg_oo_o.Ino.RfManager.Repeats.{reserve_rf-repeated}
use cg_oo_o.O3.Scan.{First, Last, find_back, find_first}
use cg_oo_o.O3.Lsq.{
  Entry, squash, has_any_complete_ld_from_addr, has_any_complete_st_from_addr, no_waw_st_ins, upper,
  violates, is_younger_store,
}
use cg_oo_o.O3.Lsq.Age.{IsAged, squash-eq-remove_if}
use cg_oo_o.O3.Lsq.Search.{
  Violating, Overwrites, has_any_complete_ld-youngest, has_any_complete_ld_complete,
  has_any_complete_ld-skips_head, has_any_complete_st-oldest,
}
use cg_oo_o.O3.Lsq.{has_mem_addr}
use cg_oo_o.O3.Lsq.Forward.{Supplies, has_mem_addr-Supplies}
use cg_oo_o.O3.MemManager.{MemManager, is_lq_violation}
use cg_oo_o.O3.MemManager.Violation.{TooEarly, is_lq_violation-Violating, is_lq_violation-TooEarly}
use cg_oo_o.Common.{◌++◌, map}
use cg_oo_o.O3.Commit.{CommitStage, mem_mispred_squash}
use cg_oo_o.O3.Commit.Replay.{Cut, replayed, mem_mispred_squash-Cut}
use cg_oo_o.Tests.{alu_ins}

-- A complete load and a complete store.
abbrev load_at : ℕ → ℕ → Entry
load_at seq addr = record {
  delay = unset;
  element = record (alu_ins seq [] []) {
    ins_type = InsType.mem;
    mem_type = MemType.load;
    mem_addr = addr;
    lq_state = LqState.lq_complete;
    cache_axes = true;
  };
}

abbrev store_at : ℕ → ℕ → Entry
store_at seq addr = record {
  delay = unset;
  element = record (alu_ins seq [] []) {
    ins_type = InsType.mem;
    mem_type = MemType.store;
    mem_addr = addr;
    sq_state = SqState.sq_complete;
  };
}

abbrev loads : List Entry
loads = load_at 4 64 ∷ load_at 6 64 ∷ load_at 7 96 ∷ load_at 9 64 ∷ []

has_any_complete_ld-youngest_example :
    Violating 64 3 (upper 8 (load_at 2 8 ∷ loads)) (load_at 6 64)
    × Last (λ y. ¬ Violating 64 3 (upper 8 (load_at 2 8 ∷ loads)) y) (load_at 6 64) loads
has_any_complete_ld-youngest_example =
    has_any_complete_ld-youngest 64 3 8 (load_at 2 8) (load_at 6 64) loads (
      unfold has_any_complete_ld_from_addr upper violates find_back get_lq_state is_cache_axes in
      refl)

has_any_complete_ld_complete_example :
    All (λ y. ¬ Violating 32 3 (upper 8 (load_at 2 8 ∷ loads)) y) loads
has_any_complete_ld_complete_example =
    has_any_complete_ld_complete 32 3 8 (load_at 2 8) loads
      (omega arith, (omega arith, (omega arith, (omega arith, tt))))
      (unfold has_any_complete_ld_from_addr upper violates find_back get_lq_state is_cache_axes in
        refl)

-- A violating load at the head, and one that is not.
has_any_complete_ld-skips_head_example :
    has_any_complete_ld_from_addr 64 3 8 (load_at 4 64 ∷ [])
    ≡ has_any_complete_ld_from_addr 64 3 8 (load_at 4 32 ∷ [])
has_any_complete_ld-skips_head_example =
    has_any_complete_ld-skips_head 64 3 8 (load_at 4 64) (load_at 4 32) []

abbrev stores : List Entry
stores = store_at 3 64 ∷ store_at 5 64 ∷ store_at 8 64 ∷ []

has_any_complete_st-oldest_example :
    ((5 ≡ no_waw_st_ins) × All (λ y. ¬ Overwrites 64 3 y) stores)
    ⊎ ((x : Entry) × (5 ≡ x.element.seq_num)
        × Overwrites 64 3 x
        × First (λ y. ¬ Overwrites 64 3 y) x stores)
has_any_complete_st-oldest_example =
    has_any_complete_st-oldest 64 3 5 stores
      (unfold has_any_complete_st_from_addr is_younger_store find_first get_sq_state in refl)

squash-eq-remove_if_example : squash 6 loads ≡ remove_if (λ e. leb 6 e.element.seq_num) loads
squash-eq-remove_if_example =
    squash-eq-remove_if 6 loads (omega arith, (omega arith, (omega arith, tt)))

-- Register 1 was written, 2 never, and 3 waits.
abbrev scoreboard : RegisterFile
scoreboard = record {
  rf =
      (1, record { reg_state = RegState.done_write_reg; axesed_before = true })
      ∷ (2, record { reg_state = RegState.no_val_reg; axesed_before = false })
      ∷ (3, record { reg_state = RegState.wait_on_write_reg; axesed_before = false })
      ∷ [];
  rf_begin_num = 1;
  rf_end_num = 4;
  wires = record {
    cycle = 0;
    wr_port = record { cycle = 0; num_free_wire = pos 0; wire_cnt = 1 };
    rd_port = record { cycle = 0; num_free_wire = pos 0; wire_cnt = 2 };
  };
}

reg1-Usable : Usable scoreboard 1
unfolding get_element lookup
reg1-Usable =
    (record { reg_state = RegState.done_write_reg; axesed_before = true }, refl, λ h. refl)

reg2-Usable : Usable scoreboard 2
unfolding get_element lookup
reg2-Usable = (
  record { reg_state = RegState.no_val_reg; axesed_before = false },
  refl,
  λ h. ground (arith, h),
)

is_ready-none_busy_example :
    (b : Bool) × (s' : RegisterFile) × (i' : Instruction) × (is_ready scoreboard
        (alu_ins 4 (1 ∷ 2 ∷ []) [])
      ≡ some (b, s', i'))
    × (none_busy scoreboard (1 ∷ 2 ∷ []) ≡ some b)
    × ((q : ℕ) → is_reg_busy s' q ≡ is_reg_busy scoreboard q)
is_ready-none_busy_example =
    is_ready-none_busy scoreboard (alu_ins 4 (1 ∷ 2 ∷ []) []) (reg1-Usable, (reg2-Usable, tt))

reserve_rf-write_to_rf_example :
    (s1 : RegisterFile) × (s2 : RegisterFile) × (reserve_rf scoreboard (alu_ins 4 [] (1 ∷ 2 ∷ []))
      ≡ some s1)
    × Marked scoreboard (1 ∷ 2 ∷ []) true s1
    × (write_to_rf s1 (alu_ins 4 [] (1 ∷ 2 ∷ [])) ≡ some s2)
    × ((q : ℕ) → is_reg_busy s2 q ≡ is_reg_busy scoreboard q)
reserve_rf-write_to_rf_example =
    reserve_rf-write_to_rf scoreboard (alu_ins 4 [] (1 ∷ 2 ∷ [])) (reg1-Usable, (reg2-Usable, tt))
      (λ r. ground arith) (unfold can_reserve_rf none_busy is_reg_busy get_element lookup in refl)

reserve_rf-repeated_example :
    (((s1 : RegisterFile) × (reserve_rf scoreboard (alu_ins 4 [] (1 ∷ 2 ∷ 1 ∷ [])) ≡ some s1))
      ↔ ((r : ℕ) → count r (1 ∷ 2 ∷ 1 ∷ []) < 2))
    × ((r : ℕ)
        → 1 < count r (1 ∷ 2 ∷ 1 ∷ [])
        → reserve_rf scoreboard (alu_ins 4 [] (1 ∷ 2 ∷ 1 ∷ [])) ≡ none)
reserve_rf-repeated_example =
    reserve_rf-repeated scoreboard (alu_ins 4 [] (1 ∷ 2 ∷ 1 ∷ []))
      (reg1-Usable, (reg2-Usable, (reg1-Usable, tt)))
      (unfold can_reserve_rf none_busy is_reg_busy get_element lookup in refl)

reserve_rf-blocks_example :
    (s1 : RegisterFile) × (reserve_rf scoreboard (alu_ins 4 [] (1 ∷ [])) ≡ some s1)
    × (0 < count 1 (2 ∷ 1 ∷ [])
        → (s2 : RegisterFile) × (j' : Instruction) × (is_ready s1 (alu_ins 5 (2 ∷ 1 ∷ []) (2 ∷ []))
            ≡ some (false, s2, j')))
    × (0 < count 1 (2 ∷ []) → can_reserve_rf s1 (alu_ins 5 (2 ∷ 1 ∷ []) (2 ∷ [])) ≡ some false)
reserve_rf-blocks_example =
    reserve_rf-blocks scoreboard (alu_ins 4 [] (1 ∷ [])) (alu_ins 5 (2 ∷ 1 ∷ []) (2 ∷ [])) 1
      (reg1-Usable, tt) (reg2-Usable, (reg1-Usable, tt)) (reg2-Usable, tt) (λ r. ground arith)
      (unfold can_reserve_rf none_busy is_reg_busy get_element lookup in refl) (omega arith)

-- The store 3 to address 64 was completed late: the loads 4, 6 and 9 of that address had read the
-- cache by then, and the store 5 lies before the loads 6 and 9.
abbrev queues : MemManager
queues = record {
  lq = record { table = load_at 2 8 ∷ loads; wires = scoreboard.wires; table_size = 8 };
  sq = record { table = stores; wires = scoreboard.wires; table_size = 8 };
  memory_to_scheduler_port = record { buff = []; buff_len = 4; wire_delay = 1 };
}

stores-IsAged : IsAged stores
stores-IsAged = (omega arith, (omega arith, tt))

is_lq_violation-Violating_example :
    (n : ℕ) × Violating 64 3 n (load_at 4 64)
    × All (λ y. Overwrites 64 3 y → 4 ≤ y.element.seq_num) stores
    × Last (λ y. ¬ Violating 64 3 n y) (load_at 4 64) loads
is_lq_violation-Violating_example =
    is_lq_violation-Violating queues (store_at 3 64).element (load_at 2 8) (load_at 4 64) loads
      stores-IsAged refl
      (unfold is_lq_violation has_any_complete_st_from_addr is_younger_store find_first get_sq_state
          has_any_complete_ld_from_addr upper violates find_back get_lq_state is_cache_axes in
        refl)

is_lq_violation-TooEarly_example :
    All
      (λ y.
        TooEarly 64 4 y
        → (z : Entry) × Overwrites 64 4 z
          × (z.element.seq_num < y.element.seq_num)
          × First (λ w. ¬ Overwrites 64 4 w) z stores)
      loads
is_lq_violation-TooEarly_example =
    is_lq_violation-TooEarly queues (store_at 4 64).element (load_at 2 8) loads
      (omega arith, (omega arith, (omega arith, (omega arith, tt)))) refl
      (unfold is_lq_violation has_any_complete_st_from_addr is_younger_store find_first get_sq_state
          has_any_complete_ld_from_addr upper violates find_back get_lq_state is_cache_axes in
        refl)

has_mem_addr-Supplies_example :
    ((has_mem_addr true 64 7 stores ≡ some false) × All (λ y. ¬ Supplies true 64 7 y) stores)
    ⊎ ((has_mem_addr true 64 7 stores ≡ some true)
        × (x : Entry) × Supplies true 64 7 x
        × Last (λ y. ¬ Supplies true 64 7 y) x stores)
has_mem_addr-Supplies_example = has_mem_addr-Supplies true 64 7 stores

-- The reorder buffer and the instruction queue with the loads, and an instruction that was squashed
-- before.
abbrev committing : CommitStage
committing = record { rob = queues.lq; que = queues.lq; code_cache = alu_ins 10 [] [] ∷ [] }

loads-IsAged : IsAged (load_at 2 8 ∷ loads)
loads-IsAged = (omega arith, (omega arith, (omega arith, (omega arith, tt))))

mem_mispred_squash-Cut_example :
    (kept_rob : List Entry) × (gone : List Entry) × (kept : List Entry) × (dropped : List Entry)
    × (mem_mispred_squash committing 6
        ≡ some (record {
          rob = record (queues.lq) { table = kept_rob };
          que = record (queues.lq) { table = kept };
          code_cache = map replayed dropped ++ (alu_ins 10 [] [] ∷ []);
        }))
    × Cut 6 (load_at 2 8 ∷ loads) kept_rob gone
    × Cut 6 (load_at 2 8 ∷ loads) kept dropped
mem_mispred_squash-Cut_example = mem_mispred_squash-Cut committing 6 loads-IsAged loads-IsAged
