-- ===== src/Translator/Instruction.antt =====
-- The static instruction of the binary translator (src/binaryTranslator/instruction.h and
-- instruction.cpp), as far as dependence analysis and scheduling read it. A pointer to an
-- instruction is the instruction's address. The latency is that of the type, which is set before
-- any pass runs; a longest path that is not set, -1 in the source, is `none`.
use cg_oo_o.Common.{
  ℕ, Bool, true, false, List, Option, none, some, ltb, if◌then◌else◌, assert, ◌>>=◌, ◌>>◌,
}

pub data MemType : Type 0 where
  read write : MemType

pub record Instruction : Type 0 where
  pub ins_addr : ℕ
  pub is_memory : Bool
  pub is_wr_mem_type : Bool
  pub regs : List (ℕ × MemType)
  pub latency : ℕ
  pub longest_path : Option ℕ
  pub ancestors : List ℕ
  pub reg_ancestors : List ℕ
  pub dependents : List ℕ

abbrev pub is_longest_path_set : Instruction → Bool
is_longest_path_set i = elim (i.longest_path) [ none ↦ false | some p ↦ true ]

unfoldable pub reset_longest_path : Instruction → Instruction
reset_longest_path i = record i { longest_path = none }

unfoldable pub set_longest_path : Instruction → ℕ → Option Instruction
set_longest_path i p = do
  assert (if is_longest_path_set i then false else ltb 0 p)
  some (record i { longest_path = some p })

unfoldable pub get_longest_path : Instruction → Option ℕ
get_longest_path i = do p ← i.longest_path; assert (ltb 0 p); some p
