-- ===== src/RfManager/Run.antt =====
-- Sequences of the calls that the stages of the out-of-order core make of src/backend/o3/rfManager.cpp.
use cg_oo_o.Common.{
  ℕ, ◌+◌, ◌≤◌, ◌≡◌, refl, sym, ap, inl, inr, true, false, List, [], ◌∷◌, ◌++◌, some, length, count,
  arith, Bool-cases, ◌>>=◌, All, All-mono,
}
use cg_oo_o.Common.Maps.{lookup, keys}
use cg_oo_o.Common.Values.{values}
use cg_oo_o.Unit.WirePair.{WirePair}
use cg_oo_o.Unit.Instruction.{Instruction}
use cg_oo_o.Rename.{Rename, Config, renamed_valid, get_num_available_pr}
use cg_oo_o.Rename.Inv.{Inv, replay, replay-has}
use cg_oo_o.Rename.Init.{Consistent, new_rename-Inv}
use cg_oo_o.Rename.Recovery.{squash_rename_reg-Inv}
use cg_oo_o.RfManager.{can_rename, rename_regs, commit_regs, squash_rename_reg}
use cg_oo_o.RfManager.Operands.{pairs, InState, rename_regs-Inv, commit_regs-Inv}
use cg_oo_o.RfManager.Core.{
  Entry, Core, Event, dispatch, complete, commit, squash, commit_head, dispatch_ins, step, run,
  start,
}
use cg_oo_o.RfManager.Entries.{
  flight, Fits, Operand, Operands, flight-append, Fits-All, Fits-append, complete_nth-Fits,
}

-- The keys of the map `m` are keys of `m'`.
abbrev Keeps : List (ℕ × ℕ) → List (ℕ × ℕ) → Type 0
Keeps m m' = (a : ℕ) → Operand m a → Operand m' a

commit_head-step :
    (s s' : Rename) (e : Entry) (rob : List Entry)
    → e.done ≡ true
    → commit_regs s e.ins ≡ some s'
    → commit_head s (e ∷ rob) ≡ some (s', rob)
unfolding commit_head
commit_head-step s s' e rob h ran = simp (h, ran)

commit_head-wait :
    (s : Rename) (e : Entry) (rob : List Entry)
    → e.done ≡ false
    → commit_head s (e ∷ rob) ≡ some (s, e ∷ rob)
unfolding commit_head
commit_head-wait s e rob h = simp h

commit_head-Fits :
    (s : Rename) (rob : List Entry)
    → Inv s (flight rob)
    → All (Fits s) rob
    → (s' : Rename) × (rob' : List Entry) × (commit_head s rob ≡ some (s', rob'))
      × Keeps s.crat s'.crat
      × All (Fits s') rob'
      × Inv s' (flight rob')
unfolding commit_head
commit_head-Fits s [] v fits = (s, [], refl, λ a k. k, tt, v)
commit_head-Fits s (e ∷ rob) v ((len, states), fits) = elim (Bool-cases e.done) [
  | inr h ↦ (s, e ∷ rob, commit_head-wait s e rob h, λ a k. k, ((len, states), fits), v)
  | inl h ↦
      let done : All (InState s renamed_valid) e.ins.p_wr_reg = rw h at states in
      let (s', ran, crat, frat, same, inv) = commit_regs-Inv s (flight rob) e.ins len v done in
      (
        s',
        rob,
        commit_head-step s s' e rob h ran,
        λ a k.
            rw crat (replay-has a k.0 s.crat (pairs e.ins.a_wr_reg e.ins.p_wr_reg) v.ordered k.1),
        Fits-All s s' rob same fits,
        inv,
      )
]

can_rename-room :
    (s : Rename) (i : Instruction)
    → can_rename s i ≡ true
    → length i.a_wr_reg ≤ length s.available_pr_set
unfolding can_rename get_num_available_pr
can_rename-room s i h = ground (arith, h)

dispatch_ins-go :
    (s s' : Rename) (i i' : Instruction) (rob : List Entry)
    → can_rename s i ≡ true
    → rename_regs s i ≡ some (false, s', i')
    → dispatch_ins s i rob ≡ some (s', rob ++ ((record { ins = i'; done = false }) ∷ []))
unfolding dispatch_ins
dispatch_ins-go s s' i i' rob h ran = rw (dispatch_ins, h, ran)

dispatch_ins-Fits :
    (s : Rename) (i : Instruction) (rob : List Entry)
    → Inv s (flight rob)
    → All (Fits s) rob
    → Operands s.crat (dispatch i)
    → (s' : Rename) × (rob' : List Entry) × (dispatch_ins s i rob ≡ some (s', rob'))
      × (s'.crat ≡ s.crat)
      × All (Fits s') rob'
      × Inv s' (flight rob')
unfolding dispatch_ins
dispatch_ins-Fits s i rob v fits (reads, writes, new) = elim (Bool-cases (can_rename s i)) [
  | inr h ↦ (s, rob, rw (dispatch_ins, h), refl, fits, v)
  | inl h ↦
      let (rs, ps, s', ran, mapped, len, crat, states, same, inv) =
        rename_regs-Inv s (flight rob) i v reads writes (can_rename-room s i h) in
      let i' = record i {
        p_rd_reg = i.p_rd_reg ++ rs;
        p_rd_reg_wait_list = i.p_rd_reg_wait_list ++ rs;
        p_wr_reg = i.p_wr_reg ++ ps;
      } in
      let e : Entry = record { ins = i'; done = false } in
      let given : e.ins.p_wr_reg ≡ ps = ap (λ l. l ++ ps) new in
      let fit : Fits s' e = rw given (sym len, states) in
      (
        s',
        rob ++ (e ∷ []),
        dispatch_ins-go s s' i i' rob h ran,
        crat,
        Fits-append s' rob e (Fits-All s s' rob same fits) fit,
        rw (flight-append rob e, given) inv,
      )
]

-- Between two events: the tables are valid with the renames of the reorder buffer in flight.
pub record IsValid (c : Core) : Type 0 where
  pub inv : Inv c.tables (flight c.rob)
  pub fits : All (Fits c.tables) c.rob

step-IsValid :
    (c : Core) (e : Event)
    → IsValid c
    → Operands c.tables.crat e
    → (c' : Core) × (step c e ≡ some c') × Keeps c.tables.crat c'.tables.crat × IsValid c'
unfolding step squash_rename_reg
step-IsValid c (dispatch i) v ops =
    let (s, rob, ran, crat, fits, inv) = dispatch_ins-Fits c.tables i c.rob v.inv v.fits ops in
    (record { tables = s; rob = rob }, rw ran, λ a k. rw crat k, record { inv = inv; fits = fits })
step-IsValid c (complete n) v ops =
    let (s, rob, ran, crat, order, fits, same, inv) =
      complete_nth-Fits c.tables [] c.rob n v.inv v.fits in
    (
      record { tables = s; rob = rob },
      rw ran,
      λ a k. rw crat k,
      record { inv = rw order inv; fits = fits },
    )
step-IsValid c commit v ops =
    let (s, rob, ran, keeps, fits, inv) = commit_head-Fits c.tables c.rob v.inv v.fits in
    (record { tables = s; rob = rob }, rw ran, keeps, record { inv = inv; fits = fits })
step-IsValid c squash v ops =
    let (s, ran, crat, front, free, inv) = squash_rename_reg-Inv c.tables (flight c.rob) v.inv in
    (record { tables = s; rob = [] }, rw ran, λ a k. rw crat k, record { inv = inv; fits = tt })

Operands-mono : (m m' : List (ℕ × ℕ)) (e : Event) → Keeps m m' → Operands m e → Operands m' e
Operands-mono m m' (dispatch i) keep (reads, writes, new) =
    (All-mono i.a_rd_reg_wait_list keep reads, All-mono i.a_wr_reg keep writes, new)
Operands-mono m m' (complete n) keep ops = tt
Operands-mono m m' commit keep ops = tt
Operands-mono m m' squash keep ops = tt

-- From valid tables and reorder buffer, every sequence of events whose operands are architectural
-- registers runs to its end without a failed check, and what it ends with is valid.
pub run-IsValid :
    (c : Core) (es : List Event)
    → IsValid c
    → All (Operands c.tables.crat) es
    → (c' : Core) × (run c es ≡ some c') × IsValid c'
unfolding run
run-IsValid c [] v ops = (c, refl, v)
run-IsValid c (e ∷ es) v (op, ops) =
    let (c1, ran, keep, v1) = step-IsValid c e v op in
    let (c2, ran', v2) =
      run-IsValid c1 es v1
        (All-mono es (λ e' k. Operands-mono c.tables.crat c1.tables.crat e' keep k) ops) in
    (c2, rw ran ran', v2)

-- A dispatched instruction is new, and its operands are between `a_lo` and `a_hi`.
abbrev pub InRange : Config → Event → Type 0
InRange cfg (dispatch i) =
    All (λ a. (cfg.a_lo ≤ a) × (a ≤ cfg.a_hi)) i.a_rd_reg_wait_list
    × All (λ a. (cfg.a_lo ≤ a) × (a ≤ cfg.a_hi)) i.a_wr_reg
    × (i.p_wr_reg ≡ [])
InRange cfg (complete n) = Unit
InRange cfg commit = Unit
InRange cfg squash = Unit

InRange-Operands :
    (cfg : Config) (m : List (ℕ × ℕ)) (e : Event)
    → ((a : ℕ) → cfg.a_lo ≤ a → a ≤ cfg.a_hi → Operand m a)
    → InRange cfg e
    → Operands m e
InRange-Operands cfg m (dispatch i) known (reads, writes, new) = (
  All-mono i.a_rd_reg_wait_list (λ a k. known a k.0 k.1) reads,
  All-mono i.a_wr_reg (λ a k. known a k.0 k.1) writes,
  new,
)
InRange-Operands cfg m (complete n) known r = tt
InRange-Operands cfg m commit known r = tt
InRange-Operands cfg m squash known r = tt

-- The machine from its constructor on. On dimensions that agree, any sequence of dispatches,
-- completions, commits and squashes, its operands architectural registers, runs to its end: no check
-- of the tables fails. At the end each physical register is held exactly once, by the committed map,
-- by an instruction of the reorder buffer or by the free list, and the speculative map is the
-- committed map with the buffer's destinations taken up in their order.
pub start-run-IsValid :
    (cfg : Config) (w : WirePair) (es : List Event)
    → Consistent cfg
    → All (InRange cfg) es
    → (c : Core) × ((start cfg w >>= λ c0. run c0 es) ≡ some c)
      × ((p : ℕ)
          → count p (values c.tables.crat)
              + count p (values (flight c.rob))
              + count p c.tables.available_pr_set
            ≡ count p (keys c.tables.rf))
      × ((a : ℕ) → lookup a c.tables.frat ≡ lookup a (replay c.tables.crat (flight c.rob)))
      × IsValid c
unfolding start
start-run-IsValid cfg w es k ops =
    let (s, ran, same, arch, rest, known, inv) = new_rename-Inv cfg w k in
    let (c, ran', v) =
      run-IsValid (record { tables = s; rob = [] }) es (record { inv = inv; fits = tt })
        (All-mono es (λ e r. InRange-Operands cfg s.crat e known r) ops) in
    (c, rw ran ran', v.inv.parts, v.inv.front, v)
