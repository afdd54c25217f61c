-- ===== src/Unit/Instruction/States.antt =====
-- The states of an instruction in the pipeline, in the store queue and in the load queue
-- (`setPipeStage`, `setSQstate` and `setLQstate` of
-- src/backend/unit/dynInstruction.cpp).
use cg_oo_o.Common.{
  ◌≡◌, refl, sym, ap, ◌∙◌, Bool, true, false, List, [], ◌∷◌, ◌++◌, Option, some, ◌>>=◌, arith,
  >>=-eq-some,
}
use cg_oo_o.Unit.Instruction.{
  PipeStage, no_stage, fetch, decode, dispatch, issue, execute, mem_access, complete, commit,
  SqState, sq_no_state, sq_addr_wait, sq_complete, sq_commit, sq_cache_dispatch, LqState,
  lq_no_state, lq_addr_wait, lq_pending_cache_dispatch, lq_fwd_from_sq, lq_mshr_wait, lq_cache_wait,
  lq_complete, Instruction, set_pipe_stage, set_sq_state, set_lq_state, stage_follows, sq_follows,
  lq_follows,
}

abbrev pub Prefix {ℓ} : {A : Type ℓ} → List A → List A → Type ℓ
Prefix xs ys = (rest : List _) × (xs ++ rest ≡ ys)

-- One setter after the other.
unfoldable pub set_all {ℓ κ} :
    {I : Type ℓ} {S : Type κ} → (I → S → Option I) → I → List S → Option I
set_all set i [] = some i
set_all set i (t ∷ ts) = do i' ← set i t; set_all set i' ts

-- Where each accepted state is the first of those that lie ahead on some way, the accepted states
-- are the first ones on one way.
module _ {I S W : Type 0} (set : I → S → Option I) (state : I → S) (ahead : W → S → List S)
    (follows : (i i' : I) (t : S) (w : W)
      → set i t ≡ some i'
      → (w' : W) × (ahead w' (state i) ≡ t ∷ ahead w (state i'))) where
  set_all-Prefix :
      (w : W) (i i' : I) (ts : List S)
      → set_all set i ts ≡ some i'
      → (w' : W) × Prefix ts (ahead w' (state i))
  unfolding set_all
  set_all-Prefix w i i' [] h = (w, (ahead w (state i), refl))
  set_all-Prefix w i i' (t ∷ ts) h =
      let (i1, ran, more) = >>=-eq-some (set i t) (λ j. set_all set j ts) h in
      let (v, (rest, tail)) = set_all-Prefix w i1 i' ts more in
      let (v', head) = follows i i1 t v ran in (v', (rest, ap (λ l. t ∷ l) tail ∙ sym head))

-- What lies ahead of a store in the store queue.
abbrev pub sq_ahead : SqState → List SqState
sq_ahead sq_no_state = sq_addr_wait ∷ sq_complete ∷ sq_commit ∷ sq_cache_dispatch ∷ []
sq_ahead sq_addr_wait = sq_complete ∷ sq_commit ∷ sq_cache_dispatch ∷ []
sq_ahead sq_complete = sq_commit ∷ sq_cache_dispatch ∷ []
sq_ahead sq_commit = sq_cache_dispatch ∷ []
sq_ahead sq_cache_dispatch = []

sq_ahead-follows : (t s : SqState) → sq_follows t s ≡ true → sq_ahead s ≡ t ∷ sq_ahead t
sq_ahead-follows sq_no_state s h = ground arith
sq_ahead-follows sq_addr_wait s h = ground arith
sq_ahead-follows sq_complete s h = ground arith
sq_ahead-follows sq_commit s h = ground arith
sq_ahead-follows sq_cache_dispatch s h = ground arith

set_sq_state-follows :
    (i i' : Instruction) (t : SqState) (w : Unit {0})
    → set_sq_state i t ≡ some i'
    → (w' : Unit {0}) × (sq_ahead i.sq_state ≡ t ∷ sq_ahead i'.sq_state)
unfolding set_sq_state
set_sq_state-follows i i' t w h =
    let (follows, now) : (sq_follows t i.sq_state ≡ true) × (i'.sq_state ≡ t) = ground (arith, h) in
    (tt, sq_ahead-follows t i.sq_state follows ∙ ap (λ s. t ∷ sq_ahead s) (sym now))

-- The states that a store is set to in the store queue, one after the other, are the first ones of
-- those that lie ahead of it: there is one order, and no state is skipped or entered twice.
set_sq_state-Prefix :
    (i i' : Instruction) (ts : List SqState)
    → set_all set_sq_state i ts ≡ some i'
    → Prefix ts (sq_ahead i.sq_state)
set_sq_state-Prefix i i' ts h =
    (set_all-Prefix set_sq_state (λ j. j.sq_state) (λ w. sq_ahead) set_sq_state-follows tt i i' ts
      h).1

-- Where the value of a load comes from.
pub data Source : Type 0 where
  from_sq from_mshr from_cache : Source

abbrev pub wait_state : Source → LqState
wait_state from_sq = lq_fwd_from_sq
wait_state from_mshr = lq_mshr_wait
wait_state from_cache = lq_cache_wait

abbrev pub lq_ahead : Source → LqState → List LqState
lq_ahead w lq_no_state = lq_addr_wait ∷ lq_pending_cache_dispatch ∷ wait_state w ∷ lq_complete ∷ []
lq_ahead w lq_addr_wait = lq_pending_cache_dispatch ∷ wait_state w ∷ lq_complete ∷ []
lq_ahead w lq_pending_cache_dispatch = wait_state w ∷ lq_complete ∷ []
lq_ahead w lq_complete = []
lq_ahead w _ = lq_complete ∷ []

lq_ahead-follows :
    (t s : LqState) (w : Source)
    → lq_follows t s ≡ true
    → (w' : Source) × (lq_ahead w' s ≡ t ∷ lq_ahead w t)
lq_ahead-follows lq_no_state s w h = (w, ground arith)
lq_ahead-follows lq_addr_wait s w h = (w, ground arith)
lq_ahead-follows lq_pending_cache_dispatch s w h = (w, ground arith)
lq_ahead-follows lq_fwd_from_sq s w h = (from_sq, ground arith)
lq_ahead-follows lq_mshr_wait s w h = (from_mshr, ground arith)
lq_ahead-follows lq_cache_wait s w h = (from_cache, ground arith)
lq_ahead-follows lq_complete s w h = (w, ground arith)

set_lq_state-follows :
    (i i' : Instruction) (t : LqState) (w : Source)
    → set_lq_state i t ≡ some i'
    → (w' : Source) × (lq_ahead w' i.lq_state ≡ t ∷ lq_ahead w i'.lq_state)
unfolding set_lq_state
set_lq_state-follows i i' t w h =
    let (follows, now) : (lq_follows t i.lq_state ≡ true) × (i'.lq_state ≡ t) = ground (arith, h) in
    let (w', head) = lq_ahead-follows t i.lq_state w follows in
    (w', head ∙ ap (λ s. t ∷ lq_ahead w s) (sym now))

-- The states that a load is set to in the load queue, one after the other, are the first ones of
-- those that lie ahead of it for one source of its value: the store queue, a pending miss or the
-- cache.
pub set_lq_state-Prefix :
    (i i' : Instruction) (ts : List LqState)
    → set_all set_lq_state i ts ≡ some i'
    → (w : Source) × Prefix ts (lq_ahead w i.lq_state)
set_lq_state-Prefix i i' ts h =
    set_all-Prefix set_lq_state (λ j. j.lq_state) lq_ahead set_lq_state-follows from_sq i i' ts h

-- What lies ahead of an instruction that is executed; does it access the memory?
abbrev pub executed : Bool → List PipeStage
executed true = mem_access ∷ complete ∷ commit ∷ []
executed false = complete ∷ commit ∷ []

-- What lies ahead of an instruction in the pipeline.
abbrev pub stages_ahead : Bool → PipeStage → List PipeStage
stages_ahead w no_stage = fetch ∷ decode ∷ dispatch ∷ issue ∷ execute ∷ executed w
stages_ahead w fetch = decode ∷ dispatch ∷ issue ∷ execute ∷ executed w
stages_ahead w decode = dispatch ∷ issue ∷ execute ∷ executed w
stages_ahead w dispatch = issue ∷ execute ∷ executed w
stages_ahead w issue = execute ∷ executed w
stages_ahead w execute = executed w
stages_ahead w mem_access = complete ∷ commit ∷ []
stages_ahead w complete = commit ∷ []
stages_ahead w commit = []

stages_ahead-follows :
    (t s : PipeStage) (w : Bool)
    → stage_follows t s ≡ true
    → (w' : Bool) × (stages_ahead w' s ≡ t ∷ stages_ahead w t)
stages_ahead-follows no_stage s w h = (w, ground arith)
stages_ahead-follows fetch s w h = (w, ground arith)
stages_ahead-follows decode s w h = (w, ground arith)
stages_ahead-follows dispatch s w h = (w, ground arith)
stages_ahead-follows issue s w h = (w, ground arith)
stages_ahead-follows execute s w h = (w, ground arith)
stages_ahead-follows mem_access s w h = (true, ground arith)
stages_ahead-follows complete s w h = (false, ground arith)
stages_ahead-follows commit s w h = (w, ground arith)

set_pipe_stage-follows :
    (i i' : Instruction) (t : PipeStage) (w : Bool)
    → set_pipe_stage i t ≡ some i'
    → (w' : Bool) × (stages_ahead w' i.ins_stage ≡ t ∷ stages_ahead w i'.ins_stage)
unfolding set_pipe_stage
set_pipe_stage-follows i i' t w h =
    let (follows, now) : (stage_follows t i.ins_stage ≡ true) × (i'.ins_stage ≡ t) =
      ground (arith, h) in
    let (w', head) = stages_ahead-follows t i.ins_stage w follows in
    (w', head ∙ ap (λ s. t ∷ stages_ahead w s) (sym now))

-- The stages that an instruction is set to one after the other are the first ones of those that lie
-- ahead of it, through the memory stage or past it: no stage is skipped or entered twice.
set_pipe_stage-Prefix :
    (i i' : Instruction) (ts : List PipeStage)
    → set_all set_pipe_stage i ts ≡ some i'
    → (w : Bool) × Prefix ts (stages_ahead w i.ins_stage)
set_pipe_stage-Prefix i i' ts h =
    set_all-Prefix set_pipe_stage (λ j. j.ins_stage) stages_ahead set_pipe_stage-follows false i i'
      ts h
