-- ===== src/Unit/Port.antt =====
-- The latched queue between two stages (src/backend/unit/port.cpp). The clock's `now` is an argument
-- of each operation; the statistics and debug prints are left out. A LENGTH is an `int`: a buffer
-- holds at most `_buff_len` elements, an `int` itself, so the conversion of `size ()` loses nothing.
pub mod Flush
pub mod Ready
pub mod Steps
use cg_oo_o.Common.{
  ℕ, suc, ◌+◌, ◌≤◌, ◌<◌, ◌≡◌, Bool, true, false, List, [], ◌∷◌, ◌++◌, Option, none, some, ltb, leb,
  ◌==◌, if◌then◌else◌, assert, ◌>>=◌, ◌>>◌, length, last?, drop_last,
}
use cg_oo_o.Common.Back.{pop_while, remove_if}
use cg_oo_o.Unit.Clock.{Timer, new_timer, get_stop_time}

pub data BuffState : Type 0 where
  empty_buff available_buff full_buff : BuffState

-- `getBuffState () == EMPTY_BUFF`
abbrev pub is_empty : BuffState → Bool
is_empty BuffState.empty_buff = true
is_empty _ = false

pub record BuffElement {ℓ} (A : Type ℓ) : Type ℓ where
  pub delay : Timer
  pub dyn_ins : A

pub record Port {ℓ} (A : Type ℓ) : Type ℓ where
  pub buff : List (BuffElement A)
  pub buff_len : ℕ
  pub wire_delay : ℕ

module _ {ℓ} {A : Type ℓ} where
  unfoldable pub new_port : ℕ → ℕ → Option (Port A)
  new_port len wire_delay = do
    assert (ltb 0 len)
    assert (ltb 0 wire_delay)
    some (record { buff = []; buff_len = len; wire_delay = wire_delay })

  -- `pushBack (ins, lat)`
  unfoldable pub push_back_lat : Port A → ℕ → A → ℕ → BuffState × Port A
  push_back_lat p now ins lat =
      if leb p.buff_len (length p.buff) then (BuffState.full_buff, p) else (
        BuffState.available_buff,
        record p { buff = p.buff ++ (record { delay = new_timer now lat; dyn_ins = ins } ∷ []) },
      )

  -- `pushBack (ins)`
  unfoldable pub push_back : Port A → ℕ → A → BuffState × Port A
  push_back p now ins = if leb p.buff_len (length p.buff) then (BuffState.full_buff, p) else (
    BuffState.available_buff,
    record p {
      buff = p.buff ++ (record { delay = new_timer now p.wire_delay; dyn_ins = ins } ∷ []);
    },
  )

  unfoldable pub get_front : Port A → Option A
  get_front p = elim p.buff [ [] ↦ none | e ∷ _ ↦ some e.dyn_ins ]

  unfoldable pub get_back : Port A → Option A
  get_back p = elim (last? p.buff) [ none ↦ none | some e ↦ some e.dyn_ins ]

  unfoldable pub pop_back : Port A → Option (A × Port A)
  pop_back p = elim (last? p.buff) [
    | none ↦ none
    | some e ↦ some (e.dyn_ins, record p { buff = drop_last p.buff })
  ]

  unfoldable pub pop_front : Port A → ℕ → Option (A × Port A)
  pop_front p now = elim p.buff [
    | [] ↦ none
    | e ∷ rest ↦ do
      stop ← get_stop_time e.delay
      assert (leb stop now)
      some (e.dyn_ins, record p { buff = rest })
  ]

  -- The loop of `delOldReady`.
  unfoldable pub del_old : ℕ → List (BuffElement A) → Option (List (BuffElement A))
  del_old now [] = some []
  del_old now (e ∷ b) = do
    stop ← get_stop_time e.delay
    rest ← del_old now b
    some (if ltb stop now then rest else e ∷ rest)

  unfoldable pub del_old_ready : Port A → ℕ → Option (Port A)
  unfolding del_old
  del_old_ready p now = do b ← del_old now p.buff; some (record p { buff = b })

  -- The loop of `popNextReady` and `popNextReadyNow`: the first element whose stop time passes the
  -- test, and the buffer without it. The loops end in a failed check if there is none.
  unfoldable pub pop_first : (ℕ → Bool) → List (BuffElement A) → Option (A × List (BuffElement A))
  pop_first test [] = none
  pop_first test (e ∷ b) =
      let later = (do found ← pop_first test b; some (found.0, e ∷ found.1)) in
      get_stop_time e.delay >>= λ stop. if test stop then some (e.dyn_ins, b) else later

  unfoldable pub pop_next_ready : Port A → ℕ → Option (A × Port A)
  pop_next_ready p now = do
    found ← pop_first (λ stop. leb stop now) p.buff
    some (found.0, record p { buff = found.1 })

  unfoldable pub pop_next_ready_now : Port A → ℕ → Option (A × Port A)
  pop_next_ready_now p now = do
    found ← pop_first (λ stop. stop == now) p.buff
    some (found.0, record p { buff = found.1 })

  unfoldable pub get_buff_state : Port A → Option BuffState
  get_buff_state p = do
    assert (leb (length p.buff) p.buff_len)
    some (
        if length p.buff == p.buff_len
        then BuffState.full_buff
        else if length p.buff == 0
        then BuffState.empty_buff
        else BuffState.available_buff)

  -- `isReady` and `isReadyNow`, which read the front element alone.
  front_ready : (ℕ → Bool) → Port A → Option Bool
  front_ready test p = elim p.buff [
    | [] ↦ none
    | e ∷ _ ↦ do stop ← get_stop_time e.delay; some (test stop)
  ]

  unfoldable pub is_ready : Port A → ℕ → Option Bool
  unfolding front_ready
  is_ready p now = do
    state ← get_buff_state p
    if is_empty state then some false else front_ready (λ stop. leb stop now) p

  unfoldable pub is_ready_now : Port A → ℕ → Option Bool
  unfolding front_ready
  is_ready_now p now = do
    state ← get_buff_state p
    if is_empty state then some false else front_ready (λ stop. stop == now) p

  -- The loop of `hasReady` and `hasReadyNow`, which stops at the first element that passes.
  unfoldable pub any_ready : (ℕ → Bool) → List (BuffElement A) → Option Bool
  any_ready test [] = some false
  any_ready test (e ∷ b) =
      let later = any_ready test b in
      get_stop_time e.delay >>= λ stop. if test stop then some true else later

  unfoldable pub has_ready : Port A → ℕ → Option Bool
  has_ready p now = do
    state ← get_buff_state p
    if is_empty state then some false else any_ready (λ stop. leb stop now) p.buff

  unfoldable pub has_ready_now : Port A → ℕ → Option Bool
  has_ready_now p now = do
    state ← get_buff_state p
    if is_empty state then some false else any_ready (λ stop. stop == now) p.buff

  module _ (ins_id : A → ℕ) where
    -- `elem->getInsID () >= elemSeqNum`
    abbrev pub at_or_after : ℕ → BuffElement A → Bool
    at_or_after seq e = leb seq (ins_id e.dyn_ins)

    unfoldable pub flush_port : Port A → ℕ → Port A
    flush_port p seq = record p { buff = pop_while (at_or_after seq) (length p.buff) p.buff }

    unfoldable pub search_n_flush_port : Port A → ℕ → Port A
    search_n_flush_port p seq = record p { buff = remove_if (at_or_after seq) p.buff }
