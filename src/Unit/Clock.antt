-- ===== src/Unit/Clock.antt =====
-- The simulation clock (src/backend/unit/sysClock.cpp) and the timers that are read against it
-- (src/lib/timer.h). A CYCLE is a signed 64-bit number that starts at 0, kept as a natural number.
use cg_oo_o.Common.{
  ℕ, ◌+◌, ◌-◌, ◌^◌, ◌≤◌, ◌<◌, ◌≡◌, Bool, true, false, Option, some, ltb, leb, assert, ◌>>◌, arith,
}

abbrev pub start_cycle : ℕ
start_cycle = 0

-- `std::numeric_limits<CYCLE>::max ()`
abbrev pub max_cycle : ℕ
max_cycle = 2 ^ 63 - 1

-- `_clk++`, and the check that the clock is below the largest CYCLE. The other half of the check,
-- above the smallest CYCLE, holds of every number that is not negative.
pub tick : ℕ → Option ℕ
tick clk = do assert (ltb (clk + 1) max_cycle); some (clk + 1)

pub record Timer : Type 0 where
  pub start : ℕ
  pub stop : ℕ
  pub latency : ℕ
  pub valid : Bool

-- `timer ()`
pub unset : Timer
unset = record { start = start_cycle; stop = start_cycle; latency = start_cycle; valid = false }

-- `timer (start, latency)`; its check that neither is negative holds of these numbers.
unfoldable pub new_timer : ℕ → ℕ → Timer
new_timer start latency = record {
  start = start;
  stop = start + latency;
  latency = latency;
  valid = true;
}

-- `setNewTime (start, latency)`
unfoldable pub set_new_time : Timer → ℕ → ℕ → Timer
set_new_time t start latency = record t {
  start = start;
  latency = latency;
  stop = start + latency;
  valid = true;
}

-- `getStopTime ()`
unfoldable pub get_stop_time : Timer → Option ℕ
get_stop_time t = do assert (leb t.start t.stop); assert t.valid; some t.stop

-- A tick adds one to the clock or stops the program, and never wraps: the clock stays below the
-- largest CYCLE, so that the `_clk++` of the next tick does not overflow either.
pub tick_advances :
    (clk next : ℕ) → tick clk ≡ some next → (next ≡ clk + 1) × (next + 1 ≤ max_cycle)
unfolding tick
tick_advances clk next h = ground arith

-- Within its range the clock always advances.
pub tick-total : (clk : ℕ) → clk + 1 < max_cycle → tick clk ≡ some (clk + 1)
unfolding tick
tick-total clk h = ground arith

-- A timer that was set answers with its stop time.
pub get_stop_time-new_timer : (s l : ℕ) → get_stop_time (new_timer s l) ≡ some (s + l)
unfolding get_stop_time new_timer
get_stop_time-new_timer s l = ground arith

pub get_stop_time-set_new_time :
    (t : Timer) (s l : ℕ) → get_stop_time (set_new_time t s l) ≡ some (s + l)
unfolding get_stop_time set_new_time
get_stop_time-set_new_time t s l = ground arith
