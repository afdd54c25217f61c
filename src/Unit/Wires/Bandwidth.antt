-- ===== src/Unit/Wires/Bandwidth.antt =====
-- What `wires` grants to callers that ask before they use a wire, as the pipeline stages do.
use Prim.Native.Nat.{min}
use cg_oo_o.Common.{
  ℕ, zero, suc, ◌+◌, ◌-◌, ◌<◌, ◌≡◌, refl, Option, some, if◌then◌else◌, ◌>>=◌, arith,
}
use cg_oo_o.Common.Int.{pos}
use cg_oo_o.Unit.Wires.{Wires, has_free_wire, update_wire_state}

-- One caller: `if (hasFreeWire ()) updateWireState ()`, and the number of wires that it got.
unfoldable pub request : ℕ → Wires → Option (ℕ × Wires)
request now w = do
  free ← has_free_wire w now
  if free then (do w' ← update_wire_state w now; some (1, w')) else some (0, w)

-- `n` callers one after the other in one cycle.
unfoldable pub requests : ℕ → ℕ → Wires → Option (ℕ × Wires)
requests now zero w = some (0, w)
requests now (suc n) w = do
  one ← request now w
  rest ← requests now n one.1
  some (one.0 + rest.0, rest.1)

request_fresh :
    (now : ℕ) (w : Wires)
    → w.cycle < now
    → 0 < w.wire_cnt
    → request now w ≡ some (1, record w { num_free_wire = pos (w.wire_cnt - 1); cycle = now })
unfolding request has_free_wire update_wire_state
request_fresh now w h k = ground arith

request_used :
    (now k : ℕ) (w : Wires)
    → w.cycle ≡ now
    → w.num_free_wire ≡ pos k
    → request now w ≡ some (min 1 k, record w { num_free_wire = pos (k - 1) })
unfolding request has_free_wire update_wire_state
request_used now zero w h e = ground arith
request_used now (suc k) w h e = ground arith

requests_used :
    (now n k : ℕ) (w : Wires)
    → w.cycle ≡ now
    → w.num_free_wire ≡ pos k
    → requests now n w ≡ some (min n k, record w { num_free_wire = pos (k - n) })
unfolding requests
requests_used now zero k w h e = ground arith
requests_used now (suc n) k w h e =
    rw
      (
        request_used now k w h e,
        requests_used now n (k - 1) (record w { num_free_wire = pos (k - 1) }) h refl,
      )
      (ground arith)

-- In a cycle that the wires have not seen, one or more callers that ask first get as many accesses
-- as there are wires, or all that they ask for; the rest is what is still free. No check fails,
-- and what the free count held before does not matter.
pub requests_fresh :
    (now n : ℕ) (w : Wires)
    → w.cycle < now
    → 0 < w.wire_cnt
    → requests now (suc n) w
      ≡ some (
        min (suc n) w.wire_cnt,
        record w { num_free_wire = pos (w.wire_cnt - suc n); cycle = now },
      )
unfolding requests
requests_fresh now n w h k =
    let used : Wires = record w { num_free_wire = pos (w.wire_cnt - 1); cycle = now } in
    rw (request_fresh now w h k, requests_used now n (w.wire_cnt - 1) used refl refl) (ground arith)
