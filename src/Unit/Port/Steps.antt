-- ===== src/Unit/Port/Steps.antt =====
-- The operations of a port (src/backend/unit/port.cpp) one after the other, and its well-formedness.
use mathlib.Core.Path.{subst}
use cg_oo_o.Common.{
  ℕ, zero, suc, ◌≤◌, ◌≡◌, refl, inl, inr, Bool, List, [], ◌∷◌, ◌++◌, Option, some, ltb, leb, ◌==◌,
  length, last?, drop_last, length-append, All, arith, Bool-cases, Option-cases, ◌>>=◌, >>=-eq-some,
}
use cg_oo_o.Common.Back.{pop_while, remove_if}
use cg_oo_o.Unit.Clock.{new_timer, get_stop_time}
use cg_oo_o.Unit.Port.{
  BuffElement, Port, push_back, push_back_lat, pop_back, pop_front, pop_first, del_old,
  del_old_ready, pop_next_ready, pop_next_ready_now, flush_port, search_n_flush_port,
}
use cg_oo_o.Unit.Port.Ready.{IsTimed, IsValid, stop_of, pop_first_cases}

-- The calls that change a port.
pub data Call {ℓ} (A : Type ℓ) : Type ℓ where
  push : A → Call A
  push_lat : A → ℕ → Call A
  pop_oldest : Call A
  pop_newest : Call A
  pop_ready : Call A
  pop_ready_now : Call A
  del_ready : Call A
  flush : ℕ → Call A
  search_flush : ℕ → Call A

module _ {ℓ} {A : Type ℓ} (ins_id : A → ℕ) where
  -- A call at a time, and the port after it; `none` where a check of the call fails.
  unfoldable pub step : ℕ → Port A → Call A → Option (Port A)
  step now p (push a) = some (push_back p now a).1
  step now p (push_lat a lat) = some (push_back_lat p now a lat).1
  step now p pop_oldest = do r ← pop_front p now; some r.1
  step now p pop_newest = do r ← pop_back p; some r.1
  step now p pop_ready = do r ← pop_next_ready p now; some r.1
  step now p pop_ready_now = do r ← pop_next_ready_now p now; some r.1
  step now p del_ready = del_old_ready p now
  step now p (flush seq) = some (flush_port ins_id p seq)
  step now p (search_flush seq) = some (search_n_flush_port ins_id p seq)

module _ {ℓ} {A : Type ℓ} where
  abbrev Timed : List (BuffElement A) → Type 0
  Timed = All (λ e. IsTimed e.delay)

  -- `c` is `b` with some elements left out, as far as the invariant can tell.
  abbrev Shrinks : List (BuffElement A) → List (BuffElement A) → Type 0
  Shrinks b c = Timed c × (length c ≤ length b)

  shrunk-IsValid :
      (p : Port A) (c : List (BuffElement A))
      → IsValid p
      → Shrinks p.buff c
      → IsValid (record p { buff = c })
  shrunk-IsValid p c v s = record { timed = s.0; fits = omega (arith, s.1, v.fits); room = v.room }

  carry : {q r : Port A} → some r ≡ some q → IsValid r → IsValid q
  carry e v = subst IsValid (cc) v

  becomes-IsValid :
      (p q : Port A) (c : List (BuffElement A))
      → IsValid p
      → Shrinks p.buff c
      → q ≡ record p { buff = c }
      → IsValid q
  becomes-IsValid p q c v s e = rw e (shrunk-IsValid p c v s)

  append-Timed :
      (b : List (BuffElement A)) (e : BuffElement A)
      → Timed b
      → IsTimed e.delay
      → Timed (b ++ (e ∷ []))
  append-Timed [] e t h = (h, tt)
  append-Timed (x ∷ b) e t h = (t.0, append-Timed b e t.1 h)

  drop_last-Shrinks : (b : List (BuffElement A)) → Timed b → Shrinks b (drop_last b)
  drop_last-Shrinks [] t = (tt, omega arith)
  drop_last-Shrinks (x ∷ []) t = (tt, omega arith)
  drop_last-Shrinks (x ∷ y ∷ b) t =
      let rest = drop_last-Shrinks (y ∷ b) t.1 in ((t.0, rest.0), omega (arith, rest.1))

  pop_while-Shrinks :
      (drop : BuffElement A → Bool) (f : ℕ) (b : List (BuffElement A))
      → Timed b
      → Shrinks b (pop_while drop f b)
  unfolding pop_while
  pop_while-Shrinks drop zero b t = (t, omega arith)
  pop_while-Shrinks drop (suc f) b t = elim (Option-cases (last? b)) [
    | inl e ↦ rw (e, pop_while) (t, omega arith)
    | inr (x, e) ↦ elim (Bool-cases (drop x)) [
      | inl passes ↦
          let once = drop_last-Shrinks b t in
          let rest = pop_while-Shrinks drop f (drop_last b) once.0 in
          rw (e, pop_while, passes) (rest.0, omega (arith, rest.1, once.1))
      | inr fails ↦ rw (e, pop_while, fails) (t, omega arith)
    ]
  ]

  remove_if-Shrinks :
      (drop : BuffElement A → Bool) (b : List (BuffElement A))
      → Timed b
      → Shrinks b (remove_if drop b)
  unfolding remove_if
  remove_if-Shrinks drop [] t = (tt, omega arith)
  remove_if-Shrinks drop (x ∷ b) t =
      let rest = remove_if-Shrinks drop b t.1 in
      elim (Bool-cases (drop x)) [
        | inl passes ↦ rw passes (rest.0, omega (arith, rest.1))
        | inr fails ↦ rw fails ((t.0, rest.0), omega (arith, rest.1))
      ]

  -- On set timers the loop of `delOldReady` drops the elements whose time is past, and no other.
  del_old-eq-remove_if :
      (now : ℕ) (b : List (BuffElement A))
      → Timed b
      → del_old now b ≡ some (remove_if (λ e. ltb e.delay.stop now) b)
  unfolding del_old remove_if
  del_old-eq-remove_if now [] t = refl
  del_old-eq-remove_if now (x ∷ b) t = rw (stop_of x.delay t.0, del_old-eq-remove_if now b t.1) refl

  without-Shrinks :
      (pre : List (BuffElement A)) (e : BuffElement A) (post : List (BuffElement A))
      → Timed (pre ++ (e ∷ post))
      → Shrinks (pre ++ (e ∷ post)) (pre ++ post)
  without-Shrinks [] e post t = (t.1, omega arith)
  without-Shrinks (x ∷ pre) e post t =
      let rest = without-Shrinks pre e post t.1 in ((t.0, rest.0), omega (arith, rest.1))

  pop_first-Shrinks :
      (test : ℕ → Bool) (b : List (BuffElement A)) {a : A} {c : List (BuffElement A)}
      → Timed b
      → pop_first test b ≡ some (a, c)
      → Shrinks b c
  pop_first-Shrinks test b {a} {c} t h = elim (pop_first_cases test b t) [
    | inl (x, y) ↦ cc
    | inr (x, a', b', y, (pre, e, post, p, q, _, _, _)) ↦
        let same : c ≡ pre ++ post = cc in rw (same, p) (without-Shrinks pre e post (rw p at t))
  ]

  push_back_lat-IsValid :
      (p : Port A) (now : ℕ) (a : A) (lat : ℕ) → IsValid p → IsValid (push_back_lat p now a lat).1
  unfolding push_back_lat new_timer
  push_back_lat-IsValid p now a lat v = elim (Bool-cases (leb p.buff_len (length p.buff))) [
    | inl full ↦ rw full v
    | inr room ↦ rw room (record {
      timed =
          append-Timed p.buff (record { delay = new_timer now lat; dyn_ins = a }) v.timed
            (refl, omega arith);
      fits =
          ground
            (arith, length-append p.buff (record { delay = new_timer now lat; dyn_ins = a } ∷ []));
      room = v.room;
    })
  ]

  push_back-eq-push_back_lat :
      (p : Port A) (now : ℕ) (a : A) → push_back p now a ≡ push_back_lat p now a p.wire_delay
  unfolding push_back push_back_lat
  push_back-eq-push_back_lat p now a = refl

  pop_front-IsValid :
      (p : Port A) (now : ℕ) (b : List (BuffElement A)) {r : A × Port A}
      → p.buff ≡ b
      → IsValid p
      → pop_front p now ≡ some r
      → IsValid r.1
  unfolding pop_front get_stop_time
  pop_front-IsValid p now [] e v h = absurd (ground arith)
  pop_front-IsValid p now (x ∷ b) {r} e v h =
      let timed : Timed (x ∷ b) = rw e at v.timed in
      becomes-IsValid p r.1 b v (timed.1, ground arith) (ground (arith, h))

  pop_back-IsValid : (p : Port A) {r : A × Port A} → IsValid p → pop_back p ≡ some r → IsValid r.1
  unfolding pop_back
  pop_back-IsValid p {r} v h = elim (Option-cases (last? p.buff)) [
    | inl e ↦ absurd (ground (arith, h))
    | inr (x, e) ↦
        becomes-IsValid p r.1 (drop_last p.buff) v (drop_last-Shrinks p.buff v.timed) (ground arith)
  ]

  -- `popNextReady` and `popNextReadyNow`
  popped-IsValid :
      (test : ℕ → Bool) (p : Port A) {r : A × Port A}
      → IsValid p
      → (pop_first test p.buff >>= λ found. some (found.0, record p { buff = found.1 })) ≡ some r
      → IsValid r.1
  popped-IsValid test p {r} v h =
      let (found, e, f) = >>=-eq-some (pop_first test p.buff) _ h in
      becomes-IsValid p r.1 found.1 v (pop_first-Shrinks test p.buff v.timed e) (ground (arith, f))

  -- Every call that returns keeps each timer set, and the port within its length.
  pub step-IsValid :
      (ins_id : A → ℕ) (now : ℕ) (p : Port A) (c : Call A) {q : Port A}
      → IsValid p
      → step ins_id now p c ≡ some q
      → IsValid q
  unfolding step pop_next_ready pop_next_ready_now del_old_ready
  step-IsValid ins_id now p (push a) v h =
      carry h
        (rw (push_back-eq-push_back_lat p now a) (push_back_lat-IsValid p now a p.wire_delay v))
  step-IsValid ins_id now p (push_lat a lat) v h = carry h (push_back_lat-IsValid p now a lat v)
  step-IsValid ins_id now p pop_oldest v h =
      let (r, e, f) = >>=-eq-some (pop_front p now) (λ r. some r.1) h in
      carry f (pop_front-IsValid p now p.buff refl v e)
  step-IsValid ins_id now p pop_newest v h =
      let (r, e, f) = >>=-eq-some (pop_back p) (λ r. some r.1) h in carry f (pop_back-IsValid p v e)
  step-IsValid ins_id now p pop_ready v h =
      let (r, e, f) = >>=-eq-some (pop_next_ready p now) (λ r. some r.1) h in
      carry f (popped-IsValid (λ stop. leb stop now) p v e)
  step-IsValid ins_id now p pop_ready_now v h =
      let (r, e, f) = >>=-eq-some (pop_next_ready_now p now) (λ r. some r.1) h in
      carry f (popped-IsValid (λ stop. stop == now) p v e)
  step-IsValid ins_id now p del_ready v h =
      let s = remove_if-Shrinks (λ e. ltb e.delay.stop now) p.buff v.timed in
      becomes-IsValid p _ _ v s (ground (arith, del_old-eq-remove_if now p.buff v.timed))
  step-IsValid ins_id now p (flush seq) v h = carry h (
      unfold flush_port in
      shrunk-IsValid p _ v (pop_while-Shrinks _ (length p.buff) p.buff v.timed))
  step-IsValid ins_id now p (search_flush seq) v h =
      carry h
        (unfold search_n_flush_port in shrunk-IsValid p _ v (remove_if-Shrinks _ p.buff v.timed))
