-- ===== src/Unit/Port/Ready.antt =====
-- When the elements of a port can be taken (src/backend/unit/port.cpp).
use cg_oo_o.Common.{
  ℕ, ◌+◌, ◌≤◌, ◌<◌, ◌≡◌, refl, ap, ◌⊎◌, inl, inr, Bool, true, false, List, [], ◌∷◌, ◌++◌, none,
  some, leb, length, All, arith, Bool-cases,
}
use cg_oo_o.Unit.Clock.{Timer, new_timer, get_stop_time}
use cg_oo_o.Unit.Port.{
  BuffElement, Port, push_back, pop_first, any_ready, has_ready, pop_next_ready, get_buff_state,
  is_ready,
}

-- The timer was set, and did not wrap.
abbrev pub IsTimed : Timer → Type 0
IsTimed t = (t.valid ≡ true) × (t.start ≤ t.stop)

pub stop_of : (t : Timer) → IsTimed t → get_stop_time t ≡ some t.stop
unfolding get_stop_time
stop_of t v = ground arith

module _ {ℓ} {A : Type ℓ} where
  pub record IsValid (p : Port A) : Type 0 where
    pub timed : All (λ e. IsTimed e.delay) p.buff
    pub fits : length p.buff ≤ p.buff_len
    pub room : 0 < p.buff_len

  -- `b` without its first element that passes the test, which held `a`.
  abbrev pub TakesFirst : (ℕ → Bool) → List (BuffElement A) → A → List (BuffElement A) → Type ℓ
  TakesFirst test b a b' =
      (pre : List (BuffElement A)) × (e : BuffElement A) × (post : List (BuffElement A)) × (b
        ≡ pre ++ (e ∷ post))
      × (b' ≡ pre ++ post)
      × (a ≡ e.dyn_ins)
      × (test e.delay.stop ≡ true)
      × All (λ d. test d.delay.stop ≡ false) pre

  abbrev pub Taken : (ℕ → Bool) → List (BuffElement A) → Type ℓ
  Taken test b =
      ((any_ready test b ≡ some false) × (pop_first test b ≡ none))
      ⊎ ((any_ready test b ≡ some true)
          × (a : A) × (b' : List (BuffElement A)) × (pop_first test b ≡ some (a, b'))
          × TakesFirst test b a b')

  pub pop_first_cases :
      (test : ℕ → Bool) (b : List (BuffElement A)) → All (λ e. IsTimed e.delay) b → Taken test b
  unfolding any_ready pop_first
  pop_first_cases test [] v = inl (refl, refl)
  pop_first_cases test (e ∷ b) v = elim (Bool-cases (test e.delay.stop)) [
    | inl passes ↦ inr (
      rw (stop_of e.delay v.0, passes),
      e.dyn_ins,
      b,
      rw (stop_of e.delay v.0, passes),
      ([], e, b, refl, refl, refl, passes, tt),
    )
    | inr fails ↦ elim (pop_first_cases test b v.1) [
      | inl (x, y) ↦ inl (rw (stop_of e.delay v.0, fails) x, rw (stop_of e.delay v.0, fails, y))
      | inr (x, a, b', y, (pre, d, post, p, q, r, s, t)) ↦ inr (
        rw (stop_of e.delay v.0, fails) x,
        a,
        e ∷ b',
        rw (stop_of e.delay v.0, fails, y),
        (e ∷ pre, d, post, ap (λ l. e ∷ l) p, ap (λ l. e ∷ l) q, r, s, (fails, t)),
      )
    ]
  ]

  -- An empty port is found by the loop as well as by the test before it.
  has_ready-any_ready :
      (p : Port A) (now : ℕ) → IsValid p → has_ready p now ≡ any_ready (λ stop. leb stop now) p.buff
  unfolding has_ready get_buff_state any_ready
  has_ready-any_ready p now v = empty_or_not p.buff refl
    where
      empty_or_not :
          (b : List (BuffElement A))
          → p.buff ≡ b
          → has_ready p now ≡ any_ready (λ stop. leb stop now) p.buff
      empty_or_not [] e = ground arith
      empty_or_not (x ∷ b) e = ground arith

  -- `hasReady ()` answers in a valid port, and it says when `popNextReady ()` may be called: it is
  -- false exactly where that call fails its check, and where it is true the call takes the first
  -- element whose time has come and leaves the others in their order.
  pub has_ready-pop_next_ready :
      (p : Port A) (now : ℕ)
      → IsValid p
      → ((has_ready p now ≡ some false) × (pop_next_ready p now ≡ none))
        ⊎ ((has_ready p now ≡ some true)
            × (a : A) × (b' : List (BuffElement A)) × (pop_next_ready p now
                ≡ some (a, record p { buff = b' }))
            × TakesFirst (λ stop. leb stop now) p.buff a b')
  unfolding pop_next_ready
  has_ready-pop_next_ready p now v =
      rw (has_ready-any_ready p now v)
        (elim (pop_first_cases (λ stop. leb stop now) p.buff v.timed) [
          | inl (x, y) ↦ inl (x, rw (y, pop_next_ready))
          | inr (x, a, b', y, t) ↦ inr (x, a, b', rw (y, pop_next_ready), t)
        ])

  -- What is sent through an empty port at `now` is there to be taken from `now` and the wire delay
  -- on, and not before.
  pub is_ready-push_back :
      (p : Port A) (now t : ℕ) (ins : A)
      → IsValid p
      → p.buff ≡ []
      → is_ready (push_back p now ins).1 t ≡ some (leb (now + p.wire_delay) t)
  unfolding is_ready push_back get_buff_state get_stop_time new_timer
  is_ready-push_back p now t ins v e = rw e (ground arith)
