-- ===== src/Rename/Recovery.antt =====
-- `squashRenameReg` (src/backend/unit/registerRename.cpp), its two loops and the tables after them.
use mathlib.Core.List.{append-nil, append_assoc}
use cg_oo_o.Common.{
  ℕ, ◌+◌, ◌≤◌, ◌<◌, ◌≡◌, refl, sym, ap, ◌∙◌, ◌⊎◌, inr, List, [], ◌∷◌, ◌++◌, some, ◌==◌,
  if◌then◌else◌, length, length-append, count, count-append, arith,
}
use cg_oo_o.Common.Maps.{
  lookup, erase, modify, keys, IsOrdered, keys-modify, length-modify, count-erase, length-erase,
  lookup-of-count, insert_last,
}
use cg_oo_o.Common.Values.{values}
use cg_oo_o.Rename.{
  Rename, RegElem, RegRenState, available, arch_reg, reset, Squash, squash_one, squash_arch,
  squash_rest, squash_rename_reg,
}
use cg_oo_o.Rename.Inv.{Inv, Flight, state_of, state_of-modify}

state_of-reset :
    (k r : ℕ) (st : RegRenState) (rf : List (ℕ × RegElem))
    → 0 < count k (keys rf)
    → state_of (modify k (reset st) rf) r ≡ (if r == k then some st else state_of rf r)
state_of-reset k r st rf h =
    let (e, at) = lookup-of-count k rf h in state_of-modify k r (reset st) rf ∙ ground arith

-- The loop over the committed map.
frat-squash_arch :
    (m acc : List (ℕ × ℕ)) (all rest : List (ℕ × RegElem))
    → IsOrdered (acc ++ m)
    → (squash_arch m (record { frat = acc; all = all; rest = rest })).frat ≡ acc ++ m
unfolding squash_arch
frat-squash_arch [] acc all rest o = sym (append-nil acc)
frat-squash_arch ((a, p) ∷ m) acc all rest o =
    let grown = append_assoc acc ((a, p) ∷ []) m in
    rw (squash_arch, insert_last a p acc m o)
      (frat-squash_arch m (acc ++ ((a, p) ∷ [])) (modify p (reset arch_reg) all) (erase p rest)
          (rw grown o)
        ∙ grown)

keys-squash_arch : (m : List (ℕ × ℕ)) (q : Squash) → keys (squash_arch m q).all ≡ keys q.all
unfolding squash_arch
keys-squash_arch [] q = refl
keys-squash_arch ((a, p) ∷ m) q =
    keys-squash_arch m (squash_one a p q) ∙ keys-modify p (reset arch_reg) q.all

length-squash_arch : (m : List (ℕ × ℕ)) (q : Squash) → length (squash_arch m q).all ≡ length q.all
unfolding squash_arch
length-squash_arch [] q = refl
length-squash_arch ((a, p) ∷ m) q =
    length-squash_arch m (squash_one a p q) ∙ length-modify p (reset arch_reg) q.all

-- The committed registers leave the copy, and nothing else does.
rest-squash_arch :
    (m : List (ℕ × ℕ)) (q : Squash)
    → ((r : ℕ) → count r (values m) ≤ count r (keys q.rest))
    → ((r : ℕ) → count r (keys (squash_arch m q).rest) + count r (values m) ≡ count r (keys q.rest))
      × (length (squash_arch m q).rest + length m ≡ length q.rest)
unfolding squash_arch
rest-squash_arch [] q h = (λ r. omega arith, omega arith)
rest-squash_arch ((a, p) ∷ m) q h =
    let present : 0 < count p (keys q.rest) = ground (arith, h p) in
    let (e, at) = lookup-of-count p q.rest present in
    let (counts, size) =
      rest-squash_arch m (squash_one a p q)
        (λ r. omega (arith, h r, count-erase r p q.rest present)) in
    (
      λ r. omega (arith, counts r, count-erase r p q.rest present),
      omega (arith, size, length-erase p e q.rest at),
    )

-- A register is ARCH_REG at the end if it was, or if it is committed.
state-squash_arch :
    (m : List (ℕ × ℕ)) (q : Squash) (r : ℕ)
    → ((p : ℕ) → count p (values m) ≤ count p (keys q.all))
    → (state_of q.all r ≡ some arch_reg) ⊎ (0 < count r (values m))
    → state_of (squash_arch m q).all r ≡ some arch_reg
unfolding squash_arch
state-squash_arch [] q r h k = ground (arith, k)
state-squash_arch ((a, p) ∷ m) q r h k =
    let present : 0 < count p (keys q.all) = ground (arith, h p) in
    state-squash_arch m (squash_one a p q) r
      (λ t. rw (keys-modify p (reset arch_reg) q.all) (omega (arith, h t)))
      (ground (arith, k, state_of-reset p r arch_reg q.all present))

-- The loop over the rest of the copy.
avail-squash_rest :
    (m all : List (ℕ × RegElem)) (avail : List ℕ)
    → ((r : ℕ) → count r (squash_rest m all avail).1 ≡ count r avail + count r (keys m))
      × (length (squash_rest m all avail).1 ≡ length avail + length m)
unfolding squash_rest
avail-squash_rest [] all avail = (λ r. omega arith, omega arith)
avail-squash_rest ((p, e) ∷ m) all avail =
    let (counts, size) = avail-squash_rest m (modify p (reset available) all) (avail ++ (p ∷ [])) in
    (
      λ r. omega (arith, counts r, count-append r avail (p ∷ [])),
      omega (arith, size, length-append avail (p ∷ [])),
    )

keys-squash_rest :
    (m all : List (ℕ × RegElem)) (avail : List ℕ)
    → (keys (squash_rest m all avail).0 ≡ keys all)
      × (length (squash_rest m all avail).0 ≡ length all)
unfolding squash_rest
keys-squash_rest [] all avail = (refl, refl)
keys-squash_rest ((p, e) ∷ m) all avail =
    let (same, size) = keys-squash_rest m (modify p (reset available) all) (avail ++ (p ∷ [])) in
    (same ∙ keys-modify p (reset available) all, size ∙ length-modify p (reset available) all)

-- A register of the rest is AVAILABLE at the end; any other keeps its state.
state-squash_rest :
    (m all : List (ℕ × RegElem)) (avail : List ℕ) (r : ℕ)
    → ((p : ℕ) → count p (keys m) ≤ count p (keys all))
    → (count r (keys m) ≡ 0 → state_of (squash_rest m all avail).0 r ≡ state_of all r)
      × ((state_of all r ≡ some available) ⊎ (0 < count r (keys m))
          → state_of (squash_rest m all avail).0 r ≡ some available)
unfolding squash_rest
state-squash_rest [] all avail r h = (λ k. refl, λ k. ground (arith, k))
state-squash_rest ((p, e) ∷ m) all avail r h =
    let present : 0 < count p (keys all) = ground (arith, h p) in
    let after = state_of-reset p r available all present in
    let (kept, freed) =
      state-squash_rest m (modify p (reset available) all) (avail ++ (p ∷ [])) r
        (λ t. rw (keys-modify p (reset available) all) (omega (arith, h t))) in
    (λ k. ground (arith, kept (ground (arith, k)), after), λ k. freed (ground (arith, k, after)))

module _ (s : Rename) (fl : Flight) (v : Inv s fl) where
  abbrev start : Squash
  start = record { frat = []; all = s.rf; rest = s.rf }

  abbrev middle : Squash
  middle = squash_arch s.crat start

  abbrev end_state : List (ℕ × RegElem) × List ℕ
  end_state = squash_rest middle.rest middle.all []

  abbrev recovered : Rename
  recovered = record s { frat = middle.frat; rf = end_state.0; available_pr_set = end_state.1 }

  frat_end : middle.frat ≡ s.crat
  frat_end = frat-squash_arch s.crat [] s.rf s.rf v.ordered

  within : (r : ℕ) → count r (values s.crat) ≤ count r (keys s.rf)
  within r = omega (arith, v.parts r)

  count_rest : (r : ℕ) → count r (keys middle.rest) + count r (values s.crat) ≡ count r (keys s.rf)
  count_rest = (rest-squash_arch s.crat start within).0

  length_rest : length middle.rest + length s.crat ≡ length s.rf
  length_rest = (rest-squash_arch s.crat start within).1

  keys_end : keys end_state.0 ≡ keys s.rf
  keys_end = (keys-squash_rest middle.rest middle.all []).0 ∙ keys-squash_arch s.crat start

  rest_within : (r : ℕ) → count r (keys middle.rest) ≤ count r (keys middle.all)
  rest_within r = rw (keys-squash_arch s.crat start) (omega (arith, count_rest r))

  states :
      (r : ℕ)
      → (count r (keys middle.rest) ≡ 0 → state_of end_state.0 r ≡ state_of middle.all r)
        × ((state_of middle.all r ≡ some available) ⊎ (0 < count r (keys middle.rest))
            → state_of end_state.0 r ≡ some available)
  states r = state-squash_rest middle.rest middle.all [] r rest_within

  recovered-Inv : Inv recovered []
  recovered-Inv = record {
    ordered = v.ordered;
    ordered_frat = rw frat_end v.ordered;
    once = λ r. rw keys_end (v.once r);
    parts = λ r.
        rw keys_end
          (omega (arith, count_rest r, (avail-squash_rest middle.rest middle.all []).0 r));
    arch = λ r k.
        (states r).0 (omega (arith, count_rest r, v.once r))
        ∙ state-squash_arch s.crat start r within (inr k);
    renamed = λ r k. absurd (omega arith);
    free = λ r k.
        (states r).1 (inr (omega (arith, (avail-squash_rest middle.rest middle.all []).0 r)));
    front = λ a. ap (lookup a) frat_end;
    chain = tt;
    room = omega (arith, (avail-squash_rest middle.rest middle.all []).1, length_rest, v.total);
    total = omega (
      arith,
      v.total,
      (keys-squash_rest middle.rest middle.all []).1,
      length-squash_arch s.crat start,
    );
    range = λ r k. v.range r (rw keys_end at k);
  }

  squash-recovered : squash_rename_reg s ≡ some recovered
  unfolding squash_rename_reg
  squash-recovered = ground (
    arith,
    ap length frat_end,
    length_rest,
    (avail-squash_rest middle.rest middle.all []).1,
    v.total,
  )

-- A squash fails no check. It leaves the committed map alone, makes the speculative map equal to it,
-- and keeps the invariant with nothing in flight: every register that is not committed is free.
pub squash_rename_reg-Inv :
    (s : Rename) (fl : Flight)
    → Inv s fl
    → (s' : Rename) × (squash_rename_reg s ≡ some s')
      × (s'.crat ≡ s.crat)
      × (s'.frat ≡ s.crat)
      × ((p : ℕ) → count p s'.available_pr_set + count p (values s.crat) ≡ count p (keys s.rf))
      × Inv s' []
squash_rename_reg-Inv s fl v = (
  recovered s fl v,
  squash-recovered s fl v,
  refl,
  frat_end s fl v,
  λ p. omega (arith, (recovered-Inv s fl v).parts p, ap (count p) (keys_end s fl v)),
  recovered-Inv s fl v,
)
