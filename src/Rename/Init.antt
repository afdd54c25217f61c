-- ===== src/Rename/Init.antt =====
-- The constructor of `o3_registerRename` (src/backend/unit/registerRename.cpp), its two loops
-- and the tables while they are filled.
use cg_oo_o.Common.{
  ℕ, zero, suc, ◌+◌, ◌-◌, ◌^◌, ◌≤◌, ◌<◌, ◌≡◌, refl, ap, ◌∙◌, inl, inr, [], ◌∷◌, Option, some, ◌==◌,
  leb, if◌then◌else◌, length, length-append, count, count-append, arith, Bool-cases,
}
use cg_oo_o.Common.Maps.{
  lookup, insert, keys, IsOrdered, insert-IsOrdered, count-insert, length-insert, lookup-none,
  lookup-insert, count-keys-lt, lookup-of-count,
}
use cg_oo_o.Common.Values.{values, count-values-insert}
use cg_oo_o.Unit.WirePair.{WirePair}
use cg_oo_o.Rename.{
  Rename, Config, RegElem, RegRenState, available, arch_reg, Tables, add_arch, fill_arch,
  add_rename, fill_rename, new_rename, rounds, increment,
}
use cg_oo_o.Rename.Inv.{Inv, state_of}

-- The tables while they are filled: the keys of the maps are below `a`, the registers made so far
-- from `lo` to the counter,
-- the keys from `from` on all there.
record Built (lo from a : ℕ) (t : Tables) : Type 0 where
  same : t.frat ≡ t.crat
  ordered : IsOrdered t.crat
  ordered_rf : IsOrdered t.rf
  below : (k : ℕ) → 0 < count k (keys t.crat) → k < a
  known : (k : ℕ) → from ≤ k → k < a → 0 < count k (keys t.crat)
  made : (r : ℕ) → 0 < count r (keys t.rf) → (lo ≤ r) × (r < t.counter)
  parts : (r : ℕ) → count r (values t.crat) + count r t.available_pr_set ≡ count r (keys t.rf)
  arch : (r : ℕ) → 0 < count r (values t.crat) → state_of t.rf r ≡ some arch_reg
  free : (r : ℕ) → 0 < count r t.available_pr_set → state_of t.rf r ≡ some available
  size : length t.crat + length t.available_pr_set ≡ length t.rf

module _ (lo from a : ℕ) (t : Tables) (b : Built lo from a t) (low : lo ≤ t.counter)
    (fits : t.counter + 1 < 2 ^ 32) where
  fresh : lookup t.counter t.rf ≡ Option.none
  fresh = lookup-none t.counter t.rf (ground (arith, b.made t.counter))

  state_of-insert :
      (st : RegRenState) (r : ℕ)
      → state_of (insert t.counter (record { reg_state = st; prev_pr = Option.none }) t.rf) r
        ≡ (if r == t.counter then some st else state_of t.rf r)
  unfolding state_of
  state_of-insert st r = ground (
    arith,
    lookup-insert t.counter r (record { reg_state = st; prev_pr = Option.none }) t.rf fresh,
  )

  unused : (a : ℕ) → count t.counter (keys t.rf) ≡ 0
  unused a = ground (arith, b.made t.counter)

  add_rename-Built :
      Built lo from a (add_rename t)
      × ((add_rename t).counter ≡ t.counter + 1)
      × ((add_rename t).crat ≡ t.crat)
      × (length (add_rename t).available_pr_set ≡ suc (length t.available_pr_set))
  unfolding add_rename
  add_rename-Built =
      let e : RegElem = record { reg_state = available; prev_pr = Option.none } in
      (
        record {
          same = b.same;
          ordered = b.ordered;
          ordered_rf = insert-IsOrdered t.counter e t.rf b.ordered_rf;
          below = b.below;
          known = b.known;
          made = λ r h. ground (arith, b.made r, count-insert r t.counter e t.rf fresh);
          parts = λ r. omega (
            arith,
            b.parts r,
            count-insert r t.counter e t.rf fresh,
            count-append r t.available_pr_set (t.counter ∷ []),
          );
          arch = λ r h. ground (arith, b.arch r, b.parts r, state_of-insert available r, unused a);
          free = λ r h. ground (
            arith,
            b.free r,
            state_of-insert available r,
            count-append r t.available_pr_set (t.counter ∷ []),
          );
          size = omega (
            arith,
            b.size,
            length-insert t.counter e t.rf fresh,
            length-append t.available_pr_set (t.counter ∷ []),
          );
        },
        omega arith,
        refl,
        omega (arith, length-append t.available_pr_set (t.counter ∷ [])),
      )

  add_arch-Built :
      Built lo from (a + 1) (add_arch a t)
      × ((add_arch a t).counter ≡ t.counter + 1)
      × ((add_arch a t).available_pr_set ≡ t.available_pr_set)
      × (length (add_arch a t).crat ≡ suc (length t.crat))
  unfolding add_arch
  add_arch-Built =
      let e : RegElem = record { reg_state = arch_reg; prev_pr = Option.none } in
      let absent : lookup a t.crat ≡ Option.none =
        lookup-none a t.crat (ground (arith, b.below a)) in
      (
        record {
          same = ap (insert a t.counter) b.same;
          ordered = insert-IsOrdered a t.counter t.crat b.ordered;
          ordered_rf = insert-IsOrdered t.counter e t.rf b.ordered_rf;
          below = λ k h. ground (arith, b.below k, count-insert k a t.counter t.crat absent);
          known = λ k low h. ground (arith, b.known k, count-insert k a t.counter t.crat absent);
          made = λ r h. ground (arith, b.made r, count-insert r t.counter e t.rf fresh);
          parts = λ r. omega (
            arith,
            b.parts r,
            count-insert r t.counter e t.rf fresh,
            count-values-insert r a t.counter t.crat absent,
          );
          arch = λ r h. ground (
            arith,
            b.arch r,
            state_of-insert arch_reg r,
            count-values-insert r a t.counter t.crat absent,
          );
          free = λ r h. ground (arith, b.free r, b.parts r, state_of-insert arch_reg r, unused a);
          size = omega (
            arith,
            b.size,
            length-insert t.counter e t.rf fresh,
            length-insert a t.counter t.crat absent,
          );
        },
        omega arith,
        refl,
        length-insert a t.counter t.crat absent,
      )

fill_arch-Built :
    (lo from f hi a : ℕ) (t : Tables)
    → Built lo from a t
    → lo ≤ t.counter
    → a ≤ hi + 1
    → hi + 1 - a < f
    → t.counter + (hi + 1 - a) < 2 ^ 32
    → hi + 1 < 2 ^ 32
    → (t' : Tables) × (fill_arch f hi a t ≡ some t')
      × Built lo from (hi + 1) t'
      × (t'.counter ≡ t.counter + (hi + 1 - a))
      × (t'.available_pr_set ≡ t.available_pr_set)
      × (length t'.crat ≡ length t.crat + (hi + 1 - a))
unfolding fill_arch
fill_arch-Built lo from zero hi a t b low h enough fits top = absurd (omega arith)
fill_arch-Built lo from (suc f) hi a t b low h enough fits top = elim (Bool-cases (leb a hi)) [
  | inl more ↦
      let one = add_arch-Built lo from a t b low (ground (arith, more)) in
      let next : increment a ≡ a + 1 = ground (arith, more) in
      let (t', ran, built, counter, avail, size) =
        fill_arch-Built lo from f hi (increment a) (add_arch a t) (rw next one.0)
          (omega (arith, one.1)) (ground (arith, more)) (ground (arith, more))
          (ground (arith, more, one.1)) top in
      (
        t',
        rw more ran,
        built,
        ground (arith, more, counter, one.1),
        cc (avail, one.2),
        ground (arith, more, size, one.3),
      )
  | inr done ↦
      let end : a ≡ hi + 1 = ground (arith, done) in
      (t, rw done, rw (← end) b, omega arith, refl, omega arith)
]

fill_rename-Built :
    (lo from a f hi : ℕ) (t : Tables)
    → Built lo from a t
    → lo ≤ t.counter
    → t.counter ≤ hi + 1
    → hi + 1 - t.counter < f
    → hi + 1 < 2 ^ 32
    → (t' : Tables) × (fill_rename f hi t ≡ some t')
      × Built lo from a t'
      × (t'.counter ≡ hi + 1)
      × (t'.crat ≡ t.crat)
      × (length t'.available_pr_set ≡ length t.available_pr_set + (hi + 1 - t.counter))
unfolding fill_rename
fill_rename-Built lo from a zero hi t b low h enough top = absurd (omega arith)
fill_rename-Built lo from a (suc f) hi t b low h enough top = elim (Bool-cases (leb t.counter hi)) [
  | inl more ↦
      let one = add_rename-Built lo from a t b low (ground (arith, more)) in
      let (t', ran, built, counter, crat, size) =
        fill_rename-Built lo from a f hi (add_rename t) one.0 (omega (arith, one.1))
          (ground (arith, more, one.1)) (ground (arith, more, one.1)) top in
      (t', rw more ran, built, counter, cc (crat, one.2), ground (arith, more, size, one.1, one.3))
  | inr done ↦ (t, rw done, b, ground (arith, done), refl, ground (arith, done))
]

-- The dimensions of a configuration agree, and no register number reaches the largest `unsigned`.
pub record Consistent (c : Config) : Type 0 where
  pub arch_regs : c.a_hi + 1 ≡ c.a_lo + c.a_size
  pub phys_regs : c.p_hi + 1 ≡ c.p_lo + c.p_size
  pub sizes : c.a_size + c.r_size ≡ c.p_size
  pub a_top : c.a_hi + 1 < 2 ^ 32
  pub p_top : c.p_hi + 1 < 2 ^ 32

abbrev no_tables : Config → Tables
no_tables c = record { counter = c.p_lo; frat = []; crat = []; rf = []; available_pr_set = [] }

no_tables-Built : (c : Config) → Built c.p_lo c.a_lo c.a_lo (no_tables c)
no_tables-Built c = record {
  same = refl;
  ordered = tt;
  ordered_rf = tt;
  below = λ k h. absurd (omega arith);
  known = λ k low h. absurd (omega arith);
  made = λ r h. absurd (omega arith);
  parts = λ r. omega arith;
  arch = λ r h. absurd (omega arith);
  free = λ r h. absurd (omega arith);
  size = omega arith;
}

abbrev built : Config → WirePair → Tables → Rename
built c w u = record {
  config = c;
  wires = w;
  frat = u.frat;
  crat = u.crat;
  rf = u.rf;
  available_pr_set = u.available_pr_set;
}

built-Inv :
    (c : Config) (w : WirePair) (u : Tables) (a : ℕ)
    → Consistent c
    → Built c.p_lo c.a_lo a u
    → u.counter ≡ c.p_hi + 1
    → length u.crat ≡ c.a_size
    → length u.available_pr_set ≡ c.r_size
    → Inv (built c w u) []
built-Inv c w u a k b counter arch rest = record {
  ordered = b.ordered;
  ordered_frat = rw b.same b.ordered;
  once = λ r. count-keys-lt r u.rf b.ordered_rf;
  parts = λ r. omega (arith, b.parts r);
  arch = b.arch;
  renamed = λ r h. absurd (omega arith);
  free = b.free;
  front = λ r. ap (lookup r) b.same;
  chain = tt;
  room = omega (arith, rest);
  total = omega (arith, b.size, arch, rest);
  range = λ r h. omega (arith, b.made r h, counter);
}

-- On dimensions that agree the constructor passes all its checks, its loops end, and its tables keep
-- the invariant with nothing in flight: as many architectural registers as the configuration says
-- are mapped, all from `a_lo` to `a_hi`, and all rename registers are free.
pub new_rename-Inv :
    (c : Config) (w : WirePair)
    → Consistent c
    → (s : Rename) × (new_rename c w ≡ some s)
      × (s.config ≡ c)
      × (length s.crat ≡ c.a_size)
      × (length s.available_pr_set ≡ c.r_size)
      × ((a : ℕ) → c.a_lo ≤ a → a ≤ c.a_hi → (p : ℕ) × (lookup a s.crat ≡ some p))
      × Inv s []
unfolding new_rename
new_rename-Inv c w k =
    let (t, ran, b, counter, avail, size) =
      fill_arch-Built c.p_lo c.a_lo (rounds c.a_lo c.a_hi) c.a_hi c.a_lo (no_tables c)
        (no_tables-Built c) (omega arith) (omega (arith, k.arch_regs)) (omega arith)
        (omega (arith, k.arch_regs, k.phys_regs, k.sizes, k.p_top)) k.a_top in
    let (u, ran', b', counter', crat', size') =
      fill_rename-Built c.p_lo c.a_lo (c.a_hi + 1) (rounds t.counter c.p_hi) c.p_hi t b
        (omega (arith, counter)) (omega (arith, counter, k.arch_regs, k.phys_regs, k.sizes))
        (omega arith) k.p_top in
    let arch : length u.crat ≡ c.a_size = omega (arith, ap length crat', size, k.arch_regs) in
    let rest : length u.available_pr_set ≡ c.r_size =
      omega (arith, size', ap length avail, counter, k.arch_regs, k.phys_regs, k.sizes) in
    let all : length u.rf ≡ c.p_size = omega (arith, b'.size, arch, rest, k.sizes) in
    let front : length u.frat ≡ c.a_size = ap length b'.same ∙ arch in
    (
      built c w u,
      rw (ran, ran') (ground (arith, arch, rest, all, front)),
      refl,
      arch,
      rest,
      λ a low high. lookup-of-count a u.crat (b'.known a low (omega (arith, high))),
      built-Inv c w u (c.a_hi + 1) k b' counter' arch rest,
    )
