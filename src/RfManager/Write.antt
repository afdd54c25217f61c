-- ===== src/RfManager/Write.antt =====
-- Renaming one destination register (src/backend/o3/rfManager.cpp).
use cg_oo_o.Common.{
  ℕ, suc, ◌+◌, ◌<◌, ◌≡◌, refl, sym, ap, ◌∙◌, inl, inr, [], ◌∷◌, ◌++◌, some, ◌==◌, if◌then◌else◌,
  length, last?, drop_last, count, count-append, drop_last-append-last, last?-none, length-append,
  arith, Option-cases,
}
use cg_oo_o.Common.Maps.{
  lookup, modify, keys, keys-modify, lookup-of-count, lookup-insert-erase, length-modify,
}
use cg_oo_o.Common.Values.{values, count-values-append}
use cg_oo_o.Rename.{
  Rename, RegElem, available, renamed_invalid, rename_reg, get_available_pr, update_frat, update_pr,
  is_any_pr_available,
}
use cg_oo_o.Rename.Inv.{
  Inv, Flight, assign, replay, state_of, prev_of, Chain, Chain-mono, Chain-append, lookup-replay,
  replay-has, replay-append, replay-IsOrdered, assign-IsOrdered, state_of-modify, prev_of-modify,
}
use cg_oo_o.RfManager.{rename_write}

abbrev write_to : ℕ → RegElem → RegElem
write_to prev e = record e { prev_pr = some prev; reg_state = renamed_invalid }

module _ (s : Rename) (fl : Flight) (v : Inv s fl) where
  -- What is mapped for `a` is a register of the file.
  mapped : (a prev : ℕ) → lookup a s.frat ≡ some prev → 0 < count prev (keys s.rf)
  mapped a prev h =
      omega (arith, lookup-replay a prev s.crat fl v.ordered (sym (v.front a) ∙ h), v.parts prev)

  -- The tables after the write operand `a` was given the register `p`, `prev` being replaced.
  abbrev after_write : ℕ → ℕ → ℕ → Rename
  after_write a p prev = record s {
    frat = assign a p s.frat;
    available_pr_set = drop_last s.available_pr_set;
    rf = modify p (write_to prev) s.rf;
  }

  module _ (a p prev : ℕ) (found : lookup a s.frat ≡ some prev)
      (back : last? s.available_pr_set ≡ some p) where
    split : s.available_pr_set ≡ drop_last s.available_pr_set ++ (p ∷ [])
    split = drop_last-append-last s.available_pr_set p back

    count_back :
        (r : ℕ)
        → count r s.available_pr_set
          ≡ count r (drop_last s.available_pr_set) + (if r == p then 1 else 0)
    count_back r =
        ap (count r) split ∙ omega (arith, count-append r (drop_last s.available_pr_set) (p ∷ []))

    free_back : 0 < count p s.available_pr_set
    free_back = ground (arith, count_back p)

    in_file : (e : RegElem) × (lookup p s.rf ≡ some e)
    in_file = lookup-of-count p s.rf (omega (arith, v.parts p, free_back))

    state_after :
        (r : ℕ)
        → state_of (after_write a p prev).rf r
          ≡ (if r == p then some renamed_invalid else state_of s.rf r)
    state_after r = state_of-modify p r (write_to prev) s.rf ∙ ground (arith, in_file)

    prev_after :
        (r : ℕ)
        → prev_of (after_write a p prev).rf r ≡ (if r == p then some prev else prev_of s.rf r)
    prev_after r = prev_of-modify p r (write_to prev) s.rf ∙ ground (arith, in_file)

    Chain-after : Chain (after_write a p prev).rf s.crat (fl ++ ((a, p) ∷ []))
    Chain-after =
        Chain-append (after_write a p prev).rf s.crat fl a p prev (sym (v.front a) ∙ found)
          (ground (arith, prev_after p))
          (Chain-mono s.rf (after_write a p prev).rf s.crat fl
            (λ r h. ground (arith, prev_after r, v.parts r, v.once r, free_back)) v.chain)

    front_after :
        (b : ℕ) → lookup b (assign a p s.frat) ≡ lookup b (replay s.crat (fl ++ ((a, p) ∷ [])))
    front_after b = rw (replay-append s.crat fl a p) (
        ground (
          arith,
          lookup-insert-erase a b p s.frat v.ordered_frat,
          lookup-insert-erase a b p (replay s.crat fl) (replay-IsOrdered s.crat fl v.ordered),
          v.front b,
        ))

    after_write-Inv : Inv (after_write a p prev) (fl ++ ((a, p) ∷ []))
    after_write-Inv = record {
      ordered = v.ordered;
      ordered_frat = assign-IsOrdered a p s.frat v.ordered_frat;
      once = λ r. rw (keys-modify p (write_to prev) s.rf) (v.once r);
      parts = λ r.
          rw (keys-modify p (write_to prev) s.rf)
            (omega (arith, v.parts r, count_back r, count-values-append r fl ((a, p) ∷ [])));
      arch = λ r h. ground (arith, state_after r, v.arch r, v.parts r, v.once r, free_back);
      renamed =
          λ r h. ground (arith, state_after r, v.renamed r, count-values-append r fl ((a, p) ∷ []));
      free = λ r h. ground (arith, state_after r, v.free r, count_back r, v.parts r, v.once r);
      front = front_after;
      chain = Chain-after;
      room = omega (
        arith,
        v.room,
        ap length split,
        length-append (drop_last s.available_pr_set) (p ∷ []),
        length-append fl ((a, p) ∷ []),
      );
      total = omega (arith, v.total, length-modify p (write_to prev) s.rf);
      range = λ r h. v.range r (omega (arith, ap (count r) (keys-modify p (write_to prev) s.rf)));
    }

    free_elem : (e : RegElem) × (lookup p s.rf ≡ some e) × (e.reg_state ≡ available)
    unfolding state_of
    free_elem = let (e, at) = in_file in (e, at, ground (arith, v.free p free_back))

    -- No check of the round fails.
    rename_write-after : rename_write s a ≡ some (p, after_write a p prev)
    unfolding rename_write is_any_pr_available rename_reg get_available_pr update_frat update_pr
    rename_write-after =
        let (e, at, free) = free_elem in
        let (o, held) = lookup-of-count prev s.rf (mapped a prev found) in
        let low = v.range prev (mapped a prev found) in
        let new = v.range p (omega (arith, v.parts p, free_back)) in
        let some_free : 0 < length s.available_pr_set =
          omega (arith, ap length split, length-append (drop_last s.available_pr_set) (p ∷ [])) in
        ground (arith, found, back)

-- While a register is free, renaming the destination `a`, an architectural register, fails no check:
-- it takes a register that was free, maps `a` to it, puts the pair last in flight, leaves the
-- committed map alone and keeps the invariant.
pub rename_write-Inv :
    (s : Rename) (fl : Flight) (a q : ℕ)
    → Inv s fl
    → lookup a s.crat ≡ some q
    → 0 < length s.available_pr_set
    → (p : ℕ) × (s' : Rename) × (rename_write s a ≡ some (p, s'))
      × (0 < count p s.available_pr_set)
      × (lookup a s'.frat ≡ some p)
      × (s'.crat ≡ s.crat)
      × (state_of s'.rf p ≡ some renamed_invalid)
      × ((r : ℕ) → 0 < count r (values fl) → state_of s'.rf r ≡ state_of s.rf r)
      × (suc (length s'.available_pr_set) ≡ length s.available_pr_set)
      × Inv s' (fl ++ ((a, p) ∷ []))
rename_write-Inv s fl a q v known room = elim (Option-cases (last? s.available_pr_set)) [
  | inl none_left ↦ absurd (omega (arith, ap length (last?-none s.available_pr_set none_left)))
  | inr (p, back) ↦
      let (prev, mapping) = replay-has a q s.crat fl v.ordered known in
      let found : lookup a s.frat ≡ some prev = v.front a ∙ mapping in
      (
        p,
        after_write s fl v a p prev,
        rename_write-after s fl v a p prev found back,
        free_back s fl v a p prev found back,
        ground (arith, lookup-insert-erase a a p s.frat v.ordered_frat),
        refl,
        ground (arith, state_after s fl v a p prev found back p),
        λ r h. ground (
          arith,
          state_after s fl v a p prev found back r,
          free_back s fl v a p prev found back,
          v.parts r,
          v.once r,
          h,
        ),
        omega (
          arith,
          ap length (split s fl v a p prev found back),
          length-append (drop_last s.available_pr_set) (p ∷ []),
        ),
        after_write-Inv s fl v a p prev found back,
      )
]
