-- ===== src/RfManager/Commit.antt =====
-- Completing and committing one destination register (src/backend/o3/rfManager.cpp).
use cg_oo_o.Common.{
  ℕ, suc, ◌+◌, ◌≤◌, ◌<◌, ◌≡◌, ◌≢◌, refl, ◌∙◌, List, [], ◌∷◌, ◌++◌, none, some, ◌==◌, if◌then◌else◌,
  length, count, count-append, length-append, arith,
}
use cg_oo_o.Common.Maps.{
  lookup, erase, modify, keys, keys-modify, lookup-of-count, lookup-modify, length-modify,
  length-erase, length-insert, lookup-erase_self,
}
use cg_oo_o.Common.Values.{values, count-values-lookup, count-values-insert, count-values-erase}
use cg_oo_o.Rename.{
  Rename, RegElem, RegRenState, available, renamed_invalid, renamed_valid, arch_reg,
  update_pr_state, update_crat, set_as_available_pr, get_prev_pr,
}
use cg_oo_o.Rename.Inv.{
  Inv, Flight, assign, state_of, prev_of, Chain-mono, assign-IsOrdered, state_of-modify,
  prev_of-modify,
}
use cg_oo_o.RfManager.{commit_write}

abbrev to_state : RegRenState → RegElem → RegElem
to_state st e = record e { reg_state = st }

abbrev forget_prev : RegElem → RegElem
forget_prev e = record e { prev_pr = none }

completed-Inv :
    (s : Rename) (fl : Flight) (p : ℕ)
    → Inv s fl
    → 0 < count p (values fl)
    → Inv (record s { rf = modify p (to_state renamed_valid) s.rf }) fl
completed-Inv s fl p v h =
    let (e, at) = lookup-of-count p s.rf (omega (arith, v.parts p)) in
    let state_after = λ (r : ℕ). state_of-modify p r (to_state renamed_valid) s.rf in
    record {
      ordered = v.ordered;
      ordered_frat = v.ordered_frat;
      once = λ r. rw (keys-modify p (to_state renamed_valid) s.rf) (v.once r);
      parts = λ r. rw (keys-modify p (to_state renamed_valid) s.rf) (v.parts r);
      arch = λ r k. ground (arith, state_after r, v.arch r, v.parts r, v.once r);
      renamed = λ r k. ground (arith, state_after r, v.renamed r);
      free = λ r k. ground (arith, state_after r, v.free r, v.parts r, v.once r);
      front = v.front;
      chain =
          Chain-mono s.rf (modify p (to_state renamed_valid) s.rf) s.crat fl
            (λ r k.
              prev_of-modify p r (to_state renamed_valid) s.rf ∙ unfold prev_of in ground arith)
            v.chain;
      room = v.room;
      total = omega (arith, v.total, length-modify p (to_state renamed_valid) s.rf);
      range = λ r k. v.range r (rw (keys-modify p (to_state renamed_valid) s.rf) at k);
    }

-- Completion of a register in flight: its value is there, whatever its place in the order.
pub complete-Inv :
    (s : Rename) (fl : Flight) (p : ℕ)
    → Inv s fl
    → 0 < count p (values fl)
    → state_of s.rf p ≡ some renamed_invalid
    → (s' : Rename) × (update_pr_state s p renamed_valid ≡ some s')
      × (state_of s'.rf p ≡ some renamed_valid)
      × ((r : ℕ) → r ≢ p → state_of s'.rf r ≡ state_of s.rf r)
      × (s'.crat ≡ s.crat)
      × Inv s' fl
unfolding update_pr_state
complete-Inv s fl p v h k =
    let (e, at) = lookup-of-count p s.rf (omega (arith, v.parts p)) in
    (
      record s { rf = modify p (to_state renamed_valid) s.rf },
      unfold state_of in ground (arith, k),
      ground (arith, state_of-modify p p (to_state renamed_valid) s.rf),
      λ r apart. ground (arith, state_of-modify p r (to_state renamed_valid) s.rf),
      refl,
      completed-Inv s fl p v h,
    )

-- The oldest rename in flight maps `a` to `p`, in the place of `q`.
module _ (s : Rename) (a p q : ℕ) (fl : Flight) (v : Inv s ((a, p) ∷ fl))
    (old : lookup a s.crat ≡ some q) where
  abbrev committed : Rename
  committed = record s {
    crat = assign a p s.crat;
    rf = modify q forget_prev (modify q (to_state available) (modify p (to_state arch_reg) s.rf));
    available_pr_set = s.available_pr_set ++ (q ∷ []);
  }

  held : 0 < count q (values s.crat)
  held = count-values-lookup a q s.crat old

  apart : q ≢ p
  apart e = ground (arith, held, v.parts p, v.once p)

  count_crat :
      (r : ℕ)
      → (if r == q then 1 else 0) + count r (values (assign a p s.crat))
        ≡ (if r == p then 1 else 0) + count r (values s.crat)
  count_crat r = omega (
    arith,
    count-values-erase r a q s.crat old,
    count-values-insert r a p (erase a s.crat) (lookup-erase_self a s.crat v.ordered),
  )

  new_elem : (e : RegElem) × (lookup p s.rf ≡ some e)
  new_elem = lookup-of-count p s.rf (ground (arith, v.parts p))

  old_elem : (e : RegElem) × (lookup q s.rf ≡ some e)
  old_elem = lookup-of-count q s.rf (omega (arith, v.parts q, held))

  abbrev arch_file : List (ℕ × RegElem)
  arch_file = modify p (to_state arch_reg) s.rf

  abbrev free_file : List (ℕ × RegElem)
  free_file = modify q (to_state available) arch_file

  state_after :
      (r : ℕ)
      → state_of committed.rf r
        ≡ (if r == q then some available else if r == p then some arch_reg else state_of s.rf r)
  unfolding state_of
  state_after r =
      let (e, at_p) = new_elem in
      let (o, at_q) = old_elem in
      ground (
        arith,
        lookup-modify q r forget_prev free_file,
        lookup-modify q r (to_state available) arch_file,
        lookup-modify p r (to_state arch_reg) s.rf,
        apart,
      )

  prev_after : (r : ℕ) → r ≢ q → prev_of committed.rf r ≡ prev_of s.rf r
  unfolding prev_of
  prev_after r h = ground (
    arith,
    lookup-modify q r forget_prev free_file,
    lookup-modify q r (to_state available) arch_file,
    lookup-modify p r (to_state arch_reg) s.rf,
  )

  keys_after : keys committed.rf ≡ keys s.rf
  keys_after =
      keys-modify q forget_prev free_file
      ∙ keys-modify q (to_state available) arch_file
      ∙ keys-modify p (to_state arch_reg) s.rf

  length_after : length committed.rf ≡ length s.rf
  length_after =
      length-modify q forget_prev free_file
      ∙ length-modify q (to_state available) arch_file
      ∙ length-modify p (to_state arch_reg) s.rf

  committed-Inv : Inv committed fl
  committed-Inv = record {
    ordered = assign-IsOrdered a p s.crat v.ordered;
    ordered_frat = v.ordered_frat;
    once = λ r. rw keys_after (v.once r);
    parts = λ r.
        rw keys_after
          (omega (arith, v.parts r, count_crat r, count-append r s.available_pr_set (q ∷ [])));
    arch = λ r k. ground (arith, state_after r, v.arch r, count_crat r, v.parts r, v.once r);
    renamed = λ r k. ground (arith, state_after r, v.renamed r, held, v.parts r, v.once r);
    free = λ r k. ground (
      arith,
      state_after r,
      v.free r,
      count-append r s.available_pr_set (q ∷ []),
      v.parts r,
      v.once r,
    );
    front = v.front;
    chain =
        Chain-mono s.rf committed.rf (assign a p s.crat) fl
          (λ r k. prev_after r (λ e. ground (arith, held, v.parts r, v.once r))) v.chain.3;
    room = omega (arith, v.room, length-append s.available_pr_set (q ∷ []));
    total = omega (
      arith,
      v.total,
      length_after,
      length-erase a q s.crat old,
      length-insert a p (erase a s.crat) (lookup-erase_self a s.crat v.ordered),
    );
    range = λ r k. v.range r (rw keys_after at k);
  }

  prev_is_old : prev_of s.rf p ≡ some q
  prev_is_old = cc (v.chain.1, v.chain.2)

  -- No check of the round fails.
  commit_write-committed :
      state_of s.rf p ≡ some renamed_valid → commit_write s p a ≡ some committed
  unfolding commit_write get_prev_pr update_pr_state update_crat set_as_available_pr state_of
      prev_of
  commit_write-committed k =
      let (e, at_p) = new_elem in
      let (o, at_q) = old_elem in
      let fits : suc (length s.available_pr_set) ≤ s.r_size = omega (arith, v.room) in
      ground (
        arith,
        prev_is_old,
        old,
        v.arch q held,
        apart,
        lookup-modify p q (to_state arch_reg) s.rf,
        lookup-modify p p (to_state arch_reg) s.rf,
        lookup-modify q q (to_state available) arch_file,
        lookup-modify q p (to_state available) arch_file,
        length-append s.available_pr_set (q ∷ []),
      )

-- Once the oldest rename in flight, of `a` to `p`, is complete, its commit fails no check: the
-- committed map takes it up, the register that `a` was committed to until now is the newest free
-- one, and the invariant holds with the other renames in flight.
pub commit_write-Inv :
    (s : Rename) (fl : Flight) (a p : ℕ)
    → Inv s ((a, p) ∷ fl)
    → state_of s.rf p ≡ some renamed_valid
    → (q : ℕ) × (s' : Rename) × (commit_write s p a ≡ some s')
      × (lookup a s.crat ≡ some q)
      × (s'.crat ≡ assign a p s.crat)
      × (s'.frat ≡ s.frat)
      × (s'.available_pr_set ≡ s.available_pr_set ++ (q ∷ []))
      × ((r : ℕ) → 0 < count r (values fl) → state_of s'.rf r ≡ state_of s.rf r)
      × Inv s' fl
commit_write-Inv s fl a p v k =
    let (q, old, _, _) = v.chain in
    (
      q,
      committed s a p q fl v old,
      commit_write-committed s a p q fl v old k,
      old,
      refl,
      refl,
      refl,
      λ r h.
          ground
            (arith, state_after s a p q fl v old r, held s a p q fl v old, v.parts r, v.once r, h),
      committed-Inv s a p q fl v old,
    )
