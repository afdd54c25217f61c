-- ===== src/Translator/Frontier/Search.antt =====
-- The search of `findDF` (src/binaryTranslator/dominator.cpp) down the dominator tree.
use cg_oo_o.Common.{
  ℕ, zero, suc, ◌≤◌, ◌<◌, ◌≡◌, ◌≢◌, refl, sym, ap, ◌∙◌, ◌⊎◌, inl, inr, true, false, List, ◌==◌,
  ◌>>=◌, Bool-cases, ==→eq, eq→==, arith,
}
use mathlib.Core.Path.{subst}
use cg_oo_o.Translator.ListSchedule.{contains}
use cg_oo_o.Translator.ListSchedule.Block.{contains-count, count-contains}
use cg_oo_o.Translator.Dominator.{Cfg, update}
use cg_oo_o.Translator.Dominator.Sets.{In}
use cg_oo_o.Translator.DomTree.{TreeStore}
use cg_oo_o.Translator.DomTree.Order.{Dominates-refl, Dominates-trans}
use cg_oo_o.Translator.Frontier.{DfStore, enter, add_frontier, find_df}
use cg_oo_o.Translator.Frontier.Below.{
  IsTree, below, below-Dominates, Dominates-below, not_below_child, way_down_lem, antisym,
}
use cg_oo_o.Translator.Frontier.Children.{
  IsFrontier, Finished, add_frontier-cases, add_frontier-In, add_frontier-visited, any_below,
  any_below-In, In-any_below, Searches, SearchedAll, AreChildren, any_below-other,
}
use cg_oo_o.Translator.Frontier.Loop.{update_same, update_other, find_children_lem}
use cg_oo_o.Translator.Frontier.Tally.{tally, tally_lt}

module _ (g : Cfg) (r : ℕ) (t : TreeStore) (tree : IsTree g r t) (descendants : ℕ → List ℕ) where
  -- The frontier of a block from those of its children and its descendants.
  IsFrontier-up :
      ((p : ℕ) → In p g.bb_list → (u : ℕ) → In u (descendants p) → In u g.bb_list)
      → (n u : ℕ) → In n g.bb_list
      → IsFrontier g t descendants n u
      → In u (descendants n) ⊎ ((c : ℕ) × In c (t n).children_map × IsFrontier g t descendants c u)
  IsFrontier-up closed n u at (p, at_p, at_u, dom, free) = elim (Bool-cases (n == p)) [
    | inl same ↦ inl (rw (==→eq n p same) at_u)
    | inr other ↦
        let (c, at_c, under) =
          way_down_lem g r t tree n p at_p (Dominates-below g r t tree n p at_p dom) other in
        let (_, i) = (tree.children n c).0 at_c in
        let listed = closed p at_p u at_u in
        inr (
          c,
          at_c,
          (
            p,
            at_p,
            at_u,
            below-Dominates g r t tree c p at_p under,
            elim (Bool-cases (contains c ((t u).s_dominator_map))) [
              | inr out ↦ out
              | inl inside ↦
                  let (down, _) =
                    (tree.strict u listed c).0 (count-contains c ((t u).s_dominator_map) inside) in
                  let n_not_u : n ≢ u =
                    λ eq. i.other (antisym g r t tree n c at i.dominates (rw eq down)) in
                  let k : contains n (t u).s_dominator_map ≡ true =
                    contains-count n ((t u).s_dominator_map) (
                      (tree.strict u listed n).1
                        (Dominates-trans g n c u i.dominates down, n_not_u)) in
                  absurd (ground (arith, k, free))
            ],
          ),
        )
  ]

  down_below :
      (n c m : ℕ)
      → In m g.bb_list
      → In c (t n).children_map
      → below t c m ≡ true
      → below t n m ≡ true
  down_below n c m at at_c h =
      let (_, i) = (tree.children n c).0 at_c in
      Dominates-below g r t tree n m at
        (Dominates-trans g n c m i.dominates (below-Dominates g r t tree c m at h))

  out_below :
      (n m : ℕ) → In m g.bb_list → below t n m ≡ false → any_below t ((t n).children_map) m ≡ false
  out_below n m at h = elim (Bool-cases (any_below t ((t n).children_map) m)) [
    | inr out ↦ out
    | inl inside ↦
        let (c, at_c, under) = any_below-In t ((t n).children_map) m inside in
        absurd (ground (arith, down_below n c m at at_c under, h))
  ]

  -- The block itself, after the loops.
  own_Finished :
      ((p : ℕ) → In p g.bb_list → (u : ℕ) → In u (descendants p) → In u g.bb_list)
      → (n : ℕ) → In n g.bb_list
      → (s s2 : DfStore)
      → SearchedAll g r t tree descendants n ((t n).children_map) (update s n enter) s2
      → Finished g t descendants n (add_frontier t n (descendants n) (s2 n))
  own_Finished closed n at s s2 e =
      let at_n = update_same s n enter in
      (
        add_frontier-visited t n (descendants n) (s2 n) ∙ e.own_visited ∙ ap (λ w. w.visited) at_n,
        λ u. (
          λ h. elim (add_frontier-cases t n (descendants n) (s2 n) u h) [
            | inr (at_u, free) ↦ (n, at, at_u, Dominates-refl g n, free)
            | inl k ↦ elim ((e.own_frontier u).0 k) [
              | inl old ↦ absurd (omega (arith, subst (λ w. In u w.dominance_frontier) at_n old))
              | inr (c, at_c, (p, at_p, at_u, dom, _), free) ↦
                  let (_, i) = (tree.children n c).0 at_c in
                  (p, at_p, at_u, Dominates-trans g n c p i.dominates dom, free)
            ]
          ],
          λ h.
              let (_, _, _, _, free) = h in
              add_frontier-In t n (descendants n) (s2 n) u (elim (IsFrontier-up closed n u at h) [
                | inl at_u ↦ inr (at_u, free)
                | inr (c, at_c, k) ↦ inl ((e.own_frontier u).1 (inr (c, at_c, k, free)))
              ]),
        ),
      )

  pub find_df_lem :
      ((p : ℕ) → In p g.bb_list → (u : ℕ) → In u (descendants p) → In u g.bb_list)
      → (f n : ℕ) → In n g.bb_list
      → tally (below t n) g.bb_list ≤ f
      → Searches g r t tree descendants (find_df f t descendants) n
  unfolding find_df
  find_df_lem closed zero n at size s new =
      let some_one : tally (λ m. false) g.bb_list < tally (below t n) g.bb_list =
        tally_lt (λ m. false) (below t n) g.bb_list n (λ m k h. cc) at refl
          (rw (eq→== n n refl) refl) in
      absurd (omega (arith, some_one, size))
  find_df_lem closed (suc f) n at size s new =
      let self : below t n n ≡ true = rw (eq→== n n refl) refl in
      let smaller : (c : ℕ) → In c (t n).children_map → tally (below t c) g.bb_list ≤ f = λ c at_c.
        let (_, i) = (tree.children n c).0 at_c in
        omega (
          arith,
          tally_lt (below t c) (below t n) g.bb_list n (λ m k h. down_below n c m k at_c h) at
              (not_below_child g r t tree n c at i) self,
          size,
        ) in
      let a : AreChildren g r t tree descendants (find_df f t descendants) n ((t n).children_map) =
        record {
          immediate = λ c at_c. ((tree.children n c).0 at_c).1;
          searches =
              λ c at_c. find_df_lem closed f c (((tree.children n c).0 at_c).0) (smaller c at_c);
          unique = tree.unique n;
          listed = λ c at_c. ((tree.children n c).0 at_c).0;
        } in
      let still : (m : ℕ)
          → In m g.bb_list
          → any_below t ((t n).children_map) m ≡ true
          → (update s n enter m).visited ≡ false =
        λ m at_m h.
          let other =
            any_below-other g r t tree descendants (find_df f t descendants) n ((t n).children_map)
              a at m h in
          let (c, at_c, under) = any_below-In t ((t n).children_map) m h in
          ap (λ w. w.visited) (update_other s n enter m other)
          ∙ new m at_m (down_below n c m at_m at_c under) in
      let (s2, ran, e) =
        find_children_lem g r t tree descendants (find_df f t descendants) n ((t n).children_map) a
          at (update s n enter) still in
      let w = add_frontier t n (descendants n) (s2 n) in
      (
        update s2 n w,
        rw (new n at self, ◌>>=◌, ran) refl,
        record {
          finished = λ m at_m h. elim (Bool-cases (n == m)) [
            | inl same ↦
                subst (λ k. Finished g t descendants k (update s2 n w k)) (==→eq n m same)
                  (subst (Finished g t descendants n) (sym (update_same s2 n w))
                    (own_Finished closed n at s s2 e))
            | inr other ↦
                let (c, at_c, under) = way_down_lem g r t tree n m at_m h other in
                let inside = In-any_below t ((t n).children_map) m c at_c under in
                let not_n =
                  any_below-other g r t tree descendants (find_df f t descendants) n
                    ((t n).children_map) a at m inside in
                subst (Finished g t descendants m) (sym (update_other s2 n w m not_n))
                  (e.finished m at_m inside)
          ];
          frame = λ m at_m h.
              let not_n : (m == n) ≡ false = elim (Bool-cases (m == n)) [
                | inr other ↦ other
                | inl same ↦ absurd (ground (arith, h, eq→== n m (sym (==→eq m n same))))
              ] in
              update_other s2 n w m not_n
              ∙ e.frame m at_m (out_below n m at_m h) not_n
              ∙ update_other s n enter m not_n;
        },
      )
