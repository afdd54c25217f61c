-- ===== src/Translator/Frontier/Loop.antt =====
-- The loop of `findDF` (src/binaryTranslator/dominator.cpp) over the children, in one run.
use cg_oo_o.Common.{
  ℕ, ◌≡◌, refl, sym, ap, ◌∙◌, inl, inr, true, false, List, [], ◌∷◌, Option, some, ◌==◌, ◌>>=◌,
  Bool-cases, ==→eq, eq→==, arith,
}
use mathlib.Core.Path.{subst}
use cg_oo_o.Translator.Dominator.{Cfg, update}
use cg_oo_o.Translator.Dominator.Sets.{In}
use cg_oo_o.Translator.DomTree.{TreeStore}
use cg_oo_o.Translator.Frontier.{DfInfo, DfStore, add_frontier, find_children}
use cg_oo_o.Translator.Frontier.Below.{IsTree, below, not_below_child}
use cg_oo_o.Translator.Frontier.Children.{
  IsFrontier, Finished, add_frontier-cases, add_frontier-In, add_frontier-visited, any_below,
  In-any_below, Searched, SearchedAll, AreChildren, tail-AreChildren, any_below-other,
  any_below-apart,
}

pub update_same : (s : DfStore) (n : ℕ) (v : DfInfo) → update s n v n ≡ v
update_same s n v = rw (eq→== n n refl) refl

pub update_other :
    (s : DfStore) (n : ℕ) (v : DfInfo) (m : ℕ) → (m == n) ≡ false → update s n v m ≡ s m
update_other s n v m h = rw h refl

module _ (g : Cfg) (r : ℕ) (t : TreeStore) (tree : IsTree g r t) (descendants : ℕ → List ℕ) where
  children_step :
      (search : ℕ → DfStore → Option DfStore) (n c : ℕ) (cs : List ℕ)
      → AreChildren g r t tree descendants search n (c ∷ cs)
      → In n g.bb_list
      → (s s1 s' : DfStore) → Searched g r t tree descendants c s s1
      → SearchedAll g r t tree descendants n cs
          (update s1 n (add_frontier t n ((s1 c).dominance_frontier) (s1 n)))
          s'
      → SearchedAll g r t tree descendants n (c ∷ cs) s s'
  children_step search n c cs a at s s1 s' d e =
      let self : In c (c ∷ cs) = ground (arith, eq→== c c refl) in
      let v = add_frontier t n ((s1 c).dominance_frontier) (s1 n) in
      let same_n : s1 n ≡ s n =
        d.frame n at (not_below_child g r t tree n c at (a.immediate c self)) in
      let at_n = update_same s1 n v in
      let (_, fc) = d.finished c (a.listed c self) (rw (eq→== c c refl) refl) in
      record {
        finished = λ m at_m h. elim (Bool-cases (any_below t cs m)) [
          | inl under ↦ e.finished m at_m under
          | inr not_under ↦
              let under_c : below t c m ≡ true = ground (arith, h, not_under) in
              let other : (m == n) ≡ false =
                any_below-other g r t tree descendants search n (c ∷ cs) a at m h in
              let eq : s' m ≡ s1 m = e.frame m at_m not_under other ∙ update_other s1 n v m other in
              subst (Finished g t descendants m) (sym eq) (d.finished m at_m under_c)
        ];
        frame = λ m at_m h other.
            let out : below t c m ≡ false = ground (arith, h, Bool-cases (below t c m)) in
            let outs : any_below t cs m ≡ false = ground (arith, h, out) in
            e.frame m at_m outs other ∙ update_other s1 n v m other ∙ d.frame m at_m out;
        own_visited =
            e.own_visited
            ∙ ap (λ w. w.visited) at_n
            ∙ add_frontier-visited t n ((s1 c).dominance_frontier) (s1 n)
            ∙ ap (λ w. w.visited) same_n;
        own_frontier = λ u. (
          λ h. elim ((e.own_frontier u).0 h) [
            | inr (b, at_b, k, free) ↦ inr (b, omega (arith, at_b), k, free)
            | inl k ↦
                elim (add_frontier-cases t n ((s1 c).dominance_frontier) (s1 n) u
                  (subst (λ w. In u w.dominance_frontier) at_n k)) [
                    | inl old ↦ inl (subst (λ w. In u w.dominance_frontier) same_n old)
                    | inr (new, free) ↦ inr (c, self, (fc u).0 new, free)
                  ]
          ],
          λ h. (e.own_frontier u).1 (elim h [
            | inl old ↦ inl (
                subst (λ w. In u w.dominance_frontier) (sym at_n)
                  (add_frontier-In t n ((s1 c).dominance_frontier) (s1 n) u
                    (inl (subst (λ w. In u w.dominance_frontier) (sym same_n) old))))
            | inr (b, at_b, k, free) ↦ elim (Bool-cases (b == c)) [
              | inr other ↦ inr (b, ground (arith, at_b, other), k, free)
              | inl same ↦ inl (
                  subst (λ w. In u w.dominance_frontier) (sym at_n)
                    (add_frontier-In t n ((s1 c).dominance_frontier) (s1 n) u (
                      inr (
                        (fc u).1 (subst (λ x. IsFrontier g t descendants x u) (==→eq b c same) k),
                        free,
                      ))))
            ]
          ]),
        );
      }

  pub find_children_lem :
      (search : ℕ → DfStore → Option DfStore) (n : ℕ) (cs : List ℕ)
      → AreChildren g r t tree descendants search n cs
      → In n g.bb_list
      → (s : DfStore) → ((m : ℕ) → In m g.bb_list → any_below t cs m ≡ true → (s m).visited ≡ false)
      → (s' : DfStore) × (find_children search t n cs s ≡ some s')
        × SearchedAll g r t tree descendants n cs s s'
  unfolding find_children
  find_children_lem search n [] a at s new = (
    s,
    refl,
    record {
      finished = λ m at_m h. cc;
      frame = λ m at_m h other. refl;
      own_visited = refl;
      own_frontier = λ u. (
        λ h. inl h,
        λ h. elim h [
          | inl old ↦ old
          | inr (c, none_there, _, _) ↦ absurd (omega (arith, none_there))
        ],
      );
    },
  )
  find_children_lem search n (c ∷ cs) a at s new =
      let self : In c (c ∷ cs) = ground (arith, eq→== c c refl) in
      let (s1, ran, d) =
        a.searches c self s (λ m at_m h. new m at_m (In-any_below t (c ∷ cs) m c self h)) in
      let v = add_frontier t n ((s1 c).dominance_frontier) (s1 n) in
      let tail = tail-AreChildren g r t tree descendants search n c cs a in
      let still : (m : ℕ)
          → In m g.bb_list
          → any_below t cs m ≡ true
          → (update s1 n v m).visited ≡ false =
        λ m at_m h.
          let other = any_below-other g r t tree descendants search n cs tail at m h in
          let out = any_below-apart g r t tree descendants search n c cs a at m at_m h in
          let wider : any_below t (c ∷ cs) m ≡ true = ground (arith, h) in
          ap (λ w. w.visited) (update_other s1 n v m other ∙ d.frame m at_m out)
          ∙ new m at_m wider in
      let (s', rest, e) = find_children_lem search n cs tail at (update s1 n v) still in
      (s', rw (ran, ◌>>=◌) rest, children_step search n c cs a at s s1 s' d e)
