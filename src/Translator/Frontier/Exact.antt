-- ===== src/Translator/Frontier/Exact.antt =====
-- The frontiers that `build_dominance_frontier` (src/binaryTranslator/dominator.cpp) ends with.
use cg_oo_o.Common.{
  ℕ, suc, ◌+◌, ◌*◌, ◌≡◌, ◌≢◌, ◌↔◌, refl, sym, ◌∙◌, ◌⊎◌, inl, inr, true, false, List, [], ◌∷◌, some,
  ◌==◌, if◌then◌else◌, ◌>>=◌, length, Bool-cases, ==→eq, eq→==, arith,
}
use cg_oo_o.Translator.ListSchedule.{contains}
use cg_oo_o.Translator.ListSchedule.Block.{contains-count, count-contains}
use cg_oo_o.Translator.Dominator.{Cfg, Store, update, build_dominators}
use cg_oo_o.Translator.Dominator.Sets.{In, Unique}
use cg_oo_o.Translator.Dominator.Walks.{Dominates, Closed, fresh}
use cg_oo_o.Translator.Dominator.Stable.{IsRoot}
use cg_oo_o.Translator.Dominator.Exact.{build_dominators-Dominates}
use cg_oo_o.Translator.DomTree.{TreeStore, dom_tree}
use cg_oo_o.Translator.DomTree.Built.{fresh_tree}
use cg_oo_o.Translator.Frontier.{
  DfStore, find_df, find_dom_entry_points, set_as_unvisited, find_all, build_dominance_frontier,
}
use cg_oo_o.Translator.Frontier.Below.{IsTree, below, Dominates-below, antisym}
use cg_oo_o.Translator.Frontier.Tally.{tally-length}
use cg_oo_o.Translator.Frontier.Children.{IsFrontier}
use cg_oo_o.Translator.Frontier.Search.{find_df_lem}
use cg_oo_o.Translator.Frontier.Tree.{Reached, dom_tree-IsTree}

set_as_unvisited_lem :
    (ns : List ℕ) (s : DfStore) (m : ℕ)
    → ((set_as_unvisited ns s m).dominance_frontier ≡ (s m).dominance_frontier)
      × (In m ns ⊎ ((s m).visited ≡ false) → (set_as_unvisited ns s m).visited ≡ false)
unfolding set_as_unvisited
set_as_unvisited_lem [] s m =
    (refl, λ h. elim h [ inl none_there ↦ absurd (omega (arith, none_there)) | inr done ↦ done ])
set_as_unvisited_lem (n ∷ ns) s m =
    let (f, v) = set_as_unvisited_lem ns (update s n (record (s n) { visited = false })) m in
    elim (Bool-cases (m == n)) [
      | inl same ↦
          let eq : m ≡ n = ==→eq m n same in
          (ground (arith, f, same, eq), λ _. v (inr (rw (eq, eq→== n n refl) refl)))
      | inr other ↦ (
        ground (arith, f, other),
        λ h.
            v (elim h [
              | inl at ↦ inl (ground (arith, at, other))
              | inr done ↦ inr (rw other done)
            ]),
      )
    ]

no_elements : (xs : List ℕ) → ((d : ℕ) → In d xs → In d []) → length xs ≡ 0
no_elements [] h = refl
no_elements (x ∷ xs) h = absurd (omega (arith, h x (ground (arith, eq→== x x refl))))

has_element : (xs : List ℕ) (d : ℕ) → In d xs → (length xs == 0) ≡ false
has_element [] d h = absurd (omega (arith, h))
has_element (x ∷ xs) d h = ground arith

-- The root is the one block without strict dominators.
entry_points_lem :
    (g : Cfg) (r : ℕ) (t : TreeStore)
    → IsTree g r t
    → (ns : List ℕ) → ((n : ℕ) → In n ns → In n g.bb_list)
    → Unique ns
    → find_dom_entry_points t ns ≡ (if contains r ns then r ∷ [] else [])
unfolding find_dom_entry_points
entry_points_lem g r t tree [] h u = refl
entry_points_lem g r t tree (n ∷ ns) h u =
    let at : In n g.bb_list = h n (ground (arith, eq→== n n refl)) in
    let rest =
      entry_points_lem g r t tree ns (λ m k. h m (omega (arith, k))) (λ a. omega (arith, u a)) in
    elim (Bool-cases (r == n)) [
      | inl same ↦
          let eq : r ≡ n = ==→eq r n same in
          let root_empty : length (t n).s_dominator_map ≡ 0 =
            no_elements ((t n).s_dominator_map) (λ d k.
              let (dom, other) = (tree.strict n at d).0 k in
              absurd (other (antisym-root g r t tree d n at dom (rw (← eq) (tree.at_root d))))) in
          let gone : contains r ns ≡ false = elim (Bool-cases (contains r ns)) [
            | inr out ↦ out
            | inl again ↦ absurd (ground (arith, u r, count-contains r ns again, same))
          ] in
          ground (arith, root_empty, rest, gone, same, eq)
      | inr other ↦
          let full =
            has_element ((t n).s_dominator_map) r (
              (tree.strict n at r).1 (tree.at_root n, λ eq. ground (arith, other, eq→== r n eq))) in
          ground (arith, full, rest, other)
    ]
  where
    antisym-root :
        (g : Cfg) (r : ℕ) (t : TreeStore) (tree : IsTree g r t) (d n : ℕ)
        → In n g.bb_list
        → Dominates g d n
        → Dominates g n d
        → d ≡ n
    antisym-root g r t tree d n at dom back = sym (antisym g r t tree n d at back dom)

-- A block at which the dominance of another ends: it does not strictly dominate the block, but
-- dominates one that leads to it.
abbrev pub IsAtFrontier : Cfg → (ℕ → List ℕ) → ℕ → ℕ → Type 0
IsAtFrontier g descendants n u =
    (p : ℕ) × In p g.bb_list
    × In u (descendants p)
    × Dominates g n p
    × (¬ (Dominates g n u × (n ≢ u)))

IsFrontier-IsAtFrontier :
    (g : Cfg) (r : ℕ) (t : TreeStore)
    → IsTree g r t
    → (descendants : ℕ → List ℕ)
    → ((p : ℕ) → In p g.bb_list → (u : ℕ) → In u (descendants p) → In u g.bb_list)
    → (n u : ℕ) → IsFrontier g t descendants n u ↔ IsAtFrontier g descendants n u
IsFrontier-IsAtFrontier g r t tree descendants closed n u = (
  λ (p, at, at_u, dom, free). (
    p,
    at,
    at_u,
    dom,
    λ strict.
        let k =
          contains-count n ((t u).s_dominator_map)
            ((tree.strict u (closed p at u at_u) n).1 strict) in
        ground (arith, k, free),
  ),
  λ (p, at, at_u, dom, free). (
    p,
    at,
    at_u,
    dom,
    elim (Bool-cases (contains n ((t u).s_dominator_map))) [
      | inr out ↦ out
      | inl inside ↦ absurd (
          free (
            (tree.strict u (closed p at u at_u) n).0
              (count-contains n ((t u).s_dominator_map) inside)))
    ],
  ),
)

runs :
    (g : Cfg) (r : ℕ) (t : TreeStore) (descendants : ℕ → List ℕ) (f : ℕ) (s s' : DfStore)
    → find_dom_entry_points t g.bb_list ≡ r ∷ []
    → find_df f t descendants r (set_as_unvisited g.bb_list s) ≡ some s'
    → build_dominance_frontier f t descendants g s ≡ some (set_as_unvisited g.bb_list s')
unfolding build_dominance_frontier find_all
runs g r t descendants f s s' h k = rw (h, k, ◌>>=◌) refl

frontier_lem :
    (g : Cfg) (r : ℕ) (t : TreeStore)
    → IsTree g r t
    → Unique g.bb_list
    → (descendants : ℕ → List ℕ)
    → ((p : ℕ) → In p g.bb_list → (u : ℕ) → In u (descendants p) → In u g.bb_list)
    → (s : DfStore)
    → (s' : DfStore) × (build_dominance_frontier (length g.bb_list) t descendants g s ≡ some s')
      × ((n : ℕ)
          → In n g.bb_list
          → ((s' n).visited ≡ false)
            × ((u : ℕ)
                → (contains u (s' n).dominance_frontier ≡ true) ↔ IsAtFrontier g descendants n u))
frontier_lem g r t tree unique descendants closed s =
    let (s1, ran, d) =
      find_df_lem g r t tree descendants closed (length g.bb_list) r tree.root
        (tally-length (below t r) g.bb_list) (set_as_unvisited g.bb_list s)
        (λ m at h. (set_as_unvisited_lem g.bb_list s m).1 (inl at)) in
    let entry : find_dom_entry_points t g.bb_list ≡ r ∷ [] =
      entry_points_lem g r t tree g.bb_list (λ n at. at) unique
      ∙ rw (contains-count r g.bb_list tree.root) refl in
    (
      set_as_unvisited g.bb_list s1,
      runs g r t descendants (length g.bb_list) s s1 entry ran,
      λ n at.
          let (same, reset) = set_as_unvisited_lem g.bb_list s1 n in
          let (_, exact) = d.finished n at (Dominates-below g r t tree r n at (tree.at_root n)) in
          (
            reset (inl at),
            λ u.
                let (a, b) = IsFrontier-IsAtFrontier g r t tree descendants closed n u in
                (
                  λ h. a (
                      (exact u).0 (
                        rw same at (
                          count-contains u ((set_as_unvisited g.bb_list s1 n).dominance_frontier)
                            h))),
                  λ h.
                      contains-count u ((set_as_unvisited g.bb_list s1 n).dominance_frontier)
                        (rw same ((exact u).1 (b h))),
                ),
          ),
    )

-- In a closed graph without repetitions, whose one block without ancestors is the root and whose
-- blocks are all reached, with the tree that the passes before it build, and with descendants in
-- the list, `build_dominance_frontier` visits no block twice, ends within as many nested calls of
-- `findDF` as there are blocks, and leaves every block unvisited and with just the blocks in its
-- frontier that it does not strictly dominate but that are descendants of one that it dominates.
pub build_dominance_frontier-IsAtFrontier :
    (g : Cfg)
    → Closed g
    → Unique g.bb_list
    → (r : ℕ) → IsRoot g r
    → Reached g
    → (descendants : ℕ → List ℕ)
    → ((p : ℕ) → In p g.bb_list → (u : ℕ) → In u (descendants p) → In u g.bb_list)
    → (s0 : DfStore)
    → (s : Store) × (s' : DfStore) × (build_dominators
          (suc (length g.bb_list * (length g.bb_list + 2)))
          g
          fresh
        ≡ some s)
      × (build_dominance_frontier (length g.bb_list) (dom_tree s g fresh_tree) descendants g s0
          ≡ some s')
      × ((n : ℕ)
          → In n g.bb_list
          → ((s' n).visited ≡ false)
            × ((u : ℕ)
                → (contains u (s' n).dominance_frontier ≡ true) ↔ IsAtFrontier g descendants n u))
build_dominance_frontier-IsAtFrontier g closed unique r root reached descendants inside s0 =
    let (s, result, exact) = build_dominators-Dominates g closed r root in
    let (s', ran, frontiers) =
      frontier_lem g r (dom_tree s g fresh_tree) (dom_tree-IsTree g closed r root reached s exact)
        unique descendants inside s0 in
    (s, s', result, ran, frontiers)
