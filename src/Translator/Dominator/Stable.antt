-- ===== src/Translator/Dominator/Stable.antt =====
-- Where a pass of `build_dominators` (src/binaryTranslator/dominator.cpp) reports no change, each set
-- follows from the sets of the ancestors.
use cg_oo_o.Common.{
  ℕ, ◌≡◌, refl, sym, ◌∙◌, ◌⊎◌, inl, inr, true, false, List, [], ◌∷◌, ◌==◌, length, Bool-cases,
  Option-cases, ==→eq, eq→==, arith,
}
use cg_oo_o.Translator.ListSchedule.{contains, set_insert}
use cg_oo_o.Translator.Dominator.{Cfg, DomInfo, Store, visit, pass, find_intersection}
use cg_oo_o.Translator.Dominator.Sets.{
  In, InAll, find_intersection-some, find_intersection-none, In-of_length, has_other-none,
}
use cg_oo_o.Translator.Dominator.Walks.{start, extend, Dominates, Closed, At, Inv}
use cg_oo_o.Translator.Dominator.Visit.{
  visit_entry, visit_alone, visit_intersection, visit_lem, with_self, with_set, reported,
  In-covered,
}
use cg_oo_o.Translator.Dominator.Passes.{after_visit, after_visit-Inv}

-- The block that alone has no ancestors.
pub record IsRoot (g : Cfg) (r : ℕ) : Type 0 where
  pub listed : In r g.bb_list
  pub entry : g.ancestors r ≡ []
  pub only : (n : ℕ) → In n g.bb_list → g.ancestors n ≡ [] → n ≡ r

pub root-Dominates : (g : Cfg) (r : ℕ) → IsRoot g r → (n : ℕ) → Dominates g r n
root-Dominates g r root n l (start m at e) = ground (arith, eq→== r n (sym (root.only n at e)))
root-Dominates g r root n l (extend p m l' w at) = omega (arith, root-Dominates g r root p l' w)

-- The same set, or none.
abbrev pub Alike : DomInfo → DomInfo → Type 0
Alike v w =
    (v.dom_set_is_all ≡ w.dom_set_is_all)
    × ((d : ℕ) → In d v.dominator_map → In d w.dominator_map)
    × ((d : ℕ) → In d w.dominator_map → In d v.dominator_map)

Alike-refl : (v : DomInfo) → Alike v v
Alike-refl v = (refl, λ d at. at, λ d at. at)

Alike-trans : (u v w : DomInfo) → Alike u v → Alike v w → Alike u w
Alike-trans u v w (e, f, b) (e', f', b') = (e ∙ e', λ d at. f' d (f d at), λ d at. b d (b' d at))

-- A block's set is what the sets of its ancestors say.
abbrev pub Stable : Cfg → Store → ℕ → DomInfo → Type 0
Stable g s n w =
    (w.dom_set_is_all ≡ false
      → (d : ℕ) → In d w.dominator_map
      → (d ≡ n) ⊎ InAll s d (g.ancestors n))
    × ((p : ℕ) → In p (g.ancestors n) → (s p).dom_set_is_all ≡ false → w.dom_set_is_all ≡ false)

Stable-Alike :
    (g : Cfg)
    → Closed g
    → (s s' : Store) → ((m : ℕ) → In m g.bb_list → Alike (s m) (s' m))
    → (n : ℕ) → In n g.bb_list
    → (w w' : DomInfo) → Alike w w'
    → Stable g s n w
    → Stable g s' n w'
Stable-Alike g closed s s' same n at w w' (e, f, b) (covered, owns) = (
  λ own d h. elim (covered (e ∙ own) d (b d h)) [
    | inl self ↦ inl self
    | inr k ↦
        inr
          (λ p q own_p. let (e_p, f_p, _) = same p (closed n at p q) in f_p d (k p q (e_p ∙ own_p)))
  ],
  λ p q own_p. let (e_p, _, _) = same p (closed n at p q) in sym e ∙ owns p q (e_p ∙ own_p),
)

visit-Stable : (g : Cfg) (s : Store) (n : ℕ) → At g s n (s n) → Stable g s n (visit g s n).1
visit-Stable g s n a = elim (Bool-cases ((s n).entry_point)) [
  | inl entry ↦
      let (no_ancestors, own, self) = a.entry entry in
      rw (visit_entry g s n entry)
        (λ _ d h. inl (==→eq d n (ground (arith, h, self))), λ p q _. own)
  | inr inner ↦ elim (Option-cases (find_intersection s (g.ancestors n))) [
    | inl none_own ↦
        let all = find_intersection-none s (g.ancestors n) none_own in
        rw (visit_alone g s n inner none_own) (
          λ _ d h. inr (λ p q own. absurd (ground (arith, all p q, own))),
          λ p q own. absurd (ground (arith, all p q, own)),
        )
    | inr (i, found) ↦ rw (visit_intersection g s n i inner found) (
      λ _ d h.
          In-covered s n d (g.ancestors n) i (find_intersection-some s (g.ancestors n) i found) h,
      λ p q own. refl,
    )
  ]
]

-- With one entry point, a visit that reports no change makes none.
unreported-Alike :
    (g : Cfg) (r : ℕ)
    → IsRoot g r
    → (s : Store) (n : ℕ) (i : List ℕ) → At g s n (s n)
    → At g s n (with_set n i (s n))
    → (s n).entry_point ≡ false
    → reported n i (s n) ≡ false
    → Alike (s n) (with_set n i (s n))
unreported-Alike g r root s n i a b inner quiet =
    let size : length (s n).dominator_map ≡ length (set_insert n i) =
      ground (arith, quiet, ==→eq (length ((s n).dominator_map)) (length (set_insert n i))) in
    let less : (d : ℕ) → In d (set_insert n i) → In d (s n).dominator_map =
      has_other-none ((s n).dominator_map) (set_insert n i) (ground (arith, quiet, size)) in
    let more : (d : ℕ) → In d (s n).dominator_map → In d (set_insert n i) =
      In-of_length (set_insert n i) ((s n).dominator_map) b.unique less (sym size) in
    elim (Bool-cases ((s n).dom_set_is_all)) [
      | inr own ↦ (own, more, less)
      | inl all ↦
          let at_root : r ≡ n =
            a.all_self all r (less r (b.kept refl r (root-Dominates g r root n))) in
          let entry : (s n).entry_point ≡ true = a.of_entry (rw (← at_root) root.entry) in
          absurd (ground (arith, entry, inner))
    ]

alone-Alike : (n : ℕ) (v : DomInfo) → contains n v.dominator_map ≡ true → Alike v (with_self n v)
unfolding set_insert
alone-Alike n v known = rw known (Alike-refl v)

visit-Alike :
    (g : Cfg)
    → Closed g
    → (r : ℕ) → IsRoot g r
    → (s : Store) → Inv g s
    → (n : ℕ) → In n g.bb_list
    → (visit g s n).0 ≡ false
    → Alike (s n) (visit g s n).1
visit-Alike g closed r root s inv n at quiet = elim (Bool-cases ((s n).entry_point)) [
  | inl entry ↦ rw (visit_entry g s n entry) (Alike-refl (s n))
  | inr inner ↦ elim (Option-cases (find_intersection s (g.ancestors n))) [
    | inl none_own ↦
        let known : contains n (s n).dominator_map ≡ true =
          ground (arith, rw (visit_alone g s n inner none_own) at quiet) in
        rw (visit_alone g s n inner none_own) (alone-Alike n (s n) known)
    | inr (i, found) ↦
        let ((a, _), _) = visit_lem g closed s inv n at in
        rw (visit_intersection g s n i inner found) (
          unreported-Alike g r root s n i (inv n at)
            (rw (visit_intersection g s n i inner found) at a) inner
            (rw (visit_intersection g s n i inner found) at quiet))
  ]
]

after_visit-Alike :
    (g : Cfg) (s : Store) (n : ℕ)
    → Alike (s n) (visit g s n).1
    → (m : ℕ) → Alike (s m) (after_visit g s n m)
after_visit-Alike g s n h m = elim (Bool-cases (m == n)) [
  | inl same ↦ let eq : m ≡ n = ==→eq m n same in rw (eq, eq→== n n refl) h
  | inr other ↦ rw other (Alike-refl (s m))
]

pass-reported : (g : Cfg) (ns : List ℕ) (s : Store) → (pass g ns true s).0 ≡ true
unfolding pass
pass-reported g [] s = refl
pass-reported g (n ∷ ns) s = pass-reported g ns (after_visit g s n)

pub pass-Stable :
    (g : Cfg)
    → Closed g
    → (r : ℕ) → IsRoot g r
    → (ns : List ℕ) → ((n : ℕ) → In n ns → In n g.bb_list)
    → (s s' : Store) → Inv g s
    → pass g ns false s ≡ (false, s')
    → ((m : ℕ) → Alike (s m) (s' m)) × ((n : ℕ) → In n ns → Stable g s' n (s' n))
unfolding pass
pass-Stable g closed r root [] h s s' inv e =
    let same : s ≡ s' = cc in (λ m. rw same (Alike-refl (s' m)), λ n at. absurd (omega (arith, at)))
pass-Stable g closed r root (n ∷ ns) h s s' inv e =
    let at : In n g.bb_list = h n (ground (arith, eq→== n n refl)) in
    let quiet : (visit g s n).0 ≡ false = elim (Bool-cases ((visit g s n).0)) [
      | inr q ↦ q
      | inl c ↦ absurd (ground (arith, rw c at e, pass-reported g ns (after_visit g s n)))
    ] in
    let (same, stable) =
      pass-Stable g closed r root ns (λ m k. h m (omega (arith, k))) (after_visit g s n) s'
        (after_visit-Inv g closed s inv n at) (rw quiet at e) in
    let here = after_visit-Alike g s n (visit-Alike g closed r root s inv n at quiet) in
    let whole : (m : ℕ) → Alike (s m) (s' m) =
      λ m. Alike-trans (s m) (after_visit g s n m) (s' m) (here m) (same m) in
    let at_n : after_visit g s n n ≡ (visit g s n).1 = rw (eq→== n n refl) refl in
    (
      whole,
      λ m k. elim (Bool-cases (m == n)) [
        | inl eq ↦ rw (==→eq m n eq) (
            Stable-Alike g closed s s' (λ q _. whole q) n at (visit g s n).1 (s' n)
              (rw at_n at (same n)) (visit-Stable g s n (inv n at)))
        | inr other ↦ stable m (ground (arith, k, other))
      ],
    )
