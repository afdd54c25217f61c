-- ===== src/Translator/Dominator/Passes.antt =====
-- The passes of `build_dominators` (src/binaryTranslator/dominator.cpp) over the list of blocks: each
-- that reports a change lowers the measure, so that the loop ends.
use cg_oo_o.Common.{
  ℕ, zero, suc, ◌+◌, ◌*◌, ◌≤◌, ◌<◌, ◌≡◌, refl, inl, inr, Bool, true, false, List, [], ◌∷◌, ◌==◌,
  if◌then◌else◌, some, length, Bool-cases, ==→eq, eq→==, arith,
}
use cg_oo_o.Translator.ListSchedule.{contains}
use cg_oo_o.Translator.ListSchedule.Block.{contains-count}
use cg_oo_o.Translator.Dominator.{Cfg, DomInfo, Store, update, visit, pass, passes}
use cg_oo_o.Translator.Dominator.Sets.{In}
use cg_oo_o.Translator.Dominator.Walks.{Closed, Inv, update-Inv}
use cg_oo_o.Translator.Dominator.Visit.{weight, points, length_le, visit_lem}

abbrev pub total : ℕ → Store → List ℕ → ℕ
total size s [] = 0
total size s (n ∷ ns) = weight size (s n) + total size s ns

total-update :
    (size k : ℕ) (s : Store) (n : ℕ) (w : DomInfo) (ns : List ℕ)
    → weight size w + k ≤ weight size (s n)
    → total size (update s n w) ns + (if contains n ns then k else 0) ≤ total size s ns
total-update size k s n w [] h = omega arith
total-update size k s n w (m ∷ ns) h = elim (Bool-cases (m == n)) [
  | inl same ↦
      let eq : m ≡ n = ==→eq m n same in
      rw (eq, eq→== n n refl) (omega (arith, total-update size k s n w ns h, h))
  | inr other ↦
      let flip : (n == m) ≡ false = elim (Bool-cases (n == m)) [
        | inl same ↦ absurd (ground (arith, ==→eq n m same, eq→== m n, other))
        | inr e ↦ e
      ] in
      rw (other, flip) (omega (arith, total-update size k s n w ns h))
]

pub total_le :
    (g : Cfg) (s : Store)
    → Inv g s
    → (ns : List ℕ) → ((n : ℕ) → In n ns → In n g.bb_list)
    → total (length g.bb_list) s ns ≤ length ns * (length g.bb_list + 2)
total_le g s inv [] h = omega arith
total_le g s inv (n ∷ ns) h =
    let a = inv n (h n (ground (arith, eq→== n n refl))) in
    let one : weight (length g.bb_list) (s n) ≤ length g.bb_list + 2 =
      ground (arith, length_le ((s n).dominator_map) g.bb_list a.unique a.listed) in
    grind (arith, one, total_le g s inv ns (λ m at. h m (omega (arith, at))))

abbrev pub after_visit : Cfg → Store → ℕ → Store
after_visit g s n = update s n (visit g s n).1

pub after_visit-Inv :
    (g : Cfg)
    → Closed g
    → (s : Store) → Inv g s
    → (n : ℕ) → In n g.bb_list
    → Inv g (after_visit g s n)
after_visit-Inv g closed s inv n at =
    let ((a, below), _) = visit_lem g closed s inv n at in
    update-Inv g s n (visit g s n).1 inv a below

pass_lem :
    (g : Cfg)
    → Closed g
    → (ns : List ℕ) → ((n : ℕ) → In n ns → In n g.bb_list)
    → (change : Bool) (s : Store) → Inv g s
    → Inv g (pass g ns change s).1
      × (total (length g.bb_list) (pass g ns change s).1 g.bb_list + points (pass g ns change s).0
          ≤ total (length g.bb_list) s g.bb_list + points change)
unfolding pass
pass_lem g closed [] h change s inv = (inv, omega arith)
pass_lem g closed (n ∷ ns) h change s inv =
    let at : In n g.bb_list = h n (ground (arith, eq→== n n refl)) in
    let (_, falls) = visit_lem g closed s inv n at in
    let (inv', rest) =
      pass_lem g closed ns (λ m k. h m (omega (arith, k)))
        (if change then true else (visit g s n).0) (after_visit g s n)
        (after_visit-Inv g closed s inv n at) in
    (
      inv',
      ground (
        arith,
        rest,
        total-update (length g.bb_list) (points (visit g s n).0) s n (visit g s n).1 g.bb_list
            falls,
        contains-count n g.bb_list at,
      ),
    )

-- The state in which the loop ends: the last pass reported no change.
pub record Ended (g : Cfg) (s' : Store) : Type 0 where
  pub before : Store
  pub before_Inv : Inv g before
  pub last : pass g g.bb_list false before ≡ (false, s')
  pub inv : Inv g s'

pub passes_lem :
    (f : ℕ) (g : Cfg)
    → Closed g
    → (s : Store) → Inv g s
    → total (length g.bb_list) s g.bb_list < f
    → (s' : Store) × (passes f g s ≡ some s') × Ended g s'
unfolding passes
passes_lem zero g closed s inv h = absurd (omega (arith, h))
passes_lem (suc f) g closed s inv h =
    let (inv', falls) = pass_lem g closed g.bb_list (λ n at. at) false s inv in
    elim (Bool-cases ((pass g g.bb_list false s).0)) [
      | inl more ↦
          rw more (
            passes_lem f g closed (pass g g.bb_list false s).1 inv'
              (ground (arith, falls, more, h)))
      | inr done ↦ (
        (pass g g.bb_list false s).1,
        rw done refl,
        record { before = s; before_Inv = inv; last = ground (arith, done); inv = inv' },
      )
    ]
