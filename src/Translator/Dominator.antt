-- ===== src/Translator/Dominator.antt =====
-- The dominators of the blocks of a control flow graph (src/binaryTranslator/dominator.cpp) with what
-- they set in a block (basicblock.cpp). A pointer to a block is the block's number, and the fields of
-- the blocks are a function of it. A map from numbers to blocks is the set of its keys; the copy of
-- the map in `_dominatorSet`, which nothing reads, is left out. The outer loop runs on fuel.
pub mod Sets
pub mod Walks
pub mod Visit
pub mod Passes
pub mod Stable
pub mod Exact
use cg_oo_o.Common.{
  ℕ, zero, suc, Bool, true, false, not, ◌||◌, List, [], ◌∷◌, Option, none, some, ◌==◌,
  if◌then◌else◌, length,
}
use cg_oo_o.Translator.ListSchedule.{contains, set_insert}

-- The list of blocks and the ancestors of each.
pub record Cfg : Type 0 where
  pub bb_list : List ℕ
  pub ancestors : ℕ → List ℕ

pub record DomInfo : Type 0 where
  pub entry_point : Bool
  pub dom_set_is_all : Bool
  pub dominator_map : List ℕ

abbrev pub Store : Type 0
Store = ℕ → DomInfo

-- The constructor's fields.
abbrev pub new_info : DomInfo
new_info = record { entry_point = false; dom_set_is_all = false; dominator_map = [] }

abbrev pub update {ℓ} : {A : Type ℓ} → (ℕ → A) → ℕ → A → ℕ → A
update s n v m = if m == n then v else s m

abbrev pub set_all : Bool → DomInfo → DomInfo
set_all b v = record v { dom_set_is_all = b }

-- `setDominators ()`, with its answer.
unfoldable pub set_dominators_self : ℕ → DomInfo → Bool × DomInfo
set_dominators_self n v =
    if contains n v.dominator_map
    then (false, v)
    else (true, record v { dominator_map = set_insert n v.dominator_map })

-- Is an element of the second set not in the first?
abbrev pub has_other : List ℕ → List ℕ → Bool
has_other old [] = false
has_other old (d ∷ ds) = not (contains d old) || has_other old ds

-- `setDominators (intersection)`
unfoldable pub set_dominators : ℕ → List ℕ → DomInfo → Bool × DomInfo
set_dominators n intersection v =
    let new = set_insert n intersection in
    (
      (if length v.dominator_map == length new then has_other v.dominator_map new else true),
      record v { dominator_map = new },
    )

-- `set_intersection`
unfoldable pub intersect : List ℕ → List ℕ → List ℕ
intersect [] ys = []
intersect (x ∷ xs) ys = if contains x ys then x ∷ intersect xs ys else intersect xs ys

-- The loop that intersects the sets of the ancestors that are left.
unfoldable pub intersect_rest : Store → List ℕ → List ℕ → List ℕ
intersect_rest s [] acc = acc
intersect_rest s (p ∷ ps) acc =
    intersect_rest s ps (if (s p).dom_set_is_all then acc else intersect acc ((s p).dominator_map))

-- From the first ancestor that has a set on: the intersection, if there is one.
unfoldable pub find_intersection : Store → List ℕ → Option (List ℕ)
find_intersection s [] = none
find_intersection s (p ∷ ps) =
    let rest = find_intersection s ps in
    if (s p).dom_set_is_all then rest else some (intersect_rest s ps ((s p).dominator_map))

-- The body of the inner loop: the change it reports, and the block after it.
unfoldable pub visit : Cfg → Store → ℕ → Bool × DomInfo
visit g s n = elim ((s n).entry_point) [
  | true ↦ (false, s n)
  | false ↦ elim (find_intersection s (g.ancestors n)) [
    | some i ↦ let (c, v) = set_dominators n i (s n) in (c, set_all false v)
    | none ↦ set_dominators_self n (s n)
  ]
]

unfoldable pub pass : Cfg → List ℕ → Bool → Store → Bool × Store
pass g [] change s = (change, s)
pass g (n ∷ ns) change s =
    let (c, v) = visit g s n in pass g ns (if change then true else c) (update s n v)

unfoldable pub passes : ℕ → Cfg → Store → Option Store
passes zero g s = none
passes (suc f) g s =
    let (change, s') = pass g g.bb_list false s in
    let rest = passes f g s' in if change then rest else some s'

-- The loop that finds the entry points.
unfoldable pub init_block : Cfg → ℕ → DomInfo → DomInfo
init_block g n v = elim (g.ancestors n) [
  | [] ↦ record (set_dominators_self n v).1 { entry_point = true; dom_set_is_all = false }
  | p ∷ ps ↦ set_all true v
]

unfoldable pub init_all : Cfg → List ℕ → Store → Store
init_all g [] s = s
init_all g (n ∷ ns) s = init_all g ns (update s n (init_block g n (s n)))

unfoldable pub build_dominators : ℕ → Cfg → Store → Option Store
build_dominators f g s = passes f g (init_all g g.bb_list s)
