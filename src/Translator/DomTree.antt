-- ===== src/Translator/DomTree.antt =====
-- The dominator tree (src/binaryTranslator/dominator.cpp): strict and immediate dominators and the
-- children, with what they set in a block (basicblock.cpp). As in the module of the dominators a map
-- from numbers to blocks is the set of its keys.
pub mod Order
pub mod Fields
pub mod Built
pub mod Children
pub mod Parents
pub mod Unique
use cg_oo_o.Common.{ℕ, Bool, true, false, not, List, [], ◌∷◌, ◌==◌, if◌then◌else◌}
use cg_oo_o.Translator.ListSchedule.{contains, set_insert}
use cg_oo_o.Translator.Dominator.{Cfg, Store, update}

pub record TreeInfo : Type 0 where
  pub s_dominator_map : List ℕ
  pub parents_map : List ℕ
  pub idom_set : List ℕ
  pub children_map : List ℕ

abbrev pub TreeStore : Type 0
TreeStore = ℕ → TreeInfo

-- `set_difference`
unfoldable pub set_difference : List ℕ → List ℕ → List ℕ
set_difference [] ys = []
set_difference (x ∷ xs) ys =
    if contains x ys then set_difference xs ys else x ∷ set_difference xs ys

-- `std::inserter`
unfoldable pub insert_all : List ℕ → List ℕ → List ℕ
insert_all [] s = s
insert_all (x ∷ xs) s = insert_all xs (set_insert x s)

unfoldable pub build_s_dominators : Store → ℕ → TreeInfo → TreeInfo
build_s_dominators doms n v = record v {
  s_dominator_map = insert_all (set_difference ((doms n).dominator_map) (n ∷ [])) v.s_dominator_map;
}

abbrev pub is_a_s_dominator : TreeInfo → ℕ → Bool
is_a_s_dominator v node_id = contains node_id v.s_dominator_map

-- The inner loop: is the block, with its strict dominators, missing one of the others?
unfoldable pub is_not_parent : ℕ → TreeInfo → List ℕ → Bool
is_not_parent d v [] = false
is_not_parent d v (e ∷ es) = elim (d == e) [
  | true ↦ is_not_parent d v es
  | false ↦ elim (is_a_s_dominator v e) [ false ↦ true | true ↦ is_not_parent d v es ]
]

-- The outer loop.
unfoldable pub not_parents : TreeStore → List ℕ → List ℕ → List ℕ → List ℕ
not_parents t all [] acc = acc
not_parents t all (d ∷ ds) acc =
    not_parents t all ds (if is_not_parent d (t d) all then set_insert d acc else acc)

abbrev pub find_parents : TreeStore → ℕ → List ℕ
find_parents t n =
    let all = (t n).s_dominator_map in
    insert_all (set_difference all (not_parents t all all [])) ((t n).parents_map)

unfoldable pub build_immediate_dominators : TreeStore → ℕ → TreeInfo
build_immediate_dominators t n = record (t n) {
  parents_map = find_parents t n;
  idom_set = insert_all (find_parents t n) ((t n).idom_set);
}

unfoldable pub add_child : ℕ → TreeInfo → TreeInfo
add_child c v = record v { children_map = set_insert c v.children_map }

-- `buildDomTree`: the loop over the parents.
unfoldable pub build_dom_tree : ℕ → List ℕ → TreeStore → TreeStore
build_dom_tree n [] t = t
build_dom_tree n (d ∷ ds) t = build_dom_tree n ds (update t d (add_child n (t d)))

unfoldable pub build_strict_dominators : Store → List ℕ → TreeStore → TreeStore
build_strict_dominators doms [] t = t
build_strict_dominators doms (n ∷ ns) t =
    build_strict_dominators doms ns (update t n (build_s_dominators doms n (t n)))

unfoldable pub build_idom : List ℕ → TreeStore → TreeStore
build_idom [] t = t
build_idom (n ∷ ns) t = build_idom ns (update t n (build_immediate_dominators t n))

unfoldable pub build_dominator_tree : List ℕ → TreeStore → TreeStore
build_dominator_tree [] t = t
build_dominator_tree (n ∷ ns) t = build_dominator_tree ns (build_dom_tree n ((t n).parents_map) t)

-- The three passes over the blocks.
abbrev pub dom_tree : Store → Cfg → TreeStore → TreeStore
dom_tree doms g t =
    build_dominator_tree g.bb_list (build_idom g.bb_list (build_strict_dominators doms g.bb_list t))
