-- ===== src/Translator/Frontier.antt =====
-- The dominance frontiers (src/binaryTranslator/dominator.cpp) with what they set in a block
-- (basicblock.cpp). The descendants of a block in the control flow graph are an argument. The search
-- over the tree runs on fuel, the number of blocks: a block has fewer blocks below it in the tree
-- than its parent.
pub mod Below
pub mod Tally
pub mod Children
pub mod Loop
pub mod Search
pub mod Tree
pub mod Exact
use cg_oo_o.Common.{
  ℕ, zero, suc, Bool, true, false, not, List, [], ◌∷◌, Option, none, some, length, ◌==◌,
  if◌then◌else◌, assert, ◌>>=◌,
}
use cg_oo_o.Translator.ListSchedule.{contains, set_insert}
use cg_oo_o.Translator.Dominator.{Cfg, update}
use cg_oo_o.Translator.DomTree.{TreeStore, is_a_s_dominator}

pub record DfInfo : Type 0 where
  pub visited : Bool
  pub dominance_frontier : List ℕ

abbrev pub DfStore : Type 0
DfStore = ℕ → DfInfo

abbrev pub add_to_df_set : ℕ → DfInfo → DfInfo
add_to_df_set u v = record v { dominance_frontier = set_insert u v.dominance_frontier }

-- The loop that adds blocks that the block does not strictly dominate.
unfoldable pub add_frontier : TreeStore → ℕ → List ℕ → DfInfo → DfInfo
add_frontier t n [] v = v
add_frontier t n (u ∷ us) v =
    add_frontier t n us (if is_a_s_dominator (t u) n then v else add_to_df_set u v)

-- The loop over the children in the tree; `search` is the call of `findDF`.
unfoldable pub find_children :
    (ℕ → DfStore → Option DfStore) → TreeStore → ℕ → List ℕ → DfStore → Option DfStore
find_children search t n [] s = some s
find_children search t n (c ∷ cs) s = search c s >>= λ s'.
    find_children search t n cs (update s' n (add_frontier t n ((s' c).dominance_frontier) (s' n)))

-- Visited, and its frontier reset.
abbrev pub enter : DfInfo
enter = record { visited = true; dominance_frontier = [] }

unfoldable pub find_df : ℕ → TreeStore → (ℕ → List ℕ) → ℕ → DfStore → Option DfStore
find_df zero t descendants n s = none
find_df (suc f) t descendants n s = assert (not (s n).visited) >>= λ _.
    find_children (find_df f t descendants) t n ((t n).children_map) (update s n enter) >>= λ s'.
    some (update s' n (add_frontier t n (descendants n) (s' n)))

unfoldable pub find_dom_entry_points : TreeStore → List ℕ → List ℕ
find_dom_entry_points t [] = []
find_dom_entry_points t (n ∷ ns) =
    if length (t n).s_dominator_map == 0
    then n ∷ find_dom_entry_points t ns
    else find_dom_entry_points t ns

unfoldable pub set_as_unvisited : List ℕ → DfStore → DfStore
set_as_unvisited [] s = s
set_as_unvisited (n ∷ ns) s = set_as_unvisited ns (update s n (record (s n) { visited = false }))

unfoldable pub find_all : (ℕ → DfStore → Option DfStore) → List ℕ → DfStore → Option DfStore
find_all search [] s = some s
find_all search (n ∷ ns) s = search n s >>= λ s'. find_all search ns s'

unfoldable pub build_dominance_frontier :
    ℕ → TreeStore → (ℕ → List ℕ) → Cfg → DfStore → Option DfStore
build_dominance_frontier f t descendants g s =
    find_all (find_df f t descendants) (find_dom_entry_points t g.bb_list)
      (set_as_unvisited g.bb_list s)
    >>= λ s'. some (set_as_unvisited g.bb_list s')
