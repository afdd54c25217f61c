-- ===== src/Translator/ListSchedule/Paths.antt =====
-- The loop of `listSchedule` (src/binaryTranslator/listSchedule.cpp) that sets every longest path.
use cg_oo_o.Common.{
  ℕ, zero, suc, ◌<◌, ◌≤◌, ◌≡◌, refl, ap, ◌∙◌, inl, inr, true, List, [], ◌∷◌, Option, some, none,
  ◌==◌, if◌then◌else◌, ◌>>=◌, length, get_elem?, get_elem?-lt, set, get_elem?-set, length-set,
  count, All, All-get, All-mono, All-set, Bool-cases, lt→ltb, map, arith,
}
use cg_oo_o.Translator.Instruction.{Instruction, set_longest_path, reset_longest_path}
use cg_oo_o.Translator.QuickSort.Swap.{addrs, HasPath}
use cg_oo_o.Translator.ListSchedule.{BasicBlock, contains, find_longest_path, set_paths}
use cg_oo_o.Translator.ListSchedule.Block.{find_ins-some}
use cg_oo_o.Translator.ListSchedule.Chains.{Graph, IsLongest, IsAcyclic, Fits, IsKnown, Holds}
use cg_oo_o.Translator.ListSchedule.Longest.{find_longest_path_lem}

-- What does not depend on the longest path.
abbrev pub IsStable : (Instruction → Type 0) → Type 0
IsStable P = (e : Instruction) (p : Option ℕ) → P e → P (record e { longest_path = p })

abbrev pub Inside : Graph → Instruction → Type 0
Inside g e = contains e.ins_addr g.inside ≡ true

-- An ancestor within the block has a place before.
abbrev pub Ordered : Graph → Instruction → Type 0
Ordered g e =
    (a : ℕ) → 0 < count a e.ancestors → contains a g.inside ≡ true → g.place a < g.place e.ins_addr

get_elem?-bound :
    (l : List Instruction) (j : ℕ) (e : Instruction) → get_elem? l j ≡ some e → j < length l
get_elem?-bound [] j e h = cc
get_elem?-bound (x ∷ l) zero e h = omega arith
get_elem?-bound (x ∷ l) (suc j) e h = omega (arith, get_elem?-bound l j e h)

addrs-set :
    (l : List Instruction) (i : ℕ) (e old : Instruction)
    → get_elem? l i ≡ some old
    → e.ins_addr ≡ old.ins_addr
    → addrs (set l i e) ≡ addrs l
addrs-set [] i e old h k = refl
addrs-set (x ∷ l) zero e old h k = let same : x ≡ old = cc in rw (same, k)
addrs-set (x ∷ l) (suc i) e old h k = ap (λ t. x.ins_addr ∷ t) (addrs-set l i e old h k)

All_of_get :
    (P : Instruction → Type 0) (l : List Instruction)
    → ((j : ℕ) (e : Instruction) → get_elem? l j ≡ some e → P e)
    → All P l
All_of_get P [] h = tt
All_of_get P (x ∷ l) h = (h 0 x refl, All_of_get P l (λ j e. h (suc j) e))

one_path :
    (bb : BasicBlock) (i : ℕ) (ins : Instruction) (p : ℕ)
    → get_elem? bb.ins_list i ≡ some ins
    → find_longest_path (suc (length bb.ins_list)) bb ins ≡ some p
    → ins.longest_path ≡ none
    → 0 < p
    → set_paths (suc i) bb
      ≡ set_paths i
          (record bb { ins_list = set bb.ins_list i (record ins { longest_path = some p }) })
unfolding set_paths set_longest_path
one_path bb i ins p got found fresh pos = rw (got, ◌>>=◌, found, fresh, lt→ltb 0 p pos)

-- What the loop leaves of the list `l`.
pub record PathsSet (g : Graph) (bb bb' : BasicBlock) : Type 1 where
  pub same_block : bb'.ins_addr_list ≡ bb.ins_addr_list
  pub same_schedule : bb'.ins_list_sch_list ≡ bb.ins_list_sch_list
  pub same_addrs : addrs bb'.ins_list ≡ addrs bb.ins_list
  pub same_length : length bb'.ins_list ≡ length bb.ins_list
  pub keeps : (P : Instruction → Type 0) → IsStable P → All P bb.ins_list → All P bb'.ins_list
  pub all_set : All HasPath bb'.ins_list
  pub known : All (IsKnown g) bb'.ins_list

module _ (g : Graph) (acyclic : IsAcyclic g) where
  -- Before the round `i`: the paths from `i` on are set.
  record Progress (i : ℕ) (bb : BasicBlock) : Type 0 where
    addresses : bb.ins_addr_list ≡ g.inside
    covered : (a : ℕ) → contains a g.inside ≡ true → contains a (addrs bb.ins_list) ≡ true
    sized : g.size ≤ length bb.ins_list
    fits : All (Fits g) bb.ins_list
    within : All (Inside g) bb.ins_list
    known : All (IsKnown g) bb.ins_list
    bounded : i ≤ length bb.ins_list
    fresh :
        (j : ℕ) (e : Instruction) → j < i → get_elem? bb.ins_list j ≡ some e → e.longest_path ≡ none
    done : (j : ℕ) (e : Instruction) → i ≤ j → get_elem? bb.ins_list j ≡ some e → HasPath e

  holds : (i : ℕ) (bb : BasicBlock) → Progress i bb → Holds g bb
  holds i bb s = record {
    addresses = s.addresses;
    found = λ a h. find_ins-some a bb.ins_list (s.covered a h);
    fits = s.fits;
    known = s.known;
  }

  module _ (i : ℕ) (bb : BasicBlock) (s : Progress (suc i) bb) (ins : Instruction) (p : ℕ)
      (got : get_elem? bb.ins_list i ≡ some ins) (longest : IsLongest g ins.ins_addr p)
      (pos : 0 < p) where
    abbrev marked : Instruction
    marked = record ins { longest_path = some p }

    abbrev next : BasicBlock
    next = record bb { ins_list = set bb.ins_list i marked }

    at :
        (j : ℕ)
        → get_elem? next.ins_list j ≡ (if j == i then some marked else get_elem? bb.ins_list j)
    at j = get_elem?-set bb.ins_list i marked j (omega (arith, s.bounded))

    next-Progress : Progress i next
    next-Progress = record {
      addresses = s.addresses;
      covered = λ a h. rw (addrs-set bb.ins_list i marked ins got refl) (s.covered a h);
      sized = omega (arith, s.sized, length-set bb.ins_list i marked);
      fits =
          All-set (Fits g) bb.ins_list i marked s.fits
            (All-get (Fits g) bb.ins_list i ins s.fits got);
      within =
          All-set (Inside g) bb.ins_list i marked s.within
            (All-get (Inside g) bb.ins_list i ins s.within got);
      known =
          All-set (IsKnown g) bb.ins_list i marked s.known
            (λ q h. let same : p ≡ q = cc in rw (← same) ((longest, pos)));
      bounded = omega (arith, s.bounded, length-set bb.ins_list i marked);
      fresh = λ j e h k. s.fresh j e (omega arith) (ground (arith, at j));
      done = λ j e h k. elim (Bool-cases (j == i)) [
        | inl same ↦ let eq : marked ≡ e = ground (arith, at j, same) in rw (← eq) pos
        | inr other ↦ s.done j e (ground (arith, other)) (ground (arith, at j, other))
      ];
    }

    next-PathsSet : {bb' : BasicBlock} → PathsSet g next bb' → PathsSet g bb bb'
    next-PathsSet r = record {
      same_block = r.same_block;
      same_schedule = r.same_schedule;
      same_addrs = r.same_addrs ∙ addrs-set bb.ins_list i marked ins got refl;
      same_length = r.same_length ∙ length-set bb.ins_list i marked;
      keeps = λ P st a.
          r.keeps P st (
            All-set P bb.ins_list i marked a (st ins (some p) (All-get P bb.ins_list i ins a got)));
      all_set = r.all_set;
      known = r.known;
    }

  set_paths_lem :
      (i : ℕ) (bb : BasicBlock)
      → Progress i bb
      → (bb' : BasicBlock) × (set_paths i bb ≡ some bb') × PathsSet g bb bb'
  unfolding set_paths
  set_paths_lem zero bb s = (
    bb,
    refl,
    record {
      same_block = refl;
      same_schedule = refl;
      same_addrs = refl;
      same_length = refl;
      keeps = λ P st a. a;
      all_set = All_of_get HasPath bb.ins_list (λ j e h. s.done j e (omega arith) h);
      known = s.known;
    },
  )
  set_paths_lem (suc i) bb s =
      let (ins, got) = get_elem?-lt bb.ins_list i (omega (arith, s.bounded)) in
      let (p, found, longest, pos) =
        find_longest_path_lem g bb acyclic (holds (suc i) bb s) (suc (length bb.ins_list)) ins
          (All-get (Fits g) bb.ins_list i ins s.fits got)
          (All-get (Inside g) bb.ins_list i ins s.within got) (omega (arith, s.sized)) in
      let (bb', ran, r) =
        set_paths_lem i (next i bb s ins p got longest pos)
          (next-Progress i bb s ins p got longest pos) in
      (
        bb',
        one_path bb i ins p got found (s.fresh i ins (omega arith) got) pos ∙ ran,
        next-PathsSet i bb s ins p got longest pos r,
      )

-- The loop that unsets every longest path.
abbrev pub reset_all : List Instruction → List Instruction
reset_all l = map reset_longest_path l

reset-All :
    (P : Instruction → Type 0) → IsStable P → (l : List Instruction) → All P l → All P (reset_all l)
unfolding reset_longest_path
reset-All P st [] ps = tt
reset-All P st (e ∷ l) (p, ps) = (st e none p, reset-All P st l ps)

reset-addrs : (l : List Instruction) → addrs (reset_all l) ≡ addrs l
unfolding reset_longest_path
reset-addrs [] = refl
reset-addrs (e ∷ l) = ap (λ t. e.ins_addr ∷ t) (reset-addrs l)

reset-length : (l : List Instruction) → length (reset_all l) ≡ length l
reset-length [] = refl
reset-length (e ∷ l) = ap suc (reset-length l)

reset-fresh : (l : List Instruction) → All (λ e. e.longest_path ≡ none) (reset_all l)
unfolding reset_longest_path
reset-fresh [] = tt
reset-fresh (e ∷ l) = (refl, reset-fresh l)

-- The block's instructions have distinct addresses, those of its address set, and their ancestors
-- and dependents within the block lie in the order of the graph's places.
pub record IsBlock (g : Graph) (bb : BasicBlock) : Type 0 where
  pub addresses : bb.ins_addr_list ≡ g.inside
  pub covered : (a : ℕ) → contains a g.inside ≡ true → contains a (addrs bb.ins_list) ≡ true
  pub sized : g.size ≤ length bb.ins_list
  pub unique : (a : ℕ) → count a (addrs bb.ins_list) < 2
  pub fits : All (Fits g) bb.ins_list
  pub within : All (Inside g) bb.ins_list
  pub ordered : All (Ordered g) bb.ins_list

-- The two loops over the block's instructions before the sort: every longest path is set, and is the
-- latency of the longest chain of dependents within the block; nothing else changes.
pub set_paths-PathsSet :
    (g : Graph)
    → IsAcyclic g
    → (bb : BasicBlock) → IsBlock g bb
    → (bb' : BasicBlock) × (set_paths
          (length bb.ins_list)
          (record bb { ins_list = reset_all bb.ins_list })
        ≡ some bb')
      × PathsSet g bb bb'
set_paths-PathsSet g acyclic bb v =
    let l = reset_all bb.ins_list in
    let bb0 : BasicBlock = record bb { ins_list = l } in
    let len = reset-length bb.ins_list in
    let unset = reset-fresh bb.ins_list in
    let (bb', ran, r) = set_paths_lem g acyclic (length bb.ins_list) bb0 record {
      addresses = v.addresses;
      covered = λ a h. rw (reset-addrs bb.ins_list) (v.covered a h);
      sized = omega (arith, v.sized, len);
      fits = reset-All (Fits g) (λ e p h. h) bb.ins_list v.fits;
      within = reset-All (Inside g) (λ e p h. h) bb.ins_list v.within;
      known = All-mono l (λ e none_set p h. cc) unset;
      bounded = omega (arith, len);
      fresh = λ j e h k. All-get (λ d. d.longest_path ≡ none) l j e unset k;
      done = λ j e h k. absurd (omega (arith, len, get_elem?-bound l j e k));
    } in
    (
      bb',
      ran,
      record {
        same_block = r.same_block;
        same_schedule = r.same_schedule;
        same_addrs = r.same_addrs ∙ reset-addrs bb.ins_list;
        same_length = r.same_length ∙ len;
        keeps = λ P st a. r.keeps P st (reset-All P st bb.ins_list a);
        all_set = r.all_set;
        known = r.known;
      },
    )
