-- ===== src/Translator/ListSchedule/Longest.antt =====
-- What the search for the longest path (`findLongestPath` of src/binaryTranslator/listSchedule.cpp)
-- answers: the latency of the longest chain of dependents within the block.
use cg_oo_o.Common.{
  ℕ, zero, suc, ◌+◌, ◌<◌, ◌≤◌, ◌≡◌, refl, ap, ◌∙◌, inl, inr, true, false, List, [], ◌∷◌, Option,
  some, none, ltb, ◌==◌, if◌then◌else◌, assert, ◌>>=◌, count, Bool-cases, Option-cases, lt→ltb,
  ==→eq, eq→==, arith,
}
use cg_oo_o.Translator.Instruction.{Instruction, is_longest_path_set, get_longest_path}
use cg_oo_o.Translator.ListSchedule.{
  BasicBlock, contains, find_ins, is_ins_addr_in_bb, raise, crit_loop, crit_path_len,
  find_longest_path,
}
use cg_oo_o.Translator.ListSchedule.Block.{find_ins-addr, find_ins-All, is_ins_addr_in_bb-contains}
use cg_oo_o.Translator.ListSchedule.Chains.{
  Graph, Chain, IsLongest, IsAcyclic, Fits, IsKnown, Holds,
}

abbrev AtLeast : Option ℕ → ℕ → Type 0
AtLeast none m = ⊥
AtLeast (some c) m = m ≤ c

abbrev value : (Instruction → Option ℕ) → Instruction → Option ℕ
value search dep = if is_longest_path_set dep then get_longest_path dep else search dep

module _ (g : Graph) (bb : BasicBlock) (search : Instruction → Option ℕ) (a : ℕ) where
  -- The longest path of each dependent is found.
  abbrev Finds : Type 0
  Finds =
      (d : ℕ)
      → 0 < count d (g.dependents a)
      → contains d g.inside ≡ true
      → (dep : Instruction) × (p : ℕ) × (find_ins d bb.ins_list ≡ some dep)
        × (value search dep ≡ some p)
        × IsLongest g d p

  -- The length so far is that of a dependent's chain.
  abbrev Attained : Option ℕ → Type 0
  Attained none = Unit
  Attained (some c) =
      (d : ℕ) × (0 < count d (g.dependents a)) × (contains d g.inside ≡ true) × Chain g d c

  module _ (d : ℕ) (deps : List ℕ) (crit : Option ℕ) where
    crit_loop-skips :
        is_ins_addr_in_bb bb d ≡ some false
        → crit_loop search bb (d ∷ deps) crit ≡ crit_loop search bb deps crit
    unfolding crit_loop
    crit_loop-skips h = rw h

    crit_loop-takes :
        (dep : Instruction) (p : ℕ)
        → is_ins_addr_in_bb bb d ≡ some true
        → find_ins d bb.ins_list ≡ some dep
        → value search dep ≡ some p
        → crit_loop search bb (d ∷ deps) crit ≡ crit_loop search bb deps (raise crit p)
    unfolding crit_loop
    crit_loop-takes dep p h k v = rw (h, ◌>>=◌, k, v)

  raise-AtLeast : (crit : Option ℕ) (p m : ℕ) → AtLeast crit m → AtLeast (raise crit p) m
  raise-AtLeast none p m h = absurd h
  raise-AtLeast (some c) p m h = ground arith

  raise-top : (crit : Option ℕ) (p m : ℕ) → m ≤ p → AtLeast (raise crit p) m
  raise-top none p m h = h
  raise-top (some c) p m h = ground arith

  raise-Attained :
      (crit : Option ℕ) (p d : ℕ)
      → 0 < count d (g.dependents a)
      → contains d g.inside ≡ true
      → Chain g d p
      → Attained crit
      → Attained (raise crit p)
  raise-Attained none p d h k c t = (d, h, k, c)
  raise-Attained (some c') p d h k c t = elim (Bool-cases (ltb c' p)) [
    | inl longer ↦ rw longer (d, h, k, c)
    | inr other ↦ rw other t
  ]

  crit_loop_lem :
      bb.ins_addr_list ≡ g.inside
      → (b : ℕ) → contains b bb.ins_addr_list ≡ true
      → Finds
      → (ds : List ℕ) → ((d : ℕ) → 0 < count d ds → 0 < count d (g.dependents a))
      → (crit : Option ℕ) → Attained crit
      → (crit' : Option ℕ) × (crit_loop search bb ds crit ≡ some crit')
        × Attained crit'
        × ((m : ℕ) → AtLeast crit m → AtLeast crit' m)
        × ((d m : ℕ) → 0 < count d ds → contains d g.inside ≡ true → Chain g d m → AtLeast crit' m)
  unfolding crit_loop
  crit_loop_lem same b hb finds [] sub crit t =
      (crit, refl, t, (λ m h. h), (λ d m h k c. absurd (omega arith)))
  crit_loop_lem same b hb finds (d ∷ ds) sub crit t =
      let sub' = λ (e : ℕ) (h : 0 < count e ds). sub e (omega (arith, h)) in
      let test : is_ins_addr_in_bb bb d ≡ some (contains d g.inside) =
        is_ins_addr_in_bb-contains bb d b hb ∙ ap (λ xs. some (contains d xs)) same in
      elim (Bool-cases (contains d g.inside)) [
        | inr out ↦
            let (crit', ran, t', mono, top) = crit_loop_lem same b hb finds ds sub' crit t in
            (
              crit',
              crit_loop-skips d ds crit (test ∙ ap some out) ∙ ran,
              t',
              mono,
              (λ e m h k c. elim (Bool-cases (e == d)) [
                | inl eq ↦
                    absurd (ground (arith, ap (λ x. contains x g.inside) (==→eq e d eq), out, k))
                | inr other ↦ top e m (ground (arith, other, h)) k c
              ]),
            )
        | inl within ↦
            let mine : 0 < count d (g.dependents a) = sub d (ground (arith, eq→== d d refl)) in
            let (dep, p, got, val, (chain, longest)) = finds d mine within in
            let (crit', ran, t', mono, top) =
              crit_loop_lem same b hb finds ds sub' (raise crit p)
                (raise-Attained crit p d mine within chain t) in
            (
              crit',
              crit_loop-takes d ds crit dep p (test ∙ ap some within) got val ∙ ran,
              t',
              (λ m h. mono m (raise-AtLeast crit p m h)),
              (λ e m h k c. elim (Bool-cases (e == d)) [
                | inl eq ↦ mono m (raise-top crit p m (longest m (rw (==→eq e d eq) at c)))
                | inr other ↦ top e m (ground (arith, other, h)) k c
              ]),
            )
      ]

finish : (len : ℕ) → 0 < len → (assert (ltb 0 len) >>= λ _. some len) ≡ some len
finish len h = rw (lt→ltb 0 len h)

finishes :
    (f : ℕ) (bb : BasicBlock) (ins : Instruction) (crit : Option ℕ)
    → crit_loop (find_longest_path f bb) bb ins.dependents none ≡ some crit
    → 0 < crit_path_len ins.latency crit
    → find_longest_path (suc f) bb ins ≡ some (crit_path_len ins.latency crit)
unfolding find_longest_path
finishes f bb ins crit ran h = rw ran (finish (crit_path_len ins.latency crit) h)

-- The length that the loop over the dependents leaves, with the latency of the instruction.
module _ (g : Graph) (bb : BasicBlock) (search : Instruction → Option ℕ) (a lat : ℕ)
    (own : lat ≡ g.latency a) (pos : 0 < lat) where
  crit-IsLongest :
      (crit : Option ℕ)
      → Attained g bb search a crit
      → ((d m : ℕ)
          → 0 < count d (g.dependents a)
          → contains d g.inside ≡ true
          → Chain g d m
          → AtLeast crit m)
      → IsLongest g a (crit_path_len lat crit) × (0 < crit_path_len lat crit)
  crit-IsLongest none t top = ((Chain.last own, upper), pos)
    where
      upper : (m : ℕ) → Chain g a m → m ≤ lat
      upper m (Chain.last e) = omega (arith, own)
      upper m (Chain.link d w h k c e) = absurd (top d w h k c)
  crit-IsLongest (some c) (d, h, k, chain) top =
      ((Chain.link d c h k chain (omega (arith, own)), upper), omega arith)
    where
      upper : (m : ℕ) → Chain g a m → m ≤ c + lat
      upper m (Chain.last e) = omega (arith, own)
      upper m (Chain.link d' w h' k' c' e) = omega (arith, own, top d' w h' k' c')

value-set :
    (search : Instruction → Option ℕ) (e : Instruction) (p : ℕ)
    → e.longest_path ≡ some p
    → 0 < p
    → value search e ≡ some p
unfolding get_longest_path
value-set search e p h pos = rw (h, finish p pos)

value-unset :
    (search : Instruction → Option ℕ) (e : Instruction)
    → e.longest_path ≡ none
    → value search e ≡ search e
value-unset search e h = rw h

-- In a block without cycles the search for the longest path fails no check, ends, and answers with
-- the latency of the longest chain of dependents within the block.
pub find_longest_path_lem :
    (g : Graph) (bb : BasicBlock)
    → IsAcyclic g
    → Holds g bb
    → (f : ℕ) (ins : Instruction) → Fits g ins
    → contains ins.ins_addr g.inside ≡ true
    → g.size ≤ g.place ins.ins_addr + f
    → (p : ℕ) × (find_longest_path f bb ins ≡ some p) × IsLongest g ins.ins_addr p × (0 < p)
find_longest_path_lem g bb acyclic holds zero ins fits within fuel =
    absurd (omega (arith, acyclic.bounded ins.ins_addr within))
find_longest_path_lem g bb acyclic holds (suc f) ins (lat, deps, pos) within fuel =
    let a = ins.ins_addr in
    let finds : Finds g bb (find_longest_path f bb) a = λ d h k.
      let (dep, got) = holds.found d k in
      let at = find_ins-addr d bb.ins_list dep got in
      elim (Option-cases (dep.longest_path)) [
        | inr (p, memo) ↦
            let (longest, long) =
              find_ins-All (IsKnown g) d bb.ins_list dep holds.known got p memo in
            (dep, p, got, value-set (find_longest_path f bb) dep p memo long, rw at at longest)
        | inl fresh ↦
            let (p, ran, longest, long) =
              find_longest_path_lem g bb acyclic holds f dep
                (find_ins-All (Fits g) d bb.ins_list dep holds.fits got) (rw at k)
                (rw at (omega (arith, acyclic.behind a d within h k))) in
            (dep, p, got, value-unset (find_longest_path f bb) dep fresh ∙ ran, rw at at longest)
      ] in
    let (crit, ran, t, mono, top) =
      crit_loop_lem g bb (find_longest_path f bb) a holds.addresses a (rw (holds.addresses) within)
        finds (g.dependents a) (λ d h. h) none tt in
    let (longest, long) =
      crit-IsLongest g bb (find_longest_path f bb) a ins.latency lat pos crit t top in
    (
      crit_path_len ins.latency crit,
      finishes f bb ins crit (ap (λ ds. crit_loop (find_longest_path f bb) bb ds none) deps ∙ ran)
          long,
      longest,
      long,
    )
