-- ===== src/Translator/Dominator/Walks.antt =====
-- What `build_dominators` (src/binaryTranslator/dominator.cpp) keeps true of the blocks.
use cg_oo_o.Common.{
  ℕ, ◌≡◌, refl, sym, ◌⊎◌, inl, inr, true, false, List, [], ◌∷◌, ◌==◌, Bool-cases, ==→eq, eq→==,
  arith,
}
use mathlib.Core.Path.{subst}
use cg_oo_o.Translator.ListSchedule.{set_insert}
use cg_oo_o.Translator.Dominator.{
  Cfg, DomInfo, Store, new_info, update, set_dominators_self, init_block, init_all,
}
use cg_oo_o.Translator.Dominator.Sets.{In, Unique, InAll}

-- A walk from an entry point to a block, with the blocks on it.
pub data Walk (g : Cfg) : ℕ → List ℕ → Type 0 where
  start : (n : ℕ) → In n g.bb_list → g.ancestors n ≡ [] → Walk g n (n ∷ [])
  extend : (p n : ℕ) (l : List ℕ) → Walk g p l → In p (g.ancestors n) → Walk g n (n ∷ l)

abbrev pub Dominates : Cfg → ℕ → ℕ → Type 0
Dominates g d n = (l : List ℕ) → Walk g n l → In d l

pub Dominates-ancestor :
    (g : Cfg) (d n : ℕ)
    → Dominates g d n
    → (d ≡ n) ⊎ ((p : ℕ) → In p (g.ancestors n) → Dominates g d p)
Dominates-ancestor g d n h = elim (Bool-cases (d == n)) [
  | inl same ↦ inl (==→eq d n same)
  | inr other ↦ inr (λ p at l w. ground (arith, h (n ∷ l) (extend p n l w at), other))
]

-- The ancestors of the blocks of the list are in the list.
abbrev pub Closed : Cfg → Type 0
Closed g = (n : ℕ) → In n g.bb_list → (p : ℕ) → In p (g.ancestors n) → In p g.bb_list

-- A block and its fields, with the ancestors' fields in the store.
pub record At (g : Cfg) (s : Store) (n : ℕ) (v : DomInfo) : Type 0 where
  pub entry :
      v.entry_point ≡ true
      → (g.ancestors n ≡ []) × (v.dom_set_is_all ≡ false) × (v.dominator_map ≡ n ∷ [])
  pub of_entry : g.ancestors n ≡ [] → v.entry_point ≡ true
  pub unique : Unique v.dominator_map
  pub listed : (a : ℕ) → In a v.dominator_map → In a g.bb_list
  pub all_self : v.dom_set_is_all ≡ true → (a : ℕ) → In a v.dominator_map → a ≡ n
  pub kept : v.dom_set_is_all ≡ false → (d : ℕ) → Dominates g d n → In d v.dominator_map
  pub shrinks :
      v.entry_point ≡ false
      → v.dom_set_is_all ≡ false
      → (d : ℕ) → (d ≡ n) ⊎ InAll s d (g.ancestors n)
      → In d v.dominator_map

abbrev pub Inv : Cfg → Store → Type 0
Inv g s = (n : ℕ) → In n g.bb_list → At g s n (s n)

-- The set of a block that has one loses elements only.
abbrev pub Shrunk : DomInfo → DomInfo → Type 0
Shrunk v w =
    v.dom_set_is_all ≡ false
    → (w.dom_set_is_all ≡ false) × ((d : ℕ) → In d w.dominator_map → In d v.dominator_map)

pub Shrunk-refl : (v : DomInfo) → Shrunk v v
Shrunk-refl v own = (own, λ d at. at)

pub update-Shrunk :
    (s : Store) (n : ℕ) (w : DomInfo) → Shrunk (s n) w → (m : ℕ) → Shrunk (s m) (update s n w m)
update-Shrunk s n w h m = elim (Bool-cases (m == n)) [
  | inl same ↦ rw (same, ==→eq m n same) h
  | inr other ↦ rw other (Shrunk-refl (s m))
]

At-Shrunk :
    (g : Cfg) (s s' : Store) (n : ℕ) (v : DomInfo)
    → ((m : ℕ) → Shrunk (s m) (s' m))
    → At g s n v
    → At g s' n v
At-Shrunk g s s' n v below a = record {
  entry = a.entry;
  of_entry = a.of_entry;
  unique = a.unique;
  listed = a.listed;
  all_self = a.all_self;
  kept = a.kept;
  shrinks = λ inner own d h. elim h [
    | inl self ↦ a.shrinks inner own d (inl self)
    | inr k ↦
        a.shrinks inner own d (inr (λ p at own_p. let (q, f) = below p own_p in f d (k p at q)))
  ];
}

pub update-Inv :
    (g : Cfg) (s : Store) (n : ℕ) (w : DomInfo)
    → Inv g s
    → At g s n w
    → Shrunk (s n) w
    → Inv g (update s n w)
update-Inv g s n w inv a below m at = elim (Bool-cases (m == n)) [
  | inl same ↦
      rw (==→eq m n same, eq→== n n refl)
        (At-Shrunk g s (update s n w) n w (update-Shrunk s n w below) a)
  | inr other ↦
      let eq : s m ≡ update s n w m = rw other refl in
      subst (λ v. At g (update s n w) m v) eq
        (At-Shrunk g s (update s n w) m (s m) (update-Shrunk s n w below) (inv m at))
]

-- The block after the loop that finds the entry points.
abbrev pub first_info : Cfg → ℕ → DomInfo
first_info g n = init_block g n new_info

-- The loop over blocks that it may have met.
init_block_twice :
    (g : Cfg) (n : ℕ) (v : DomInfo)
    → (v ≡ new_info) ⊎ (v ≡ first_info g n)
    → init_block g n v ≡ first_info g n
unfolding init_block set_dominators_self set_insert
init_block_twice g n v (inl fresh) = rw fresh refl
init_block_twice g n v (inr met) = elim-ancestors (g.ancestors n) v met
  where
    elim-ancestors :
        (ps : List ℕ) (v : DomInfo)
        → v ≡ init_block (record { bb_list = []; ancestors = λ _. ps }) n new_info
        → init_block (record { bb_list = []; ancestors = λ _. ps }) n v
          ≡ init_block (record { bb_list = []; ancestors = λ _. ps }) n new_info
    elim-ancestors [] v h = rw h (ground (arith, eq→== n n refl))
    elim-ancestors (p ∷ ps) v h = rw h refl

init_all_lem :
    (g : Cfg) (ns : List ℕ) (s : Store)
    → ((m : ℕ) → (s m ≡ new_info) ⊎ (s m ≡ first_info g m))
    → (m : ℕ) → In m ns ⊎ (s m ≡ first_info g m)
    → init_all g ns s m ≡ first_info g m
unfolding init_all
init_all_lem g [] s h m (inl at) = absurd (omega (arith, at))
init_all_lem g [] s h m (inr met) = met
init_all_lem g (n ∷ ns) s h m k =
    init_all_lem g ns (update s n (init_block g n (s n))) after m (now k)
  where
    at_n : update s n (init_block g n (s n)) n ≡ first_info g n
    at_n = rw (eq→== n n refl) (init_block_twice g n (s n) (h n))

    after :
        (q : ℕ)
        → (update s n (init_block g n (s n)) q ≡ new_info)
          ⊎ (update s n (init_block g n (s n)) q ≡ first_info g q)
    after q = elim (Bool-cases (q == n)) [
      | inl same ↦ inr (rw (==→eq q n same) at_n)
      | inr other ↦ rw other (h q)
    ]

    now :
        In m (n ∷ ns) ⊎ (s m ≡ first_info g m)
        → In m ns ⊎ (update s n (init_block g n (s n)) m ≡ first_info g m)
    now k = elim (Bool-cases (m == n)) [
      | inl same ↦ inr (rw (==→eq m n same) at_n)
      | inr other ↦ elim k [
        | inl at ↦ inl (ground (arith, at, other))
        | inr met ↦ inr (rw other met)
      ]
    ]

abbrev entry_info : ℕ → DomInfo
entry_info n = record { entry_point = true; dom_set_is_all = false; dominator_map = n ∷ [] }

first_info-entry : (g : Cfg) (n : ℕ) → g.ancestors n ≡ [] → first_info g n ≡ entry_info n
unfolding init_block set_dominators_self set_insert
first_info-entry g n e = rw (init_block, e) refl

first_info-inner :
    (g : Cfg) (n p : ℕ) (ps : List ℕ)
    → g.ancestors n ≡ p ∷ ps
    → first_info g n ≡ record new_info { dom_set_is_all = true }
unfolding init_block
first_info-inner g n p ps e = rw (init_block, e) refl

first_info-At : (g : Cfg) (s : Store) (n : ℕ) → In n g.bb_list → At g s n (first_info g n)
first_info-At g s n at = by_ancestors (g.ancestors n) refl
  where
    by_ancestors : (ps : List ℕ) → g.ancestors n ≡ ps → At g s n (first_info g n)
    by_ancestors [] e =
        subst (λ v. At g s n v) (sym (first_info-entry g n e))
          record {
            entry = λ _. (e, refl, refl);
            of_entry = λ _. refl;
            unique = λ a. ground arith;
            listed = λ a h. let eq : a ≡ n = ground (arith, h, ==→eq a n) in rw eq at;
            all_self = λ h. cc;
            kept = λ _ d h. h (n ∷ []) (start n at e);
            shrinks = λ h. cc;
          }
    by_ancestors (p ∷ ps) e =
        subst (λ v. At g s n v) (sym (first_info-inner g n p ps e))
          record {
            entry = λ h. cc;
            of_entry = λ h. cc;
            unique = λ a. omega arith;
            listed = λ a h. absurd (omega (arith, h));
            all_self = λ _ a h. absurd (omega (arith, h));
            kept = λ h. cc;
            shrinks = λ _ h. cc;
          }

abbrev pub fresh : Store
fresh n = new_info

pub init_all-Inv : (g : Cfg) → Inv g (init_all g g.bb_list fresh)
init_all-Inv g n at =
    subst (λ v. At g (init_all g g.bb_list fresh) n v)
      (sym (init_all_lem g g.bb_list fresh (λ m. inl refl) n (inl at)))
      (first_info-At g (init_all g g.bb_list fresh) n at)
