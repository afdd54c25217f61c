-- ===== src/O3/Lsq/Search.antt =====
-- What the searches of the load queue and the store queue (src/backend/o3/lsq.cpp) find.
use cg_oo_o.Common.{
  ℕ, ◌≤◌, ◌<◌, ◌≡◌, refl, ◌⊎◌, inl, inr, true, false, List, [], ◌∷◌, ◌++◌, none, some, arith, All,
  All-mono, Option-cases,
}
use cg_oo_o.Unit.Instruction.{LqState, SqState, get_lq_state, get_sq_state, is_cache_axes}
use cg_oo_o.O3.Scan.{
  find_first, find_back, found, stop, further, at, stopped, nowhere, First, Last, find_first-none,
  find_first-some, find_back-at, find_back-nowhere, find_back-stopped,
}
use cg_oo_o.O3.Lsq.{
  Entry, violates, upper, has_any_complete_ld_from_addr, is_younger_store,
  has_any_complete_st_from_addr, no_waw_st_ins,
}
use cg_oo_o.O3.Lsq.Age.{IsAged}

-- A load that took its value from the cache too early for the store `lo` to `addr`: it is younger, not
-- beyond `hi`, and complete.
pub record Violating (addr lo hi : ℕ) (e : Entry) : Type 0 where
  pub younger : lo < e.element.seq_num
  pub within : e.element.seq_num ≤ hi
  pub same : e.element.mem_addr ≡ addr
  pub loaded : e.element.lq_state ≡ LqState.lq_complete
  pub cached : e.element.cache_axes ≡ true

violates-found :
    (addr lo hi : ℕ) (e : Entry) → violates addr lo hi e ≡ some found → Violating addr lo hi e
unfolding violates get_lq_state is_cache_axes
violates-found addr lo hi e h = record {
  younger = ground (arith, h);
  within = ground (arith, h);
  same = ground (arith, h);
  loaded = ground (arith, h);
  cached = ground (arith, h);
}

violates-further :
    (addr lo hi : ℕ) (e : Entry) → violates addr lo hi e ≡ some further → ¬ Violating addr lo hi e
unfolding violates get_lq_state is_cache_axes
violates-further addr lo hi e h v =
    ground (arith, h, v.younger, v.within, v.same, v.loaded, v.cached)

violates-stop :
    (addr lo hi : ℕ) (e : Entry) → violates addr lo hi e ≡ some stop → e.element.seq_num ≤ lo
unfolding violates get_lq_state is_cache_axes
violates-stop addr lo hi e h = ground (arith, h)

-- The answer of the search is a violating load, and no load behind it in the queue is one: it is the
-- youngest where the queue holds the oldest first.
pub has_any_complete_ld-youngest :
    (addr lo hi : ℕ) (e x : Entry) (l : List Entry)
    → has_any_complete_ld_from_addr addr lo hi (e ∷ l) ≡ some (some x)
    → Violating addr lo (upper hi (e ∷ l)) x
      × Last (λ y. ¬ Violating addr lo (upper hi (e ∷ l)) y) x l
unfolding has_any_complete_ld_from_addr
has_any_complete_ld-youngest addr lo hi e x l h =
    let top = upper hi (e ∷ l) in
    let there : find_back (violates addr lo top) l ≡ some (at x) = ground (arith, h) in
    let (hit, (pre, post, split, after)) = find_back-at (violates addr lo top) l x there in
    (
      violates-found addr lo top x hit,
      (pre, post, split, All-mono post (λ y k. violates-further addr lo top y k) after),
    )

-- The entries before `x` are older.
IsAged-before :
    (pre : List Entry) (x : Entry) (post : List Entry)
    → IsAged (pre ++ (x ∷ post))
    → All (λ y. y.element.seq_num ≤ x.element.seq_num) pre
IsAged-before [] x post a = tt
IsAged-before (y ∷ []) x post (older, a) = (omega (arith, older), tt)
IsAged-before (y ∷ z ∷ pre) x post (older, a) =
    let (next, rest) = IsAged-before (z ∷ pre) x post a in
    (omega (arith, older, next), (next, rest))

All-append :
    (P : Entry → Type 0) (pre post : List Entry) → All P pre → All P post → All P (pre ++ post)
All-append P [] post ps qs = qs
All-append P (x ∷ pre) post (p, ps) qs = (p, All-append P pre post ps qs)

IsAged-tail : (e : Entry) (l : List Entry) → IsAged (e ∷ l) → IsAged l
IsAged-tail e [] a = tt
IsAged-tail e (d ∷ l) (younger, a) = a

search_complete :
    (addr lo top : ℕ) (l : List Entry)
    → IsAged l
    → (find_back (violates addr lo top) l ≡ some nowhere)
      ⊎ (find_back (violates addr lo top) l ≡ some stopped)
    → All (λ y. ¬ Violating addr lo top y) l
search_complete addr lo top l a (inl ran) =
    All-mono l (λ y k. violates-further addr lo top y k)
      (find_back-nowhere (violates addr lo top) l ran)
search_complete addr lo top l a (inr early) =
    let (x, end, (pre, post, split, after)) = find_back-stopped (violates addr lo top) l early in
    let old : x.element.seq_num ≤ lo = violates-stop addr lo top x end in
    let before = IsAged-before pre x post (rw split at a) in
    rw split (
      All-append (λ y. ¬ Violating addr lo top y) pre (x ∷ post)
        (All-mono pre (λ y k v. omega (arith, k, old, v.younger)) before)
        (
          (λ v. omega (arith, old, v.younger)),
          All-mono post (λ y k. violates-further addr lo top y k) after,
        ))

-- On a queue in the order of age, a search without an answer has missed no violating load behind the
-- head of the queue.
pub has_any_complete_ld_complete :
    (addr lo hi : ℕ) (e : Entry) (l : List Entry)
    → IsAged (e ∷ l)
    → has_any_complete_ld_from_addr addr lo hi (e ∷ l) ≡ some none
    → All (λ y. ¬ Violating addr lo (upper hi (e ∷ l)) y) l
unfolding has_any_complete_ld_from_addr
has_any_complete_ld_complete addr lo hi e l a h =
    search_complete addr lo (upper hi (e ∷ l)) l (IsAged-tail e l a) (ground (arith, h))

-- The head of the load queue plays no part in the search, so that a violating load there, the oldest
-- one, is not found.
pub has_any_complete_ld-skips_head :
    (addr lo hi : ℕ) (e d : Entry) (l : List Entry)
    → has_any_complete_ld_from_addr addr lo hi (e ∷ l)
      ≡ has_any_complete_ld_from_addr addr lo hi (d ∷ l)
unfolding has_any_complete_ld_from_addr upper find_back
has_any_complete_ld-skips_head addr lo hi e d [] = refl
has_any_complete_ld-skips_head addr lo hi e d (x ∷ l) = refl

-- A complete store to `addr` that is younger than the store `seq`.
pub record Overwrites (addr seq : ℕ) (e : Entry) : Type 0 where
  pub younger : seq < e.element.seq_num
  pub finished : e.element.sq_state ≡ SqState.sq_complete
  pub same : e.element.mem_addr ≡ addr

is_younger_store-yes :
    (addr seq : ℕ) (e : Entry) → is_younger_store addr seq e ≡ some true → Overwrites addr seq e
unfolding is_younger_store get_sq_state
is_younger_store-yes addr seq e h = record {
  younger = ground (arith, h);
  finished = ground (arith, h);
  same = ground (arith, h);
}

is_younger_store-no :
    (addr seq : ℕ) (e : Entry) → is_younger_store addr seq e ≡ some false → ¬ Overwrites addr seq e
unfolding is_younger_store get_sq_state
is_younger_store-no addr seq e h v = ground (arith, h, v.younger, v.finished, v.same)

-- The search of the store queue answers with the first complete store to the address that is younger
-- than the given one, the oldest where the queue holds the oldest first, or with 0 where there is
-- none.
pub has_any_complete_st-oldest :
    (addr seq n : ℕ) (l : List Entry)
    → has_any_complete_st_from_addr addr seq l ≡ some n
    → ((n ≡ no_waw_st_ins) × All (λ y. ¬ Overwrites addr seq y) l)
      ⊎ ((x : Entry) × (n ≡ x.element.seq_num)
          × Overwrites addr seq x
          × First (λ y. ¬ Overwrites addr seq y) x l)
unfolding has_any_complete_st_from_addr
has_any_complete_st-oldest addr seq n l h =
    elim (Option-cases (find_first (is_younger_store addr seq) l)) [
      | inl fails ↦ absurd (ground (arith, h, fails))
      | inr (none, ran) ↦ inl (
        ground (arith, h, ran),
        All-mono l (λ y k. is_younger_store-no addr seq y k)
            (find_first-none (is_younger_store addr seq) l ran),
      )
      | inr (some x, ran) ↦
          let (hit, (pre, post, split, before)) =
            find_first-some (is_younger_store addr seq) l x ran in
          inr (
            x,
            ground (arith, h, ran),
            is_younger_store-yes addr seq x hit,
            (pre, post, split, All-mono pre (λ y k. is_younger_store-no addr seq y k) before),
          )
    ]
