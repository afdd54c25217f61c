-- ===== src/O3/MemManager/Violation.antt =====
-- The violation test of src/backend/o3/memManager.cpp over both queues.
use cg_oo_o.Common.{
  ℕ, ◌≤◌, ◌<◌, ◌≡◌, inl, inr, true, List, [], ◌∷◌, ◌++◌, Option, none, some, assert, >>=-eq-some,
  arith, All, All-mono, ltb, Bool-cases,
}
use cg_oo_o.Unit.Instruction.{Instruction, LqState, get_sq_state}
use cg_oo_o.O3.Scan.{First, Last}
use cg_oo_o.O3.Lsq.{
  Entry, has_any_complete_st_from_addr, has_any_complete_ld_from_addr, no_waw_st_ins, upper,
  is_sq_complete,
}
use cg_oo_o.O3.Lsq.Age.{IsAged}
use cg_oo_o.O3.Lsq.Search.{
  Violating, Overwrites, has_any_complete_ld-youngest, has_any_complete_ld_complete,
  has_any_complete_st-oldest,
}
use cg_oo_o.O3.MemManager.{MemManager, is_lq_violation}

-- The entries behind `x` are younger.
IsAged-behind :
    (pre : List Entry) (x : Entry) (post : List Entry)
    → IsAged (pre ++ (x ∷ post))
    → All (λ y. x.element.seq_num < y.element.seq_num) post
IsAged-behind [] x [] a = tt
IsAged-behind [] x (y ∷ post) (older, a) =
    let rest = IsAged-behind [] y post a in
    (older, All-mono post (λ z k. omega (arith, older, k)) rest)
IsAged-behind (w ∷ []) x post (older, a) = IsAged-behind [] x post a
IsAged-behind (w ∷ z ∷ pre) x post (older, a) = IsAged-behind (z ∷ pre) x post a

All-split :
    (P : Entry → Type 0) (pre : List Entry) (x : Entry) (post : List Entry)
    → All P pre
    → P x
    → All P post
    → All P (pre ++ (x ∷ post))
All-split P [] x post ps p qs = (p, qs)
All-split P (y ∷ pre) x post (q, ps) p qs = (q, All-split P pre x post ps p qs)

upper-eq : (n : ℕ) (l : List Entry) → 0 < n → upper n l ≡ n
unfolding upper
upper-eq n l h = ground (arith, h)

-- The bound that the store search answers keeps younger stores out of the way.
bounded :
    (addr seq n : ℕ) (sq lq : List Entry) (x : Entry)
    → IsAged sq
    → has_any_complete_st_from_addr addr seq sq ≡ some n
    → Violating addr seq (upper n lq) x
    → All (λ y. Overwrites addr seq y → x.element.seq_num ≤ y.element.seq_num) sq
bounded addr seq n sq lq x a ran v = elim (has_any_complete_st-oldest addr seq n sq ran) [
  | inl (zero_sn, no_store) ↦ All-mono sq (λ y k o. absurd (k o)) no_store
  | inr (z, number, over, (pre, post, split, before)) ↦
      let top : x.element.seq_num ≤ z.element.seq_num =
        omega (arith, v.within, upper-eq n lq (omega (arith, number, over.younger)), number) in
      rw split (
        All-split (λ y. Overwrites addr seq y → x.element.seq_num ≤ y.element.seq_num) pre z post
          (All-mono pre (λ y k o. absurd (k o)) before) (λ o. top)
          (All-mono post (λ y k o. omega (arith, k, top))
            (IsAged-behind pre z post (rw split at a))))
]

-- The two searches of the test.
parts :
    (s : MemManager) (st_ins : Instruction) (r : Option Entry)
    → is_lq_violation s st_ins ≡ some r
    → (n : ℕ) × (has_any_complete_st_from_addr st_ins.mem_addr st_ins.seq_num s.sq.table ≡ some n)
      × (has_any_complete_ld_from_addr st_ins.mem_addr st_ins.seq_num n s.lq.table ≡ some r)
unfolding is_lq_violation
parts s st_ins r h =
    let (state, got, rest) = >>=-eq-some (get_sq_state st_ins) _ h in
    let (u, ok, rest') = >>=-eq-some (assert (is_sq_complete state)) _ rest in
    >>=-eq-some (has_any_complete_st_from_addr st_ins.mem_addr st_ins.seq_num s.sq.table) _ rest'

-- A load that the test answers with read the cache too early for the store: it is younger, to the same
-- address, complete, and was served by the cache. Where the store queue is in the order of age, no
-- complete store to that address lies between the two, and no younger load behind it in the queue
-- violates.
pub is_lq_violation-Violating :
    (s : MemManager) (st_ins : Instruction) (head x : Entry) (loads : List Entry)
    → IsAged s.sq.table
    → s.lq.table ≡ head ∷ loads
    → is_lq_violation s st_ins ≡ some (some x)
    → (n : ℕ) × Violating st_ins.mem_addr st_ins.seq_num n x
      × All
          (λ y. Overwrites st_ins.mem_addr st_ins.seq_num y → x.element.seq_num ≤ y.element.seq_num)
          s.sq.table
      × Last (λ y. ¬ Violating st_ins.mem_addr st_ins.seq_num n y) x loads
is_lq_violation-Violating s st_ins head x loads a shape h =
    let (n, stores, answered) = parts s st_ins (some x) h in
    let found_in : has_any_complete_ld_from_addr st_ins.mem_addr st_ins.seq_num n (head ∷ loads)
        ≡ some (some x) =
      rw shape at answered in
    let (v, youngest) =
      has_any_complete_ld-youngest st_ins.mem_addr st_ins.seq_num n head x loads found_in in
    (
      upper n (head ∷ loads),
      v,
      bounded st_ins.mem_addr st_ins.seq_num n s.sq.table (head ∷ loads) x a stores v,
      youngest,
    )

-- A load that was served by the cache although the store, which is older, writes its address.
pub record TooEarly (addr seq : ℕ) (e : Entry) : Type 0 where
  pub younger : seq < e.element.seq_num
  pub same : e.element.mem_addr ≡ addr
  pub loaded : e.element.lq_state ≡ LqState.lq_complete
  pub cached : e.element.cache_axes ≡ true

below_last :
    (e : Entry) (l : List Entry)
    → IsAged (e ∷ l)
    → All (λ y. y.element.seq_num ≤ upper no_waw_st_ins (e ∷ l)) (e ∷ l)
unfolding upper
below_last e [] a = (omega arith, tt)
below_last e (d ∷ l) (older, a) =
    let (next, rest) = below_last d l a in (omega (arith, older, next), (next, rest))

TooEarly-Violating :
    (addr seq n : ℕ) (y : Entry)
    → TooEarly addr seq y
    → y.element.seq_num ≤ n
    → Violating addr seq n y
TooEarly-Violating addr seq n y e within = record {
  younger = e.younger;
  within = within;
  same = e.same;
  loaded = e.loaded;
  cached = e.cached;
}

beyond :
    (addr seq n : ℕ) (l : List Entry) (y : Entry)
    → 0 < n
    → ¬ Violating addr seq (upper n l) y
    → TooEarly addr seq y
    → n < y.element.seq_num
beyond addr seq n l y pos k e = elim (Bool-cases (ltb n y.element.seq_num)) [
  | inl past ↦ ground (arith, past)
  | inr within ↦ absurd (
      k (
        TooEarly-Violating addr seq (upper n l) y e
          (rw (upper-eq n l pos) (ground (arith, within)))))
]

All-both : (P Q : Entry → Type 0) (l : List Entry) → All P l → All Q l → All (λ y. P y × Q y) l
All-both P Q [] ps qs = tt
All-both P Q (x ∷ l) (p, ps) (q, qs) = ((p, q), All-both P Q l ps qs)

covered :
    (addr seq n : ℕ) (sq loads : List Entry) (head : Entry)
    → IsAged (head ∷ loads)
    → has_any_complete_st_from_addr addr seq sq ≡ some n
    → has_any_complete_ld_from_addr addr seq n (head ∷ loads) ≡ some none
    → All
        (λ y.
          TooEarly addr seq y
          → (z : Entry) × Overwrites addr seq z
            × (z.element.seq_num < y.element.seq_num)
            × First (λ w. ¬ Overwrites addr seq w) z sq)
        loads
covered addr seq n sq loads head a stores answered =
    let missed = has_any_complete_ld_complete addr seq n head loads a answered in
    elim (has_any_complete_st-oldest addr seq n sq stores) [
      | inl (zero_sn, no_store) ↦
          let top = upper n (head ∷ loads) in
          let below = (below_last head loads a).1 in
          All-mono loads
            (λ y k e. absurd (k.0 (TooEarly-Violating addr seq top y e (rw zero_sn k.1))))
            (All-both (λ y. ¬ Violating addr seq top y)
              (λ y. y.element.seq_num ≤ upper no_waw_st_ins (head ∷ loads)) loads missed below)
      | inr (z, number, over, (pre, post, split, before)) ↦
          All-mono loads
            (λ y k e. (
              z,
              over,
              omega (
                arith,
                number,
                beyond addr seq n (head ∷ loads) y (omega (arith, number, over.younger)) k e,
              ),
              (pre, post, split, before),
            ))
            missed
    ]

-- Where the load queue is in the order of age and the test answers with no load, a load behind its
-- head that read the cache too early for the store is no violation of it: the
-- first store of the store queue that is complete, to the same address and younger than the given
-- one is older than the load.
pub is_lq_violation-TooEarly :
    (s : MemManager) (st_ins : Instruction) (head : Entry) (loads : List Entry)
    → IsAged (head ∷ loads)
    → s.lq.table ≡ head ∷ loads
    → is_lq_violation s st_ins ≡ some none
    → All
        (λ y.
          TooEarly st_ins.mem_addr st_ins.seq_num y
          → (z : Entry) × Overwrites st_ins.mem_addr st_ins.seq_num z
            × (z.element.seq_num < y.element.seq_num)
            × First (λ w. ¬ Overwrites st_ins.mem_addr st_ins.seq_num w) z s.sq.table)
        loads
is_lq_violation-TooEarly s st_ins head loads a shape h =
    let (n, stores, answered) = parts s st_ins none h in
    covered st_ins.mem_addr st_ins.seq_num n s.sq.table loads head a stores (rw shape at answered)
