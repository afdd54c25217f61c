-- ===== src/O3/Lsq/Forward.antt =====
-- Which store a load takes its value from: `hasMemAddr` of src/backend/o3/lsq.cpp.
use cg_oo_o.Common.{
  ℕ, ◌<◌, ◌≡◌, refl, ◌⊎◌, inl, inr, Bool, true, false, ◌||◌, List, some, arith, All, All-mono,
}
use cg_oo_o.O3.Scan.{
  find_back, Verdict, found, stop, further, Found, at, stopped, nowhere, Last, find_back-at,
  find_back-nowhere, find_back-stopped, find_back-total,
}
use cg_oo_o.O3.Lsq.{Entry, matches_store, has_mem_addr, is_complete, is_commit}

-- An older store to the address; where the memory model is naive speculation, one that is complete.
pub record Supplies (naive : Bool) (addr seq : ℕ) (e : Entry) : Type 0 where
  pub older : e.element.seq_num < seq
  pub finished :
      naive ≡ true → (is_complete e.element.ins_stage || is_commit e.element.ins_stage) ≡ true
  pub same : e.element.mem_addr ≡ addr

matches_store-found :
    (naive : Bool) (addr seq : ℕ) (e : Entry)
    → matches_store naive addr seq e ≡ some found
    → Supplies naive addr seq e
unfolding matches_store
matches_store-found naive addr seq e h = record {
  older = ground (arith, h);
  finished = λ n. ground (arith, h, n);
  same = ground (arith, h);
}

matches_store-further :
    (naive : Bool) (addr seq : ℕ) (e : Entry)
    → matches_store naive addr seq e ≡ some further
    → ¬ Supplies naive addr seq e
unfolding matches_store
matches_store-further true addr seq e h v = ground (arith, h, v.older, v.finished refl, v.same)
matches_store-further false addr seq e h v = ground (arith, h, v.older, v.same)

no_stop : (naive : Bool) (addr seq : ℕ) (e : Entry) → ¬ (matches_store naive addr seq e ≡ some stop)
unfolding matches_store
no_stop naive addr seq e h = ground (arith, h)

decides :
    (naive : Bool) (addr seq : ℕ) (e : Entry)
    → (v : Verdict) × (matches_store naive addr seq e ≡ some v)
unfolding matches_store
decides naive addr seq e = (_, refl)

forwards :
    (naive : Bool) (addr seq : ℕ) (l : List Entry) (r : Found Entry)
    → find_back (matches_store naive addr seq) l ≡ some r
    → ((has_mem_addr naive addr seq l ≡ some false) × All (λ y. ¬ Supplies naive addr seq y) l)
      ⊎ ((has_mem_addr naive addr seq l ≡ some true)
          × (x : Entry) × Supplies naive addr seq x
          × Last (λ y. ¬ Supplies naive addr seq y) x l)
unfolding has_mem_addr
forwards naive addr seq l (at x) ran =
    let (hit, (pre, post, split, after)) = find_back-at (matches_store naive addr seq) l x ran in
    inr (
      rw ran,
      x,
      matches_store-found naive addr seq x hit,
      (pre, post, split, All-mono post (λ y k. matches_store-further naive addr seq y k) after),
    )
forwards naive addr seq l stopped ran =
    let (x, end, rest) = find_back-stopped (matches_store naive addr seq) l ran in
    absurd (no_stop naive addr seq x end)
forwards naive addr seq l nowhere ran = inl (
  rw ran,
  All-mono l (λ y k. matches_store-further naive addr seq y k)
      (find_back-nowhere (matches_store naive addr seq) l ran),
)

-- `hasMemAddr` always answers. It says no just when no store of the queue can supply the load, and
-- where it says yes there is a last store of the queue that can.
pub has_mem_addr-Supplies :
    (naive : Bool) (addr seq : ℕ) (l : List Entry)
    → ((has_mem_addr naive addr seq l ≡ some false) × All (λ y. ¬ Supplies naive addr seq y) l)
      ⊎ ((has_mem_addr naive addr seq l ≡ some true)
          × (x : Entry) × Supplies naive addr seq x
          × Last (λ y. ¬ Supplies naive addr seq y) x l)
has_mem_addr-Supplies naive addr seq l =
    let (r, ran) = find_back-total (matches_store naive addr seq) l (decides naive addr seq) in
    forwards naive addr seq l r ran
