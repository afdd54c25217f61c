-- ===== src/O3/Commit/Replay.antt =====
-- What a squash after a memory violation leaves and replays (`memMispredSquash` of
-- src/backend/o3/commit.cpp).
use cg_oo_o.Common.{
  ℕ, zero, suc, ◌≤◌, ◌<◌, ◌≡◌, refl, sym, ap, ◌∙◌, inl, inr, true, false, List, [], ◌∷◌, ◌++◌, some,
  ltb, ◌==◌, ◌>>=◌, length, last?, last?-none, drop_last, drop_last-append-last, get_elem?,
  erase_idx, All, All-mono, length-append, map, arith, Bool-cases, Option-cases,
}
use mathlib.Core.List.{append-nil, append_assoc}
use cg_oo_o.Unit.Instruction.{Instruction, reset_states}
use cg_oo_o.Unit.Table.{Table, get_table_size, get_nth_unsafe, remove_nth_unsafe}
use cg_oo_o.O3.Lsq.{Entry}
use cg_oo_o.O3.Lsq.Age.{IsAged}
use cg_oo_o.O3.Commit.{CommitStage, squash_rob, replay_younger, mem_mispred_squash}

get_elem?-end : (xs : List Entry) (x : Entry) → get_elem? (xs ++ (x ∷ [])) (length xs) ≡ some x
get_elem?-end [] x = refl
get_elem?-end (y ∷ xs) x = get_elem?-end xs x

erase_idx-end : (xs : List Entry) (x : Entry) → erase_idx (xs ++ (x ∷ [])) (length xs) ≡ xs
erase_idx-end [] x = refl
erase_idx-end (y ∷ xs) x = ap (λ l. y ∷ l) (erase_idx-end xs x)

nonempty : (xs : List Entry) (x : Entry) → ltb 0 (length (xs ++ (x ∷ []))) ≡ true
nonempty [] x = refl
nonempty (y ∷ xs) x = ground arith

-- The last entry of a table.
module _ (q : Table Instruction) (xs : List Entry) (x : Entry) (i : ℕ)
    (shape : q.table ≡ xs ++ (x ∷ [])) (len : length xs ≡ i) where
  get_nth-end : get_nth_unsafe q i ≡ some x.element
  unfolding get_nth_unsafe
  get_nth-end = rw (shape, ← len, nonempty xs x, get_elem?-end xs x)

  remove_nth-end : remove_nth_unsafe q i ≡ some (record q { table = xs })
  unfolding remove_nth_unsafe
  remove_nth-end =
      rw (shape, ← len, nonempty xs x, get_elem?-end xs x)
        (ap (λ l. some (record q { table = l })) (erase_idx-end xs x))

  size-end : (get_table_size q == 0) ≡ false
  unfolding get_table_size
  size-end = rw shape (ground (arith, nonempty xs x))

-- The entries before the number `seq`, and the others.
abbrev pub Cut : ℕ → List Entry → List Entry → List Entry → Type 0
Cut seq l kept dropped =
    (l ≡ kept ++ dropped)
    × All (λ e. e.element.seq_num < seq) kept
    × All (λ e. seq ≤ e.element.seq_num) dropped

IsAged-front : (xs : List Entry) (x : Entry) → IsAged (xs ++ (x ∷ [])) → IsAged xs
IsAged-front [] x a = tt
IsAged-front (y ∷ []) x a = tt
IsAged-front (y ∷ z ∷ xs) x (older, a) = (older, IsAged-front (z ∷ xs) x a)

below_last :
    (xs : List Entry) (x : Entry)
    → IsAged (xs ++ (x ∷ []))
    → All (λ y. y.element.seq_num ≤ x.element.seq_num) (xs ++ (x ∷ []))
below_last [] x a = (omega arith, tt)
below_last (y ∷ []) x (older, a) = (omega (arith, older), (omega arith, tt))
below_last (y ∷ z ∷ xs) x (older, a) =
    let (next, rest) = below_last (z ∷ xs) x a in (omega (arith, older, next), (next, rest))

older-All :
    (seq : ℕ) (l xs : List Entry) (x : Entry)
    → l ≡ xs ++ (x ∷ [])
    → IsAged (xs ++ (x ∷ []))
    → ltb x.element.seq_num seq ≡ true
    → All (λ e. e.element.seq_num < seq) l
older-All seq l xs x shape a old =
    rw shape (All-mono (xs ++ (x ∷ [])) (λ y k. ground (arith, k, old)) (below_last xs x a))

no_entries : (l : List Entry) → length l ≡ 0 → l ≡ []
no_entries [] h = refl
no_entries (e ∷ l) h = absurd (omega arith)

All-snoc :
    (P : Entry → Type 0) (xs : List Entry) (x : Entry) → All P xs → P x → All P (xs ++ (x ∷ []))
All-snoc P [] x ps p = (p, tt)
All-snoc P (y ∷ xs) x (q, ps) p = (q, All-snoc P xs x ps p)

abbrev pub replayed : Entry → Instruction
replayed e = reset_states e.element

map-snoc :
    (xs : List Entry) (x : Entry) (cache : List Instruction)
    → map replayed (xs ++ (x ∷ [])) ++ cache ≡ map replayed xs ++ (replayed x ∷ cache)
map-snoc [] x cache = refl
map-snoc (y ∷ xs) x cache = ap (λ l. replayed y ∷ l) (map-snoc xs x cache)

-- One round, on the entry that the loop stops at and on one that it removes.
module _ (seq i : ℕ) (q : Table Instruction) (cache : List Instruction) (xs : List Entry)
    (x : Entry) (shape : q.table ≡ xs ++ (x ∷ [])) (len : length xs ≡ i) where
  stops : ltb x.element.seq_num seq ≡ true → replay_younger seq (suc i) q cache ≡ some (q, cache)
  unfolding replay_younger
  stops h = rw (size-end q xs x i shape len, get_nth-end q xs x i shape len, h)

  removes :
      ltb x.element.seq_num seq ≡ false
      → replay_younger seq (suc i) q cache
        ≡ replay_younger seq i (record q { table = xs }) (replayed x ∷ cache)
  unfolding replay_younger
  removes h = rw (
    size-end q xs x i shape len,
    get_nth-end q xs x i shape len,
    h,
    remove_nth-end q xs x i shape len,
  )

replay_younger-Cut :
    (seq n : ℕ) (q : Table Instruction) (cache : List Instruction)
    → length q.table ≡ n
    → IsAged q.table
    → (kept : List Entry) × (dropped : List Entry) × (replay_younger seq n q cache
        ≡ some (record q { table = kept }, map replayed dropped ++ cache))
      × Cut seq q.table kept dropped
unfolding replay_younger
replay_younger-Cut seq zero q cache len a =
    (q.table, [], refl, (sym (append-nil q.table), rw (no_entries q.table len) tt, tt))
replay_younger-Cut seq (suc i) q cache len a = elim (Option-cases (last? q.table)) [
  | inl empty ↦ absurd (omega (arith, len, ap length (last?-none q.table empty)))
  | inr (x, last) ↦
      let xs = drop_last q.table in
      let shape = drop_last-append-last q.table x last in
      let short : length xs ≡ i = omega (arith, len, ap length shape, length-append xs (x ∷ [])) in
      let aged : IsAged (xs ++ (x ∷ [])) = rw shape at a in
      elim (Bool-cases (ltb x.element.seq_num seq)) [
        | inl old ↦ (
          q.table,
          [],
          stops seq i q cache xs x shape short old,
          (sym (append-nil q.table), older-All seq q.table xs x shape aged old, tt),
        )
        | inr young ↦
            let (kept, dropped, ran, (split, before, behind)) =
              replay_younger-Cut seq i (record q { table = xs }) (replayed x ∷ cache) short
                (IsAged-front xs x aged) in
            (
              kept,
              dropped ++ (x ∷ []),
              removes seq i q cache xs x shape short young
                  ∙ ran
                  ∙ ap (λ c. some (record q { table = kept }, c)) (sym (map-snoc dropped x cache)),
              (
                shape ∙ ap (λ l. l ++ (x ∷ [])) split ∙ append_assoc kept dropped (x ∷ []),
                before,
                All-snoc (λ e. seq ≤ e.element.seq_num) dropped x behind (ground (arith, young)),
              ),
            )
      ]
]

squash_rob-replay_younger :
    (seq n : ℕ) (q : Table Instruction) (cache : List Instruction)
    → squash_rob seq n q ≡ (replay_younger seq n q cache >>= λ r. some r.0)
unfolding squash_rob replay_younger
squash_rob-replay_younger seq zero q cache = refl
squash_rob-replay_younger seq (suc i) q cache = elim (Bool-cases (get_table_size q == 0)) [
  | inl empty ↦ rw empty
  | inr more ↦ elim (Option-cases (get_nth_unsafe q i)) [
    | inl fails ↦ rw (more, fails)
    | inr (ins, got) ↦ elim (Bool-cases (ltb ins.seq_num seq)) [
      | inl old ↦ rw (more, got, old)
      | inr young ↦ elim (Option-cases (remove_nth_unsafe q i)) [
        | inl fails ↦ rw (more, got, young, fails)
        | inr (q', removed) ↦
            rw (more, got, young, removed)
              (squash_rob-replay_younger seq i q' (reset_states ins ∷ cache))
      ]
    ]
  ]
]

-- After a memory violation, where both tables are in the order of age, no check fails. The reorder
-- buffer and the instruction queue keep just the instructions before the squashed number. Those of
-- the queue from that number on stand, reset, in their old order at the front of the code cache,
-- before what was there: the program order goes on where the queue ends.
pub mem_mispred_squash-Cut :
    (s : CommitStage) (seq : ℕ)
    → IsAged s.rob.table
    → IsAged s.que.table
    → (kept_rob : List Entry) × (gone : List Entry) × (kept : List Entry) × (dropped : List Entry)
      × (mem_mispred_squash s seq
          ≡ some (record {
            rob = record (s.rob) { table = kept_rob };
            que = record (s.que) { table = kept };
            code_cache = map replayed dropped ++ s.code_cache;
          }))
      × Cut seq s.rob.table kept_rob gone
      × Cut seq s.que.table kept dropped
unfolding mem_mispred_squash get_table_size
mem_mispred_squash-Cut s seq ar aq =
    let (kept_rob, gone, ran, cut) = replay_younger-Cut seq (length s.rob.table) s.rob [] refl ar in
    let (kept, dropped, ran', cut') =
      replay_younger-Cut seq (length s.que.table) s.que s.code_cache refl aq in
    let robbed : squash_rob seq (length s.rob.table) s.rob
        ≡ some (record (s.rob) { table = kept_rob }) =
      squash_rob-replay_younger seq (length s.rob.table) s.rob [] ∙ rw ran in
    (kept_rob, gone, kept, dropped, rw (robbed, ran'), cut, cut')
