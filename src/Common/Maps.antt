-- ===== src/Common/Maps.antt =====
-- `std::map` with number keys: entries in the order of their keys, which iteration follows.
-- `insert` leaves an entry that is there as it was, as `std::map::insert` does.
use Prim.Native.Nat.{ℕ, suc, ◌+◌, ◌<◌}
use mathlib.Core.Path.{◌≡◌, refl, ◌∙◌}
use mathlib.Core.Logic.{◌≢◌, inl, inr}
use mathlib.Core.Option.{Option, none, some}
use mathlib.Core.Option
use mathlib.Core.List.{List, [], ◌∷◌, ◌++◌}
use native.Mathlib.Omega.{arith}
use cg_oo_o.Common.Tests.{ltb, ◌==◌, if◌then◌else◌, eq→==, Bool-cases}
use cg_oo_o.Common.Lists.{length, count}

module _ {ℓ} {V : Type ℓ} where
  unfoldable pub lookup : ℕ → List (ℕ × V) → Option V
  lookup k [] = none
  lookup k ((j, v) ∷ m) = if k == j then some v else lookup k m

  unfoldable pub insert : ℕ → V → List (ℕ × V) → List (ℕ × V)
  insert k v [] = (k, v) ∷ []
  insert k v ((j, w) ∷ m) =
      let rest = insert k v m in
      if k == j then (j, w) ∷ m else if ltb k j then (k, v) ∷ (j, w) ∷ m else (j, w) ∷ rest

  unfoldable pub erase : ℕ → List (ℕ × V) → List (ℕ × V)
  erase k [] = []
  erase k ((j, w) ∷ m) = if k == j then m else (j, w) ∷ erase k m

  -- A write through the pointer or reference that a key leads to.
  unfoldable pub modify : ℕ → (V → V) → List (ℕ × V) → List (ℕ × V)
  modify k f [] = []
  modify k f ((j, w) ∷ m) = if k == j then (j, f w) ∷ m else (j, w) ∷ modify k f m

  abbrev pub keys : List (ℕ × V) → List ℕ
  keys [] = []
  keys ((j, w) ∷ m) = j ∷ keys m

  -- Every key is above a bound, and the keys rise.
  abbrev pub Above : ℕ → List (ℕ × V) → Type 0
  Above n [] = Unit
  Above n ((j, w) ∷ m) = (n < j) × Above j m

  abbrev pub IsOrdered : List (ℕ × V) → Type 0
  IsOrdered [] = Unit
  IsOrdered ((j, w) ∷ m) = Above j m

  pub lookup-Above : (k n : ℕ) (m : List (ℕ × V)) → k < suc n → Above n m → lookup k m ≡ none
  unfolding lookup
  lookup-Above k n [] h a = refl
  lookup-Above k n ((j, w) ∷ m) h a = ground (arith, lookup-Above k j m (omega arith) a.1)

  Above-le : (k n : ℕ) (m : List (ℕ × V)) → k < suc n → Above n m → Above k m
  Above-le k n [] h a = tt
  Above-le k n ((j, w) ∷ m) h a = (omega arith, a.1)

  insert-Above : (n k : ℕ) (v : V) (m : List (ℕ × V)) → n < k → Above n m → Above n (insert k v m)
  unfolding insert
  insert-Above n k v [] h a = (h, tt)
  insert-Above n k v ((j, w) ∷ m) h a = ground (arith, insert-Above j k v m)

  pub insert-IsOrdered : (k : ℕ) (v : V) (m : List (ℕ × V)) → IsOrdered m → IsOrdered (insert k v m)
  unfolding insert
  insert-IsOrdered k v [] a = tt
  insert-IsOrdered k v ((j, w) ∷ m) a = ground (arith, insert-Above j k v m)

  erase-Above : (n k : ℕ) (m : List (ℕ × V)) → Above n m → Above n (erase k m)
  unfolding erase
  erase-Above n k [] a = tt
  erase-Above n k ((j, w) ∷ m) a =
      ground (arith, erase-Above j k m a.1, Above-le n j m (omega arith) a.1)

  pub erase-IsOrdered : (k : ℕ) (m : List (ℕ × V)) → IsOrdered m → IsOrdered (erase k m)
  unfolding erase
  erase-IsOrdered k [] a = tt
  erase-IsOrdered k ((j, w) ∷ []) a = ground arith
  erase-IsOrdered k ((j, w) ∷ (i, x) ∷ m) a = ground (arith, erase-Above j k ((i, x) ∷ m) a)

  pub lookup-insert :
      (k j : ℕ) (v : V) (m : List (ℕ × V))
      → lookup k m ≡ none
      → lookup j (insert k v m) ≡ (if j == k then some v else lookup j m)
  unfolding lookup insert
  lookup-insert k j v [] h = refl
  lookup-insert k j v ((i, w) ∷ m) h = ground (arith, lookup-insert k j v m)

  pub lookup-erase_self : (k : ℕ) (m : List (ℕ × V)) → IsOrdered m → lookup k (erase k m) ≡ none
  unfolding lookup erase
  lookup-erase_self k [] a = refl
  lookup-erase_self k ((j, w) ∷ []) a = ground arith
  lookup-erase_self k ((j, w) ∷ (i, x) ∷ m) a =
      ground (arith, lookup-Above k j ((i, x) ∷ m), lookup-erase_self k ((i, x) ∷ m) a.1)

  pub lookup-erase_ne : (k j : ℕ) (m : List (ℕ × V)) → j ≢ k → lookup j (erase k m) ≡ lookup j m
  unfolding lookup erase
  lookup-erase_ne k j [] h = refl
  lookup-erase_ne k j ((i, w) ∷ m) h = ground (arith, lookup-erase_ne k j m h)

  -- `erase` and then `insert`: the map with one entry renewed.
  pub lookup-insert-erase :
      (k j : ℕ) (v : V) (m : List (ℕ × V))
      → IsOrdered m
      → lookup j (insert k v (erase k m)) ≡ (if j == k then some v else lookup j m)
  lookup-insert-erase k j v m a =
      lookup-insert k j v (erase k m) (lookup-erase_self k m a) ∙ elim (Bool-cases (j == k)) [
        | inl same ↦ rw same
        | inr other ↦ rw other (lookup-erase_ne k j m (λ e. cc (eq→== j k e)))
      ]

  pub lookup-modify :
      (k j : ℕ) (f : V → V) (m : List (ℕ × V))
      → lookup j (modify k f m) ≡ (if j == k then Option.map f (lookup j m) else lookup j m)
  unfolding lookup modify
  lookup-modify k j f [] = ground arith
  lookup-modify k j f ((i, w) ∷ m) = ground (arith, lookup-modify k j f m)

  pub keys-modify : (k : ℕ) (f : V → V) (m : List (ℕ × V)) → keys (modify k f m) ≡ keys m
  unfolding modify
  keys-modify k f [] = refl
  keys-modify k f ((i, w) ∷ m) = ground (arith, keys-modify k f m)

  pub length-insert :
      (k : ℕ) (v : V) (m : List (ℕ × V))
      → lookup k m ≡ none
      → length (insert k v m) ≡ suc (length m)
  unfolding lookup insert
  length-insert k v [] h = refl
  length-insert k v ((i, w) ∷ m) h = ground (arith, length-insert k v m)

  pub length-erase :
      (k : ℕ) (v : V) (m : List (ℕ × V)) → lookup k m ≡ some v → suc (length (erase k m)) ≡ length m
  unfolding lookup erase
  length-erase k v [] h = cc
  length-erase k v ((i, w) ∷ m) h = ground (arith, length-erase k v m)

  -- A key is in the map exactly as often as it is counted.
  pub count-keys-none : (k : ℕ) (m : List (ℕ × V)) → lookup k m ≡ none → count k (keys m) ≡ 0
  unfolding lookup
  count-keys-none k [] h = refl
  count-keys-none k ((i, w) ∷ m) h = ground (arith, count-keys-none k m)

  pub lookup-of-count :
      (k : ℕ) (m : List (ℕ × V)) → 0 < count k (keys m) → (v : V) × (lookup k m ≡ some v)
  unfolding lookup
  lookup-of-count k [] h = absurd (omega arith)
  lookup-of-count k ((i, w) ∷ m) h = elim (Bool-cases (k == i)) [
    | inl same ↦ (w, rw same)
    | inr other ↦ rw other (lookup-of-count k m (ground arith))
  ]

  pub count-erase :
      (p k : ℕ) (m : List (ℕ × V))
      → 0 < count k (keys m)
      → (if p == k then 1 else 0) + count p (keys (erase k m)) ≡ count p (keys m)
  unfolding erase
  count-erase p k [] h = absurd (omega arith)
  count-erase p k ((i, w) ∷ m) h = ground (arith, count-erase p k m)

  count-Above : (p n : ℕ) (m : List (ℕ × V)) → p < suc n → Above n m → count p (keys m) ≡ 0
  count-Above p n [] h a = refl
  count-Above p n ((j, w) ∷ m) h a = ground (arith, count-Above p j m (omega arith) a.1)

  count-Above-lt : (p n : ℕ) (m : List (ℕ × V)) → Above n m → count p (keys m) < 2
  count-Above-lt p n [] a = omega arith
  count-Above-lt p n ((j, w) ∷ m) a = ground (arith, count-Above p j m, count-Above-lt p j m a.1)

  -- No key is there twice.
  pub count-keys-lt : (p : ℕ) (m : List (ℕ × V)) → IsOrdered m → count p (keys m) < 2
  count-keys-lt p [] a = omega arith
  count-keys-lt p ((j, w) ∷ m) a = ground (arith, count-Above p j m, count-Above-lt p j m a)

  pub count-insert :
      (p k : ℕ) (v : V) (m : List (ℕ × V))
      → lookup k m ≡ none
      → count p (keys (insert k v m)) ≡ (if p == k then 1 else 0) + count p (keys m)
  unfolding lookup insert
  count-insert p k v [] h = refl
  count-insert p k v ((i, w) ∷ m) h = ground (arith, count-insert p k v m)

  pub length-modify : (k : ℕ) (f : V → V) (m : List (ℕ × V)) → length (modify k f m) ≡ length m
  unfolding modify
  length-modify k f [] = refl
  length-modify k f ((i, w) ∷ m) = ground (arith, length-modify k f m)

  Above-append : (n k : ℕ) (v : V) (acc m : List (ℕ × V)) → Above n (acc ++ ((k, v) ∷ m)) → n < k
  Above-append n k v [] m a = a.0
  Above-append n k v ((j, w) ∷ acc) m a = omega (arith, a.0, Above-append j k v acc m a.1)

  Above-IsOrdered : (n : ℕ) (m : List (ℕ × V)) → Above n m → IsOrdered m
  Above-IsOrdered n [] a = tt
  Above-IsOrdered n ((j, w) ∷ m) a = a.1

  -- A key above all others goes to the end.
  pub insert_last :
      (k : ℕ) (v : V) (acc m : List (ℕ × V))
      → IsOrdered (acc ++ ((k, v) ∷ m))
      → insert k v acc ≡ acc ++ ((k, v) ∷ [])
  unfolding insert
  insert_last k v [] m o = refl
  insert_last k v ((j, w) ∷ acc) m o = ground (
    arith,
    Above-append j k v acc m o,
    insert_last k v acc m (Above-IsOrdered j (acc ++ ((k, v) ∷ m)) o),
  )

  pub lookup-none : (k : ℕ) (m : List (ℕ × V)) → count k (keys m) ≡ 0 → lookup k m ≡ none
  unfolding lookup
  lookup-none k [] h = refl
  lookup-none k ((i, w) ∷ m) h = ground (arith, lookup-none k m)
