-- ===== src/Common/Values.antt =====
-- The numbers that a list of pairs leads to, counted; such a list is a `std::map` between registers
-- or a history of its changes.
use Prim.Native.Nat.{ℕ, ◌+◌, ◌<◌, ◌≤◌}
use mathlib.Core.Path.{◌≡◌, refl}
use mathlib.Core.Option.{none, some}
use mathlib.Core.List.{List, [], ◌∷◌, ◌++◌}
use native.Mathlib.Omega.{arith}
use cg_oo_o.Common.Tests.{◌==◌, if◌then◌else◌}
use cg_oo_o.Common.Lists.{count}
use cg_oo_o.Common.Maps.{lookup, insert, erase}

abbrev pub values : List (ℕ × ℕ) → List ℕ
values [] = []
values ((k, v) ∷ m) = v ∷ values m

pub count-values-append :
    (p : ℕ) (m n : List (ℕ × ℕ))
    → count p (values (m ++ n)) ≡ count p (values m) + count p (values n)
count-values-append p [] n = omega arith
count-values-append p (x ∷ m) n = omega (arith, count-values-append p m n)

pub count-values-insert :
    (p k v : ℕ) (m : List (ℕ × ℕ))
    → lookup k m ≡ none
    → count p (values (insert k v m)) ≡ (if p == v then 1 else 0) + count p (values m)
unfolding lookup insert
count-values-insert p k v [] h = refl
count-values-insert p k v ((i, w) ∷ m) h = ground (arith, count-values-insert p k v m)

pub count-values-erase :
    (p k v : ℕ) (m : List (ℕ × ℕ))
    → lookup k m ≡ some v
    → (if p == v then 1 else 0) + count p (values (erase k m)) ≡ count p (values m)
unfolding lookup erase
count-values-erase p k v [] h = cc
count-values-erase p k v ((i, w) ∷ m) h = ground (arith, count-values-erase p k v m)

-- What a key leads to is one of the values.
pub count-values-lookup :
    (k v : ℕ) (m : List (ℕ × ℕ)) → lookup k m ≡ some v → 0 < count v (values m)
unfolding lookup
count-values-lookup k v [] h = cc
count-values-lookup k v ((i, w) ∷ m) h = ground (arith, count-values-lookup k v m)

pub count-values-erase_le :
    (p k : ℕ) (m : List (ℕ × ℕ)) → count p (values (erase k m)) ≤ count p (values m)
unfolding erase
count-values-erase_le p k [] = omega arith
count-values-erase_le p k ((i, w) ∷ m) = ground (arith, count-values-erase_le p k m)
