-- ===== src/Base/Members.antt =====
-- The members of a list of numbers: the search and the copy without one, as the contracts write them
-- for addresses and numbers.
use Prim.Native.Nat.{ℕ, zero, suc}
use mathlib.Core.Path.{◌≡◌, refl}
use mathlib.Core.Logic.{◌≢◌, inl, inr}
use mathlib.Core.Bool.{Bool, true, false, ◌||◌}
use mathlib.Core.Option.{some}
use mathlib.Core.List.{List, [], ◌∷◌, ◌++◌}
use native.Mathlib.Omega.{arith}
use ahjoorxmr_contract.Base.Tests.{◌==◌, if◌then◌else◌, Bool-cases}
use ahjoorxmr_contract.Base.Lists.{get_elem?}

-- The loop that looks for an item.
unfoldable pub contains : ℕ → List ℕ → Bool
contains a [] = false
contains a (x ∷ xs) = x == a || contains a xs

-- The loop that copies a list without an item.
unfoldable pub without : ℕ → List ℕ → List ℕ
without a [] = []
without a (x ∷ xs) = let rest = without a xs in if x == a then rest else x ∷ rest

-- No item twice.
abbrev pub IsDistinct : List ℕ → Type 0
IsDistinct [] = Unit
IsDistinct (a ∷ xs) = (contains a xs ≡ false) × IsDistinct xs

pub contains-append :
    (a b : ℕ) (xs : List ℕ) → contains a (xs ++ (b ∷ [])) ≡ (contains a xs || (b == a))
unfolding contains
contains-append a b [] = ground arith
contains-append a b (c ∷ xs) = ground (arith, contains-append a b xs)

pub IsDistinct-append :
    (b : ℕ) (xs : List ℕ) → contains b xs ≡ false → IsDistinct xs → IsDistinct (xs ++ (b ∷ []))
unfolding contains
IsDistinct-append b [] out d = (refl, tt)
IsDistinct-append b (c ∷ xs) out (new, d) =
    (ground (arith, contains-append c b xs), IsDistinct-append b xs (ground arith) d)

pub contains-without :
    (a b : ℕ) (xs : List ℕ) → contains a xs ≡ false → contains a (without b xs) ≡ false
unfolding contains without
contains-without a b [] h = refl
contains-without a b (c ∷ xs) h = ground (arith, contains-without a b xs)

-- The copy without an item has none of it.
pub without_self : (a : ℕ) (xs : List ℕ) → contains a (without a xs) ≡ false
unfolding contains without
without_self a [] = refl
without_self a (c ∷ xs) = ground (arith, without_self a xs)

-- The others stay.
pub without-other : (a b : ℕ) (xs : List ℕ) → a ≢ b → contains a (without b xs) ≡ contains a xs
unfolding contains without
without-other a b [] ne = refl
without-other a b (c ∷ xs) ne = ground (arith, without-other a b xs)

pub IsDistinct-without : (b : ℕ) (xs : List ℕ) → IsDistinct xs → IsDistinct (without b xs)
unfolding without
IsDistinct-without b [] d = tt
IsDistinct-without b (c ∷ xs) (new, d) = elim (Bool-cases (c == b)) [
  | inl hit ↦ rw hit (IsDistinct-without b xs d)
  | inr miss ↦ rw miss (contains-without c b xs new, IsDistinct-without b xs d)
]

pub get_elem?-contains : (xs : List ℕ) (i a : ℕ) → get_elem? xs i ≡ some a → contains a xs ≡ true
unfolding contains
get_elem?-contains [] i a h = ground arith
get_elem?-contains (b ∷ xs) zero a h = ground arith
get_elem?-contains (b ∷ xs) (suc i) a h = ground (arith, get_elem?-contains xs i a h)
