-- ===== src/Base/Sums.antt =====
-- Sums over the entries of a map below a number.
use Prim.Native.Nat.{ℕ, zero, suc, ◌≤◌, ◌<◌}
use mathlib.Core.Path.{◌≡◌, refl}
use mathlib.Core.Logic.{inl, inr}
use native.Mathlib.Omega.{arith}
use ahjoorxmr_contract.Base.Tests.{◌==◌, Bool-cases, put}
use ahjoorxmr_contract.Base.Int.{ℤ, pos, ◌+ℤ◌, int_laws}

module _ {A : Type 0} (g : A → ℤ) where
  unfoldable pub sum_below : ℕ → (ℕ → A) → ℤ
  sum_below zero f = pos 0
  sum_below (suc n) f = g (f n) +ℤ sum_below n f

  pub sum_below-put_ge :
      (n i : ℕ) (f : ℕ → A) (v : A) → n ≤ i → sum_below n (put f i v) ≡ sum_below n f
  unfolding sum_below
  sum_below-put_ge zero i f v h = refl
  sum_below-put_ge (suc n) i f v h = ground (arith, sum_below-put_ge n i f v (omega arith))

  pub sum_below-put :
      (n i : ℕ) (f : ℕ → A) (v : A)
      → i < n
      → sum_below n (put f i v) +ℤ g (f i) ≡ sum_below n f +ℤ g v
  unfolding sum_below
  sum_below-put zero i f v h = elim h [ ]
  sum_below-put (suc n) i f v h = elim (Bool-cases (i == n)) [
    | inl same ↦ grind (int_laws, sum_below-put_ge n i f v)
    | inr other ↦ grind (int_laws, sum_below-put n i f v)
  ]
