-- ===== src/Base/Int.antt =====
-- Signed integers over the native numbers, and the machine integers of the contracts: `u32`, `u64`
-- and `i128`, whose operations trap on overflow (`overflow-checks = true`).
use Prim.Native.Nat.{ℕ, suc, ◌+◌, ◌-◌, ◌*◌, ◌/◌, ◌≤◌, ◌<◌}
use mathlib.Core.Path.{◌≡◌}
use mathlib.Core.Bool.{Bool, true, false, ◌&&◌}
use mathlib.Core.Logic.{◌⊎◌, ◌≢◌}
use mathlib.Core.Option.{Option, none, some}
use native.Mathlib.Omega.{arith}
use ahjoorxmr_contract.Base.Tests.{ltb, leb, if◌then◌else◌}

-- `negsuc n` is -(n + 1).
pub data ℤ : Type 0 where
  pos : ℕ → ℤ
  negsuc : ℕ → ℤ

abbrev pub pos_part : ℤ → ℕ
pos_part (pos n) = n
pos_part (negsuc n) = 0

abbrev pub neg_part : ℤ → ℕ
neg_part (pos n) = 0
neg_part (negsuc n) = suc n

-- a - b, as an integer.
abbrev pub sub_ℕ : ℕ → ℕ → ℤ
sub_ℕ a b = if leb b a then pos (a - b) else negsuc (b - a - 1)

infixl 65 ◌+ℤ◌ ◌-ℤ◌
infixl 70 ◌*ℤ◌ ◌/ℤ◌
infix 50 ◌≤ℤ◌ ◌<ℤ◌
unfoldable pub ◌+ℤ◌ : ℤ → ℤ → ℤ
a +ℤ b = sub_ℕ (pos_part a + pos_part b) (neg_part a + neg_part b)

unfoldable pub ◌-ℤ◌ : ℤ → ℤ → ℤ
a -ℤ b = sub_ℕ (pos_part a + neg_part b) (neg_part a + pos_part b)

unfoldable pub ◌*ℤ◌ : ℤ → ℤ → ℤ
a *ℤ b =
    sub_ℕ (pos_part a * pos_part b + neg_part a * neg_part b)
      (pos_part a * neg_part b + neg_part a * pos_part b)

-- Division by a positive number, toward zero.
unfoldable pub ◌/ℤ◌ : ℤ → ℕ → ℤ
a /ℤ k = sub_ℕ (pos_part a / k) (neg_part a / k)

abbrev pub ◌≤ℤ◌ : ℤ → ℤ → Type 0
a ≤ℤ b = pos_part a + neg_part b ≤ pos_part b + neg_part a

abbrev pub ◌<ℤ◌ : ℤ → ℤ → Type 0
a <ℤ b = pos_part a + neg_part b < pos_part b + neg_part a

abbrev pub ltb_ℤ : ℤ → ℤ → Bool
ltb_ℤ a b = ltb (pos_part a + neg_part b) (pos_part b + neg_part a)

abbrev pub leb_ℤ : ℤ → ℤ → Bool
leb_ℤ a b = leb (pos_part a + neg_part b) (pos_part b + neg_part a)

-- `==` on `i128`.
abbrev pub eq_ℤ : ℤ → ℤ → Bool
eq_ℤ a b = leb_ℤ a b && leb_ℤ b a

pub eq_ℤ-cases : (a b : ℤ) → ((eq_ℤ a b ≡ true) × (a ≡ b)) ⊎ ((eq_ℤ a b ≡ false) × (a ≢ b))
eq_ℤ-cases a b = ground arith

pub pos_of_ne_zero : (a : ℤ) → pos 0 ≤ℤ a → a ≢ pos 0 → pos 0 <ℤ a
pos_of_ne_zero a h ne = ground arith

pub +ℤ_parts :
    (a b : ℤ)
    → pos_part (a +ℤ b) + neg_part a + neg_part b ≡ neg_part (a +ℤ b) + pos_part a + pos_part b
unfolding ◌+ℤ◌
+ℤ_parts a b = ground arith

pub -ℤ_parts :
    (a b : ℤ)
    → pos_part (a -ℤ b) + neg_part a + pos_part b ≡ neg_part (a -ℤ b) + pos_part a + neg_part b
unfolding ◌-ℤ◌
-ℤ_parts a b = ground arith

pub eq_of_parts : (a b : ℤ) → pos_part a + neg_part b ≡ pos_part b + neg_part a → a ≡ b
eq_of_parts a b h = ground arith

pub ruleset int_laws = (arith, +ℤ_parts, -ℤ_parts, eq_of_parts)

pub pos-+ℤ : (a b : ℕ) → pos a +ℤ pos b ≡ pos (a + b)
unfolding ◌+ℤ◌
pos-+ℤ a b = ground arith

-- The product and the quotient of numbers that are not negative.
pub pos-*ℤ : (a b : ℕ) → pos a *ℤ pos b ≡ pos (a * b)
unfolding ◌*ℤ◌
pos-*ℤ a b = ground arith

pub pos-/ℤ : (a k : ℕ) → pos a /ℤ k ≡ pos (a / k)
unfolding ◌/ℤ◌
pos-/ℤ a k = ground arith

pub le_of_fiftieth : (x a : ℤ) → pos 0 ≤ℤ x → x *ℤ pos 50 ≤ℤ a → x ≤ℤ a
le_of_fiftieth (pos n) a h k = omega (arith, rw (pos-*ℤ n 50) at k)
le_of_fiftieth (negsuc n) a h k = absurd (omega arith)

abbrev pub u32_max : ℕ
u32_max = 4294967295

abbrev pub u64_max : ℕ
u64_max = 18446744073709551615

-- 2 ^ 127 - 1
abbrev pub i128_max : ℕ
i128_max = 170141183460469231731687303715884105727

-- A `u32`, `u64` or `i128` result, or overflow.
abbrev pub checked_u32 : ℕ → Option ℕ
checked_u32 n = if leb n u32_max then some n else none

abbrev pub checked_u64 : ℕ → Option ℕ
checked_u64 n = if leb n u64_max then some n else none

abbrev pub fits_i128 : ℤ → Bool
fits_i128 (pos n) = leb n i128_max
fits_i128 (negsuc n) = leb n i128_max

abbrev pub checked_i128 : ℤ → Option ℤ
checked_i128 z = if fits_i128 z then some z else none

-- `a - b` on `u32` and `u64`.
abbrev pub checked_sub : ℕ → ℕ → Option ℕ
checked_sub a b = if leb b a then some (a - b) else none

-- `saturating_add` on `u32`.
abbrev pub saturating_add_u32 : ℕ → ℕ → ℕ
saturating_add_u32 a b = if leb (a + b) u32_max then a + b else u32_max

-- 2 ^ 128 - 1
abbrev pub u128_max : ℕ
u128_max = 340282366920938463463374607431768211455

abbrev pub checked_u128 : ℕ → Option ℕ
checked_u128 n = if leb n u128_max then some n else none

-- `as u128` on `i128` and back: the same bits.
abbrev pub as_u128 : ℤ → ℕ
as_u128 (pos n) = n
as_u128 (negsuc n) = u128_max - n

abbrev pub as_i128 : ℕ → ℤ
as_i128 n = if leb n i128_max then pos n else negsuc (u128_max - n)

abbrev pub i128_min : ℤ
i128_min = negsuc i128_max

-- `saturating_sub` on `i128`.
unfoldable pub saturating_sub_i128 : ℤ → ℤ → ℤ
saturating_sub_i128 a b =
    let d = a -ℤ b in
    if ltb_ℤ (pos i128_max) d then pos i128_max else if ltb_ℤ d i128_min then i128_min else d
