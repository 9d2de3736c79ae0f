-- ===== src/Prelude/Int.antt =====
-- The integers of the database and of Rust's `i64`, over the native numbers and under the library's
-- names. Bounds of the machine types are written out where the source has them.
use Prim.Native.Nat.{ℕ, zero, suc, ◌+◌, ◌-◌, ◌*◌, ◌/◌}
use mathlib.Core.Path.{◌≡◌, refl}
use mathlib.Core.Logic.{◌↔◌}
use mathlib.Core.Bool.{Bool, true, false, ◌&&◌}
use mathlib.Core.Option.{Option, none, some}
use native.Mathlib.Omega.{arith}
use rbph_website_backend.Prelude.Tests.{ltb, leb, ◌==◌, if◌then◌else◌}

-- `negsuc n` is -(n + 1).
pub data ℤ : Type 0 where
  pos : ℕ → ℤ
  negsuc : ℕ → ℤ

unfoldable pub leℤ : ℤ → ℤ → Bool
leℤ (pos a) (pos b) = leb a b
leℤ (pos a) (negsuc b) = false
leℤ (negsuc a) (pos b) = true
leℤ (negsuc a) (negsuc b) = leb b a

unfoldable pub ltℤ : ℤ → ℤ → Bool
ltℤ (pos a) (pos b) = ltb a b
ltℤ (pos a) (negsuc b) = false
ltℤ (negsuc a) (pos b) = true
ltℤ (negsuc a) (negsuc b) = ltb b a

unfoldable pub eqℤ : ℤ → ℤ → Bool
eqℤ (pos a) (pos b) = a == b
eqℤ (pos a) (negsuc b) = false
eqℤ (negsuc a) (pos b) = false
eqℤ (negsuc a) (negsuc b) = a == b

unfoldable pub minℤ : ℤ → ℤ → ℤ
unfolding leℤ
minℤ x y = if leℤ x y then x else y

unfoldable pub maxℤ : ℤ → ℤ → ℤ
unfolding leℤ
maxℤ x y = if leℤ x y then y else x

unfoldable pub negate : ℤ → ℤ
negate (pos zero) = pos 0
negate (pos (suc n)) = negsuc n
negate (negsuc n) = pos (suc n)

-- The difference of two naturals.
unfoldable pub diff : ℕ → ℕ → ℤ
diff a b = if leb b a then pos (a - b) else negsuc (b - suc a)

infixl 60 ◌+ℤ◌
unfoldable pub ◌+ℤ◌ : ℤ → ℤ → ℤ
unfolding diff
pos a +ℤ pos b = pos (a + b)
pos a +ℤ negsuc b = diff a (suc b)
negsuc a +ℤ pos b = diff b (suc a)
negsuc a +ℤ negsuc b = negsuc (suc (a + b))

infixl 60 ◌-ℤ◌
unfoldable pub ◌-ℤ◌ : ℤ → ℤ → ℤ
unfolding ◌+ℤ◌ negate
x -ℤ y = x +ℤ negate y

infixl 70 ◌*ℤ◌
unfoldable pub ◌*ℤ◌ : ℤ → ℤ → ℤ
unfolding negate
pos a *ℤ pos b = pos (a * b)
pos a *ℤ negsuc b = negate (pos (a * suc b))
negsuc a *ℤ pos b = negate (pos (suc a * b))
negsuc a *ℤ negsuc b = pos (suc a * suc b)

-- SQL's `FLOOR(x / d)`.
unfoldable pub floor_div : ℤ → ℕ → ℤ
floor_div (pos n) d = pos (n / d)
floor_div (negsuc n) d = negsuc (n / d)

-- `2 ^ 63 - 1` and `-(2 ^ 63)`.
abbrev pub i64_max : ℤ
i64_max = pos 9223372036854775807

abbrev pub i64_min : ℤ
i64_min = negsuc 9223372036854775807

abbrev pub i32_max : ℤ
i32_max = pos 2147483647

abbrev pub i32_min : ℤ
i32_min = negsuc 2147483647

unfoldable pub within : ℤ → ℤ → ℤ → Bool
unfolding leℤ
within low high x = leℤ low x && leℤ x high

-- `checked_add` and the like: the exact result where it fits.
unfoldable pub checked_i64 : ℤ → Option ℤ
unfolding within
checked_i64 x = if within i64_min i64_max x then some x else none

-- `saturating_add` and the like: the nearest bound where it does not fit.
unfoldable pub saturate_i64 : ℤ → ℤ
unfolding minℤ maxℤ
saturate_i64 x = maxℤ i64_min (minℤ x i64_max)

pub eqℤ_iff : (x y : ℤ) → (eqℤ x y ≡ true) ↔ (x ≡ y)
unfolding eqℤ
eqℤ_iff (pos a) (pos b) = ground arith
eqℤ_iff (pos a) (negsuc b) = ground arith
eqℤ_iff (negsuc a) (pos b) = ground arith
eqℤ_iff (negsuc a) (negsuc b) = ground arith

pub eqℤ_refl : (x : ℤ) → eqℤ x x ≡ true
eqℤ_refl x = (eqℤ_iff x x).1 refl

pub leℤ-refl : (x : ℤ) → leℤ x x ≡ true
unfolding leℤ
leℤ-refl (pos a) = ground arith
leℤ-refl (negsuc a) = ground arith

pub leℤ-trans : (x y z : ℤ) → leℤ x y ≡ true → leℤ y z ≡ true → leℤ x z ≡ true
unfolding leℤ
leℤ-trans (pos a) (pos b) (pos c) h k = ground arith
leℤ-trans (negsuc a) (pos b) (pos c) h k = refl
leℤ-trans (negsuc a) (negsuc b) (pos c) h k = refl
leℤ-trans (negsuc a) (negsuc b) (negsuc c) h k = ground arith
leℤ-trans (pos a) (pos b) (negsuc c) h k = cc
leℤ-trans (pos a) (negsuc b) z h k = cc
leℤ-trans (negsuc a) (pos b) (negsuc c) h k = cc

pub leℤ_total : (x y : ℤ) → leℤ x y ≡ false → leℤ y x ≡ true
unfolding leℤ
leℤ_total (pos a) (pos b) h = ground arith
leℤ_total (pos a) (negsuc b) h = refl
leℤ_total (negsuc a) (pos b) h = cc
leℤ_total (negsuc a) (negsuc b) h = ground arith

pub ltℤ_not : (x y : ℤ) → ltℤ x y ≡ false → leℤ y x ≡ true
unfolding leℤ ltℤ
ltℤ_not (pos a) (pos b) h = ground arith
ltℤ_not (pos a) (negsuc b) h = refl
ltℤ_not (negsuc a) (pos b) h = cc
ltℤ_not (negsuc a) (negsuc b) h = ground arith

pub ltℤ-suc : (n : ℕ) (x : ℤ) → ltℤ (pos n) x ≡ true → leℤ (pos (suc n)) x ≡ true
unfolding leℤ ltℤ
ltℤ-suc n (pos a) h = ground arith
ltℤ-suc n (negsuc a) h = cc

-- `x <= y - z` as SQL and the code write it in two ways.
pub leℤ-sub : (x y z : ℤ) → leℤ x (y -ℤ z) ≡ leℤ (x +ℤ z) y
unfolding leℤ ◌+ℤ◌ ◌-ℤ◌ negate diff
leℤ-sub (pos a) (pos b) (pos zero) = ground arith
leℤ-sub (pos a) (pos b) (pos (suc c)) = ground arith
leℤ-sub (pos a) (pos b) (negsuc c) = ground arith
leℤ-sub (pos a) (negsuc b) (pos zero) = ground arith
leℤ-sub (pos a) (negsuc b) (pos (suc c)) = ground arith
leℤ-sub (pos a) (negsuc b) (negsuc c) = ground arith
leℤ-sub (negsuc a) (pos b) (pos zero) = ground arith
leℤ-sub (negsuc a) (pos b) (pos (suc c)) = ground arith
leℤ-sub (negsuc a) (pos b) (negsuc c) = ground arith
leℤ-sub (negsuc a) (negsuc b) (pos zero) = ground arith
leℤ-sub (negsuc a) (negsuc b) (pos (suc c)) = ground arith
leℤ-sub (negsuc a) (negsuc b) (negsuc c) = ground arith

pub ltℤ_irrefl : (x : ℤ) → ltℤ x x ≡ false
unfolding ltℤ
ltℤ_irrefl (pos a) = ground arith
ltℤ_irrefl (negsuc a) = ground arith

-- The next number of a sequence.
pub ltℤ-next : (x y : ℤ) → ltℤ x y ≡ true → ltℤ x (y +ℤ pos 1) ≡ true
unfolding ltℤ ◌+ℤ◌ diff
ltℤ-next (pos a) (pos b) h = ground arith
ltℤ-next (pos a) (negsuc b) h = cc
ltℤ-next (negsuc a) (pos b) h = refl
ltℤ-next (negsuc a) (negsuc b) h = ground arith

pub ltℤ-suc_self : (y : ℤ) → ltℤ y (y +ℤ pos 1) ≡ true
unfolding ltℤ ◌+ℤ◌ diff
ltℤ-suc_self (pos b) = ground arith
ltℤ-suc_self (negsuc b) = ground arith
