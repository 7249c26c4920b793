-- ===== src/Prelude/Int.antt =====
-- Go's signed integers, over the native numbers, under the library's names.
use Prim.Native.Nat.{ℕ, zero, suc, ◌+◌, ◌≤◌, ◌<◌}
use mathlib.Core.Bool.{Bool, false}
use native.Mathlib.Omega.{arith}
use vetka_backend_panel.Prelude.Tests.{leb, ltb, nat_eq, if◌then◌else◌}

-- `negsuc n` is -(n + 1).
pub data ℤ : Type 0 where
  pos : ℕ → ℤ
  negsuc : ℕ → ℤ

abbrev pub pos_part : ℤ → ℕ
pos_part (pos n) = n
pos_part (negsuc n) = 0

abbrev pub neg_part : ℤ → ℕ
neg_part (pos n) = 0
neg_part (negsuc n) = suc n

infix 50 ◌≤ℤ◌ ◌<ℤ◌
abbrev pub ◌≤ℤ◌ : ℤ → ℤ → Type 0
a ≤ℤ b = pos_part a + neg_part b ≤ pos_part b + neg_part a

abbrev pub ◌<ℤ◌ : ℤ → ℤ → Type 0
a <ℤ b = pos_part a + neg_part b < pos_part b + neg_part a

abbrev pub leb_ℤ : ℤ → ℤ → Bool
leb_ℤ a b = leb (pos_part a + neg_part b) (pos_part b + neg_part a)

abbrev pub ltb_ℤ : ℤ → ℤ → Bool
ltb_ℤ a b = ltb (pos_part a + neg_part b) (pos_part b + neg_part a)

abbrev pub eq_ℤ : ℤ → ℤ → Bool
eq_ℤ (pos m) (pos n) = nat_eq m n
eq_ℤ (negsuc m) (negsuc n) = nat_eq m n
eq_ℤ _ _ = false

-- SQL's `greatest`.
unfoldable pub greatest : ℤ → ℤ → ℤ
greatest a b = if leb_ℤ a b then b else a

pub le-greatest_left : (a b : ℤ) → a ≤ℤ greatest a b
unfolding greatest
le-greatest_left a b = ground arith

pub le-greatest_right : (a b : ℤ) → b ≤ℤ greatest a b
unfolding greatest
le-greatest_right a b = ground arith

-- `x + 1`, before any overflow check.
unfoldable pub add_one : ℤ → ℤ
add_one (pos n) = pos (suc n)
add_one (negsuc zero) = pos 0
add_one (negsuc (suc n)) = negsuc n

pub lt-add_one : (a : ℤ) → a <ℤ add_one a
unfolding add_one
lt-add_one (pos n) = omega arith
lt-add_one (negsuc zero) = omega arith
lt-add_one (negsuc (suc n)) = omega arith

pub add_one-le : (a b : ℤ) → a ≤ℤ b → a <ℤ add_one b
add_one-le a b h = omega (arith, lt-add_one b)
