-- ===== src/Base/Int.antt =====
-- C's signed results and offsets: a count, or the negation of an error code.
use Prim.Native.Nat.{ℕ, ◌+◌, ◌-◌, ◌≤◌, ◌<◌, suc}
use mathlib.Core.Path.{◌≡◌}
use native.Mathlib.Omega.{arith}
use mathlib.Core.Bool.{Bool, true, false}
use yax.Base.Tests.{leb, ltb, if◌then◌else◌}

-- `negsuc n` is -(n + 1).
pub data ℤ : Type 0 where
  pos : ℕ → ℤ
  negsuc : ℕ → ℤ

-- -code, for a code that is not 0.
abbrev pub neg : ℕ → ℤ
neg code = negsuc (code - 1)

abbrev pub pos_part : ℤ → ℕ
pos_part (pos n) = n
pos_part (negsuc n) = 0

abbrev pub neg_part : ℤ → ℕ
neg_part (pos n) = 0
neg_part (negsuc n) = suc n

-- a - b, as an integer.
abbrev pub sub_ℕ : ℕ → ℕ → ℤ
sub_ℕ a b = if leb b a then pos (a - b) else negsuc (b - a - 1)

infixl 65 ◌+ℤ◌
abbrev pub ◌+ℤ◌ : ℤ → ℤ → ℤ
a +ℤ b = sub_ℕ (pos_part a + pos_part b) (neg_part a + neg_part b)

-- The tests x < 0 and x > 0.
abbrev pub is_neg : ℤ → Bool
is_neg (pos n) = false
is_neg (negsuc n) = true

abbrev pub is_pos : ℤ → Bool
is_pos (pos n) = ltb 0 n
is_pos (negsuc n) = false

-- a - n
unfoldable pub minus : ℤ → ℕ → ℤ
minus a n = a +ℤ sub_ℕ 0 n

pub minus-pos : (v n : ℕ) → n ≤ v → minus (pos v) n ≡ pos (v - n)
unfolding minus
minus-pos v n h = ground arith

pub minus-neg : (v n : ℕ) → v < n → minus (pos v) n ≡ negsuc (n - v - 1)
unfolding minus
minus-neg v n h = ground arith
