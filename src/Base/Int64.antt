-- ===== src/Base/Int64.antt =====
-- Go's int64: integers with a wrap-around. `negsuc n` is -(n + 1).
use chango_assistant.Base.Tests.{if◌then◌else◌, leb, ltb}
use Prim.Native.Nat.{suc, ℕ, ◌%◌, ◌+◌, ◌-◌, ◌<◌, ◌≤◌}
use mathlib.Core.Bool.{Bool}
use mathlib.Core.Path.{◌≡◌}
use native.Mathlib.Omega.{arith}

pub data ℤ : Type 0 where
  pos : ℕ → ℤ
  negsuc : ℕ → ℤ

abbrev pub pos_part : ℤ → ℕ
pos_part (pos n) = n
pos_part (negsuc n) = 0

abbrev pub neg_part : ℤ → ℕ
neg_part (pos n) = 0
neg_part (negsuc n) = suc n

abbrev pub sub_ℕ : ℕ → ℕ → ℤ
sub_ℕ a b = if leb b a then pos (a - b) else negsuc (b - a - 1)

infixl 65 ◌+ℤ◌
infix 50 ◌≤ℤ◌ ◌<ℤ◌
-- The sum of two integers, with no bound.
unfoldable pub ◌+ℤ◌ : ℤ → ℤ → ℤ
a +ℤ b = sub_ℕ (pos_part a + pos_part b) (neg_part a + neg_part b)

abbrev pub ◌≤ℤ◌ : ℤ → ℤ → Type 0
a ≤ℤ b = pos_part a + neg_part b ≤ pos_part b + neg_part a

abbrev pub ◌<ℤ◌ : ℤ → ℤ → Type 0
a <ℤ b = pos_part a + neg_part b < pos_part b + neg_part a

abbrev pub ltb_ℤ : ℤ → ℤ → Bool
ltb_ℤ a b = ltb (pos_part a + neg_part b) (pos_part b + neg_part a)

abbrev pub leb_ℤ : ℤ → ℤ → Bool
leb_ℤ a b = leb (pos_part a + neg_part b) (pos_part b + neg_part a)

abbrev pub two_63 : ℕ
two_63 = 9223372036854775808

abbrev pub two_64 : ℕ
two_64 = 18446744073709551616

-- The bits of an integer, as an unsigned word.
residue : ℤ → ℕ
residue (pos n) = n % two_64
residue (negsuc n) = two_64 - 1 - n % two_64

-- The integer that a word stands for in two's complement.
signed : ℕ → ℤ
signed m = if ltb m two_63 then pos m else negsuc (two_64 - 1 - m)

unfoldable pub wrap : ℤ → ℤ
unfolding residue signed
wrap z = signed (residue z)

-- `a + b` on int64.
unfoldable pub add_int64 : ℤ → ℤ → ℤ
unfolding ◌+ℤ◌ wrap
add_int64 a b = wrap (a +ℤ b)

-- The values of an int64.
pub record IsInt64 (z : ℤ) : Type 0 where
  pub above : neg_part z ≤ two_63
  pub below : pos_part z < two_63

pub +ℤ_parts :
    (a b : ℤ)
    → pos_part (a +ℤ b) + neg_part a + neg_part b ≡ neg_part (a +ℤ b) + pos_part a + pos_part b
unfolding ◌+ℤ◌
+ℤ_parts a b = ground arith

pub eq_of_parts : (a b : ℤ) → pos_part a + neg_part b ≡ pos_part b + neg_part a → a ≡ b
eq_of_parts a b h = ground arith

-- Within the range nothing wraps.
pub wrap-IsInt64 : (z : ℤ) → IsInt64 z → wrap z ≡ z
unfolding wrap
wrap-IsInt64 (pos n) h = ground arith
wrap-IsInt64 (negsuc n) h = ground arith

-- Every result of an addition is an int64.
pub IsInt64-wrap : (z : ℤ) → IsInt64 (wrap z)
unfolding wrap
IsInt64-wrap (pos n) = ground arith
IsInt64-wrap (negsuc n) = ground arith

pub add_int64-exact : (a b : ℤ) → IsInt64 (a +ℤ b) → add_int64 a b ≡ a +ℤ b
unfolding add_int64
add_int64-exact a b h = wrap-IsInt64 (sub_ℕ _ _) h

pub add_int64-zero : (a : ℤ) → IsInt64 a → add_int64 (pos 0) a ≡ a
unfolding add_int64 ◌+ℤ◌
add_int64-zero a h = ground (arith, wrap-IsInt64 a h)
