-- ===== src/Base/Int.antt =====
-- C's signed integers where they do not overflow: sums, differences, and the quotient and remainder
-- that round towards 0.
use Prim.Native.Nat.{ℕ, suc, ◌+◌, ◌-◌, ◌*◌, ◌/◌, ◌%◌, ◌^◌}
use mathlib.Core.Bool.{Bool}
use package.signalk_esp_os_8relay.Base.Tests.{ltb, leb, if◌then◌else◌}

-- `negsuc n` is -(n + 1).
pub data ℤ : Type 0 where
  pos negsuc : ℕ → ℤ

abbrev pub pos_part : ℤ → ℕ
pos_part (pos n) = n
pos_part (negsuc n) = 0

abbrev pub neg_part : ℤ → ℕ
neg_part (pos n) = 0
neg_part (negsuc n) = suc n

-- The integer `up - down`.
abbrev pub between : ℕ → ℕ → ℤ
between up down = if leb down up then pos (up - down) else negsuc (down - up - 1)

infixl 65 ◌+ℤ◌ ◌-ℤ◌
unfoldable pub ◌+ℤ◌ : ℤ → ℤ → ℤ
a +ℤ b = between (pos_part a + pos_part b) (neg_part a + neg_part b)

unfoldable pub ◌-ℤ◌ : ℤ → ℤ → ℤ
a -ℤ b = between (pos_part a + neg_part b) (neg_part a + pos_part b)

-- The conversion to uint32_t.
abbrev pub u32_of : ℤ → ℕ
u32_of a = (pos_part a % 2 ^ 32 + 2 ^ 32 - neg_part a % 2 ^ 32) % 2 ^ 32

unfoldable pub scale : ℕ → ℤ → ℤ
scale k a = between (k * pos_part a) (k * neg_part a)

unfoldable pub quot : ℤ → ℕ → ℤ
quot a k = between (pos_part a / k) (neg_part a / k)

unfoldable pub rem : ℤ → ℕ → ℤ
rem a k = between (pos_part a % k) (neg_part a % k)

abbrev pub ltb_ℤ : ℤ → ℤ → Bool
ltb_ℤ a b = ltb (pos_part a + neg_part b) (pos_part b + neg_part a)

abbrev pub leb_ℤ : ℤ → ℤ → Bool
leb_ℤ a b = leb (pos_part a + neg_part b) (pos_part b + neg_part a)
