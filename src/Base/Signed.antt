-- ===== src/Base/Signed.antt =====
-- The operations on signed integers at numbers that are not negative.
use Prim.Native.Nat.{ℕ, ◌+◌, ◌-◌, ◌*◌, ◌/◌, ◌%◌, ◌<◌, ◌≤◌}
use mathlib.Core.Path.{◌≡◌}
use native.Mathlib.Omega.{arith}
use native.Mathlib.Nat.{zero-div, mod-eq_of_lt}
use package.signalk_esp_os_8relay.Base.Int.{pos, ◌+ℤ◌, ◌-ℤ◌, scale, quot, rem}

module _ (a b : ℕ) where
  pub pos_sum : pos a +ℤ pos b ≡ pos (a + b)
  unfolding ◌+ℤ◌
  pos_sum = ground arith

  pub pos_difference : b ≤ a → pos a -ℤ pos b ≡ pos (a - b)
  unfolding ◌-ℤ◌
  pos_difference h = ground arith

  pub scale-pos : scale a (pos b) ≡ pos (a * b)
  unfolding scale
  scale-pos = ground arith

  pub quot-pos : 0 < b → quot (pos a) b ≡ pos (a / b)
  unfolding quot
  quot-pos h = rw (zero-div b) (ground arith)

  pub rem-pos : 0 < b → rem (pos a) b ≡ pos (a % b)
  unfolding rem
  rem-pos h = let none : 0 % b ≡ 0 = mod-eq_of_lt h in rw none (ground arith)
