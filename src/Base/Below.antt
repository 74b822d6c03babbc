-- ===== src/Base/Below.antt =====
-- Tables that are checked by evaluation.
use Prim.Native.Nat.{ℕ, zero, suc, ◌<◌}
use mathlib.Core.Path.{◌≡◌}
use mathlib.Core.Logic.{inl, inr}
use mathlib.Core.Bool.{Bool, true, ◌&&◌}
use native.Mathlib.Omega.{arith}
use package.signalk_esp_os_8relay.Base.Tests.{◌==◌, Bool-cases}

-- A test that every number below `n` passes.
unfoldable pub all_below : ℕ → (ℕ → Bool) → Bool
all_below zero p = true
all_below (suc n) p = all_below n p && p n

pub below-all_below : (n : ℕ) (p : ℕ → Bool) (i : ℕ) → all_below n p ≡ true → i < n → p i ≡ true
unfolding all_below
below-all_below zero p i all l = absurd (omega arith)
below-all_below (suc n) p i all l = elim (Bool-cases (i == n)) [
  | inl e ↦ let same : i ≡ n = ground (arith, e) in rw same (ground (arith, all))
  | inr e ↦ ground (arith, all, e, below-all_below n p i)
]
