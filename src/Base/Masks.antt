-- ===== src/Base/Masks.antt =====
-- The loops over BOARD_CHANNELS that build a mask bit by bit.
use Prim.Native.Nat.{ℕ, zero, suc, ◌<◌, bit_or}
use mathlib.Core.Path.{◌≡◌, refl}
use mathlib.Core.Bool.{Bool, true, false, ◌&&◌}
use native.Mathlib.Omega.{arith}
use package.signalk_esp_os_8relay.Base.Tests.{◌==◌, ltb, if◌then◌else◌}
use package.signalk_esp_os_8relay.Base.Bits.{
  test, bit, clear, test-zero, test-bit_or, test-bit, test-clear,
}

-- `for (i = 0; i < n; i++) if (p(i)) m |= 1u << i;` from `m = 0`.
unfoldable pub mask_of : ℕ → (ℕ → Bool) → ℕ
mask_of zero p = 0
mask_of (suc n) p = let m = mask_of n p in if p n then bit_or m (bit n) else m

pub test-mask_of : (n : ℕ) (p : ℕ → Bool) (j : ℕ) → test (mask_of n p) j ≡ (ltb j n && p j)
unfolding mask_of
test-mask_of zero p j = ground (arith, test-zero j)
test-mask_of (suc n) p j =
    ground (arith, test-mask_of n p j, test-bit_or j (mask_of n p) (bit n), test-bit n j, same)
  where
    same : n ≡ j → p n ≡ p j
    same e = λ i. p (e i)

pub mask_of-ext :
    (n : ℕ) (p q : ℕ → Bool) → ((i : ℕ) → i < n → p i ≡ q i) → mask_of n p ≡ mask_of n q
unfolding mask_of
mask_of-ext zero p q h = refl
mask_of-ext (suc n) p q h =
    rw (mask_of-ext n p q (λ i l. h i (omega arith)), h n (omega arith)) refl

-- A bit set or cleared.
pub test-set_bit : (m i j : ℕ) → test (bit_or m (bit i)) j ≡ (if i == j then true else test m j)
test-set_bit m i j = ground (arith, test-bit_or j m (bit i), test-bit i j)

pub test-clear-bit :
    (m i j : ℕ) → j < 8 → test (clear m (bit i)) j ≡ (if i == j then false else test m j)
test-clear-bit m i j h = ground (arith, test-clear m (bit i) j, test-bit i j)
