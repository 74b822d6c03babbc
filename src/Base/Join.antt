-- ===== src/Base/Join.antt =====
-- Numbers put together from parts of bits: `low | (high << s)`, and the parts taken out again.
use Prim.Native.Nat.{ℕ, zero, suc, ◌+◌, ◌*◌, ◌/◌, ◌%◌, ◌^◌, ◌<◌, bit_or, bit_and}
use mathlib.Core.Path.{◌≡◌, refl, ◌∙◌, sym}
use mathlib.Core.Bool.{◌&&◌, ◌||◌}
use native.Mathlib.Omega.{arith}
use native.Mathlib.Nat.{pow-suc}
use package.signalk_esp_os_8relay.Base.Tests.{ltb}
use package.signalk_esp_os_8relay.Base.Bits.{
  test, test-bit_and, test-bit_or, test-zero, test-high, eq_of_test,
}

test-join : (s v b j : ℕ) → b < 2 ^ s → test (v * 2 ^ s + b) j ≡ (test b j || test (v * 2 ^ s) j)
test-join zero v b j h =
    let none : b ≡ 0 = omega arith in
    let same : v * 1 + 0 ≡ v * 1 = omega arith in rw none (rw (same, test-zero j) refl)
test-join (suc s) v b zero h =
    let e : v * 2 ^ suc s ≡ v * 2 ^ s * 2 = rw (pow-suc 2 s) (omega arith) in rw e (ground arith)
test-join (suc s) v b (suc j) h =
    let e : v * 2 ^ suc s ≡ v * 2 ^ s * 2 = rw (pow-suc 2 s) (omega arith) in
    let up : (v * 2 ^ s * 2 + b) / 2 ≡ v * 2 ^ s + b / 2 = omega arith in
    let half : v * 2 ^ s * 2 / 2 ≡ v * 2 ^ s = omega arith in
    let small : b / 2 < 2 ^ s = omega (arith, pow-suc 2 s) in
    rw e (rw (up, half) (test-join s v (b / 2) j small))

-- `low | (high << s)`
pub bit_or_join : (s high low : ℕ) → low < 2 ^ s → bit_or low (high * 2 ^ s) ≡ high * 2 ^ s + low
bit_or_join s high low h =
    eq_of_test (bit_or low (high * 2 ^ s)) (high * 2 ^ s + low)
      (λ j. test-bit_or j low (high * 2 ^ s) ∙ sym (test-join s high low j h))

-- `(high << s) | low`
pub bit_or_append : (s high low : ℕ) → low < 2 ^ s → bit_or (high * 2 ^ s) low ≡ high * 2 ^ s + low
bit_or_append s high low h =
    eq_of_test (bit_or (high * 2 ^ s) low) (high * 2 ^ s + low)
      (λ j. ground (arith, test-bit_or j (high * 2 ^ s) low, test-join s high low j h))

test-nibble : (x j : ℕ) → test (x % 16) j ≡ (ltb j 4 && test x j)
test-nibble x zero = ground arith
test-nibble x (suc zero) = ground arith
test-nibble x (suc (suc zero)) = ground arith
test-nibble x (suc (suc (suc zero))) = ground arith
test-nibble x (suc (suc (suc (suc j)))) =
    ground (arith, test-high (x % 16) 4 (suc (suc (suc (suc j)))) (omega arith) (omega arith))

test-15 : (j : ℕ) → test 15 j ≡ ltb j 4
test-15 zero = refl
test-15 (suc zero) = refl
test-15 (suc (suc zero)) = refl
test-15 (suc (suc (suc zero))) = refl
test-15 (suc (suc (suc (suc j)))) = ground (arith, test-zero j)

-- `x & 0x0F`
pub bit_and_nibble : (x : ℕ) → bit_and x 15 ≡ x % 16
bit_and_nibble x =
    eq_of_test (bit_and x 15) (x % 16)
      (λ j. ground (arith, test-bit_and j x 15, test-15 j, test-nibble x j))
