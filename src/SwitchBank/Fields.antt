-- ===== src/SwitchBank/Fields.antt =====
-- Bits of shifted numbers, and the fields of a payload by their bits.
use signalk_esp_os_8relay.Base.{
  ℕ, zero, suc, ◌+◌, ◌-◌, ◌*◌, ◌/◌, ◌^◌, ◌<◌, ◌&&◌, ltb, leb, bit_and, ◌≡◌, refl, sym, ap, ◌∙◌,
  arith,
}
use native.Mathlib.Nat.{pow-suc, mul_comm, div-div-eq-div-mul}
use signalk_esp_os_8relay.Base.Bits.{
  test, test-bit_and, test-zero, test-high, lt_of_test, eq_of_test,
}
use signalk_esp_os_8relay.Base.Words.{u8}

pub test-shift_left : (s v j : ℕ) → test (v * 2 ^ s) j ≡ (leb s j && test v (j - s))
test-shift_left zero v j =
    let e : v * 1 ≡ v = omega arith in let d : j - 0 ≡ j = omega arith in rw (e, d) (ground arith)
test-shift_left (suc s) v zero =
    let e : v * 2 ^ suc s ≡ v * 2 ^ s * 2 = rw (pow-suc 2 s) (omega arith) in rw e (ground arith)
test-shift_left (suc s) v (suc j) =
    let e : v * 2 ^ suc s / 2 ≡ v * 2 ^ s =
      let d : v * 2 ^ suc s ≡ v * 2 ^ s * 2 = rw (pow-suc 2 s) (omega arith) in omega (arith, d) in
    let k : suc j - suc s ≡ j - s = omega arith in rw (e, k) (ground (arith, test-shift_left s v j))

pub test-shift_right : (s v j : ℕ) → test (v / 2 ^ s) j ≡ test v (s + j)
test-shift_right zero v j =
    let e : v / 1 ≡ v = omega arith in let k : 0 + j ≡ j = omega arith in rw (e, k) refl
test-shift_right (suc s) v j =
    let e : v / 2 ^ suc s ≡ v / 2 / 2 ^ s =
      ap (λ d. v / d) (pow-suc 2 s ∙ mul_comm (2 ^ s) 2) ∙ sym (div-div-eq-div-mul v 2 (2 ^ s)) in
    let k : suc s + j ≡ suc (s + j) = omega arith in rw (e, k) (test-shift_right s (v / 2) j)

pub test-u8 : (v j : ℕ) → test (u8 v) j ≡ (ltb j 8 && test v j)
test-u8 v zero = ground arith
test-u8 v (suc zero) = ground arith
test-u8 v (suc (suc zero)) = ground arith
test-u8 v (suc (suc (suc zero))) = ground arith
test-u8 v (suc (suc (suc (suc zero)))) = ground arith
test-u8 v (suc (suc (suc (suc (suc zero))))) = ground arith
test-u8 v (suc (suc (suc (suc (suc (suc zero)))))) = ground arith
test-u8 v (suc (suc (suc (suc (suc (suc (suc zero))))))) = ground arith
test-u8 v (suc (suc (suc (suc (suc (suc (suc (suc j)))))))) = ground (
  arith,
  test-high (u8 v) 8 (suc (suc (suc (suc (suc (suc (suc (suc j)))))))) (omega arith) (omega arith),
)

-- A field by its two bits.
pub field_bits : (x j : ℕ) → test (bit_and x 3) j ≡ (ltb j 2 && test x j)
field_bits x j = ground (arith, test-bit_and j x 3, three j)
  where
    three : (j : ℕ) → test 3 j ≡ ltb j 2
    three zero = refl
    three (suc zero) = refl
    three (suc (suc k)) = ground (arith, test-zero k)

pub field_small : (x : ℕ) → bit_and x 3 < 4
field_small x = lt_of_test (bit_and x 3) 2 (λ j le. ground (arith, field_bits x j))

pub field_of_bits : (x v : ℕ) → v < 4 → test x 0 ≡ test v 0 → test x 1 ≡ test v 1 → bit_and x 3 ≡ v
field_of_bits x v small low high = eq_of_test (bit_and x 3) v same
  where
    same : (j : ℕ) → test (bit_and x 3) j ≡ test v j
    same zero = ground (arith, field_bits x 0)
    same (suc zero) = ground (arith, field_bits x 1)
    same (suc (suc j)) =
        ground (
          arith,
          field_bits x (suc (suc j)),
          test-high v 2 (suc (suc j)) (omega arith) (omega arith),
        )
