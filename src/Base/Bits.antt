-- ===== src/Base/Bits.antt =====
-- Bits of a byte mask: `test m i` is `m & (1u << i)` as a C condition, and the law of each
-- bitwise operation, one bit at a time.
use Prim.Native.Nat.{
  ℕ, zero, suc, ◌+◌, ◌*◌, ◌/◌, ◌%◌, ◌^◌, ◌≤◌, ◌<◌, min, max, bit_and, bit_or, bit_xor, digits,
  differ, bit_and-bitwise, bit_or-bitwise, bit_xor-bitwise,
}
use mathlib.Core.Path.{◌≡◌, refl, ◌∙◌, ap, sym}
use mathlib.Core.Logic.{inl, inr}
use mathlib.Core.Bool.{Bool, false, not, ◌&&◌, ◌||◌}
use native.Mathlib.Omega.{arith}
use native.Mathlib.Nat.{le_refl, pow-suc}
use package.signalk_esp_os_8relay.Base.Tests.{◌==◌, ltb, xor, Bool-cases}

-- Bit `i` of `m`.
abbrev pub test : ℕ → ℕ → Bool
test m zero = m % 2 == 1
test m (suc i) = test (m / 2) i

-- `1u << i`.
abbrev pub bit : ℕ → ℕ
bit i = 2 ^ i

pub test-zero : (i : ℕ) → test 0 i ≡ false
test-zero zero = refl
test-zero (suc i) = test-zero i

-- `g` is what the digit operation `f` does to bits; what is left of the second number is kept by
-- `rest` as `g` does beside a 0.
record BitLaw (rest : ℕ → ℕ) (f : ℕ → ℕ → ℕ) (g : Bool → Bool → Bool) : Type 0 where
  beyond : (b i : ℕ) → test (rest b) i ≡ g false (test b i)
  small : (x y : ℕ) → x < 2 → y < 2 → f x y < 2
  same : (x y : ℕ) → x < 2 → y < 2 → (f x y == 1) ≡ g (x == 1) (y == 1)

module _ {rest : ℕ → ℕ} {f : ℕ → ℕ → ℕ} {g : Bool → Bool → Bool} (law : BitLaw rest f g) where
  -- Any count that the first number is within serves.
  test-digits :
      (count a b i : ℕ) → a ≤ count → test (digits rest f count a b) i ≡ g (test a i) (test b i)
  test-digits zero a b i le =
      let none : a ≡ 0 = omega arith in rw none (rw (test-zero i) (law.beyond b i))
  test-digits (suc count) zero b i le = rw (test-zero i) (law.beyond b i)
  test-digits (suc count) (suc a) b zero le =
      let x = suc a % 2 in
      let y = b % 2 in
      let high = digits rest f count (suc a / 2) (b / 2) in
      let low_small : f x y < 2 = law.small x y (omega arith) (omega arith) in
      let low : (high * 2 + f x y) % 2 ≡ f x y = omega arith in
      rw low (law.same x y (omega arith) (omega arith))
  test-digits (suc count) (suc a) b (suc j) le =
      let x = suc a % 2 in
      let y = b % 2 in
      let high = digits rest f count (suc a / 2) (b / 2) in
      let low_small : f x y < 2 = law.small x y (omega arith) (omega arith) in
      let up : (high * 2 + f x y) / 2 ≡ high = omega arith in
      rw up (test-digits count (suc a / 2) (b / 2) j (omega arith))

cases_small : (P : ℕ → Type 0) → P 0 → P 1 → (x : ℕ) → x < 2 → P x
cases_small P p0 p1 zero h = p0
cases_small P p0 p1 (suc zero) h = p1
cases_small P p0 p1 (suc (suc x)) h = absurd (omega arith)

-- What holds of the four pairs of digits holds of any.
on_digits : (P : ℕ → ℕ → Type 0) → P 0 0 → P 0 1 → P 1 0 → P 1 1 → (x y : ℕ) → x < 2 → y < 2 → P x y
on_digits P p00 p01 p10 p11 x y h k =
    cases_small (λ u. P u y) (cases_small (P 0) p00 p01 y k) (cases_small (P 1) p10 p11 y k) x h

and_law : BitLaw (λ b. 0) min (λ p q. p && q)
and_law = record {
  beyond = λ b i. test-zero i;
  small = on_digits (λ x y. min x y < 2) (omega arith) (omega arith) (omega arith) (omega arith);
  same = on_digits (λ x y. (min x y == 1) ≡ ((x == 1) && (y == 1))) refl refl refl refl;
}

or_law : BitLaw (λ b. b) max (λ p q. p || q)
or_law = record {
  beyond = λ b i. refl;
  small = on_digits (λ x y. max x y < 2) (omega arith) (omega arith) (omega arith) (omega arith);
  same = on_digits (λ x y. (max x y == 1) ≡ ((x == 1) || (y == 1))) refl refl refl refl;
}

xor_law : BitLaw (λ b. b) differ xor
xor_law = record {
  beyond = λ b i. ground arith;
  small = on_digits (λ x y. differ x y < 2) (omega arith) (omega arith) (omega arith) (omega arith);
  same = on_digits (λ x y. (differ x y == 1) ≡ xor (x == 1) (y == 1)) refl refl refl refl;
}

pub test-bit_and : (i a b : ℕ) → test (bit_and a b) i ≡ (test a i && test b i)
test-bit_and i a b = simp bit_and-bitwise (test-digits and_law a a b i (le_refl a))

pub test-bit_or : (i a b : ℕ) → test (bit_or a b) i ≡ (test a i || test b i)
test-bit_or i a b = simp bit_or-bitwise (test-digits or_law a a b i (le_refl a))

pub test-bit_xor : (i a b : ℕ) → test (bit_xor a b) i ≡ xor (test a i) (test b i)
test-bit_xor i a b = simp bit_xor-bitwise (test-digits xor_law a a b i (le_refl a))

-- `1u << i` has bit `i` and no other.
pub test-bit : (i j : ℕ) → test (bit i) j ≡ (i == j)
test-bit zero zero = refl
test-bit zero (suc j) = ground (arith, test-zero j)
test-bit (suc i) zero = ground (arith, pow-suc 2 i)
test-bit (suc i) (suc j) =
    let e : bit (suc i) / 2 ≡ bit i = omega (arith, pow-suc 2 i) in
    rw e (ground (arith, test-bit i j))

-- The bits of 0xff.
pub test-ones : (j : ℕ) → test 255 j ≡ ltb j 8
test-ones zero = refl
test-ones (suc zero) = refl
test-ones (suc (suc zero)) = refl
test-ones (suc (suc (suc zero))) = refl
test-ones (suc (suc (suc (suc zero)))) = refl
test-ones (suc (suc (suc (suc (suc zero))))) = refl
test-ones (suc (suc (suc (suc (suc (suc zero)))))) = refl
test-ones (suc (suc (suc (suc (suc (suc (suc zero))))))) = refl
test-ones (suc (suc (suc (suc (suc (suc (suc (suc j)))))))) = ground (arith, test-zero j)

-- `(uint8_t)~m`.
unfoldable pub not8 : ℕ → ℕ
not8 m = bit_and (bit_xor m 255) 255

pub test-not8 : (m j : ℕ) → test (not8 m) j ≡ (ltb j 8 && not (test m j))
unfolding not8
test-not8 m j =
    ground (arith, test-bit_and j (bit_xor m 255) 255, test-bit_xor j m 255, test-ones j)

-- `m & ~n`, `n` a byte.
unfoldable pub clear : ℕ → ℕ → ℕ
unfolding not8
clear m n = bit_and m (not8 n)

pub test-clear : (m n j : ℕ) → test (clear m n) j ≡ (test m j && (ltb j 8 && not (test n j)))
unfolding clear
test-clear m n j = rw (test-bit_and j m (not8 n), test-not8 n j)

-- A mask is 0 exactly when no bit of it is set, and is known by its bits.
pub eq_of_test_fuel : (n a b : ℕ) → a ≤ n → b ≤ n → ((j : ℕ) → test a j ≡ test b j) → a ≡ b
eq_of_test_fuel zero a b p q h = omega arith
eq_of_test_fuel (suc n) a b p q h =
    let rest : a / 2 ≡ b / 2 =
      eq_of_test_fuel n (a / 2) (b / 2) (omega arith) (omega arith) (λ j. h (suc j)) in
    ground (arith, rest, h 0)

pub eq_of_test : (a b : ℕ) → ((j : ℕ) → test a j ≡ test b j) → a ≡ b
eq_of_test a b h = eq_of_test_fuel (a + b) a b (omega arith) (omega arith) h

-- A number with no bit from the eighth on is a byte, and a byte has none.
pub test-high : (m k j : ℕ) → m < 2 ^ k → k ≤ j → test m j ≡ false
test-high m zero j h l = let e : m ≡ 0 = omega arith in rw e (test-zero j)
test-high m (suc k) zero h l = absurd (omega arith)
test-high m (suc k) (suc j) h l = test-high (m / 2) k j (omega (arith, pow-suc 2 k)) (omega arith)

pub lt_of_test : (m k : ℕ) → ((j : ℕ) → k ≤ j → test m j ≡ false) → m < 2 ^ k
lt_of_test m zero h =
    let e : m ≡ 0 = eq_of_test m 0 (λ j. h j (omega arith) ∙ sym (test-zero j)) in omega arith
lt_of_test m (suc k) h =
    let r : m / 2 < 2 ^ k = lt_of_test (m / 2) k (λ j le. h (suc j) (omega arith)) in
    omega (arith, pow-suc 2 k)

-- `a & b` as a C condition.
unfoldable pub meets : ℕ → ℕ → Bool
meets a b = not (bit_and a b == 0)

pub meets-false : (a b : ℕ) → meets a b ≡ false → (j : ℕ) → (test a j && test b j) ≡ false
unfolding meets
meets-false a b h j =
    let e : bit_and a b ≡ 0 = ground arith in
    sym (test-bit_and j a b) ∙ ap (λ m. test m j) e ∙ test-zero j

pub meets-of-false : (a b : ℕ) → ((j : ℕ) → (test a j && test b j) ≡ false) → meets a b ≡ false
unfolding meets
meets-of-false a b h =
    let e : bit_and a b ≡ 0 =
      eq_of_test (bit_and a b) 0 (λ j. test-bit_and j a b ∙ h j ∙ sym (test-zero j)) in
    rw e refl

-- `m & (1u << i)` is bit `i`.
pub meets-bit : (m i : ℕ) → meets m (bit i) ≡ test m i
meets-bit m i = elim (Bool-cases (test m i)) [
  | inl on ↦ elim (Bool-cases (meets m (bit i))) [
    | inl e ↦ e ∙ sym on
    | inr e ↦ ground (arith, meets-false m (bit i) e i, test-bit i i)
  ]
  | inr off ↦ meets-of-false m (bit i) (λ j. ground (arith, test-bit i j, same j)) ∙ sym off
]
  where
    same : (j : ℕ) → i ≡ j → test m i ≡ test m j
    same j e = ap (test m) e
