-- ===== src/Prelude/Bits.antt =====
-- Laws of the bit operations that the program uses on bytes: exclusive or undoes itself, and or adds
-- where no digit is set in both.
use Prim.Native.Nat.{
  ℕ, zero, suc, ◌+◌, ◌*◌, ◌/◌, ◌%◌, ◌≤◌, ◌<◌, max, digits, differ, bit_xor, bit_or, bit_xor-bitwise,
  bit_or-bitwise,
}
use mathlib.Core.Path.{◌≡◌, refl, ◌∙◌, ap}
use native.Mathlib.Omega.{arith}

-- Once the digits of the first number have run out, more rounds change nothing.
module _ (z : ℕ → ℕ) (f : ℕ → ℕ → ℕ) where
  enough_digits : (r s x y : ℕ) → x ≤ r → x ≤ s → digits z f r x y ≡ digits z f s x y
  enough_digits zero zero x y p q = refl
  enough_digits (suc r) (suc s) zero y p q = refl
  enough_digits (suc r) zero zero y p q = refl
  enough_digits zero (suc s) zero y p q = refl
  enough_digits zero (suc s) (suc x) y p q = absurd (omega arith)
  enough_digits (suc r) zero (suc x) y p q = absurd (omega arith)
  enough_digits (suc r) (suc s) (suc x) y p q =
      omega (arith, enough_digits r s (suc x / 2) (y / 2) (omega arith) (omega arith))

-- The lowest digit apart.
bit_xor_step : (x y : ℕ) → bit_xor x y ≡ bit_xor (x / 2) (y / 2) * 2 + differ (x % 2) (y % 2)
bit_xor_step zero y = omega (arith, bit_xor-bitwise 0 y, bit_xor-bitwise 0 (y / 2))
bit_xor_step (suc x) y = omega (
  arith,
  bit_xor-bitwise (suc x) y,
  bit_xor-bitwise (suc x / 2) (y / 2),
  enough_digits (λ b. b) differ x (suc x / 2) (suc x / 2) (y / 2) (omega arith) (omega arith),
)

bit_or_step : (x y : ℕ) → bit_or x y ≡ bit_or (x / 2) (y / 2) * 2 + max (x % 2) (y % 2)
bit_or_step zero y = omega (arith, bit_or-bitwise 0 y, bit_or-bitwise 0 (y / 2))
bit_or_step (suc x) y = omega (
  arith,
  bit_or-bitwise (suc x) y,
  bit_or-bitwise (suc x / 2) (y / 2),
  enough_digits (λ b. b) max x (suc x / 2) (suc x / 2) (y / 2) (omega arith) (omega arith),
)

differ_twice : (x y : ℕ) → x < 2 → y < 2 → (differ (differ x y) y ≡ x) × (differ x y < 2)
differ_twice zero zero p q = omega arith
differ_twice zero (suc zero) p q = omega arith
differ_twice (suc zero) zero p q = omega arith
differ_twice (suc zero) (suc zero) p q = omega arith
differ_twice (suc (suc x)) y p q = absurd (omega arith)
differ_twice x (suc (suc y)) p q = absurd (omega arith)

bit_xor_below : (n x y : ℕ) → x ≤ n → y ≤ n → bit_xor (bit_xor x y) y ≡ x
bit_xor_below zero zero zero p q = refl
bit_xor_below zero (suc x) y p q = absurd (omega arith)
bit_xor_below zero x (suc y) p q = absurd (omega arith)
bit_xor_below (suc n) x y p q =
    let z = bit_xor x y in
    let d = differ_twice (x % 2) (y % 2) (omega arith) (omega arith) in
    let s = bit_xor_step x y in
    let half : z / 2 ≡ bit_xor (x / 2) (y / 2) = omega (arith, s, d.1) in
    let low : z % 2 ≡ differ (x % 2) (y % 2) = omega (arith, s, d.1) in
    let rest = bit_xor_below n (x / 2) (y / 2) (omega arith) (omega arith) in
    bit_xor_step z y
    ∙ omega (arith, ap (λ k. bit_xor k (y / 2)) half ∙ rest, ap (λ k. differ k (y % 2)) low ∙ d.0)

-- What is combined twice is as it was.
pub bit_xor_twice : (x y : ℕ) → bit_xor (bit_xor x y) y ≡ x
bit_xor_twice x y = bit_xor_below (x + y) x y (omega arith) (omega arith)

bit_or_zero_below : (n x : ℕ) → x ≤ n → bit_or x 0 ≡ x
bit_or_zero_below zero zero p = refl
bit_or_zero_below zero (suc x) p = absurd (omega arith)
bit_or_zero_below (suc n) x p =
    omega (arith, bit_or_step x 0, bit_or_zero_below n (x / 2) (omega arith))

pub bit_or-zero : (x : ℕ) → bit_or x 0 ≡ x
bit_or-zero x = bit_or_zero_below x x (omega arith)

-- A shift of the first number leaves room for one digit of the second.
pub bit_or-double : (x y : ℕ) → bit_or (x * 2) y ≡ bit_or x (y / 2) * 2 + y % 2
bit_or-double x y = omega (arith, bit_or_step (x * 2) y, ap (λ k. bit_or k (y / 2)) (half x))
  where
    half : (x : ℕ) → x * 2 / 2 ≡ x
    half x = omega arith

double_right : (x y : ℕ) → bit_or x (y * 2) ≡ bit_or (x / 2) y * 2 + x % 2
double_right x y = omega (arith, bit_or_step x (y * 2), ap (bit_or (x / 2)) (half y))
  where
    half : (x : ℕ) → x * 2 / 2 ≡ x
    half x = omega arith

-- Two digits and four digits of the second number behind the first, and four before it.
pub bit_or_shift_two : (x y : ℕ) → y < 4 → bit_or (x * 4) y ≡ x * 4 + y
bit_or_shift_two x y h =
    let zero_left : y / 2 / 2 ≡ 0 = omega (arith, h) in
    let e : x * 4 ≡ x * 2 * 2 = omega arith in
    ap (λ k. bit_or k y) e
    ∙ omega (
      arith,
      h,
      bit_or-double (x * 2) y,
      bit_or-double x (y / 2),
      ap (bit_or x) zero_left,
      bit_or-zero x,
    )

pub bit_or_shift_four : (x y : ℕ) → y < 16 → bit_or (x * 16) y ≡ x * 16 + y
bit_or_shift_four x y h =
    let e : x * 16 ≡ x * 4 * 2 * 2 = omega arith in
    ap (λ k. bit_or k y) e
    ∙ omega (
      arith,
      h,
      bit_or-double (x * 4 * 2) y,
      bit_or-double (x * 4) (y / 2),
      bit_or_shift_two x (y / 2 / 2) (omega (arith, h)),
    )

pub bit_or_low_four : (x y : ℕ) → x < 16 → bit_or x (y * 16) ≡ y * 16 + x
bit_or_low_four x y h =
    let e : y * 16 ≡ y * 2 * 2 * 2 * 2 = omega arith in
    let zero_left : x / 2 / 2 / 2 / 2 ≡ 0 = omega (arith, h) in
    ap (bit_or x) e
    ∙ omega (
      arith,
      h,
      double_right x (y * 2 * 2 * 2),
      double_right (x / 2) (y * 2 * 2),
      double_right (x / 2 / 2) (y * 2),
      double_right (x / 2 / 2 / 2) y,
      ap (λ k. bit_or k y) zero_left ∙ bit_or-bitwise 0 y,
    )
