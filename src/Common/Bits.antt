-- ===== src/Common/Bits.antt =====
-- `x | (y << k)` for an `x` of at most `k` bits is a sum.
use vertex_testbed.Common.{ap, refl, zero, ◌∙◌, ◌%◌, arith, ◌+◌, ◌*◌, ◌/◌, ◌^◌, ◌≡◌}
use native.Mathlib.Nat.{pow-succ'}
use Prim.Native.Nat.{suc, ◌<◌, ◌≤◌, ℕ, max, digits, bit_or, bit_or-bitwise}

abbrev or_digits : ℕ → ℕ → ℕ → ℕ
or_digits n a b = digits (λ y. y) max n a b

or_digits_enough : (n m a b : ℕ) → a ≤ n → a ≤ m → or_digits n a b ≡ or_digits m a b
or_digits_enough zero zero a b p q = refl
or_digits_enough zero (suc m) zero b p q = refl
or_digits_enough zero (suc m) (suc a) b p q = absurd (omega arith)
or_digits_enough (suc n) zero zero b p q = refl
or_digits_enough (suc n) zero (suc a) b p q = absurd (omega arith)
or_digits_enough (suc n) (suc m) zero b p q = refl
or_digits_enough (suc n) (suc m) (suc a) b p q =
    omega (arith, or_digits_enough n m (suc a / 2) (b / 2) (omega arith) (omega arith))

zero-bit_or : (b : ℕ) → bit_or 0 b ≡ b
zero-bit_or b = bit_or-bitwise 0 b

lowest_bit : (a b : ℕ) → bit_or a b ≡ bit_or (a / 2) (b / 2) * 2 + max (a % 2) (b % 2)
lowest_bit zero b = omega (arith, zero-bit_or b, zero-bit_or (b / 2))
lowest_bit (suc a) b = omega (
  arith,
  bit_or-bitwise (suc a) b,
  bit_or-bitwise (suc a / 2) (b / 2),
  or_digits_enough a (suc a / 2) (suc a / 2) (b / 2) (omega arith) (omega arith),
)

pub bit_or-shift : (k x y : ℕ) → x < 2 ^ k → bit_or x (y * 2 ^ k) ≡ x + y * 2 ^ k
bit_or-shift zero x y h = let e : x ≡ 0 = omega arith in rw e (zero-bit_or (y * 1) ∙ omega arith)
bit_or-shift (suc k) x y h =
    let n : ℕ = y * 2 ^ k in
    let double : y * 2 ^ suc k ≡ n * 2 = ap (λ (t : ℕ). y * t) (pow-succ' 2 k) ∙ omega arith in
    let half : n * 2 / 2 ≡ n = omega arith in
    rw double (
      omega (
        arith,
        lowest_bit x (n * 2),
        ap (bit_or (x / 2)) half,
        bit_or-shift k (x / 2) y (omega (arith, pow-succ' 2 k)),
      ))
