-- ===== src/Prelude/Digits.antt =====
-- Single bits of a number of any width.
use Prim.Native.Nat.{
  ℕ, zero, suc, ◌+◌, ◌*◌, ◌/◌, ◌%◌, ◌^◌, ◌≤◌, ◌<◌, max, bit_or, digits, bit_or-bitwise,
}
use mathlib.Core.Path.{◌≡◌, refl, ap, ◌∙◌}
use native.Mathlib.Omega.{arith}
use native.Mathlib.Numerals.{unary_clauses}

-- Bit `k`.
unfoldable pub bit : ℕ → ℕ → ℕ
bit n zero = n % 2
bit n (suc k) = bit (n / 2) k

abbrev or_digits : ℕ → ℕ → ℕ → ℕ
or_digits n a b = digits (λ b. b) max n a b

-- The count of digits does not matter once it is enough.
or_digits-enough : (n m a b : ℕ) → a ≤ n → a ≤ m → or_digits n a b ≡ or_digits m a b
or_digits-enough zero zero a b p q = refl
or_digits-enough zero (suc m) zero b p q = refl
or_digits-enough zero (suc m) (suc a) b p q = absurd (omega arith)
or_digits-enough (suc n) zero zero b p q = refl
or_digits-enough (suc n) zero (suc a) b p q = absurd (omega arith)
or_digits-enough (suc n) (suc m) zero b p q = refl
or_digits-enough (suc n) (suc m) (suc a) b p q =
    omega (arith, or_digits-enough n m (suc a / 2) (b / 2) (omega arith) (omega arith))

bit_or-zero : (b : ℕ) → bit_or 0 b ≡ b
bit_or-zero b = bit_or-bitwise 0 b

-- The lowest digit, and the rest.
bit_or-suc : (a b : ℕ) → bit_or a b ≡ bit_or (a / 2) (b / 2) * 2 + max (a % 2) (b % 2)
bit_or-suc zero b = omega (arith, bit_or-zero b, bit_or-zero (b / 2))
bit_or-suc (suc a) b = omega (
  arith,
  bit_or-bitwise (suc a) b,
  bit_or-bitwise (suc a / 2) (b / 2),
  or_digits-enough a (suc a / 2) (suc a / 2) (b / 2) (omega arith) (omega arith),
)

power-half : (k : ℕ) → (2 ^ suc k / 2 ≡ 2 ^ k) × (2 ^ suc k % 2 ≡ 0)
power-half k =
    let e : 2 ^ suc k ≡ 2 * 2 ^ k = simp unary_clauses (omega arith) in
    (omega (arith, e), omega (arith, e))

-- `x |= 1 << k` sets bit `k`.
pub bit-bit_or : (v k : ℕ) → bit (bit_or v (2 ^ k)) k ≡ 1
unfolding bit
bit-bit_or v zero = omega (arith, bit_or-suc v 1)
bit-bit_or v (suc k) =
    let half = power-half k in
    let e : bit_or v (2 ^ suc k) / 2 ≡ bit_or (v / 2) (2 ^ k) =
      omega (arith, bit_or-suc v (2 ^ suc k), half.1) ∙ ap (bit_or (v / 2)) half.0 in
    ap (λ (x : ℕ). bit x k) e ∙ bit-bit_or (v / 2) k

-- The result fits where both arguments do.
pub bit_or-lt : (w a b : ℕ) → a < 2 ^ w → b < 2 ^ w → bit_or a b < 2 ^ w
bit_or-lt zero a b la lb =
    let za : a ≡ 0 = omega (arith, la) in
    let zb : b ≡ 0 = omega (arith, lb) in rw (za, zb) (omega arith)
bit_or-lt (suc w) a b la lb =
    let half = power-half w in
    let e : 2 ^ suc w ≡ 2 * 2 ^ w = omega (arith, half.0, half.1) in
    omega (
      arith,
      e,
      la,
      lb,
      bit_or-suc a b,
      bit_or-lt w (a / 2) (b / 2) (omega (arith, e, la)) (omega (arith, e, lb)),
    )
