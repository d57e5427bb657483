-- ===== src/Base/Bits.antt =====
-- The lowest digit of `bit_or`, which the native operation leaves to its definition by digits.
use Prim.Native.Nat.{
  ℕ, zero, suc, ◌+◌, ◌*◌, ◌/◌, ◌%◌, ◌≤◌, ◌<◌, max, bit_or, digits, bit_or-bitwise,
}
use mathlib.Core.Path.{◌≡◌, refl, ap}
use native.Mathlib.Omega.{arith}

abbrev or_digits : ℕ → ℕ → ℕ → ℕ
or_digits n a b = digits (λ y. y) max n a b

-- Any fuel from the first number on gives the same digits.
or_digits-fuel : (n m a b : ℕ) → a ≤ n → a ≤ m → or_digits n a b ≡ or_digits m a b
or_digits-fuel zero zero a b p q = refl
or_digits-fuel zero (suc m) zero b p q = refl
or_digits-fuel zero (suc m) (suc a) b p q = absurd (omega arith)
or_digits-fuel (suc n) zero zero b p q = refl
or_digits-fuel (suc n) zero (suc a) b p q = absurd (omega arith)
or_digits-fuel (suc n) (suc m) zero b p q = refl
or_digits-fuel (suc n) (suc m) (suc a) b p q =
    omega (arith, or_digits-fuel n m (suc a / 2) (b / 2) (omega arith) (omega arith))

pub zero-bit_or : (b : ℕ) → bit_or 0 b ≡ b
zero-bit_or b = bit_or-bitwise 0 b

pub bit_or_step : (a b : ℕ) → bit_or a b ≡ bit_or (a / 2) (b / 2) * 2 + max (a % 2) (b % 2)
bit_or_step zero b = omega (arith, zero-bit_or b, zero-bit_or (b / 2))
bit_or_step (suc a) b = omega (
  arith,
  bit_or-bitwise (suc a) b,
  bit_or-bitwise (suc a / 2) (b / 2),
  or_digits-fuel a (suc a / 2) (suc a / 2) (b / 2) (omega arith) (omega arith),
)

-- A number moved up by some bits.
abbrev pub shift : ℕ → ℕ → ℕ
shift zero b = b
shift (suc k) b = shift k b * 2

-- Where the low bits of one number are 0 and the other has no more than those, nothing overlaps.
pub bit_or_low : (k a b : ℕ) → a < shift k 1 → bit_or a (shift k b) ≡ a + shift k b
bit_or_low zero zero b h = omega (arith, zero-bit_or b)
bit_or_low zero (suc a) b h = absurd (omega arith)
bit_or_low (suc k) a b h =
    let half : shift k b * 2 / 2 ≡ shift k b = omega arith in
    omega (
      arith,
      bit_or_step a (shift k b * 2),
      ap (λ n. bit_or (a / 2) n) half,
      bit_or_low k (a / 2) b (omega arith),
    )
