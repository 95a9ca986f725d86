-- ===== src/Prelude/Bits.antt =====
-- Bit operations at variables, from the digit recursion that the native operations stand for.
use Prim.Native.Nat.{
  ℕ, zero, suc, ◌+◌, ◌-◌, ◌*◌, ◌/◌, ◌%◌, ◌^◌, ◌≤◌, ◌<◌, min, max, bit_and, bit_or, digits,
}
use Prim.Native.Nat.{bit_and-bitwise, bit_or-bitwise}
use mathlib.Core.Path.{◌≡◌, refl, ap, ap₂, ◌∙◌}
use project_transport_protoc.Prelude.Tests.{◌==◌, if◌then◌else◌}
use native.Mathlib.Omega.{arith}
use native.Mathlib.Nat.{pow-succ', pow-succ', one-le-pow}

-- More fuel than digits changes nothing.
and_fuel :
    (n m a b : ℕ) → a ≤ n → a ≤ m → digits (λ b. zero) min n a b ≡ digits (λ b. zero) min m a b
and_fuel zero zero a b p q = refl
and_fuel zero (suc m) zero b p q = refl
and_fuel zero (suc m) (suc a) b p q = absurd (omega arith)
and_fuel (suc n) zero zero b p q = refl
and_fuel (suc n) zero (suc a) b p q = absurd (omega arith)
and_fuel (suc n) (suc m) zero b p q = refl
and_fuel (suc n) (suc m) (suc a) b p q =
    omega (arith, and_fuel n m (suc a / 2) (b / 2) (omega arith) (omega arith))

or_fuel : (n m a b : ℕ) → a ≤ n → a ≤ m → digits (λ b. b) max n a b ≡ digits (λ b. b) max m a b
or_fuel zero zero a b p q = refl
or_fuel zero (suc m) zero b p q = refl
or_fuel zero (suc m) (suc a) b p q = absurd (omega arith)
or_fuel (suc n) zero zero b p q = refl
or_fuel (suc n) zero (suc a) b p q = absurd (omega arith)
or_fuel (suc n) (suc m) zero b p q = refl
or_fuel (suc n) (suc m) (suc a) b p q =
    omega (arith, or_fuel n m (suc a / 2) (b / 2) (omega arith) (omega arith))

zero-and : (b : ℕ) → bit_and 0 b ≡ 0
zero-and b = bit_and-bitwise 0 b

zero-or : (b : ℕ) → bit_or 0 b ≡ b
zero-or b = bit_or-bitwise 0 b

-- The lowest digit and the others.
pub bit_and-digit : (a b : ℕ) → bit_and a b ≡ bit_and (a / 2) (b / 2) * 2 + min (a % 2) (b % 2)
bit_and-digit zero b = omega (arith, zero-and b, zero-and (b / 2))
bit_and-digit (suc a) b = omega (
  arith,
  bit_and-bitwise (suc a) b,
  bit_and-bitwise (suc a / 2) (b / 2),
  and_fuel a (suc a / 2) (suc a / 2) (b / 2) (omega arith) (omega arith),
)

pub bit_or-digit : (a b : ℕ) → bit_or a b ≡ bit_or (a / 2) (b / 2) * 2 + max (a % 2) (b % 2)
bit_or-digit zero b = omega (arith, zero-or b, zero-or (b / 2))
bit_or-digit (suc a) b = omega (
  arith,
  bit_or-bitwise (suc a) b,
  bit_or-bitwise (suc a / 2) (b / 2),
  or_fuel a (suc a / 2) (suc a / 2) (b / 2) (omega arith) (omega arith),
)

and_zero_below : (n a : ℕ) → a ≤ n → bit_and a 0 ≡ 0
and_zero_below n zero h = refl
and_zero_below zero (suc a) h = absurd (omega arith)
and_zero_below (suc n) (suc a) h =
    omega (arith, bit_and-digit (suc a) 0, and_zero_below n (suc a / 2) (omega arith))

pub mod-double : (a p : ℕ) → 0 < p → a % (2 * p) ≡ a / 2 % p * 2 + a % 2
mod-double a p h = grind arith

pub pow_pos : (k : ℕ) → 0 < 2 ^ k
pow_pos k = one-le-pow k 2 (omega arith)

-- Masking by `2 ^ k - 1` is the remainder.
pub bit_and-mask : (k a : ℕ) → bit_and a (2 ^ k - 1) ≡ a % 2 ^ k
bit_and-mask zero a = omega (arith, and_zero_below a a (omega arith))
bit_and-mask (suc k) a =
    bit_and-digit a (2 ^ suc k - 1)
    ∙ ap₂ (λ h l. bit_and (a / 2) h * 2 + min (a % 2) l) {x = (2 ^ suc k - 1) / 2} high low
    ∙ rw (pow-succ' 2 k) (omega (arith, bit_and-mask k (a / 2), mod-double a (2 ^ k) (pow_pos k)))
  where
    high : (2 ^ suc k - 1) / 2 ≡ 2 ^ k - 1
    high = omega (arith, pow-succ' 2 k)

    low : (2 ^ suc k - 1) % 2 ≡ 1
    low = omega (arith, pow-succ' 2 k, pow_pos k)

-- Bit `i` of `m`.
abbrev pub bit : ℕ → ℕ → ℕ
bit zero m = m % 2
bit (suc i) m = bit i (m / 2)

pub bit_or-half : (a b : ℕ) → bit_or a b / 2 ≡ bit_or (a / 2) (b / 2)
bit_or-half a b = omega (arith, bit_or-digit a b)

pub bit_or-bit : (i a b : ℕ) → bit i (bit_or a b) ≡ max (bit i a) (bit i b)
bit_or-bit zero a b = omega (arith, bit_or-digit a b)
bit_or-bit (suc i) a b = rw bit_or-half (bit_or-bit i (a / 2) (b / 2))

pub bit-zero : (j : ℕ) → bit j 0 ≡ 0
bit-zero zero = refl
bit-zero (suc j) = bit-zero j

bit-pow : (j g : ℕ) → bit j (2 ^ g) ≡ (if j == g then 1 else 0)
bit-pow zero zero = refl
bit-pow zero (suc g) = ground (arith, pow-succ' 2 g)
bit-pow (suc j) zero = ground (arith, bit-zero j)
bit-pow (suc j) (suc g) =
    let half : 2 ^ suc g / 2 ≡ 2 ^ g = omega (arith, pow-succ' 2 g) in
    rw half (bit-pow j g ∙ ground arith)

-- Setting one bit.
pub set_bit :
    (g j mask : ℕ) → bit j (bit_or mask (2 ^ g)) ≡ max (bit j mask) (if j == g then 1 else 0)
set_bit g j mask = bit_or-bit j mask (2 ^ g) ∙ ap (max (bit j mask)) (bit-pow j g)

pub bit-lt : (i m : ℕ) → bit i m < 2
bit-lt zero m = omega arith
bit-lt (suc i) m = bit-lt i (m / 2)
