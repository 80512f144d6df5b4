-- ===== src/SnowFlake/Digits.antt =====
-- The binary digits of `&` and `|`, from which snowflake.h puts its ids together.
use Prim.Native.Nat.{digits, bit_and, bit_or, bit_and-bitwise, bit_or-bitwise, min, max}
use cache_system_of_lease_me.Base.{
  ℕ, zero, suc, ◌+◌, ◌*◌, ◌/◌, ◌%◌, ◌^◌, ◌≤◌, ◌<◌, ◌≡◌, refl, arith,
}

-- More fuel than the first number needs makes no difference.
or_fuel : (n m a b : ℕ) → a ≤ n → a ≤ m → digits (λ b. b) max n a b ≡ digits (λ b. b) max m a b
or_fuel zero zero a b p q = refl
or_fuel zero (suc m) zero b p q = refl
or_fuel zero (suc m) (suc a) b p q = absurd (omega arith)
or_fuel (suc n) zero zero b p q = refl
or_fuel (suc n) zero (suc a) b p q = absurd (omega arith)
or_fuel (suc n) (suc m) zero b p q = refl
or_fuel (suc n) (suc m) (suc a) b p q =
    omega (arith, or_fuel n m (suc a / 2) (b / 2) (omega arith) (omega arith))

and_fuel : (n m a b : ℕ) → a ≤ n → a ≤ m → digits (λ b. 0) min n a b ≡ digits (λ b. 0) min m a b
and_fuel zero zero a b p q = refl
and_fuel zero (suc m) zero b p q = refl
and_fuel zero (suc m) (suc a) b p q = absurd (omega arith)
and_fuel (suc n) zero zero b p q = refl
and_fuel (suc n) zero (suc a) b p q = absurd (omega arith)
and_fuel (suc n) (suc m) zero b p q = refl
and_fuel (suc n) (suc m) (suc a) b p q =
    omega (arith, and_fuel n m (suc a / 2) (b / 2) (omega arith) (omega arith))

-- The lowest digit, and the others.
or_digit : (a b : ℕ) → bit_or a b ≡ bit_or (a / 2) (b / 2) * 2 + max (a % 2) (b % 2)
or_digit zero b = omega (arith, bit_or-bitwise 0 b, bit_or-bitwise 0 (b / 2))
or_digit (suc a) b = omega (
  arith,
  bit_or-bitwise (suc a) b,
  bit_or-bitwise (suc a / 2) (b / 2),
  or_fuel a (suc a / 2) (suc a / 2) (b / 2) (omega arith) (omega arith),
)

and_digit : (a b : ℕ) → bit_and a b ≡ bit_and (a / 2) (b / 2) * 2 + min (a % 2) (b % 2)
and_digit zero b = omega (arith, bit_and-bitwise 0 b, bit_and-bitwise 0 (b / 2))
and_digit (suc a) b = omega (
  arith,
  bit_and-bitwise (suc a) b,
  bit_and-bitwise (suc a / 2) (b / 2),
  and_fuel a (suc a / 2) (suc a / 2) (b / 2) (omega arith) (omega arith),
)

or_half : (a b : ℕ) → bit_or a b / 2 ≡ bit_or (a / 2) (b / 2)
or_half a b = omega (arith, or_digit a b)

and_half : (a b : ℕ) → bit_and a b / 2 ≡ bit_and (a / 2) (b / 2)
and_half a b = omega (arith, and_digit a b)

-- The number of the lowest `k` digits.
unfoldable pub low : ℕ → ℕ → ℕ
low zero a = 0
low (suc k) a = low k (a / 2) * 2 + a % 2

-- `k` ones.
unfoldable pub ones : ℕ → ℕ
ones zero = 0
ones (suc k) = ones k * 2 + 1

pub low-or_zero : (k a b : ℕ) → low k a ≡ 0 → low k (bit_or a b) ≡ low k b
unfolding low
low-or_zero zero a b h = refl
low-or_zero (suc k) a b h =
    rw (or_half a b) (omega (arith, or_digit a b, low-or_zero k (a / 2) (b / 2) (omega (arith, h))))

pub low-and_zero : (k a b : ℕ) → low k b ≡ 0 → low k (bit_and a b) ≡ 0
unfolding low
low-and_zero zero a b h = refl
low-and_zero (suc k) a b h =
    rw (and_half a b)
      (omega (arith, and_digit a b, low-and_zero k (a / 2) (b / 2) (omega (arith, h))))

pub low-zero_and : (k a b : ℕ) → low k a ≡ 0 → low k (bit_and a b) ≡ 0
unfolding low
low-zero_and zero a b h = refl
low-zero_and (suc k) a b h =
    rw (and_half a b)
      (omega (arith, and_digit a b, low-zero_and k (a / 2) (b / 2) (omega (arith, h))))

pub low-and_ones : (k a b : ℕ) → low k b ≡ ones k → low k (bit_and a b) ≡ low k a
unfolding low ones
low-and_ones zero a b h = refl
low-and_ones (suc k) a b h =
    rw (and_half a b)
      (omega (arith, and_digit a b, low-and_ones k (a / 2) (b / 2) (omega (arith, h))))

pub or_lt : (k a b : ℕ) → a < 2 ^ k → b < 2 ^ k → bit_or a b < 2 ^ k
or_lt zero zero b h g = omega (arith, bit_or-bitwise 0 b)
or_lt zero (suc a) b h g = absurd (omega arith)
or_lt (suc k) a b h g =
    omega (arith, or_digit a b, or_lt k (a / 2) (b / 2) (omega arith) (omega arith))

pub and_lt : (k a b : ℕ) → a < 2 ^ k → bit_and a b < 2 ^ k
and_lt zero zero b h = omega (arith, bit_and-bitwise 0 b)
and_lt zero (suc a) b h = absurd (omega arith)
and_lt (suc k) a b h = omega (arith, and_digit a b, and_lt k (a / 2) (b / 2) (omega arith))

-- Twelve digits are what 4096 leaves.
pub low-twelve : (a : ℕ) → low 12 a ≡ a % 4096
unfolding low
low-twelve a = omega arith
