-- ===== src/Ether/Bits.antt =====
-- Orders and tests on the bit operations that the address helpers use.
use wlan_bridge.Common.{ℕ, zero, suc, ◌/◌, ◌%◌, ◌≤◌, ◌≡◌, refl, arith}
use Prim.Native.Nat.{
  digits, differ, min, max, bit_and, bit_or, bit_xor, bit_and-bitwise, bit_or-bitwise,
  bit_xor-bitwise,
}

pub one-bit_and : (b : ℕ) → bit_and 1 b ≡ b % 2
one-bit_and b = omega (arith, bit_and-bitwise 1 b)

or_digits-le :
    (n a b : ℕ) → a ≤ n → (a ≤ digits (λ b. b) max n a b) × (b ≤ digits (λ b. b) max n a b)
or_digits-le zero zero b h = omega arith
or_digits-le zero (suc a) b h = absurd (omega arith)
or_digits-le (suc n) zero b h = omega arith
or_digits-le (suc n) (suc a) b h = omega (arith, or_digits-le n (suc a / 2) (b / 2) (omega arith))

pub bit_or-le : (a b : ℕ) → (a ≤ bit_or a b) × (b ≤ bit_or a b)
bit_or-le a b = omega (arith, bit_or-bitwise a b, or_digits-le a a b (omega arith))

and_digits-le : (n a b : ℕ) → (digits (λ b. 0) min n a b ≤ a) × (digits (λ b. 0) min n a b ≤ b)
and_digits-le zero a b = omega arith
and_digits-le (suc n) zero b = omega arith
and_digits-le (suc n) (suc a) b = omega (arith, and_digits-le n (suc a / 2) (b / 2))

pub bit_and-le : (a b : ℕ) → (bit_and a b ≤ a) × (bit_and a b ≤ b)
bit_and-le a b = omega (arith, bit_and-bitwise a b, and_digits-le a a b)

differ_zero : (x y : ℕ) → differ x y ≡ 0 → x ≡ y
differ_zero zero y h = omega arith
differ_zero (suc x) zero h = absurd (omega arith)
differ_zero (suc x) (suc y) h = omega (arith, differ_zero x y h)

differ_self : (x : ℕ) → differ x x ≡ 0
differ_self zero = refl
differ_self (suc x) = differ_self x

xor_digits_zero : (n a b : ℕ) → a ≤ n → digits (λ b. b) differ n a b ≡ 0 → a ≡ b
xor_digits_zero zero zero b h e = omega arith
xor_digits_zero zero (suc a) b h e = absurd (omega arith)
xor_digits_zero (suc n) zero b h e = omega arith
xor_digits_zero (suc n) (suc a) b h e = omega (
  arith,
  xor_digits_zero n (suc a / 2) (b / 2) (omega arith) (omega arith),
  differ_zero (suc a % 2) (b % 2) (omega arith),
)

xor_digits_self : (n a : ℕ) → a ≤ n → digits (λ b. b) differ n a a ≡ 0
xor_digits_self zero zero h = refl
xor_digits_self zero (suc a) h = absurd (omega arith)
xor_digits_self (suc n) zero h = refl
xor_digits_self (suc n) (suc a) h =
    omega (arith, xor_digits_self n (suc a / 2) (omega arith), differ_self (suc a % 2))

-- Two numbers have the exclusive or 0 exactly when they are the same.
pub bit_xor_zero : (a b : ℕ) → bit_xor a b ≡ 0 → a ≡ b
bit_xor_zero a b h = xor_digits_zero a a b (omega arith) (omega (arith, bit_xor-bitwise a b))

pub bit_xor_self : (a : ℕ) → bit_xor a a ≡ 0
bit_xor_self a = omega (arith, bit_xor-bitwise a a, xor_digits_self a a (omega arith))
