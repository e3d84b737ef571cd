-- ===== src/Prelude/Bits.antt =====
-- The bit operations of the source at variables: packing a hexadecimal digit below a shifted value
-- (`(high << 4) | low`), and the split of a byte into two digits (`>> 4`, `& 0x0f`).
use Prim.Native.Nat.{ℕ, zero, suc, ◌+◌, ◌*◌, ◌/◌, ◌%◌, ◌≤◌, ◌<◌, min, max, digits}
use Prim.Native.Nat.{bit_and, bit_or, bit_and-bitwise, bit_or-bitwise}
use mathlib.Core.Path.{◌≡◌, refl}
use native.Mathlib.Omega.{arith}

module _ (rest : ℕ → ℕ) (bit : ℕ → ℕ → ℕ) where
  zero_digits : (l y : ℕ) → digits rest bit 0 0 y ≡ digits rest bit l 0 y
  zero_digits zero y = refl
  zero_digits (suc l) y = refl

  -- Two fuels that are enough give the same digits.
  digits_stable : (k l x y : ℕ) → x ≤ k → x ≤ l → digits rest bit k x y ≡ digits rest bit l x y
  digits_stable (suc k) (suc l) (suc x) y small small' =
      omega (arith, digits_stable k l (suc x / 2) (y / 2) (omega arith) (omega arith))
  digits_stable (suc k) (suc l) zero y small small' = refl
  digits_stable zero l zero y small small' = zero_digits l y
  digits_stable (suc k) zero zero y small small' = refl
  digits_stable zero l (suc x) y small small' = absurd (omega arith)
  digits_stable (suc k) zero (suc x) y small small' = absurd (omega arith)

-- The lowest digit splits off.
bit_or_halves : (x y : ℕ) → bit_or x y ≡ bit_or (x / 2) (y / 2) * 2 + max (x % 2) (y % 2)
bit_or_halves (suc x) y = omega (
  arith,
  digits_stable (λ r. r) max x (suc x / 2) (suc x / 2) (y / 2) (omega arith) (omega arith),
  bit_or-bitwise (suc x / 2) (y / 2),
  bit_or-bitwise (suc x) y,
)
bit_or_halves zero y = omega (arith, bit_or-bitwise 0 y, bit_or-bitwise 0 (y / 2))

bit_and_halves : (x y : ℕ) → bit_and x y ≡ bit_and (x / 2) (y / 2) * 2 + min (x % 2) (y % 2)
bit_and_halves (suc x) y = omega (
  arith,
  digits_stable (λ r. zero) min x (suc x / 2) (suc x / 2) (y / 2) (omega arith) (omega arith),
  bit_and-bitwise (suc x / 2) (y / 2),
  bit_and-bitwise (suc x) y,
)
bit_and_halves zero y = omega (arith, bit_and-bitwise 0 y, bit_and-bitwise 0 (y / 2))

-- On fuel that bounds the left side: nothing on the right.
bit_or-zero_fuel : (k x : ℕ) → x ≤ k → bit_or x 0 ≡ x
bit_or-zero_fuel (suc k) (suc x) small =
    omega (arith, bit_or-zero_fuel k (suc x / 2) (omega arith), bit_or_halves (suc x) 0)
bit_or-zero_fuel zero (suc x) small = absurd (omega arith)
bit_or-zero_fuel k zero small = bit_or-bitwise 0 0

bit_and-zero_fuel : (k x : ℕ) → x ≤ k → bit_and x 0 ≡ 0
bit_and-zero_fuel (suc k) (suc x) small =
    omega (arith, bit_and-zero_fuel k (suc x / 2) (omega arith), bit_and_halves (suc x) 0)
bit_and-zero_fuel zero (suc x) small = absurd (omega arith)
bit_and-zero_fuel k zero small = bit_and-bitwise 0 0

bit_or-none : (a d : ℕ) → d ≡ 0 → bit_or a d ≡ a
bit_or-none a d e = rw e (bit_or-zero_fuel a a (omega arith))

-- `|` puts a hexadecimal digit below a value that was shifted by four bits.
pub bit_or_nibble : (q d : ℕ) → d < 16 → bit_or (q * 16) d ≡ q * 16 + d
bit_or_nibble q d h = omega (
  arith,
  bit_or_halves (q * 16) d,
  bit_or_halves (q * 16 / 2) (d / 2),
  bit_or_halves (q * 16 / 2 / 2) (d / 2 / 2),
  bit_or_halves (q * 16 / 2 / 2 / 2) (d / 2 / 2 / 2),
  bit_or-none (q * 16 / 2 / 2 / 2 / 2) (d / 2 / 2 / 2 / 2) (omega arith),
)

-- `& 0x0f` is the low hexadecimal digit.
pub bit_and_nibble : (a : ℕ) → bit_and a 15 ≡ a % 16
bit_and_nibble a = omega (
  arith,
  bit_and_halves a 15,
  bit_and_halves (a / 2) 7,
  bit_and_halves (a / 2 / 2) 3,
  bit_and_halves (a / 2 / 2 / 2) 1,
  bit_and-zero_fuel (a / 2 / 2 / 2 / 2) (a / 2 / 2 / 2 / 2) (omega arith),
)

nibble_above : (x y q : ℕ) → x ≡ q * 16 → y < 16 → bit_or x y ≡ q * 16 + y
nibble_above x y q e h = rw e (bit_or_nibble q y h)

-- `|` puts a byte below a value that was shifted by eight bits.
pub bit_or_byte : (q d : ℕ) → d < 256 → bit_or (q * 256) d ≡ q * 256 + d
bit_or_byte q d h = omega (
  arith,
  bit_or_halves (q * 256) d,
  bit_or_halves (q * 256 / 2) (d / 2),
  bit_or_halves (q * 256 / 2 / 2) (d / 2 / 2),
  bit_or_halves (q * 256 / 2 / 2 / 2) (d / 2 / 2 / 2),
  nibble_above (q * 256 / 2 / 2 / 2 / 2) (d / 2 / 2 / 2 / 2) q (omega arith) (omega arith),
)
