-- ===== src/Prelude/Words.antt =====
-- The greatest values of the unsigned types, and their checked arithmetic.
use Prim.Native.Nat.{ℕ, ◌≤◌, ◌<◌}
use mathlib.Core.Path.{◌≡◌}
use mathlib.Core.Option.{Option, none, some}
use native.Mathlib.Omega.{arith}
use keenetic_rci.Prelude.Tests.{leb, if◌then◌else◌}

abbrev pub u8_max : ℕ
u8_max = 255

abbrev pub u16_max : ℕ
u16_max = 65535

abbrev pub u32_max : ℕ
u32_max = 4294967295

abbrev pub u64_max : ℕ
u64_max = 18446744073709551615

-- The value, if a type with the greatest value holds it: `try_from`, and the end of `checked_mul`
-- and `checked_add`.
unfoldable pub fitting : ℕ → ℕ → Option ℕ
fitting greatest value = if leb value greatest then some value else none

pub fitting-eq-some :
    (greatest value n : ℕ) → fitting greatest value ≡ some n → (n ≡ value) × (value ≤ greatest)
unfolding fitting
fitting-eq-some greatest value n h = ground arith

pub fitting-eq-none : (greatest value : ℕ) → fitting greatest value ≡ none → greatest < value
unfolding fitting
fitting-eq-none greatest value h = ground arith

pub fitting_takes : (greatest value : ℕ) → value ≤ greatest → fitting greatest value ≡ some value
unfolding fitting
fitting_takes greatest value h = ground arith

-- The values of the signed types.
pub data ℤ : Type 0 where
  pos : ℕ → ℤ
  negsuc : ℕ → ℤ
