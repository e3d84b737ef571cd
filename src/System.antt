-- ===== src/System.antt =====
-- src/model/system.rs and system_mode.rs: the runtime metrics of the router and its operating modes.
use keenetic_rci.Prelude.{
  ℕ, zero, suc, Bool, Option, none, some, List, [], ◌∷◌, Result, ok, err, ◌>>=◌, leb, if◌then◌else◌,
}
use keenetic_rci.Prelude.Str.{Str}
use keenetic_rci.Prelude.Pieces.{trim, split}
use keenetic_rci.Json.{Value, string, DeserializeError, invalid_type, custom}
use keenetic_rci.Network.Readings.{Uptime}
use keenetic_rci.Classifiers.Modes.{SystemOperatingMode, system_operating_mode}
pub mod Supported

-- `InvalidCpuLoad` and `InvalidMtu`, with the value that is refused.
pub data InvalidMetric : Type 0 where
  invalid_cpu_load : ℕ → InvalidMetric
  invalid_mtu : ℕ → InvalidMetric

-- `CpuLoad::new`, on a `u8`; a load is its percentage.
unfoldable pub cpu_load : ℕ → Result ℕ InvalidMetric
cpu_load value = if leb value 100 then ok value else err (invalid_cpu_load value)

abbrev pub least_mtu : ℕ
least_mtu = 64

-- `NonZeroU16::new`
abbrev pub non_zero : ℕ → Option ℕ
non_zero zero = none
non_zero (suc n) = some (suc n)

abbrev mtu_from : ℕ → Option ℕ → Result ℕ InvalidMetric
mtu_from given none = err (invalid_mtu given)
mtu_from given (some value) = if leb least_mtu value then ok value else err (invalid_mtu given)

-- `Mtu::new`, on a `u16`; an MTU is its number of bytes.
unfoldable pub mtu : ℕ → Result ℕ InvalidMetric
mtu value = mtu_from value (non_zero value)

-- `System`
pub record System : Type 0 where
  pub hostname : Str
  pub domain_name : Str
  pub uptime : Uptime
  pub cpu_load_percent : ℕ
  pub memory_total : ℕ
  pub memory_free : ℕ
  pub connection_capacity : ℕ
  pub connections_available : ℕ

-- `SystemModeStatus`
pub record SystemModeStatus : Type 0 where
  pub active : SystemOperatingMode
  pub selected : SystemOperatingMode
  pub supported : List SystemOperatingMode
  pub hardware_controlled : Bool
  pub hardware_locked : Bool

-- The closure that reads one mode of `deserialize_supported_modes`.
unfoldable pub supported_mode : Str → Result SystemOperatingMode DeserializeError
supported_mode [] = err custom
supported_mode (c ∷ mode) = ok (system_operating_mode (c ∷ mode))

-- `collect` into a result: the modes, or the first error.
unfoldable pub supported_modes : List Str → Result (List SystemOperatingMode) DeserializeError
unfolding supported_mode
supported_modes [] = ok []
supported_modes (piece ∷ pieces) = do
  mode ← supported_mode (trim piece)
  modes ← supported_modes pieces
  ok (mode ∷ modes)

-- `deserialize_supported_modes`
unfoldable pub deserialize_supported_modes :
    Value → Result (List SystemOperatingMode) DeserializeError
unfolding supported_modes
deserialize_supported_modes (string value) = supported_modes (split b',' value)
deserialize_supported_modes _ = err invalid_type
