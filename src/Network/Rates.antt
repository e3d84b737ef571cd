-- ===== src/Network/Rates.antt =====
-- src/model/network.rs: data rates and the other measured values of a Wi-Fi link.
use keenetic_rci.Prelude.{
  ℕ, zero, suc, ◌*◌, Option, none, some, Result, ok, err, ◌>>=◌, map_ok, map_err,
}
use keenetic_rci.Prelude.Words.{u64_max, fitting}
use keenetic_rci.Json.{
  Value, null, number, unsigned, negative, DeserializeError, invalid_type, invalid_value, custom,
}

-- `DataRate(u64)`, in bits per second, and `InvalidDataRate`.
pub record DataRate : Type 0 where
  pub bits_per_second : ℕ

pub data InvalidDataRate : Type 0 where
  overflows : InvalidDataRate

abbrev rate_of : Option ℕ → Result DataRate InvalidDataRate
rate_of none = err overflows
rate_of (some value) = ok (record { bits_per_second = value })

-- `DataRate::from_kilobits_per_second`, `DataRate::from_megabits_per_second`
unfoldable pub from_kilobits : ℕ → Result DataRate InvalidDataRate
from_kilobits value = rate_of (fitting u64_max (value * 1000))

unfoldable pub from_megabits : ℕ → Result DataRate InvalidDataRate
from_megabits value = rate_of (fitting u64_max (value * 1000000))

-- `u64::deserialize`
abbrev pub u64_of : Value → Result ℕ DeserializeError
u64_of (number (unsigned value)) = ok value
u64_of (number (negative value)) = err invalid_value
u64_of _ = err invalid_type

abbrev customized : InvalidDataRate → DeserializeError
customized overflows = custom

-- `deserialize_kbps`, `deserialize_mbps` and `deserialize_optional_mbps`.
unfoldable pub deserialize_kbps : Value → Result DataRate DeserializeError
unfolding from_kilobits
deserialize_kbps value = do n ← u64_of value; map_err customized (from_kilobits n)

unfoldable pub deserialize_mbps : Value → Result DataRate DeserializeError
unfolding from_megabits
deserialize_mbps value = do n ← u64_of value; map_err customized (from_megabits n)

unfoldable pub deserialize_optional_mbps : Value → Result (Option DataRate) DeserializeError
unfolding deserialize_mbps
deserialize_optional_mbps null = ok none
deserialize_optional_mbps value = map_ok some (deserialize_mbps value)

-- `SpatialStreams::new`
abbrev pub spatial_streams : ℕ → Option ℕ
spatial_streams zero = none
spatial_streams (suc n) = some (suc n)
