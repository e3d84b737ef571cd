-- ===== src/Network/Readings.antt =====
-- src/model/network.rs: numbers, durations and rates as the router writes them, and how the
-- visitors of the crate read them.
use keenetic_rci.Prelude.{
  ℕ, zero, suc, ◌+◌, ◌-◌, ◌*◌, ◌^◌, ◌%◌, Bool, not, ◌&&◌, ◌||◌, Option, none, some, List, [], ◌∷◌,
  Result, ok, err, ltb, if◌then◌else◌, length, all, str_eq,
}
use keenetic_rci.Prelude.Str.{Str, codes}
use keenetic_rci.Prelude.Optional.{◌>>=◌, ok_or, or_else}
use keenetic_rci.Prelude.Pieces.{split_once, split, parse_unsigned}
use keenetic_rci.Prelude.Words.{u8_max, u32_max, u64_max, fitting}
use keenetic_rci.Json.{
  Value, null, number, string, Number, unsigned, negative, DeserializeError, invalid_type,
  invalid_value, custom,
}
pub mod Times

-- `std::time::Duration`
pub record Duration : Type 0 where
  pub secs : ℕ
  pub nanos : ℕ

-- `Duration::from_secs`
abbrev pub from_secs : ℕ → Duration
from_secs seconds = record { secs = seconds; nanos = 0 }

-- `LeaseExpiration`, its serializer and its visitor.
pub data LeaseExpiration : Type 0 where
  finite : Duration → LeaseExpiration
  infinite : LeaseExpiration

abbrev pub serialize_lease : LeaseExpiration → Value
serialize_lease (finite duration) = number (unsigned duration.secs)
serialize_lease infinite = string (codes "infinity")

unfoldable pub deserialize_lease : Value → Result LeaseExpiration DeserializeError
deserialize_lease (number (unsigned value)) = ok (finite (from_secs value))
deserialize_lease (number (negative value)) = err custom
deserialize_lease (string value) =
    if str_eq value (codes "infinity") then ok infinite else err invalid_value
deserialize_lease _ = err invalid_type

-- `Uptime(Duration)`: `parse_human_uptime`, the visitor, and the serializer.
abbrev pub three : List Str → Option (Str × (Str × Str))
three (hours ∷ minutes ∷ seconds ∷ []) = some (hours, (minutes, seconds))
three _ = none

abbrev pub checked_mul : ℕ → ℕ → Option ℕ
checked_mul a b = fitting u64_max (a * b)

abbrev pub checked_add : ℕ → ℕ → Option ℕ
checked_add a b = fitting u64_max (a + b)

-- The end of `parse_human_uptime`, once the clock is known.
unfoldable pub uptime_seconds : ℕ → ℕ → ℕ → ℕ → Option ℕ
uptime_seconds days hours minutes seconds = do
  n ← checked_mul days 24
  n ← checked_add n hours
  n ← checked_mul n 60
  n ← checked_add n minutes
  n ← checked_mul n 60
  checked_add n seconds

abbrev pub is_clock : ℕ → ℕ → ℕ → Bool
is_clock hours minutes seconds = ltb hours 24 && ltb minutes 60 && ltb seconds 60

-- `parse_human_uptime`. `parts.next()?` fails when a part is missing, and a fourth part ends it; an
-- early failure and a late one are both `none`.
unfoldable pub parse_human_uptime : Str → Option Duration
parse_human_uptime value = do
  (days, time) ← or_else (split_once (codes " days, ") value) (split_once (codes " day, ") value)
  (hours, (minutes, seconds)) ← three (split b':' time)
  hours ← parse_unsigned u64_max hours
  minutes ← parse_unsigned u64_max minutes
  seconds ← parse_unsigned u64_max seconds
  days ← if is_clock hours minutes seconds then parse_unsigned u64_max days else none
  total ← uptime_seconds days hours minutes seconds
  some (from_secs total)

abbrev pub Uptime : Type 0
Uptime = Duration

abbrev pub some_seconds : Option ℕ → Option Duration
some_seconds none = none
some_seconds (some n) = some (from_secs n)

-- The visitor of `Uptime`, and its serializer.
unfoldable pub deserialize_uptime : Value → Result Uptime DeserializeError
unfolding parse_human_uptime
deserialize_uptime (number (unsigned value)) = ok (from_secs value)
deserialize_uptime (number (negative value)) = err custom
deserialize_uptime (string value) =
    ok_or (or_else (some_seconds (parse_unsigned u64_max value)) (parse_human_uptime value))
      invalid_value
deserialize_uptime _ = err invalid_type

abbrev pub serialize_uptime : Uptime → Value
serialize_uptime uptime = number (unsigned uptime.secs)
