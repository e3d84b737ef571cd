-- ===== src/Network/Decimal.antt =====
-- src/model/network.rs: numbers that the router writes as numbers or as decimal texts, and
-- durations in decimal seconds.
use keenetic_rci.Prelude.{
  ℕ, ◌-◌, ◌*◌, ◌^◌, ◌%◌, Bool, not, ◌||◌, Option, none, some, [], ◌∷◌, Result, ok, err, ◌>>=◌,
  map_ok, ltb, ◌==◌, if◌then◌else◌, length, all,
}
use keenetic_rci.Prelude.Optional.{ok_or}
use keenetic_rci.Prelude.Str.{Str, codes, as_bytes}
use keenetic_rci.Prelude.Pieces.{split_once, parse_unsigned}
use keenetic_rci.Prelude.Words.{u8_max, u32_max, u64_max, fitting}
use keenetic_rci.Text.{is_ascii_digit}
use keenetic_rci.Json.{
  Value, null, number, string, unsigned, negative, DeserializeError, invalid_type, custom,
}
use keenetic_rci.Network.Readings.{Duration}
pub mod Fractions

-- `U8Visitor`, `OptionalU8Visitor` and `deserialize_optional_u8_string_or_number`.
unfoldable pub read_u8 : Value → Result ℕ DeserializeError
read_u8 (number (unsigned value)) = ok_or (fitting u8_max value) custom
read_u8 (number (negative value)) = err custom
read_u8 (string value) = ok_or (parse_unsigned u8_max value) custom
read_u8 _ = err invalid_type

unfoldable pub read_optional_u8 : Value → Result (Option ℕ) DeserializeError
unfolding read_u8
read_optional_u8 null = ok none
read_optional_u8 value = map_ok some (read_u8 value)

-- `deserialize_u64_string_or_number`
unfoldable pub read_u64 : Value → Result ℕ DeserializeError
read_u64 (number (unsigned value)) = ok value
read_u64 (number (negative value)) = err custom
read_u64 (string value) = ok_or (parse_unsigned u64_max value) custom
read_u64 _ = err invalid_type

pub data InvalidDecimal : Type 0 where
  invalid_whole invalid_fraction : InvalidDecimal

abbrev pub parts_or : Str → Option (Str × Str) → Str × Str
parts_or value none = (value, [])
parts_or value (some parts) = parts

-- The nanoseconds of a fraction of at most nine digits; `*` on `u32` wraps around.
unfoldable pub fraction_nanos : Str → Result ℕ InvalidDecimal
fraction_nanos [] = ok 0
fraction_nanos (c ∷ fraction) = do
  parsed ← ok_or (parse_unsigned u32_max (c ∷ fraction)) invalid_fraction
  ok (parsed * 10 ^ (9 - length (as_bytes (c ∷ fraction))) % 2 ^ 32)

-- `parse_decimal_duration`
unfoldable pub parse_decimal_duration : Str → Result Duration InvalidDecimal
unfolding fraction_nanos
parse_decimal_duration value =
    let (whole, fraction) = parts_or value (split_once (codes ".") value) in
    (do
      seconds ← ok_or (parse_unsigned u64_max whole) invalid_whole
      nanos ←
          if ltb 9 (length (as_bytes fraction)) || not (all is_ascii_digit (as_bytes fraction))
          then err invalid_fraction
          else fraction_nanos fraction
      ok (record { secs = seconds; nanos = nanos }))

-- The visitor of `deserialize_decimal_duration`.
unfoldable pub read_decimal_duration : Value → Result Duration DeserializeError
read_decimal_duration (string value) = elim (parse_decimal_duration value) [
  | ok duration ↦ ok duration
  | err e ↦ err custom
]
read_decimal_duration _ = err invalid_type
