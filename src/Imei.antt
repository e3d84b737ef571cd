-- ===== src/Imei.antt =====
-- src/model/imei.rs: the IMEI, fifteen digits of which the last is a Luhn check digit.
use keenetic_rci.Prelude.{
  ℕ, zero, suc, ◌+◌, ◌-◌, ◌*◌, ◌%◌, Bool, Option, [], ◌∷◌, Result, ok, err, map_err, ◌>>=◌, leb,
  ltb, ◌==◌, if◌then◌else◌,
}
use keenetic_rci.Prelude.Str.{Str, Bytes}
use keenetic_rci.Text
use keenetic_rci.Text.{InvalidInlineAscii, length_is, character_at, InlineAscii, inline_bytes}
pub mod Luhn

abbrev pub imei_length : ℕ
imei_length = 15

pub data ParseImeiError : Type 0 where
  invalid_length : ℕ → ParseImeiError
  invalid_digit : ℕ → ParseImeiError
  invalid_checksum : ParseImeiError

abbrev pub imei_error : InvalidInlineAscii → ParseImeiError
imei_error (length_is actual) = invalid_length actual
imei_error (character_at index) = invalid_digit index

-- What a byte at an index adds to the checksum.
unfoldable pub weigh : ℕ → ℕ → ℕ
weigh index byte =
    let digit = byte - b'0' in
    if index % 2 == 0 then digit else if ltb 9 (digit * 2) then digit * 2 - 9 else digit * 2

-- The loop over the digits; the checksum is a `u8`.
unfoldable pub checksum : ℕ → ℕ → Bytes → ℕ
checksum index sum [] = sum
checksum index sum (byte ∷ bytes) = checksum (index + 1) ((sum + weigh index byte) % 256) bytes

-- The end of `from_str`.
unfoldable pub check : InlineAscii → Result InlineAscii ParseImeiError
check encoded =
    if checksum 0 0 (inline_bytes encoded) % 10 == 0 then ok encoded else err invalid_checksum

-- `Imei::from_str`
unfoldable pub parse_imei : Str → Result InlineAscii ParseImeiError
parse_imei value = do
  encoded ← map_err imei_error (Text.digits imei_length imei_length value)
  check encoded
