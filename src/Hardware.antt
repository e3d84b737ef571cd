-- ===== src/Hardware.antt =====
-- src/model/hardware_id.rs: hardware vendors, models and identifiers.
use keenetic_rci.Prelude.{
  ℕ, zero, suc, ◌-◌, Bool, not, Option, none, some, [], ◌∷◌, ◌++◌, Result, ok, err, ◌>>=◌, map_err,
  ◌==◌, if◌then◌else◌, length, get_or, str_eq, leb,
}
use keenetic_rci.Prelude.Str.{Str, Bytes, codes, as_bytes, encode_utf8}
use keenetic_rci.Text.{InvalidInlineAscii, length_is, character_at, InlineAscii, digits, as_str}
pub mod Reading
pub mod Format

abbrev pub hardware_model_length : ℕ
hardware_model_length = 4

pub data ParseHardwareModelError : Type 0 where
  invalid_length invalid_digit : ℕ → ParseHardwareModelError

pub data ParseHardwareVendorError : Type 0 where
  unknown_vendor : ParseHardwareVendorError

pub data ParseHardwareIdError : Type 0 where
  invalid_length : ℕ → ParseHardwareIdError
  invalid_separator : ParseHardwareIdError
  invalid_vendor : ParseHardwareVendorError → ParseHardwareIdError
  invalid_model : ParseHardwareModelError → ParseHardwareIdError

pub data HardwareVendor : Type 0 where
  keenetic netcraze : HardwareVendor

-- `HardwareVendor::as_str`, and its `from_str`.
abbrev pub vendor_str : HardwareVendor → Str
vendor_str keenetic = codes "KN"
vendor_str netcraze = codes "NC"

unfoldable pub parse_vendor : Str → Result HardwareVendor ParseHardwareVendorError
parse_vendor value =
    if str_eq value (codes "KN")
    then ok keenetic
    else if str_eq value (codes "NC")
    then ok netcraze
    else err unknown_vendor

abbrev pub model_error : InvalidInlineAscii → ParseHardwareModelError
model_error (length_is actual) = ParseHardwareModelError.invalid_length actual
model_error (character_at index) = ParseHardwareModelError.invalid_digit index

-- `HardwareModel::from_str`
unfoldable pub parse_model : Str → Result InlineAscii ParseHardwareModelError
parse_model value = map_err model_error (digits hardware_model_length hardware_model_length value)

pub record HardwareId : Type 0 where
  pub vendor : HardwareVendor
  pub model : InlineAscii

-- The text cut at a byte offset; `none` if that is no boundary of a character, where slicing panics.
abbrev cut : ℕ → Option (Str × Str) → Option (Str × Str)
cut c none = none
cut c (some (front, back)) = some (c ∷ front, back)

unfoldable pub split_at : ℕ → Str → Option (Str × Str)
split_at zero s = some ([], s)
split_at (suc n) [] = none
split_at (suc n) (c ∷ s) =
    let width = length (encode_utf8 c) in
    let rest = split_at (suc n - width) s in if leb width (suc n) then cut c rest else none

abbrev pub read_model :
    HardwareVendor → Option (Str × Str) → Option (Result HardwareId ParseHardwareIdError)
read_model vendor none = none
read_model vendor (some (before, digits)) = some (do
  model ← map_err invalid_model (parse_model digits)
  ok (record { vendor = vendor; model = model }))

abbrev pub with_vendor :
    Result HardwareVendor ParseHardwareVendorError
    → Option (Str × Str)
    → Option (Result HardwareId ParseHardwareIdError)
with_vendor (err e) digits = some (err (invalid_vendor e))
with_vendor (ok vendor) digits = read_model vendor digits

abbrev pub read_id :
    Option (Str × Str) → Option (Str × Str) → Option (Result HardwareId ParseHardwareIdError)
read_id none digits = none
read_id (some (prefix, after)) digits = with_vendor (parse_vendor prefix) digits

-- `HardwareId::from_str`; `none` is a panic.
unfoldable pub parse_hardware_id : Str → Option (Result HardwareId ParseHardwareIdError)
unfolding parse_vendor parse_model split_at
parse_hardware_id value =
    let bytes = as_bytes value in
    if not (length bytes == 7)
    then some (err (ParseHardwareIdError.invalid_length (length bytes)))
    else if not (get_or bytes 2 0 == b'-')
    then some (err invalid_separator)
    else read_id (split_at 2 value) (split_at 3 value)

-- `Display`; `none` is the panic of `HardwareModel::as_str`.
abbrev pub displayed : HardwareVendor → Option Str → Option Str
displayed vendor none = none
displayed vendor (some model) = some (vendor_str vendor ++ (codes "-" ++ model))

unfoldable pub display_hardware_id : HardwareId → Option Str
display_hardware_id id = displayed id.vendor (as_str id.model)
