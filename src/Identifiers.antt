-- ===== src/Identifiers.antt =====
-- src/model/iccid.rs, src/model/imsi.rs, src/model/plmn.rs and src/model/reported.rs: identifiers
-- of decimal digits, and values that the modem reports in an unknown form.
use keenetic_rci.Prelude.{
  ℕ, Option, none, some, [], ◌∷◌, Result, ok, err, map_err, map_ok, take, drop,
}
use keenetic_rci.Prelude.Str.{Str, as_bytes, from_utf8}
use keenetic_rci.Text.{
  InvalidInlineAscii, length_is, character_at, InlineAscii, digits, as_str, inline_bytes,
}
pub mod Digits
pub mod Reports

pub data ParseIccidError : Type 0 where
  invalid_length invalid_digit : ℕ → ParseIccidError

pub data ParseImsiError : Type 0 where
  invalid_length invalid_digit : ℕ → ParseImsiError

pub data ParsePlmnError : Type 0 where
  invalid_length invalid_digit : ℕ → ParsePlmnError

abbrev pub iccid_error : InvalidInlineAscii → ParseIccidError
iccid_error (length_is actual) = ParseIccidError.invalid_length actual
iccid_error (character_at index) = ParseIccidError.invalid_digit index

abbrev pub imsi_error : InvalidInlineAscii → ParseImsiError
imsi_error (length_is actual) = ParseImsiError.invalid_length actual
imsi_error (character_at index) = ParseImsiError.invalid_digit index

abbrev pub plmn_error : InvalidInlineAscii → ParsePlmnError
plmn_error (length_is actual) = ParsePlmnError.invalid_length actual
plmn_error (character_at index) = ParsePlmnError.invalid_digit index

-- `MIN_ICCID_LENGTH` and its like
abbrev pub min_iccid_length : ℕ
min_iccid_length = 19

abbrev pub max_iccid_length : ℕ
max_iccid_length = 20

abbrev pub min_imsi_length : ℕ
min_imsi_length = 6

abbrev pub max_imsi_length : ℕ
max_imsi_length = 15

abbrev pub min_plmn_length : ℕ
min_plmn_length = 5

abbrev pub max_plmn_length : ℕ
max_plmn_length = 6

-- `Iccid::from_str`
unfoldable pub parse_iccid : Str → Result InlineAscii ParseIccidError
parse_iccid value = map_err iccid_error (digits max_iccid_length min_iccid_length value)

-- `Imsi::from_str`
unfoldable pub parse_imsi : Str → Result InlineAscii ParseImsiError
parse_imsi value = map_err imsi_error (digits max_imsi_length min_imsi_length value)

-- `Plmn::from_str`
unfoldable pub parse_plmn : Str → Result InlineAscii ParsePlmnError
parse_plmn value = map_err plmn_error (digits max_plmn_length min_plmn_length value)

-- `Plmn::mcc` and `Plmn::mnc`; `none` is a panic of `as_str`. The text is ASCII, so that its bytes
-- are its characters and each index is a boundary.
unfoldable pub mcc : InlineAscii → Option Str
mcc plmn = elim (as_str plmn) [ none ↦ none | some text ↦ some (take 3 text) ]

unfoldable pub mnc : InlineAscii → Option Str
mnc plmn = elim (as_str plmn) [ none ↦ none | some text ↦ some (drop 3 text) ]

-- `Reported<T>`
pub data Reported {ℓ} (T : Type ℓ) : Type ℓ where
  parsed : T → Reported T
  unrecognized : Str → Reported T

module _ {ℓ κ} {T : Type ℓ} {E : Type κ} where
  abbrev pub reported_of : Str → Result T E → Reported T
  reported_of value (ok t) = parsed t
  reported_of value (err e) = unrecognized value

  -- `From<Box<str>>`, and `ReportedVisitor::visit_str`
  unfoldable pub reported : (Str → Result T E) → Str → Reported T
  reported from_str value = reported_of value (from_str value)

  -- `deserialize_optional`: a missing value, `null` and an empty string are no value.
  unfoldable pub optional_reported : (Str → Result T E) → Option Str → Option (Reported T)
  optional_reported from_str none = none
  optional_reported from_str (some []) = none
  optional_reported from_str (some (c ∷ value)) = some (reported from_str (c ∷ value))

-- `Reported::as_str`, for a type whose own `as_str` may panic.
unfoldable pub reported_str {ℓ} : {T : Type ℓ} → (T → Option Str) → Reported T → Option Str
reported_str show (parsed t) = show t
reported_str show (unrecognized value) = some value
