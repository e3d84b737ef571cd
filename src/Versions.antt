-- ===== src/Versions.antt =====
-- src/model/version.rs and identification.rs: what the router reports of its firmware and hardware.
use keenetic_rci.Prelude.{ℕ, Option, Result, map_err}
use keenetic_rci.Prelude.Str.{Str}
use keenetic_rci.Text.{InvalidInlineAscii, length_is, character_at, InlineAscii, digits, uppercase}
use keenetic_rci.Hardware.{HardwareVendor, HardwareId}
use keenetic_rci.Network.{identifier, InvalidText}
use keenetic_rci.Network.Mac.{MacAddress}
use keenetic_rci.Classifiers.Firmware.{Architecture, FirmwareChannel, HardwareType}
pub mod Codes

abbrev pub hardware_version_length : ℕ
hardware_version_length = 8

abbrev pub region_code_length : ℕ
region_code_length = 2

pub data ParseHardwareVersionError : Type 0 where
  wrong_length : ℕ → ParseHardwareVersionError
  wrong_digit : ℕ → ParseHardwareVersionError

pub data ParseRegionCodeError : Type 0 where
  wrong_length : ℕ → ParseRegionCodeError
  wrong_letter : ℕ → ParseRegionCodeError

-- The closures of `map_err`.
abbrev pub version_error : InvalidInlineAscii → ParseHardwareVersionError
version_error (length_is actual) = ParseHardwareVersionError.wrong_length actual
version_error (character_at index) = ParseHardwareVersionError.wrong_digit index

abbrev pub region_error : InvalidInlineAscii → ParseRegionCodeError
region_error (length_is actual) = ParseRegionCodeError.wrong_length actual
region_error (character_at index) = ParseRegionCodeError.wrong_letter index

-- `HardwareVersion::from_str` and `RegionCode::from_str`
unfoldable pub parse_hardware_version : Str → Result InlineAscii ParseHardwareVersionError
parse_hardware_version value =
    map_err version_error (digits hardware_version_length hardware_version_length value)

unfoldable pub parse_region : Str → Result InlineAscii ParseRegionCodeError
parse_region value = map_err region_error (uppercase region_code_length value)

pub record VersionBuild : Type 0 where
  pub exact : Str
  pub cdate : Str

pub record VersionCapabilities : Type 0 where
  pub components : Str
  pub features : Str

pub record Version : Type 0 where
  pub title : Str
  pub release : Str
  pub arch : Architecture
  pub sandbox : Option FirmwareChannel
  pub manufacturer : Str
  pub series : HardwareVendor
  pub model : Str
  pub hw_version : InlineAscii
  pub hw_type : Option HardwareType
  pub hw_id : HardwareId
  pub region : InlineAscii
  pub ndm : VersionBuild
  pub ndw : VersionCapabilities

-- `ServiceTag`, `SerialNumber` and `CustomerId`, by `string_identifier!`.
abbrev pub service_tag_from : Str → Result Str InvalidText
service_tag_from value = identifier value

abbrev pub serial_number_from : Str → Result Str InvalidText
serial_number_from value = identifier value

abbrev pub customer_id_from : Str → Result Str InvalidText
customer_id_from value = identifier value

pub record Identification : Type 0 where
  pub service_tag : Str
  pub serial : Str
  pub mac : MacAddress
  pub hardware_id : HardwareId
  pub customer_id : Str
