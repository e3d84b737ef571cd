-- ===== src/Hardware/Format.antt =====
-- src/model/hardware_id.rs, `HardwareId::from_str` and `Display`: the format of an identifier.
use keenetic_rci.Prelude.{◌≡◌, ◌++◌}
use keenetic_rci.Prelude.Str.{Str, codes}
use keenetic_rci.Identifiers.Digits.{IsDigits}
use keenetic_rci.Hardware.{HardwareVendor, vendor_str}

-- A vendor's letters, a hyphen and four decimal digits.
pub record IsHardwareText (value : Str) : Type 0 where
  pub vendor : HardwareVendor
  pub digits : Str
  pub four : IsDigits 4 4 digits
  pub together : value ≡ vendor_str vendor ++ (codes "-" ++ digits)
