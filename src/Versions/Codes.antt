-- ===== src/Versions/Codes.antt =====
-- src/model/version.rs, `HardwareVersion` and `RegionCode`: which texts are taken.
use keenetic_rci.Prelude.{
  ℕ, ◌<◌, ◌≤◌, ◌≡◌, ◌↔◌, some, ok, map_err-eq-ok, arith, ap, length, All, All-map, true, map_err,
}
use keenetic_rci.Prelude.Str.{Str, as_bytes, as_bytes_ascii}
use keenetic_rci.Text.{InlineAscii, inline, as_str, is_ascii_uppercase}
use keenetic_rci.Text.Parsing.{parse-eq-ok, parse_takes, as_str-parse}
use keenetic_rci.Identifiers.Digits.{IsDigits, wrapped_iff}
use keenetic_rci.Versions.{
  parse_hardware_version, parse_region, version_error, region_error, hardware_version_length,
  region_code_length,
}

abbrev pub IsUpper : ℕ → Type 0
IsUpper c = (b'A' ≤ c) × (c ≤ b'Z')

upper_ascii : (b : ℕ) → is_ascii_uppercase b ≡ true → b < 128
upper_ascii b h = ground arith

region_taken :
    (value : Str) (a : InlineAscii)
    → parse_region value ≡ ok a
    → (length value ≡ region_code_length) × All IsUpper value × (as_str a ≡ some value)
unfolding parse_region
region_taken value a h =
    let parsed = map_err-eq-ok region_error _ h in
    let (kept, text, plain) =
      as_str-parse is_ascii_uppercase region_code_length region_code_length upper_ascii value a
        parsed in
    let ((low, high), good, e) =
      parse-eq-ok is_ascii_uppercase region_code_length region_code_length value a parsed in
    let long = ap length plain in
    (omega arith, All-map _ IsUpper value (λ b d. ground arith) (rw plain at good), text)

region_takes :
    (value : Str)
    → length value ≡ region_code_length
    → All IsUpper value
    → parse_region value ≡ ok (inline region_code_length (as_bytes value))
unfolding parse_region
region_takes value long good =
    let plain = as_bytes_ascii value (All-map IsUpper _ value (λ c d. omega arith) good) in
    ap (map_err region_error) (
      parse_takes is_ascii_uppercase region_code_length region_code_length value
        (rw plain (omega arith, omega arith))
        (rw plain (All-map IsUpper _ value (λ c d. ground arith) good)))

-- A text is taken as a hardware version just if it is eight decimal digits, and as a region code just
-- if it is two uppercase ASCII letters; the value then reads back as the text.
pub version_codes_iff :
    (value : Str)
    → (((a : InlineAscii) × (parse_hardware_version value ≡ ok a) × (as_str a ≡ some value))
        ↔ IsDigits hardware_version_length hardware_version_length value)
      × (((a : InlineAscii) × (parse_region value ≡ ok a) × (as_str a ≡ some value))
          ↔ ((length value ≡ region_code_length) × All IsUpper value))
unfolding parse_hardware_version
version_codes_iff value = (
  wrapped_iff hardware_version_length hardware_version_length version_error value,
  (
    λ (a, h, text). let (long, good, same) = region_taken value a h in (long, good),
    λ (long, good).
        let e = region_takes value long good in
        let (same_long, same_good, shown) = region_taken value _ e in
        (inline region_code_length (as_bytes value), e, shown),
  ),
)
