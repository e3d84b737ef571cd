-- ===== src/Identifiers/Digits.antt =====
-- src/model/iccid.rs, imsi.rs and plmn.rs: texts of decimal digits.
use keenetic_rci.Prelude.{
  ℕ, ◌+◌, ◌≤◌, ◌≡◌, ◌↔◌, some, [], ◌∷◌, ◌++◌, ok, map_err, map_err-eq-ok, arith, refl, ap, length,
  All, All-map, take, drop, take-append-drop,
}
use keenetic_rci.Prelude.Str.{Str, as_bytes, as_bytes_ascii}
use keenetic_rci.Text.{InvalidInlineAscii, InlineAscii, inline, as_str, parse, is_ascii_digit}
use keenetic_rci.Text.Parsing.{parse-eq-ok, parse_takes, as_str-parse}
use keenetic_rci.Imei.Luhn.{IsDigit, digit_ascii}
use keenetic_rci.Identifiers.{
  parse_iccid, parse_imsi, parse_plmn, iccid_error, imsi_error, plmn_error, mcc, mnc,
  min_iccid_length, max_iccid_length, min_imsi_length, max_imsi_length, min_plmn_length,
  max_plmn_length,
}

-- A text of decimal digits whose length is in a range.
abbrev pub IsDigits : ℕ → ℕ → Str → Type 0
IsDigits least greatest value =
    (least ≤ length value) × (length value ≤ greatest) × All IsDigit value

module _ (least greatest : ℕ) where
  pub parse-IsDigits :
      (value : Str) (a : InlineAscii)
      → parse greatest least is_ascii_digit value ≡ ok a
      → IsDigits least greatest value × (as_str a ≡ some value)
  parse-IsDigits value a h =
      let (kept, text, plain) = as_str-parse is_ascii_digit greatest least digit_ascii value a h in
      let ((low, high), good, e) = parse-eq-ok is_ascii_digit greatest least value a h in
      let long = ap length plain in
      let digits = All-map _ IsDigit value (λ b d. ground arith) (rw plain at good) in
      ((omega arith, omega arith, digits), text)

  pub IsDigits-parse :
      (value : Str)
      → IsDigits least greatest value
      → parse greatest least is_ascii_digit value ≡ ok (inline greatest (as_bytes value))
  IsDigits-parse value (low, high, good) =
      let plain = as_bytes_ascii value (All-map IsDigit _ value (λ c d. omega arith) good) in
      parse_takes is_ascii_digit greatest least value (rw plain (low, high))
        (rw plain (All-map IsDigit _ value (λ c d. ground arith) good))

  module _ {κ} {E : Type κ} (wrap : InvalidInlineAscii → E) where
    -- A text is taken, and reads back as it was, just if it is digits of a length in the range.
    pub wrapped_iff :
        (value : Str)
        → ((a : InlineAscii) × (map_err wrap (parse greatest least is_ascii_digit value) ≡ ok a)
            × (as_str a ≡ some value))
          ↔ IsDigits least greatest value
    wrapped_iff value = (
      λ (a, h, text). (parse-IsDigits value a (map_err-eq-ok wrap _ h)).0,
      λ good.
          let e = IsDigits-parse value good in
          (inline greatest (as_bytes value), ap (map_err wrap) e, (parse-IsDigits value _ e).1),
    )

-- An ICCID is taken just if it is 19 or 20 decimal digits; it then reads back as the text.
pub parse_iccid_iff :
    (value : Str)
    → ((a : InlineAscii) × (parse_iccid value ≡ ok a) × (as_str a ≡ some value))
      ↔ IsDigits min_iccid_length max_iccid_length value
unfolding parse_iccid
parse_iccid_iff value = wrapped_iff min_iccid_length max_iccid_length iccid_error value

-- An IMSI is taken just if it is 6 to 15 decimal digits; it then reads back as the text.
pub parse_imsi_iff :
    (value : Str)
    → ((a : InlineAscii) × (parse_imsi value ≡ ok a) × (as_str a ≡ some value))
      ↔ IsDigits min_imsi_length max_imsi_length value
unfolding parse_imsi
parse_imsi_iff value = wrapped_iff min_imsi_length max_imsi_length imsi_error value

-- A PLMN is taken just if it is 5 or 6 decimal digits; it then reads back as the text.
pub parse_plmn_iff :
    (value : Str)
    → ((a : InlineAscii) × (parse_plmn value ≡ ok a) × (as_str a ≡ some value))
      ↔ IsDigits min_plmn_length max_plmn_length value
unfolding parse_plmn
parse_plmn_iff value = wrapped_iff min_plmn_length max_plmn_length plmn_error value

-- The country code and the network code of a PLMN that was parsed.
pub record IsSplit (value : Str) (plmn : InlineAscii) : Type 0 where
  pub country : Str
  pub network : Str
  pub country_is : mcc plmn ≡ some country
  pub network_is : mnc plmn ≡ some network
  pub together : country ++ network ≡ value
  pub three : length country ≡ 3
  pub two_or_three : (2 ≤ length network) × (length network ≤ 3)

length-take3 :
    (s : Str) → 3 ≤ length s → (length (take 3 s) ≡ 3) × (length s ≡ 3 + length (drop 3 s))
length-take3 [] h = absurd (omega arith)
length-take3 (a ∷ []) h = absurd (omega arith)
length-take3 (a ∷ b ∷ []) h = absurd (omega arith)
length-take3 (a ∷ b ∷ c ∷ s) h = (omega arith, omega arith)

-- For a text that is taken as a PLMN, `mcc` and `mnc` do not panic, the country code has three
-- digits, the network code two or three, and together they are the text.
pub parse_plmn-IsSplit :
    (value : Str) (plmn : InlineAscii) → parse_plmn value ≡ ok plmn → IsSplit value plmn
unfolding parse_plmn mcc mnc
parse_plmn-IsSplit value plmn h =
    let ((low, high, good), text) =
      parse-IsDigits min_plmn_length max_plmn_length value plmn (map_err-eq-ok plmn_error _ h) in
    let (three, rest) = length-take3 value (omega (arith, low)) in
    record {
      country = take 3 value;
      network = drop 3 value;
      country_is = rw (text, mcc) refl;
      network_is = rw (text, mnc) refl;
      together = take-append-drop 3 value;
      three = three;
      two_or_three = (omega (arith, rest, low), omega (arith, rest, high));
    }

-- An ICCID that was parsed reads back as the text.
pub parse_iccid-reads_back :
    (value : Str) (a : InlineAscii) → parse_iccid value ≡ ok a → as_str a ≡ some value
unfolding parse_iccid
parse_iccid-reads_back value a h =
    (parse-IsDigits min_iccid_length max_iccid_length value a (map_err-eq-ok iccid_error _ h)).1
