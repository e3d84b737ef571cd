-- ===== src/Imei/Luhn.antt =====
-- src/model/imei.rs: the checksum of an IMEI and the Luhn sum.
use keenetic_rci.Prelude.{
  ℕ, ◌+◌, ◌-◌, ◌*◌, ◌/◌, ◌%◌, ◌≤◌, ◌<◌, ◌≡◌, ◌↔◌, true, [], ◌∷◌, ◌++◌, Result, ok, err, ◌==◌,
  if◌then◌else◌, arith, refl, ap, ◌∙◌, length, length-append, All, All-append_inv, All-map, some,
  map_err, ◌>>=◌,
}
use keenetic_rci.Prelude.Str.{Str, Bytes, as_bytes, as_bytes_ascii}
use keenetic_rci.Text.{
  InlineAscii, inline, inline_bytes, as_str, InvalidInlineAscii, parse, is_ascii_digit,
}
use keenetic_rci.Text.Parsing.{parse-eq-ok, parse_takes, as_str-parse}
use keenetic_rci.Imei.{imei_length, weigh, checksum, check, parse_imei, imei_error}

abbrev pub IsDigit : ℕ → Type 0
IsDigit c = (b'0' ≤ c) × (c ≤ b'9')

-- The Luhn weight of a digit by the number of digits to its right: every second digit from the
-- right is doubled, and the digits of the double are added.
abbrev pub luhn_digit : ℕ → ℕ → ℕ
luhn_digit right d = if right % 2 == 0 then d else d * 2 / 10 + d * 2 % 10

pub luhn_sum : Bytes → ℕ
luhn_sum [] = 0
luhn_sum (c ∷ text) = luhn_digit (length text) (c - b'0') + luhn_sum text

weigh-luhn_digit :
    (index right c : ℕ)
    → index + right ≡ 14
    → IsDigit c
    → (weigh index c ≡ luhn_digit right (c - b'0')) × (weigh index c ≤ 9)
unfolding weigh
weigh-luhn_digit index right c e h = ground arith

checksum-luhn_sum :
    (index sum : ℕ) (text : Bytes)
    → index + length text ≡ 15
    → sum ≤ 9 * index
    → All IsDigit text
    → checksum index sum text ≡ sum + luhn_sum text
unfolding checksum luhn_sum
checksum-luhn_sum index sum [] e small h = omega arith
checksum-luhn_sum index sum (c ∷ text) e small h =
    let (same, nine) = weigh-luhn_digit index (length text) c (omega arith) h.0 in
    let wrap : (sum + weigh index c) % 256 ≡ sum + weigh index c = omega arith in
    rw wrap (
      checksum-luhn_sum (index + 1) (sum + weigh index c) text (omega arith) (omega arith) h.1
      ∙ omega arith)

-- A valid IMEI: fifteen digits with a Luhn sum divisible by ten.
pub record IsImei (value : Str) : Type 0 where
  pub fifteen : length value ≡ 15
  pub all_digits : All IsDigit value
  pub luhn : luhn_sum value % 10 ≡ 0

pub digit_ascii : (b : ℕ) → is_ascii_digit b ≡ true → b < 128
digit_ascii b h = ground arith

-- The checksum of the bytes that were parsed.
check-luhn_sum :
    (value : Str) (encoded a : InlineAscii)
    → inline_bytes encoded ≡ value
    → length value ≡ 15
    → All IsDigit value
    → check encoded ≡ ok a
    → (luhn_sum value % 10 ≡ 0) × (a ≡ encoded)
unfolding check
check-luhn_sum value encoded a same fifteen good h =
    let e : checksum 0 0 (inline_bytes encoded) ≡ luhn_sum value =
      rw same (checksum-luhn_sum 0 0 value (omega arith) (omega arith) good ∙ omega arith) in
    ground (arith, e, h)

luhn_sum-check :
    (value : Str) (encoded : InlineAscii)
    → inline_bytes encoded ≡ value
    → IsImei value
    → check encoded ≡ ok encoded
unfolding check
luhn_sum-check value encoded same i =
    let e : checksum 0 0 (inline_bytes encoded) ≡ luhn_sum value = rw same (
      checksum-luhn_sum 0 0 value (omega (arith, i.fifteen)) (omega arith) i.all_digits
      ∙ omega arith) in
    ground (arith, e, i.luhn)

parsed-IsImei :
    (value : Str) (r : Result InlineAscii InvalidInlineAscii) (a : InlineAscii)
    → parse imei_length imei_length is_ascii_digit value ≡ r
    → (map_err imei_error r >>= check) ≡ ok a
    → IsImei value × (as_str a ≡ some value)
parsed-IsImei value (err e) a p h = cc
parsed-IsImei value (ok encoded) a p h =
    let (kept, text, plain) =
      as_str-parse is_ascii_digit imei_length imei_length digit_ascii value encoded p in
    let (fits, good, e) = parse-eq-ok is_ascii_digit imei_length imei_length value encoded p in
    let digits = All-map _ IsDigit value (λ b d. ground arith) (rw plain at good) in
    let long : length value ≡ 15 = omega (arith, ap length plain) in
    let (luhn, same) = check-luhn_sum value encoded a kept long digits h in
    (record { fifteen = long; all_digits = digits; luhn = luhn }, rw same text)

imei_of : Str → InlineAscii
imei_of value = inline imei_length (as_bytes value)

digits_parsed :
    (value : Str)
    → IsImei value
    → parse imei_length imei_length is_ascii_digit value ≡ ok (imei_of value)
unfolding imei_of
digits_parsed value i =
    let plain = as_bytes_ascii value (All-map IsDigit _ value (λ c d. omega arith) i.all_digits) in
    parse_takes is_ascii_digit imei_length imei_length value (rw plain (omega (arith, i.fifteen)))
      (rw plain (All-map IsDigit _ value (λ c d. ground arith) i.all_digits))

IsImei-parsed :
    (value : Str)
    → IsImei value
    → (a : InlineAscii) × (parse_imei value ≡ ok a) × (as_str a ≡ some value)
unfolding parse_imei
IsImei-parsed value i =
    let e = digits_parsed value i in
    let (kept, text, plain) =
      as_str-parse is_ascii_digit imei_length imei_length digit_ascii value (imei_of value) e in
    (imei_of value, rw e (luhn_sum-check value (imei_of value) kept i), text)

-- `from_str` takes a text just if it is fifteen ASCII digits whose Luhn sum is divisible by ten;
-- the value then reads back as the text.
pub parse_imei_iff :
    (value : Str)
    → ((a : InlineAscii) × (parse_imei value ≡ ok a) × (as_str a ≡ some value)) ↔ IsImei value
unfolding parse_imei
parse_imei_iff value = (λ (a, h, text). (parsed-IsImei value _ a refl h).0, IsImei-parsed value)

luhn_digit-injective :
    (right a b : ℕ) → a < 10 → b < 10 → luhn_digit right a % 10 ≡ luhn_digit right b % 10 → a ≡ b
luhn_digit-injective right a b ha hb h = ground arith

luhn_sum_replace :
    (pre post : Bytes) (a b : ℕ)
    → luhn_sum (pre ++ a ∷ post) + luhn_digit (length post) (b - b'0')
      ≡ luhn_sum (pre ++ b ∷ post) + luhn_digit (length post) (a - b'0')
unfolding luhn_sum
luhn_sum_replace [] post a b = omega arith
luhn_sum_replace (c ∷ pre) post a b =
    let same : length (pre ++ a ∷ post) ≡ length (pre ++ b ∷ post) =
      omega (arith, length-append pre (a ∷ post), length-append pre (b ∷ post)) in
    let rest = luhn_sum_replace pre post a b in rw same (omega (arith, rest))

-- One wrong digit is always found: of two accepted texts that differ in at most one place, both are
-- the same.
pub one_wrong_digit :
    (pre post : Str) (a b : ℕ) (x y : InlineAscii)
    → parse_imei (pre ++ a ∷ post) ≡ ok x
    → parse_imei (pre ++ b ∷ post) ≡ ok y
    → a ≡ b
unfolding parse_imei
one_wrong_digit pre post a b x y h k =
    let i = (parsed-IsImei (pre ++ a ∷ post) _ x refl h).0 in
    let j = (parsed-IsImei (pre ++ b ∷ post) _ y refl k).0 in
    let da = (All-append_inv IsDigit pre (a ∷ post) i.all_digits).1.0 in
    let db = (All-append_inv IsDigit pre (b ∷ post) j.all_digits).1.0 in
    let same =
      luhn_digit-injective (length post) (a - b'0') (b - b'0') (omega arith) (omega arith)
        (omega (arith, luhn_sum_replace pre post a b, i.luhn, j.luhn)) in
    omega arith
