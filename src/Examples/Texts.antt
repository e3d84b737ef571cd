-- ===== src/Examples/Texts.antt =====
-- Runs on concrete texts: identifiers and the challenge response.
use keenetic_rci.Prelude.{
  ℕ, ◌≡◌, ◌↔◌, ◌<◌, some, [], ok, err, arith, refl, replicate, All-replicate,
}
use keenetic_rci.Prelude.Str.{Str, Bytes, codes, as_bytes, encode_utf8}
use keenetic_rci.Text.{
  InlineAscii, length_is, character_at, inline, parse, inline_bytes, as_str, is_ascii_digit,
}
use keenetic_rci.Text.Parsing.{Parses, parse-Parses, as_str-parse}
use keenetic_rci.Imei.{parse_imei, invalid_checksum, check, checksum, weigh}
use keenetic_rci.Imei.Luhn.{IsImei, parse_imei_iff, one_wrong_digit, digit_ascii}
use keenetic_rci.Auth.{response_hash}
use keenetic_rci.Auth.Hex.{AreDigests, IsResponse, response_hash-IsResponse}

abbrev plmn : Str
plmn = codes "25001"

-- A PLMN is taken, a short one and one with a letter are not.
plmn_taken : parse 6 5 is_ascii_digit plmn ≡ ok (inline 6 plmn)
unfolding parse as_bytes encode_utf8
plmn_taken = refl

plmn_short : parse 6 5 is_ascii_digit (codes "2500") ≡ err (length_is 4)
unfolding parse as_bytes encode_utf8
plmn_short = refl

plmn_letter : parse 6 5 is_ascii_digit (codes "250x1") ≡ err (character_at 3)
unfolding parse as_bytes encode_utf8
plmn_letter = refl

parse-Parses_example : Parses is_ascii_digit 6 5 plmn (parse 6 5 is_ascii_digit plmn)
parse-Parses_example = parse-Parses is_ascii_digit 6 5 plmn

as_str-parse_example :
    (inline_bytes (inline 6 plmn) ≡ plmn)
    × (as_str (inline 6 plmn) ≡ some plmn)
    × (as_bytes plmn ≡ plmn)
as_str-parse_example = as_str-parse is_ascii_digit 6 5 digit_ascii plmn (inline 6 plmn) plmn_taken

abbrev imei : Str
imei = codes "490154203237518"

imei_taken : parse_imei imei ≡ ok (inline 15 imei)
unfolding parse_imei parse as_bytes encode_utf8 check checksum weigh
imei_taken = refl

imei_wrong : parse_imei (codes "490154203237517") ≡ err invalid_checksum
unfolding parse_imei parse as_bytes encode_utf8 check checksum weigh
imei_wrong = refl

parse_imei_iff_example :
    ((a : InlineAscii) × (parse_imei imei ≡ ok a) × (as_str a ≡ some imei)) ↔ IsImei imei
parse_imei_iff_example = parse_imei_iff imei

abbrev last : ℕ
last = b'8'

one_wrong_digit_example : last ≡ last
one_wrong_digit_example =
    one_wrong_digit (codes "49015420323751") [] last last (inline 15 imei) (inline 15 imei)
      imei_taken imei_taken

-- Digests of the documented lengths.
abbrev md5 : Bytes → Bytes
md5 input = replicate 16 7

abbrev sha256 : Bytes → Bytes
sha256 input = replicate 32 200

digests : AreDigests md5 sha256
digests = record {
  md5_bytes = λ input. (All-replicate (λ (b : ℕ). b < 256) 16 7 (omega arith), refl);
  sha256_bytes = λ input. (All-replicate (λ (b : ℕ). b < 256) 32 200 (omega arith), refl);
}

response_hash-IsResponse_example :
    IsResponse md5 sha256
      (codes "admin")
      (codes "Keenetic")
      (codes "secret")
      (codes "ABC")
      (response_hash md5 sha256 (codes "admin") (codes "Keenetic") (codes "secret") (codes "ABC"))
response_hash-IsResponse_example =
    response_hash-IsResponse md5 sha256 (codes "admin") (codes "Keenetic") (codes "secret")
      (codes "ABC") digests
