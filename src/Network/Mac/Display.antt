-- ===== src/Network/Mac/Display.antt =====
-- src/model/network.rs, `Display` of `MacAddress`: what is shown is read back.
use keenetic_rci.Prelude.{
  ℕ, ◌/◌, ◌%◌, ◌<◌, ◌≡◌, Bool, true, false, Option, none, some, [], ◌∷◌, ok, ◌==◌, length, All,
  arith, refl, ap, passes, passes_sound, ltb, ltb→lt, ==_iff,
}
use keenetic_rci.Prelude.Str.{Bytes, as_bytes_ascii}
use keenetic_rci.Auth.{hex_digit}
use keenetic_rci.Network.Mac.{MacAddress, decode_hex, parse_mac, display_rest, display_mac}
use keenetic_rci.Network.Mac.Spelling.{IsOctet, decode_hex-IsHex, Spells, last, more, parse_mac_iff}

abbrev option_is : Option ℕ → ℕ → Bool
option_is none v = false
option_is (some x) v = x == v

option_is_sound : (o : Option ℕ) (v : ℕ) → option_is o v ≡ true → o ≡ some v
option_is_sound none v h = absurd (ground arith)
option_is_sound (some x) v h = ap some ((==_iff x v).0 h)

hex_digit_decodes : passes (λ v. option_is (decode_hex (hex_digit v)) v) 16 ≡ true
unfolding passes hex_digit decode_hex
hex_digit_decodes = refl

hex_digit_ascii : passes (λ v. ltb (hex_digit v) 128) 16 ≡ true
unfolding passes hex_digit
hex_digit_ascii = refl

decode_hex-hex_digit : (v : ℕ) → v < 16 → decode_hex (hex_digit v) ≡ some v
decode_hex-hex_digit v h =
    option_is_sound (decode_hex (hex_digit v)) v
      (passes_sound (λ v. option_is (decode_hex (hex_digit v)) v) 16 v h hex_digit_decodes)

digit_ascii : (v : ℕ) → v < 16 → hex_digit v < 128
digit_ascii v h = ltb→lt _ 128 (passes_sound (λ v. ltb (hex_digit v) 128) 16 v h hex_digit_ascii)

-- Six numbers below 256: what a `MacAddress` holds.
abbrev pub IsMac : MacAddress → Type 0
IsMac mac = (length mac ≡ 6) × All (λ octet. octet < 256) mac

hex_pair-IsOctet :
    (octet : ℕ) → octet < 256 → IsOctet (hex_digit (octet / 16)) (hex_digit (octet % 16)) octet
hex_pair-IsOctet octet h = record {
  high = octet / 16;
  low = octet % 16;
  first_is = decode_hex-IsHex _ _ (decode_hex-hex_digit (octet / 16) (omega arith));
  second_is = decode_hex-IsHex _ _ (decode_hex-hex_digit (octet % 16) (omega arith));
  together = omega arith;
}

display_mac-Spells :
    (octet : ℕ) (octets : Bytes)
    → All (λ o. o < 256) (octet ∷ octets)
    → Spells (octet ∷ octets) (display_mac (octet ∷ octets))
unfolding display_mac
display_mac-Spells octet [] h = last (hex_pair-IsOctet octet h.0)
display_mac-Spells octet (next ∷ octets) h =
    more (hex_pair-IsOctet octet h.0) (display_mac-Spells next octets h.1)

display_rest_ascii :
    (octets : Bytes) → All (λ o. o < 256) octets → All (λ c. c < 128) (display_rest octets)
display_rest_ascii [] h = tt
display_rest_ascii (octet ∷ octets) (bound, h) = (
  omega arith,
  (
    digit_ascii (octet / 16) (omega arith),
    (digit_ascii (octet % 16) (omega arith), display_rest_ascii octets h),
  ),
)

display_ascii :
    (octet : ℕ) (octets : Bytes)
    → All (λ o. o < 256) (octet ∷ octets)
    → All (λ c. c < 128) (display_mac (octet ∷ octets))
unfolding display_mac
display_ascii octet octets (bound, h) = (
  digit_ascii (octet / 16) (omega arith),
  (digit_ascii (octet % 16) (omega arith), display_rest_ascii octets h),
)

-- The display of a MAC address, lowercase with colons, is read back as the same address.
pub parse_mac-display_mac : (mac : MacAddress) → IsMac mac → parse_mac (display_mac mac) ≡ ok mac
parse_mac-display_mac [] (n, h) = absurd (omega arith)
parse_mac-display_mac (octet ∷ octets) (n, h) =
    let spelt = display_mac-Spells octet octets h in
    let plain = as_bytes_ascii (display_mac (octet ∷ octets)) (display_ascii octet octets h) in
    (parse_mac_iff (display_mac (octet ∷ octets)) (octet ∷ octets)).1 (n, rw plain spelt)
