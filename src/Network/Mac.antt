-- ===== src/Network/Mac.antt =====
-- src/model/network.rs: `MacAddress`, its parser and its display.
use Prim.Native.Nat.{bit_or}
use keenetic_rci.Prelude.{
  ℕ, zero, suc, ◌+◌, ◌-◌, ◌*◌, ◌/◌, ◌%◌, Bool, not, ◌&&◌, Option, none, some, List, [], ◌∷◌, ◌++◌,
  Result, ok, err, ◌>>=◌, ◌==◌, leb, if◌then◌else◌, length, get_or,
}
use keenetic_rci.Prelude.Str.{Str, Bytes, codes, as_bytes}
use keenetic_rci.Auth.{hex_digit}
pub mod Spelling
pub mod Display

pub data ParseMacAddressError : Type 0 where
  invalid_length invalid_separator invalid_hex_digit : ℕ → ParseMacAddressError

-- `MacAddress([u8; 6])`
abbrev pub MacAddress : Type 0
MacAddress = Bytes

abbrev within : ℕ → ℕ → ℕ → Bool
within low high byte = leb low byte && leb byte high

-- `decode_hex`
unfoldable pub decode_hex : ℕ → Option ℕ
decode_hex byte =
    if within b'0' b'9' byte
    then some (byte - b'0')
    else if within b'a' b'f' byte
    then some (byte - b'a' + 10)
    else if within b'A' b'F' byte
    then some (byte - b'A' + 10)
    else none

-- `ok_or`
abbrev pub hex_or : Option ℕ → ℕ → Result ℕ ParseMacAddressError
hex_or none position = err (invalid_hex_digit position)
hex_or (some digit) position = ok digit

-- The body of the loop, on the three bytes from its offset. The third is not read at the last octet.
-- The shift of a `u8` drops what leaves its eight bits.
unfoldable pub check_octet : ℕ → ℕ → ℕ → ℕ → Result ℕ ParseMacAddressError
check_octet index first second third =
    let offset = index * 3 in
    if not (index == 5) && not (third == b':') then err (invalid_separator (offset + 2)) else (do
      high ← hex_or (decode_hex first) offset
      low ← hex_or (decode_hex second) (offset + 1)
      ok (bit_or (high * 16 % 256) low))

-- The loop over the octets from an index on; the first argument counts those that are left.
unfoldable pub octets_from : ℕ → ℕ → Bytes → Result Bytes ParseMacAddressError
octets_from zero index bytes = ok []
octets_from (suc left) index bytes = do
  octet ←
      check_octet index (get_or bytes (index * 3) 0) (get_or bytes (index * 3 + 1) 0)
        (get_or bytes (index * 3 + 2) 0)
  octets ← octets_from left (suc index) bytes
  ok (octet ∷ octets)

-- `MacAddress::from_str`
unfoldable pub parse_mac : Str → Result MacAddress ParseMacAddressError
parse_mac value =
    let bytes = as_bytes value in
    if not (length bytes == 17) then err (invalid_length (length bytes)) else octets_from 6 0 bytes

-- `{:02x}` of an octet, and the octets after the first.
abbrev pub hex_pair : ℕ → Str
hex_pair octet = hex_digit (octet / 16) ∷ hex_digit (octet % 16) ∷ []

abbrev pub display_rest : Bytes → Str
display_rest [] = []
display_rest (octet ∷ octets) = codes ":" ++ (hex_pair octet ++ display_rest octets)

-- `Display`; `self.0[0]` of no octets cannot be.
unfoldable pub display_mac : MacAddress → Str
display_mac [] = []
display_mac (octet ∷ octets) = hex_pair octet ++ display_rest octets
