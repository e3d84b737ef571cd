-- ===== src/Auth/Hex.antt =====
-- src/auth.rs, `encode_lower_hex` and `response_hash`: the lowercase hexadecimal encoding as a
-- relation between bytes and digits.
use keenetic_rci.Prelude.{
  ℕ, ◌+◌, ◌*◌, ◌/◌, ◌%◌, ◌<◌, ◌≡◌, ◌⊎◌, [], ◌∷◌, ◌++◌, arith, refl, ap₂, length, All, true, some,
  replicate, passes, passes_sound, ==_iff, ◌==◌, ltb, if◌then◌else◌,
}
use keenetic_rci.Prelude.Bits.{bit_and_nibble}
use keenetic_rci.Prelude.Str.{Str, Bytes, from_utf8_ascii, as_bytes, codes}
use keenetic_rci.Auth.{hex_digit, encode_lower_hex, response_hash, hash_as_str}

-- A lowercase hexadecimal digit with its value.
abbrev pub LowerHex : ℕ → ℕ → Type 0
LowerHex c v = ((c ≡ v + b'0') × (v < 10)) ⊎ ((c + 10 ≡ v + b'a') × (9 < v) × (v < 16))

hex_digit_table : passes (λ v. hex_digit v == (if ltb v 10 then v + b'0' else v + 87)) 16 ≡ true
unfolding passes hex_digit
hex_digit_table = refl

hex_digit-LowerHex : (v : ℕ) → v < 16 → LowerHex (hex_digit v) v
hex_digit-LowerHex v h =
    let e = (==_iff (hex_digit v) _).0 (passes_sound _ 16 v h hex_digit_table) in ground (arith, e)

-- The text is the lowercase hexadecimal encoding of the bytes, two digits for each, high first.
abbrev pub HexEncodes : Bytes → Bytes → Type 0
HexEncodes [] [] = Unit
HexEncodes (byte ∷ bytes) (high ∷ low ∷ text) =
    LowerHex high (byte / 16) × LowerHex low (byte % 16) × HexEncodes bytes text
HexEncodes _ _ = ⊥

abbrev pub IsBytes : Bytes → Type 0
IsBytes bytes = All (λ b. b < 256) bytes

-- For bytes below 256 and a buffer of twice their number, `encode_lower_hex` leaves in the buffer
-- the lowercase hexadecimal encoding of the bytes, high digit first, whatever the buffer held.
pub encode_lower_hex-HexEncodes :
    (bytes encoded : Bytes)
    → IsBytes bytes
    → length encoded ≡ 2 * length bytes
    → HexEncodes bytes (encode_lower_hex bytes encoded)
unfolding encode_lower_hex
encode_lower_hex-HexEncodes [] [] h e = tt
encode_lower_hex-HexEncodes [] (_ ∷ _) h e = absurd (omega arith)
encode_lower_hex-HexEncodes (b ∷ bytes) [] h e = absurd (omega arith)
encode_lower_hex-HexEncodes (b ∷ bytes) (_ ∷ []) h e = absurd (omega arith)
encode_lower_hex-HexEncodes (b ∷ bytes) (_ ∷ _ ∷ encoded) h e =
    let bound : b < 256 = h.0 in
    (
      hex_digit-LowerHex (b / 16) (omega arith),
      rw (bit_and_nibble b) (hex_digit-LowerHex (b % 16) (omega arith)),
      encode_lower_hex-HexEncodes bytes encoded h.1 (omega arith),
    )

-- The encoding determines the bytes.
pub HexEncodes-injective :
    (bytes bytes' text : Bytes) → HexEncodes bytes text → HexEncodes bytes' text → bytes ≡ bytes'
HexEncodes-injective [] [] text h k = refl
HexEncodes-injective [] (b ∷ bytes') [] h k = absurd k
HexEncodes-injective [] (b ∷ bytes') (c ∷ text) h k = absurd h
HexEncodes-injective (b ∷ bytes) [] [] h k = absurd h
HexEncodes-injective (b ∷ bytes) [] (c ∷ text) h k = absurd k
HexEncodes-injective (b ∷ bytes) (b' ∷ bytes') [] h k = absurd h
HexEncodes-injective (b ∷ bytes) (b' ∷ bytes') (_ ∷ []) h k = absurd h
HexEncodes-injective (b ∷ bytes) (b' ∷ bytes') (_ ∷ _ ∷ text) (h1, h0, h) (k1, k0, k) =
    ap₂ ◌∷◌ (omega arith) (HexEncodes-injective bytes bytes' text h k)

HexEncodes-ascii : (bytes text : Bytes) → HexEncodes bytes text → All (λ c. c < 128) text
HexEncodes-ascii [] [] h = tt
HexEncodes-ascii [] (c ∷ text) h = absurd h
HexEncodes-ascii (b ∷ bytes) [] h = absurd h
HexEncodes-ascii (b ∷ bytes) (_ ∷ []) h = absurd h
HexEncodes-ascii (b ∷ bytes) (_ ∷ _ ∷ text) (h1, h0, h) =
    (omega arith, (omega arith, HexEncodes-ascii bytes text h))

module _ (md5 sha256 : Bytes → Bytes) where
  -- What is relied on of the digests: 16 and 32 bytes.
  pub record AreDigests : Type 0 where
    pub md5_bytes : (input : Bytes) → IsBytes (md5 input) × (length (md5 input) ≡ 16)
    pub sha256_bytes : (input : Bytes) → IsBytes (sha256 input) × (length (sha256 input) ≡ 32)

  pub record IsResponse (login realm password challenge : Str) (hash : Bytes) : Type 0 where
    pub md5_hex : Bytes
    pub inner :
        HexEncodes
          (md5
            (as_bytes login ++ (codes ":" ++ (as_bytes realm ++ (codes ":" ++ as_bytes password)))))
          md5_hex
    pub outer : HexEncodes (sha256 (as_bytes challenge ++ md5_hex)) hash
    pub readable : hash_as_str hash ≡ some hash

  -- With digests of the documented lengths the response is the hexadecimal text of the SHA-256 of
  -- the challenge followed by the hexadecimal text of the MD5 of `login:realm:password`, and reading
  -- it as text succeeds and gives the same characters.
  pub response_hash-IsResponse :
      (login realm password challenge : Str)
      → AreDigests
      → IsResponse login realm password challenge
          (response_hash md5 sha256 login realm password challenge)
  unfolding response_hash hash_as_str
  response_hash-IsResponse login realm password challenge d =
      let input =
        as_bytes login ++ (codes ":" ++ (as_bytes realm ++ (codes ":" ++ as_bytes password))) in
      let (small, long) = d.md5_bytes input in
      let text = encode_lower_hex (md5 input) (replicate 32 0) in
      let (small', long') = d.sha256_bytes (as_bytes challenge ++ text) in
      let hash-HexEncodes =
        encode_lower_hex-HexEncodes (sha256 (as_bytes challenge ++ text)) (replicate 64 0) small'
          (omega arith) in
      record {
        md5_hex = text;
        inner = encode_lower_hex-HexEncodes (md5 input) (replicate 32 0) small (omega arith);
        outer = hash-HexEncodes;
        readable = from_utf8_ascii _ (HexEncodes-ascii _ _ hash-HexEncodes);
      }
