-- ===== src/Auth.antt =====
-- src/auth.rs: credentials and the challenge response. The digests of the crates `md5` and `sha2`
-- are arguments.
use Prim.Native.Nat.{bit_and}
use keenetic_rci.Prelude.{ℕ, ◌/◌, [], ◌∷◌, ◌++◌, get_or, replicate}
use keenetic_rci.Prelude.Str.{Str, Bytes, codes, as_bytes, from_utf8}
use keenetic_rci.Prelude.{Option}
pub mod Hex

pub record Credentials : Type 0 where
  pub login : Str
  pub password : Str

-- The table `HEX`.
abbrev pub hex_table : Bytes
hex_table = codes "0123456789abcdef"

-- `HEX[i]`; the index of a digit of a byte is below 16.
unfoldable pub hex_digit : ℕ → ℕ
hex_digit i = get_or hex_table i 0

-- `encode_lower_hex`: pairs of the buffer are overwritten in step with the bytes.
unfoldable pub encode_lower_hex : Bytes → Bytes → Bytes
encode_lower_hex (byte ∷ bytes) (_ ∷ _ ∷ encoded) =
    hex_digit (byte / 16) ∷ hex_digit (bit_and byte 0x0f) ∷ encode_lower_hex bytes encoded
encode_lower_hex _ encoded = encoded

module _ (md5 sha256 : Bytes → Bytes) where
  -- `response_hash`
  unfoldable pub response_hash : Str → Str → Str → Str → Bytes
  response_hash login realm password challenge =
      let md5_digest =
        md5
          (as_bytes login ++ (codes ":" ++ (as_bytes realm ++ (codes ":" ++ as_bytes password)))) in
      let md5_hex = encode_lower_hex md5_digest (replicate 32 0) in
      let sha256_digest = sha256 (as_bytes challenge ++ md5_hex) in
      encode_lower_hex sha256_digest (replicate 64 0)

-- `ResponseHash::as_str`; `none` is the panic of its `expect`.
unfoldable pub hash_as_str : Bytes → Option Str
hash_as_str hash = from_utf8 hash
