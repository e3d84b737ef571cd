-- ===== src/Client/Inspect.antt =====
-- src/client.rs, the byte prefilter that decides whether a response body is searched for RCI
-- errors: `needs_rci_inspection`, `contains_json_string`, `json_string_matches`, `json_hex_value`.
-- The crate `memchr` is a parameter with its documented contract.
use Prim.Native.Nat.{bit_or}
use keenetic_rci.Prelude.{
  ℕ, zero, suc, ◌+◌, ◌-◌, ◌*◌, ◌%◌, ◌≡◌, ◌≢◌, Bool, true, false, ◌&&◌, ◌||◌, Option, none, some, [],
  ◌∷◌, ◌++◌, leb, ◌==◌, if◌then◌else◌, length, drop, All,
}
use keenetic_rci.Prelude.Str.{Bytes, codes}
pub mod Token
pub mod Scan
pub mod Filter
pub mod Tokens

-- `memchr::memchr` and `memchr::memmem::find`: the position of the first occurrence.
pub record Memchr : Type 0 where
  pub memchr : ℕ → Bytes → Option ℕ
  pub find : Bytes → Bytes → Option ℕ
  pub memchr_some :
      (b : ℕ) (h : Bytes) (i : ℕ)
      → memchr b h ≡ some i
      → (pre post : Bytes) × (h ≡ pre ++ b ∷ post) × (length pre ≡ i) × All (λ x. x ≢ b) pre
  pub memchr_none : (b : ℕ) (h : Bytes) → memchr b h ≡ none → All (λ x. x ≢ b) h
  pub find_some :
      (h n : Bytes) (i : ℕ) → find h n ≡ some i → (pre post : Bytes) × (h ≡ pre ++ (n ++ post))
  pub find_none : (h n : Bytes) → find h n ≡ none → (pre post : Bytes) → h ≢ pre ++ (n ++ post)

abbrev pub between : ℕ → ℕ → ℕ → Bool
between lo hi b = leb lo b && leb b hi

-- `json_hex_value`
unfoldable pub json_hex_value : ℕ → Option ℕ
json_hex_value byte =
    if between b'0' b'9' byte
    then some (byte - b'0')
    else if between b'a' b'f' byte
    then some (byte - b'a' + 10)
    else if between b'A' b'F' byte
    then some (byte - b'A' + 10)
    else none

-- `try_fold` over the digits of an escape, in `u16` arithmetic.
unfoldable pub fold_digits : ℕ → Bytes → Option ℕ
fold_digits value [] = some value
fold_digits value (digit ∷ digits) = elim (json_hex_value digit) [
  | none ↦ none
  | some d ↦ fold_digits (bit_or (value * 16 % 65536) d) digits
]

-- `strip_prefix(br"\u")`, `get(..4)` and the fold: the value of an escape at the front.
unfoldable pub escaped_value : Bytes → Option ℕ
escaped_value (a ∷ b ∷ d3 ∷ d2 ∷ d1 ∷ d0 ∷ rest) =
    if a == b'\\' && b == b'u' then fold_digits 0 (d3 ∷ d2 ∷ d1 ∷ d0 ∷ []) else none
escaped_value _ = none

-- `bytes.first() == Some(&expected)`
abbrev pub first_is : ℕ → Bytes → Bool
first_is e [] = false
first_is e (b ∷ bytes) = b == e

-- `json_string_matches`: the bytes after an opening quote spell `expected` and then close.
unfoldable pub json_string_matches : Bytes → Bytes → Bool
json_string_matches bytes [] = first_is b'"' bytes
json_string_matches bytes (e ∷ expected) = elim (first_is e bytes) [
  | true ↦ json_string_matches (drop 1 bytes) expected
  | false ↦ elim (escaped_value bytes) [
    | none ↦ false
    | some decoded ↦ elim (decoded == e) [
      | true ↦ json_string_matches (drop 6 bytes) expected
      | false ↦ false
    ]
  ]
]

module _ (m : Memchr) where
  -- The `while` of `contains_json_string`; a round drops at least the quote that it finds.
  unfoldable pub scan_quotes : ℕ → Bytes → Bytes → Bool
  scan_quotes zero remaining expected = false
  scan_quotes (suc fuel) remaining expected = elim (m.memchr b'"' remaining) [
    | none ↦ false
    | some quote ↦
        json_string_matches (drop (quote + 1) remaining) expected
        || scan_quotes fuel (drop (quote + 1) remaining) expected
  ]

  -- `contains_json_string`
  unfoldable pub contains_json_string : Bytes → Bytes → Bytes → Bool
  contains_json_string bytes expected literal = elim (m.find bytes literal) [
    | some _ ↦ true
    | none ↦ elim (m.memchr b'\\' bytes) [
      | none ↦ false
      | some _ ↦ scan_quotes (length bytes + 1) bytes expected
    ]
  ]

  -- `needs_rci_inspection`
  unfoldable pub needs_rci_inspection : Bytes → Bool
  needs_rci_inspection bytes =
      contains_json_string bytes (codes "status") (codes "\"status\"")
      && contains_json_string bytes (codes "error") (codes "\"error\"")
