-- ===== src/Text.antt =====
-- src/model/text.rs: `InlineAscii`, the fixed-capacity ASCII text behind the identifiers, and the
-- two string visitors.
use keenetic_rci.Prelude.{
  ℕ, zero, suc, Bool, true, false, not, ◌&&◌, Option, none, some, List, [], ◌∷◌, ◌++◌, Result, ok,
  err, map_ok, leb, if◌then◌else◌, length, take, drop, replicate,
}
use keenetic_rci.Prelude.Str.{Str, Bytes, as_bytes, from_utf8}
pub mod Parsing

pub data InvalidInlineAscii : Type 0 where
  length_is : ℕ → InvalidInlineAscii
  character_at : ℕ → InvalidInlineAscii

-- An array of the capacity, of which the first `len` bytes count.
pub record InlineAscii : Type 0 where
  pub bytes : Bytes
  pub len : ℕ

-- `u8::is_ascii_digit` and `u8::is_ascii_uppercase`
abbrev pub is_ascii_digit : ℕ → Bool
is_ascii_digit b = leb b'0' b && leb b b'9'

abbrev pub is_ascii_uppercase : ℕ → Bool
is_ascii_uppercase b = leb b'A' b && leb b b'Z'

-- `Iterator::position`
unfoldable pub position {ℓ} : {A : Type ℓ} → (A → Bool) → List A → Option ℕ
position test [] = none
position test (x ∷ xs) =
    if test x then some zero else elim (position test xs) [ none ↦ none | some i ↦ some (suc i) ]

-- The array of the capacity with the bytes copied to its front. The capacities of the crate are at
-- most 20, so that the conversion of the length to `u8` cannot fail.
abbrev pub inline : ℕ → Bytes → InlineAscii
inline capacity bytes = record {
  bytes = bytes ++ drop (length bytes) (replicate capacity 0);
  len = length bytes;
}

abbrev pub checked : ℕ → Bytes → Option ℕ → Result InlineAscii InvalidInlineAscii
checked capacity bytes none = ok (inline capacity bytes)
checked capacity bytes (some index) = err (character_at index)

-- `InlineAscii::parse`
unfoldable pub parse : ℕ → ℕ → (ℕ → Bool) → Str → Result InlineAscii InvalidInlineAscii
unfolding position
parse capacity min_len predicate value =
    let bytes = as_bytes value in
    if leb min_len (length bytes) && leb (length bytes) capacity
    then checked capacity bytes (position (λ b. not (predicate b)) bytes)
    else err (length_is (length bytes))

-- `InlineAscii::digits`, `InlineAscii::uppercase`
abbrev pub digits : ℕ → ℕ → Str → Result InlineAscii InvalidInlineAscii
digits capacity min_len value = parse capacity min_len is_ascii_digit value

abbrev pub uppercase : ℕ → Str → Result InlineAscii InvalidInlineAscii
uppercase capacity value = parse capacity capacity is_ascii_uppercase value

-- `InlineAscii::as_bytes`, and `as_str`, whose panic is `none`.
abbrev pub inline_bytes : InlineAscii → Bytes
inline_bytes a = take a.len a.bytes

abbrev pub as_str : InlineAscii → Option Str
as_str a = from_utf8 (inline_bytes a)

-- The wire values that an optional string field can have: no value or `null`, or a string.
-- `OptionalFromStrVisitor` reads an empty string as no value.
unfoldable pub optional_from_str {ℓ κ} :
    {A : Type ℓ} {E : Type κ} → (Str → Result A E) → Option Str → Result (Option A) E
optional_from_str from_str none = ok none
optional_from_str from_str (some []) = ok none
optional_from_str from_str (some (c ∷ value)) = map_ok some (from_str (c ∷ value))
