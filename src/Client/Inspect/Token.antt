-- ===== src/Client/Inspect/Token.antt =====
-- src/client.rs, `json_string_matches`: what it means for bytes to spell a JSON string.
use Prim.Native.Nat.{bit_or}
use keenetic_rci.Prelude.{
  ℕ, ◌+◌, ◌*◌, ◌<◌, ◌≡◌, ◌≢◌, ◌⊎◌, Bool, true, false, some, [], ◌∷◌, arith, refl, ==_iff, All, drop,
  ap, sym, ◌∙◌, ◌%◌, Option-cases, none, ◌==◌, Bool-cases, inl, inr,
}
use keenetic_rci.Prelude.Bits.{bit_or_nibble}
use keenetic_rci.Prelude.Str.{Bytes}
use mathlib.Core.Option.{some-injective}
use keenetic_rci.Client.Inspect.{
  json_hex_value, fold_digits, escaped_value, json_string_matches, first_is,
}
use keenetic_rci.Client.Inspect.Token.Escapes.{
  HexDigit, Escape, escaped_value_inv, escaped_value-Escape,
}
pub mod Escapes

-- Bytes after an opening quote that spell a text by its own bytes or by four-digit escapes, up to
-- and including the closing quote.
pub data Spells : Bytes → Bytes → Type 0 where
  closing : {bytes rest : Bytes} → bytes ≡ b'"' ∷ rest → Spells [] bytes
  literal :
      {e : ℕ} {expected bytes rest : Bytes}
      → bytes ≡ e ∷ rest
      → Spells expected rest
      → Spells (e ∷ expected) bytes
  escape :
      {e : ℕ} {expected bytes rest : Bytes} (d3 d2 d1 d0 v3 v2 v1 v0 : ℕ)
      → bytes ≡ b'\\' ∷ b'u' ∷ d3 ∷ d2 ∷ d1 ∷ d0 ∷ rest
      → HexDigit d3 v3 × HexDigit d2 v2 × HexDigit d1 v1 × HexDigit d0 v0
      → e ≡ ((v3 * 16 + v2) * 16 + v1) * 16 + v0
      → Spells expected rest
      → Spells (e ∷ expected) bytes

-- `first_is` and the tail that the loop goes on with.
first_is_inv : (e : ℕ) (bytes : Bytes) → first_is e bytes ≡ true → bytes ≡ e ∷ drop 1 bytes
first_is_inv e [] h = cc
first_is_inv e (b ∷ bytes) h = ground arith

-- The second branch of a round of the loop: an escape that has the expected value.
escape_branch : (e : ℕ) (bytes expected : Bytes) → Bool
escape_branch e bytes expected = elim (escaped_value bytes) [
  | none ↦ false
  | some decoded ↦ elim (decoded == e) [
    | true ↦ json_string_matches (drop 6 bytes) expected
    | false ↦ false
  ]
]

escape_branch_inv :
    (e : ℕ) (bytes expected : Bytes)
    → escape_branch e bytes expected ≡ true
    → Escape bytes e × (json_string_matches (drop 6 bytes) expected ≡ true)
unfolding escape_branch
escape_branch_inv e bytes expected h = elim (Option-cases (escaped_value bytes)) [
  | inl missing ↦ absurd (ground (arith, missing, h))
  | inr (v, found) ↦
      let same : v ≡ e = ground (arith, found, h) in
      (rw same at (escaped_value_inv bytes v found), ground (arith, found, h))
]

matches_cons :
    (e : ℕ) (bytes expected : Bytes)
    → first_is e bytes ≡ false
    → json_string_matches bytes (e ∷ expected) ≡ escape_branch e bytes expected
unfolding json_string_matches escape_branch
matches_cons e bytes expected other = rw (other, json_string_matches)

-- When `json_string_matches` accepts, the bytes spell the text, each of its bytes plain or as a
-- `\u` escape of four digits in either case, and then comes a closing quote.
pub json_string_matches-Spells :
    (expected bytes : Bytes) → json_string_matches bytes expected ≡ true → Spells expected bytes
unfolding json_string_matches
json_string_matches-Spells [] bytes h = closing (first_is_inv b'"' bytes h)
json_string_matches-Spells (e ∷ expected) bytes h = elim (Bool-cases (first_is e bytes)) [
  | inl same ↦
      literal (first_is_inv e bytes same)
        (json_string_matches-Spells expected (drop 1 bytes) (rw (same, json_string_matches) at h))
  | inr other ↦
      let (found, h') =
        escape_branch_inv e bytes expected (sym (matches_cons e bytes expected other) ∙ h) in
      escape _ _ _ _ _ _ _ _ found.front found.digits found.value
        (json_string_matches-Spells expected (drop 6 bytes) h')
]

abbrev pub NoBackslash : Bytes → Type 0
NoBackslash bytes = All (λ b. b ≢ b'\\') bytes

first_is_self : (e : ℕ) (rest : Bytes) → first_is e (e ∷ rest) ≡ true
first_is_self e rest = ground arith

escape_branch_value :
    (e : ℕ) (bytes expected : Bytes)
    → escaped_value bytes ≡ some e
    → escape_branch e bytes expected ≡ json_string_matches (drop 6 bytes) expected
unfolding escape_branch
escape_branch_value e bytes expected h = rw (h, escape_branch) (rw ((==_iff e e).1 refl))

escape_branch-Escape :
    (d3 d2 d1 d0 v3 v2 v1 v0 : ℕ) (rest expected : Bytes)
    → HexDigit d3 v3 × HexDigit d2 v2 × HexDigit d1 v1 × HexDigit d0 v0
    → escape_branch
        (((v3 * 16 + v2) * 16 + v1) * 16 + v0)
        (b'\\' ∷ b'u' ∷ d3 ∷ d2 ∷ d1 ∷ d0 ∷ rest)
        expected
      ≡ json_string_matches rest expected
escape_branch-Escape d3 d2 d1 d0 v3 v2 v1 v0 rest expected h =
    escape_branch_value (((v3 * 16 + v2) * 16 + v1) * 16 + v0)
      (b'\\' ∷ b'u' ∷ d3 ∷ d2 ∷ d1 ∷ d0 ∷ rest) expected
      (escaped_value-Escape d3 d2 d1 d0 v3 v2 v1 v0 rest h)

-- For a text with no backslash, bytes that spell it in any mixture of plain bytes and `\u` escapes,
-- and then close, are accepted by `json_string_matches`.
pub Spells-json_string_matches :
    {expected bytes : Bytes}
    → Spells expected bytes
    → NoBackslash expected
    → json_string_matches bytes expected ≡ true
unfolding json_string_matches
Spells-json_string_matches (closing {bytes} e) plain = rw e
Spells-json_string_matches (literal {e = x} {expected} {rest} e d) plain =
    rw e (rw (first_is_self x rest, json_string_matches) (Spells-json_string_matches d plain.1))
Spells-json_string_matches
      (escape {e = x} {expected} {bytes} {rest} d3 d2 d1 d0 v3 v2 v1 v0 e digits value d) plain =
    rw e (
      matches_cons x (b'\\' ∷ b'u' ∷ d3 ∷ d2 ∷ d1 ∷ d0 ∷ rest) expected (ground (arith, plain.0))
      ∙ rw value (escape_branch-Escape d3 d2 d1 d0 v3 v2 v1 v0 rest expected digits)
      ∙ Spells-json_string_matches d plain.1)
