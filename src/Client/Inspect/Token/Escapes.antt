-- ===== src/Client/Inspect/Token/Escapes.antt =====
-- src/client.rs, the fold of `json_string_matches`: the value of a four-digit escape.
use Prim.Native.Nat.{bit_or}
use keenetic_rci.Prelude.{
  ℕ, ◌+◌, ◌*◌, ◌<◌, ◌≡◌, ◌⊎◌, some, [], ◌∷◌, arith, refl, drop, ap, sym, ◌∙◌, ◌%◌, Option-cases,
  inl, inr,
}
use keenetic_rci.Prelude.Bits.{bit_or_nibble}
use keenetic_rci.Prelude.Str.{Bytes}
use mathlib.Core.Option.{some-injective}
use keenetic_rci.Client.Inspect.{json_hex_value, fold_digits, escaped_value}

-- The hexadecimal digit `d` has the value `v`, in either case.
abbrev pub HexDigit : ℕ → ℕ → Type 0
HexDigit d v =
    (d ≡ v + b'0') × (v < 10)
    ⊎ (d + 10 ≡ v + b'a') × (9 < v) × (v < 16)
    ⊎ (d + 10 ≡ v + b'A') × (9 < v) × (v < 16)

json_hex_value-HexDigit : (d v : ℕ) → json_hex_value d ≡ some v → HexDigit d v
unfolding json_hex_value
json_hex_value-HexDigit d v h = ground arith

HexDigit-json_hex_value : (d v : ℕ) → HexDigit d v → json_hex_value d ≡ some v
unfolding json_hex_value
HexDigit-json_hex_value d v h = ground arith

-- A value below 2 ^ 12 takes one more digit without leaving `u16`.
shift_in : (v x : ℕ) → v < 4096 → x < 16 → bit_or (v * 16 % 65536) x ≡ v * 16 + x
shift_in v x hv hx = let e : v * 16 % 65536 ≡ v * 16 = omega arith in rw e (bit_or_nibble v x hx)

HexDigit-lt : (d x : ℕ) → HexDigit d x → x < 16
HexDigit-lt d x h = omega arith

fold_step :
    (v w d x : ℕ) (ds : Bytes)
    → HexDigit d x
    → v < 4096
    → v * 16 + x ≡ w
    → fold_digits v (d ∷ ds) ≡ fold_digits w ds
unfolding fold_digits
fold_step v w d x ds h hv e =
    rw (HexDigit-json_hex_value d x h, fold_digits)
      (ap (λ n. fold_digits n ds) (shift_in v x hv (HexDigit-lt d x h) ∙ e))

fold_step_inv :
    (v d : ℕ) (ds : Bytes) {r : ℕ}
    → v < 4096
    → fold_digits v (d ∷ ds) ≡ some r
    → (x : ℕ) × HexDigit d x × (fold_digits (v * 16 + x) ds ≡ some r)
unfolding fold_digits
fold_step_inv v d ds {r} hv h = elim (Option-cases (json_hex_value d)) [
  | inl e ↦ cc
  | inr (x, e) ↦
      let hx = json_hex_value-HexDigit d x e in
      (x, hx, sym (fold_step v (v * 16 + x) d x ds hx hv refl) ∙ h)
]

fold_all :
    (d3 d2 d1 d0 v3 v2 v1 v0 : ℕ)
    → HexDigit d3 v3 × HexDigit d2 v2 × HexDigit d1 v1 × HexDigit d0 v0
    → fold_digits 0 (d3 ∷ d2 ∷ d1 ∷ d0 ∷ []) ≡ some (((v3 * 16 + v2) * 16 + v1) * 16 + v0)
unfolding fold_digits
fold_all d3 d2 d1 d0 v3 v2 v1 v0 (h3, h2, h1, h0) =
    fold_step 0 v3 d3 v3 (d2 ∷ d1 ∷ d0 ∷ []) h3 (omega arith) (omega arith)
    ∙ fold_step v3 (v3 * 16 + v2) d2 v2 (d1 ∷ d0 ∷ []) h2 (omega arith) refl
    ∙ fold_step (v3 * 16 + v2) ((v3 * 16 + v2) * 16 + v1) d1 v1 (d0 ∷ []) h1 (omega arith) refl
    ∙ fold_step ((v3 * 16 + v2) * 16 + v1) (((v3 * 16 + v2) * 16 + v1) * 16 + v0) d0 v0 [] h0
        (omega arith) refl

from_zero :
    (x e : ℕ) (ds : Bytes) → fold_digits (0 * 16 + x) ds ≡ some e → fold_digits x ds ≡ some e
from_zero x e ds h = let z : 0 * 16 + x ≡ x = omega arith in rw z at h

-- The escape at the front of `bytes`, found from the value that the fold returns.
pub record Escape (bytes : Bytes) (e : ℕ) : Type 0 where
  pub d3 : ℕ
  pub d2 : ℕ
  pub d1 : ℕ
  pub d0 : ℕ
  pub v3 : ℕ
  pub v2 : ℕ
  pub v1 : ℕ
  pub v0 : ℕ
  pub front : bytes ≡ b'\\' ∷ b'u' ∷ d3 ∷ d2 ∷ d1 ∷ d0 ∷ drop 6 bytes
  pub digits : HexDigit d3 v3 × HexDigit d2 v2 × HexDigit d1 v1 × HexDigit d0 v0
  pub value : e ≡ ((v3 * 16 + v2) * 16 + v1) * 16 + v0

-- One digit of a fold that succeeds, with its value and what the rest of the fold returns.
Next : ℕ → ℕ → Bytes → ℕ → Type 0
Next v d ds e = (x : ℕ) × HexDigit d x × (fold_digits (v * 16 + x) ds ≡ some e)

module _ (d3 d2 d1 d0 e : ℕ) (rest : Bytes) where
  last_digit :
      (v3 v2 v1 : ℕ)
      → HexDigit d3 v3
      → HexDigit d2 v2
      → HexDigit d1 v1
      → Next ((v3 * 16 + v2) * 16 + v1) d0 [] e
      → Escape (b'\\' ∷ b'u' ∷ d3 ∷ d2 ∷ d1 ∷ d0 ∷ rest) e
  unfolding fold_digits Next
  last_digit v3 v2 v1 g3 g2 g1 (v0, g0, h) = record {
    d3 = d3;
    d2 = d2;
    d1 = d1;
    d0 = d0;
    v3 = v3;
    v2 = v2;
    v1 = v1;
    v0 = v0;
    front = refl;
    digits = (g3, g2, g1, g0);
    value = sym (some-injective _ _ h);
  }

  third_digit :
      (v3 v2 : ℕ)
      → HexDigit d3 v3
      → HexDigit d2 v2
      → Next (v3 * 16 + v2) d1 (d0 ∷ []) e
      → Escape (b'\\' ∷ b'u' ∷ d3 ∷ d2 ∷ d1 ∷ d0 ∷ rest) e
  unfolding Next
  third_digit v3 v2 g3 g2 (v1, g1, h) =
      last_digit v3 v2 v1 g3 g2 g1 (fold_step_inv ((v3 * 16 + v2) * 16 + v1) d0 [] (omega arith) h)

  second_digit :
      (v3 : ℕ)
      → HexDigit d3 v3
      → Next v3 d2 (d1 ∷ d0 ∷ []) e
      → Escape (b'\\' ∷ b'u' ∷ d3 ∷ d2 ∷ d1 ∷ d0 ∷ rest) e
  unfolding Next
  second_digit v3 g3 (v2, g2, h) =
      third_digit v3 v2 g3 g2 (fold_step_inv (v3 * 16 + v2) d1 (d0 ∷ []) (omega arith) h)

  first_digit : Next 0 d3 (d2 ∷ d1 ∷ d0 ∷ []) e → Escape (b'\\' ∷ b'u' ∷ d3 ∷ d2 ∷ d1 ∷ d0 ∷ rest) e
  unfolding Next
  first_digit (v3, g3, h) =
      second_digit v3 g3
        (fold_step_inv v3 d2 (d1 ∷ d0 ∷ []) (omega arith) (from_zero v3 e (d2 ∷ d1 ∷ d0 ∷ []) h))

  fold_all_inv :
      fold_digits 0 (d3 ∷ d2 ∷ d1 ∷ d0 ∷ []) ≡ some e
      → Escape (b'\\' ∷ b'u' ∷ d3 ∷ d2 ∷ d1 ∷ d0 ∷ rest) e
  unfolding Next
  fold_all_inv h = first_digit (fold_step_inv 0 d3 (d2 ∷ d1 ∷ d0 ∷ []) (omega arith) h)

pub escaped_value_inv : (bytes : Bytes) (e : ℕ) → escaped_value bytes ≡ some e → Escape bytes e
unfolding escaped_value
escaped_value_inv (a ∷ b ∷ d3 ∷ d2 ∷ d1 ∷ d0 ∷ rest) e h =
    let found = fold_all_inv d3 d2 d1 d0 e rest (ground arith) in
    let ea : a ≡ b'\\' = ground arith in let eb : b ≡ b'u' = ground arith in rw (ea, eb) found
escaped_value_inv _ e h = cc

pub escaped_value-Escape :
    (d3 d2 d1 d0 v3 v2 v1 v0 : ℕ) (rest : Bytes)
    → HexDigit d3 v3 × HexDigit d2 v2 × HexDigit d1 v1 × HexDigit d0 v0
    → escaped_value (b'\\' ∷ b'u' ∷ d3 ∷ d2 ∷ d1 ∷ d0 ∷ rest)
      ≡ some (((v3 * 16 + v2) * 16 + v1) * 16 + v0)
unfolding escaped_value
escaped_value-Escape d3 d2 d1 d0 v3 v2 v1 v0 rest h = fold_all d3 d2 d1 d0 v3 v2 v1 v0 h
