-- ===== src/Hardware/Reading.antt =====
-- src/model/hardware_id.rs, `HardwareId::from_str` and `Display`: which texts are identifiers, and
-- that slicing the text does not panic.
use keenetic_rci.Prelude.{
  ℕ, zero, suc, ◌+◌, ◌-◌, ◌≤◌, ◌<◌, ◌≡◌, inl, inr, true, some, [], ◌∷◌, ◌++◌, Result, ok, err, ◌==◌,
  leb, length, length-append, get_or, arith, refl, sym, ap, ap₂, ◌∙◌, subst, Bool-cases,
  append_assoc,
}
use keenetic_rci.Prelude.Str.{Str, Bytes, as_bytes, encode_utf8}
use keenetic_rci.Hardware.{
  HardwareVendor, ParseHardwareVendorError, parse_vendor, HardwareId, split_at, read_id,
  parse_hardware_id, ParseHardwareIdError, invalid_vendor, with_vendor,
}

get_or-append_front :
    (xs ys : Bytes) (n : ℕ) → n < length xs → get_or (xs ++ ys) n 0 ≡ get_or xs n 0
get_or-append_front [] ys n h = absurd (omega arith)
get_or-append_front (x ∷ xs) ys zero h = refl
get_or-append_front (x ∷ xs) ys (suc n) h = get_or-append_front xs ys n (omega arith)

get_or-append_back :
    (xs ys : Bytes) (n k : ℕ) → n ≡ length xs + k → get_or (xs ++ ys) n 0 ≡ get_or ys k 0
get_or-append_back [] ys n k h = let e : n ≡ k = omega arith in rw e refl
get_or-append_back (x ∷ xs) ys zero k h = absurd (omega arith)
get_or-append_back (x ∷ xs) ys (suc n) k h = get_or-append_back xs ys n k (omega arith)

-- Every byte of a character but the first is at least 0x80.
encode_tail : (c n : ℕ) → suc n < length (encode_utf8 c) → 128 ≤ get_or (encode_utf8 c) (suc n) 0
unfolding encode_utf8
encode_tail c zero h = ground arith
encode_tail c (suc zero) h = ground arith
encode_tail c (suc (suc zero)) h = ground arith
encode_tail c (suc (suc (suc n))) h = absurd (ground arith)

encode_some : (c : ℕ) → 0 < length (encode_utf8 c)
unfolding encode_utf8
encode_some c = ground arith

-- The first byte of a character is below 0x80 just for that character.
encode_first : (c : ℕ) → get_or (encode_utf8 c) 0 0 < 128 → (encode_utf8 c ≡ c ∷ [])
unfolding encode_utf8
encode_first c h = ground arith

-- A text cut before a byte below 0x80.
record CutAt (s : Str) (n b : ℕ) : Type 0 where
  front : Str
  back : Str
  together : s ≡ front ++ (b ∷ back)
  wide : length (as_bytes front) ≡ n

CutAt-after :
    (c : ℕ) {s : Str} {n b : ℕ} → CutAt s n b → CutAt (c ∷ s) (length (encode_utf8 c) + n) b
unfolding as_bytes
CutAt-after c rest =
    let wide' = rest.wide in
    record {
      front = c ∷ rest.front;
      back = rest.back;
      together = ap (λ t. c ∷ t) rest.together;
      wide = omega (arith, wide', length-append (encode_utf8 c) (as_bytes rest.front));
    }

as_bytes-CutAt :
    (s : Str) (n b : ℕ)
    → n < length (as_bytes s)
    → get_or (as_bytes s) n 0 ≡ b
    → b < 128
    → CutAt s n b
unfolding as_bytes
as_bytes-CutAt [] n b inside here small = absurd (omega arith)
as_bytes-CutAt (c ∷ s) zero b inside here small =
    let first = sym (get_or-append_front (encode_utf8 c) (as_bytes s) 0 (encode_some c)) ∙ here in
    let alone = encode_first c (omega (arith, first)) in
    let same : c ≡ b = ap (λ bytes. get_or bytes 0 0) (sym alone) ∙ first in
    record { front = []; back = s; together = ap (λ x. x ∷ s) same; wide = refl }
as_bytes-CutAt (c ∷ s) (suc n) b inside here small =
    elim (Bool-cases (leb (length (encode_utf8 c)) (suc n))) [
      | inl past ↦
          let width = length (encode_utf8 c) in
          let joined = length-append (encode_utf8 c) (as_bytes s) in
          let low : width ≤ suc n = ground (arith, past) in
          let sum : suc n ≡ width + (suc n - width) = omega (arith, low) in
          let there = get_or-append_back (encode_utf8 c) (as_bytes s) (suc n) (suc n - width) sum in
          let rest =
            as_bytes-CutAt s (suc n - width) b (omega (arith, joined, low)) (sym there ∙ here)
              small in
          subst (λ k. CutAt (c ∷ s) k b) (sym sum) (CutAt-after c rest)
      | inr within ↦
          let inside' : suc n < length (encode_utf8 c) = ground (arith, within) in
          let same = get_or-append_front (encode_utf8 c) (as_bytes s) (suc n) inside' in
          let large = encode_tail c n inside' in absurd (omega (arith, same, large, here, small))
    ]

-- Cutting after the bytes of a first part gives the two parts.
split_at-append :
    (front back : Str) (n : ℕ)
    → n ≡ length (as_bytes front)
    → split_at n (front ++ back) ≡ some (front, back)
unfolding split_at as_bytes
split_at-append [] back zero e = refl
split_at-append [] back (suc n) e = absurd (omega arith)
split_at-append (c ∷ front) back zero e =
    absurd (omega (arith, encode_some c, length-append (encode_utf8 c) (as_bytes front)))
split_at-append (c ∷ front) back (suc n) e =
    let joined = length-append (encode_utf8 c) (as_bytes front) in
    let past : leb (length (encode_utf8 c)) (suc n) ≡ true = ground (arith, joined) in
    let rest =
      split_at-append front back (suc n - length (encode_utf8 c)) (omega (arith, joined)) in
    rw (past, rest) refl

-- What follows the hyphen of a text of seven bytes with a hyphen at the third.
pub record Hyphenated (value : Str) : Type 0 where
  pub front : Str
  pub back : Str
  pub together : value ≡ front ++ (b'-' ∷ back)
  pub result :
      parse_hardware_id value ≡ with_vendor (parse_vendor front) (some (front ++ (b'-' ∷ []), back))

as_bytes-append : (s t : Str) → as_bytes (s ++ t) ≡ as_bytes s ++ as_bytes t
unfolding as_bytes
as_bytes-append [] t = refl
as_bytes-append (c ∷ s) t =
    rw (as_bytes-append s t) (sym (append_assoc (encode_utf8 c) (as_bytes s) (as_bytes t)))

hyphen_width : as_bytes (b'-' ∷ []) ≡ b'-' ∷ []
unfolding as_bytes encode_utf8
hyphen_width = refl

pub value-Hyphenated :
    (value : Str)
    → length (as_bytes value) ≡ 7
    → get_or (as_bytes value) 2 0 ≡ b'-'
    → Hyphenated value
unfolding parse_hardware_id
value-Hyphenated value long here =
    let c = as_bytes-CutAt value 2 b'-' (omega arith) here (omega arith) in
    let two = c.wide in
    let before = split_at-append c.front (b'-' ∷ c.back) 2 (sym two) in
    let joined =
      as_bytes-append c.front (b'-' ∷ []) ∙ ap (λ t. as_bytes c.front ++ t) hyphen_width in
    let three : 3 ≡ length (as_bytes (c.front ++ (b'-' ∷ []))) =
      omega (arith, two, ap length joined, length-append (as_bytes c.front) (b'-' ∷ [])) in
    let after = split_at-append (c.front ++ (b'-' ∷ [])) c.back 3 three in
    let same = append_assoc c.front (b'-' ∷ []) c.back in
    let seven : (length (as_bytes value) == 7) ≡ true = ground (arith, long) in
    let hyphen : (get_or (as_bytes value) 2 0 == b'-') ≡ true = ground (arith, here) in
    record {
      front = c.front;
      back = c.back;
      together = c.together;
      result =
          rw (seven, hyphen)
            (ap₂ read_id (ap (split_at 2) c.together ∙ before)
              (ap (split_at 3) (c.together ∙ sym same) ∙ after));
    }

with_vendor_total :
    (vendor : Result HardwareVendor ParseHardwareVendorError) (parts : Str × Str)
    → (r : Result HardwareId ParseHardwareIdError) × (with_vendor vendor (some parts) ≡ some r)
with_vendor_total (ok vendor) (before, digits) = (_, refl)
with_vendor_total (err e) parts = (err (invalid_vendor e), refl)

-- Parsing a hardware identifier never panics: the hyphen at byte 2 is a character of its own, so that
-- both slices end at boundaries, whatever the text.
pub parse_hardware_id_total :
    (value : Str)
    → (r : Result HardwareId ParseHardwareIdError) × (parse_hardware_id value ≡ some r)
unfolding parse_hardware_id
parse_hardware_id_total value = elim (Bool-cases (length (as_bytes value) == 7)) [
  | inl seven ↦ elim (Bool-cases (get_or (as_bytes value) 2 0 == b'-')) [
    | inl hyphen ↦
        let h = value-Hyphenated value (ground (arith, seven)) (ground (arith, hyphen)) in
        let (r, e) = with_vendor_total (parse_vendor h.front) _ in (r, h.result ∙ e)
    | inr other ↦ (err ParseHardwareIdError.invalid_separator, rw (seven, other) refl)
  ]
  | inr other ↦ (err (ParseHardwareIdError.invalid_length (length (as_bytes value))), rw other refl)
]
