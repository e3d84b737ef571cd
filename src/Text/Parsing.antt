-- ===== src/Text/Parsing.antt =====
-- src/model/text.rs, `InlineAscii::parse` and `as_str`: texts that are taken, errors, and reading back.
use keenetic_rci.Prelude.{
  ℕ, zero, suc, sym, ok-injective, replicate, drop, ◌-◌, ◌≤◌, ◌<◌, ◌≡◌, Bool, true, false, not,
  ◌&&◌, Option, none, some, [], ◌∷◌, ◌++◌, Result, ok, err, leb, arith, refl, ap, ap₂, ◌∙◌, inl,
  inr, length, take, take-append, All, All-append_inv, All-map, Bool-cases, get_elem?, ltb,
}
use keenetic_rci.Prelude.Str.{Str, Bytes, as_bytes, encode_utf8, from_utf8_ascii}
use keenetic_rci.Text.{
  InvalidInlineAscii, length_is, character_at, InlineAscii, inline, position, parse, inline_bytes,
  as_str, checked,
}

-- A text whose UTF-8 bytes are all ASCII is equal to its bytes.
encode_ascii : (c : ℕ) → All (λ b. b < 128) (encode_utf8 c) → encode_utf8 c ≡ c ∷ []
unfolding encode_utf8
encode_ascii c h = elim (Bool-cases (ltb c 0x80)) [
  | inl small ↦ ground arith
  | inr large ↦ absurd (ground arith)
]

pub as_bytes_small : (s : Str) → All (λ b. b < 128) (as_bytes s) → as_bytes s ≡ s
unfolding as_bytes
as_bytes_small [] h = refl
as_bytes_small (c ∷ s) h =
    let (front, back) = All-append_inv (λ (b : ℕ). b < 128) (encode_utf8 c) (as_bytes s) h in
    ap₂ ◌++◌ (encode_ascii c front) (as_bytes_small s back)

drop-replicate : {A : Type 0} (n m : ℕ) (x : A) → drop n (replicate m x) ≡ replicate (m - n) x
drop-replicate zero m x = let e : m ≡ m - 0 = omega arith in ap (λ k. replicate k x) e
drop-replicate (suc n) zero x = let e : 0 ≡ 0 - suc n = omega arith in ap (λ k. replicate k x) e
drop-replicate (suc n) (suc m) x =
    let e : m - n ≡ suc m - suc n = omega arith in drop-replicate n m x ∙ ap (λ k. replicate k x) e

-- The array of a capacity that holds the bytes: the bytes and then zeros, with their count.
pub record IsInline (capacity : ℕ) (bytes : Bytes) (a : InlineAscii) : Type 0 where
  pub array : a.bytes ≡ bytes ++ replicate (capacity - length bytes) 0
  pub count : a.len ≡ length bytes

inline-IsInline : (capacity : ℕ) (bytes : Bytes) → IsInline capacity bytes (inline capacity bytes)
inline-IsInline capacity bytes = record {
  array = ap (λ l. bytes ++ l) (drop-replicate (length bytes) capacity 0);
  count = refl;
}

module _ (predicate : ℕ → Bool) where
  abbrev pub Accepted : Bytes → Type 0
  Accepted bytes = All (λ b. predicate b ≡ true) bytes

  -- The byte at the index is the first that is not accepted.
  pub record FirstBad (bytes : Bytes) (index : ℕ) : Type 0 where
    pub byte : ℕ
    pub there : get_elem? bytes index ≡ some byte
    pub refused : predicate byte ≡ false
    pub before : Accepted (take index bytes)

  position-none : (bytes : Bytes) → position (λ b. not (predicate b)) bytes ≡ none → Accepted bytes
  unfolding position
  position-none [] h = tt
  position-none (b ∷ bytes) h = elim (Bool-cases (predicate b)) [
    | inl good ↦ (good, position-none bytes (ground (arith, good, h)))
    | inr bad ↦ absurd (ground (arith, bad, h))
  ]

  position_all : (bytes : Bytes) → Accepted bytes → position (λ b. not (predicate b)) bytes ≡ none
  unfolding position
  position_all [] h = refl
  position_all (b ∷ bytes) h = rw (h.0, position_all bytes h.1)

  position-some :
      (bytes : Bytes) (i : ℕ) → position (λ b. not (predicate b)) bytes ≡ some i → FirstBad bytes i
  unfolding position
  position-some [] i h = cc
  position-some (b ∷ bytes) zero h = elim (Bool-cases (predicate b)) [
    | inl good ↦ absurd (ground (arith, good, h))
    | inr bad ↦ record { byte = b; there = refl; refused = bad; before = tt }
  ]
  position-some (b ∷ bytes) (suc i) h = elim (Bool-cases (predicate b)) [
    | inl good ↦
        let rest = position-some bytes i (ground (arith, good, h)) in
        record {
          byte = rest.byte;
          there = rest.there;
          refused = rest.refused;
          before = (good, rest.before);
        }
    | inr bad ↦ absurd (ground (arith, bad, h))
  ]

  module _ (capacity min_len : ℕ) where
    abbrev pub Fits : Bytes → Type 0
    Fits bytes = (min_len ≤ length bytes) × (length bytes ≤ capacity)

    -- A text is taken when its length is in range and each byte is accepted, and its bytes are kept,
    -- padded by zeros up to the capacity. Otherwise the length is reported if that is out of range,
    -- and else the first byte that is not accepted.
    pub data Parses (value : Str) (r : Result InlineAscii InvalidInlineAscii) : Type 0 where
      taken :
          Fits (as_bytes value)
          → Accepted (as_bytes value)
          → (a : InlineAscii) → IsInline capacity (as_bytes value) a
          → r ≡ ok a
          → Parses value r
      wrong_length :
          ¬ Fits (as_bytes value) → r ≡ err (length_is (length (as_bytes value))) → Parses value r
      wrong_character :
          (i : ℕ)
          → Fits (as_bytes value)
          → FirstBad (as_bytes value) i
          → r ≡ err (character_at i)
          → Parses value r

    parsed_position :
        (value : Str) (found : Option ℕ)
        → position (λ b. not (predicate b)) (as_bytes value) ≡ found
        → Fits (as_bytes value)
        → Parses value (checked capacity (as_bytes value) found)
    parsed_position value none e fits =
        taken fits (position-none (as_bytes value) e) (inline capacity (as_bytes value))
          (inline-IsInline capacity (as_bytes value)) refl
    parsed_position value (some i) e fits =
        wrong_character i fits (position-some (as_bytes value) i e) refl

    -- What `InlineAscii::parse` returns, on every branch: the text is taken just if its length is in
    -- range and each byte is accepted, its bytes are kept, padded by zeros up to the capacity; a
    -- length out of range is reported first, and else the first byte that is not accepted.
    pub parse-Parses : (value : Str) → Parses value (parse capacity min_len predicate value)
    unfolding parse
    parse-Parses value =
        elim (Bool-cases
          (leb min_len (length (as_bytes value)) && leb (length (as_bytes value)) capacity)) [
            | inl fits ↦ rw fits (parsed_position value _ refl (ground arith))
            | inr short ↦ rw short (wrong_length (λ f. ground arith) refl)
          ]

    checked-eq-ok :
        (value : Str) (found : Option ℕ) (a : InlineAscii)
        → position (λ b. not (predicate b)) (as_bytes value) ≡ found
        → checked capacity (as_bytes value) found ≡ ok a
        → Accepted (as_bytes value) × (a ≡ inline capacity (as_bytes value))
    checked-eq-ok value none a e h = (position-none (as_bytes value) e, sym (ok-injective h))
    checked-eq-ok value (some i) a e h = cc

    -- Inversion of a success.
    pub parse-eq-ok :
        (value : Str) (a : InlineAscii)
        → parse capacity min_len predicate value ≡ ok a
        → Fits (as_bytes value) × Accepted (as_bytes value) × (a ≡ inline capacity (as_bytes value))
    unfolding parse
    parse-eq-ok value a h =
        elim (Bool-cases
          (leb min_len (length (as_bytes value)) && leb (length (as_bytes value)) capacity)) [
            | inl fits ↦
                let (good, e) = checked-eq-ok value _ a refl (rw fits at h) in
                (ground (arith, fits), good, e)
            | inr short ↦ absurd (ground (arith, short, h))
          ]

    -- The texts that are taken.
    pub parse_takes :
        (value : Str)
        → Fits (as_bytes value)
        → Accepted (as_bytes value)
        → parse capacity min_len predicate value ≡ ok (inline capacity (as_bytes value))
    unfolding parse
    parse_takes value fits good =
        let inside : (leb min_len (length (as_bytes value))
              && leb (length (as_bytes value)) capacity)
            ≡ true =
          ground arith in
        rw (inside, position_all (as_bytes value) good)

    -- A parsed value keeps the text: its bytes are the bytes of the text, and for a predicate that
    -- accepts ASCII only, `as_str` does not panic and gives the text back.
    pub as_str-parse :
        ((b : ℕ) → predicate b ≡ true → b < 128)
        → (value : Str) (a : InlineAscii) → parse capacity min_len predicate value ≡ ok a
        → (inline_bytes a ≡ value) × (as_str a ≡ some value) × (as_bytes value ≡ value)
    as_str-parse ascii value a h =
        let (fits, good, e) = parse-eq-ok value a h in
        let small = All-map _ (λ (b : ℕ). b < 128) (as_bytes value) ascii good in
        let same = as_bytes_small value small in
        let kept : inline_bytes a ≡ as_bytes value = rw e (take-append (as_bytes value) _) in
        (kept ∙ same, rw kept (from_utf8_ascii (as_bytes value) small ∙ ap some same), same)
