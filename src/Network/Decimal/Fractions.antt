-- ===== src/Network/Decimal/Fractions.antt =====
-- src/model/network.rs, `parse_decimal_duration`: the fraction and its bounds.
use native.Mathlib.Nat.{pow-suc, mul-le-mul_right, mul_assoc, mul_comm}
use keenetic_rci.Prelude.{
  ℕ, zero, suc, ◌+◌, ◌-◌, ◌*◌, ◌^◌, ◌%◌, ◌≤◌, ◌<◌, ◌≡◌, true, not, ◌&&◌, ◌||◌, Option, none, some,
  [], ◌∷◌, ◌++◌, ok, err, >>=-eq-ok, ok-injective, ltb, leb, ◌==◌, if◌then◌else◌, length, all, inl,
  inr, ◌⊎◌, subst, All, All-map, arith, refl, ap, Bool-cases, all→All,
}
use keenetic_rci.Prelude.Optional.{ok_or, ok_or-eq-ok}
use keenetic_rci.Prelude.Str.{Str, codes, as_bytes}
use keenetic_rci.Prelude.Pieces.{
  split_once, split_once-eq-some, digits_from, parse_unsigned, parse_unsigned_bound,
}
use keenetic_rci.Prelude.Words.{u32_max, u64_max}
use keenetic_rci.Text.{is_ascii_digit}
use keenetic_rci.Imei.Luhn.{IsDigit}
use keenetic_rci.Text.Parsing.{as_bytes_small}
use keenetic_rci.Network.Readings.{Duration}
use keenetic_rci.Network.Decimal.{
  invalid_whole, invalid_fraction, parts_or, fraction_nanos, parse_decimal_duration,
}

-- Digits that follow a value give less than the next value would with zeros.
digits_from_small :
    (greatest value : ℕ) (s : Str) (n : ℕ)
    → digits_from greatest value s ≡ some n
    → suc n ≤ suc value * 10 ^ length s
unfolding digits_from
digits_from_small greatest value [] n e = ground arith
digits_from_small greatest value (c ∷ s) n e =
    elim (Bool-cases (leb b'0' c && leb c b'9' && leb (value * 10 + (c - b'0')) greatest)) [
      | inl good ↦
          let next = value * 10 + (c - b'0') in
          let inner = digits_from_small greatest next s n (rw good at e) in
          let step : suc next ≤ suc value * 10 = ground (arith, good) in
          let grown = mul-le-mul_right (10 ^ length s) step in
          omega (
            arith,
            inner,
            pow-suc 10 (length s),
            mul_assoc (suc value) 10 (10 ^ length s),
            mul_comm 10 (10 ^ length s),
            ap (λ k. suc value * k) (pow-suc 10 (length s)),
            ap (λ k. suc value * k) (mul_comm 10 (10 ^ length s)),
            grown,
          )
      | inr bad ↦ absurd (ground (arith, bad, e))
    ]

parse_unsigned_small :
    (greatest : ℕ) (s : Str) (n : ℕ) → parse_unsigned greatest s ≡ some n → suc n ≤ 10 ^ length s
unfolding parse_unsigned
parse_unsigned_small greatest [] n e = cc
parse_unsigned_small greatest (c ∷ []) n e =
    let h = digits_from_small greatest 0 (c ∷ []) n e in omega (arith, h)
parse_unsigned_small greatest (c ∷ d ∷ s) n e = elim (Bool-cases (c == b'+')) [
  | inl plus ↦
      let h = digits_from_small greatest 0 (d ∷ s) n (rw plus at e) in
      omega (arith, h, pow-suc 10 (length (d ∷ s)))
  | inr digit ↦
      let h = digits_from_small greatest 0 (c ∷ d ∷ s) n (rw digit at e) in omega (arith, h)
]

-- A number of at most nine digits, moved up to nine places.
scaled : (l n : ℕ) → l ≤ 9 → suc n ≤ 10 ^ l → n * 10 ^ (9 - l) < 1000000000
scaled zero n h small = omega arith
scaled (suc zero) n h small = omega arith
scaled (suc (suc zero)) n h small = omega arith
scaled (suc (suc (suc zero))) n h small = omega arith
scaled (suc (suc (suc (suc zero)))) n h small = omega arith
scaled (suc (suc (suc (suc (suc zero))))) n h small = omega arith
scaled (suc (suc (suc (suc (suc (suc zero)))))) n h small = omega arith
scaled (suc (suc (suc (suc (suc (suc (suc zero))))))) n h small = omega arith
scaled (suc (suc (suc (suc (suc (suc (suc (suc zero)))))))) n h small = omega arith
scaled (suc (suc (suc (suc (suc (suc (suc (suc (suc zero))))))))) n h small = omega arith
scaled (suc (suc (suc (suc (suc (suc (suc (suc (suc (suc l)))))))))) n h small =
    absurd (omega arith)

-- The nanoseconds that a fraction of a second stands for.
pub data IsFraction : Str → ℕ → Type 0 where
  none_given : IsFraction [] 0
  given :
      {fraction : Str} {n nanos : ℕ}
      → parse_unsigned u32_max fraction ≡ some n
      → nanos ≡ n * 10 ^ (9 - length fraction)
      → IsFraction fraction nanos

fraction_nanos-IsFraction :
    (fraction : Str) (nanos : ℕ)
    → as_bytes fraction ≡ fraction
    → length fraction ≤ 9
    → fraction_nanos fraction ≡ ok nanos
    → IsFraction fraction nanos × (nanos < 1000000000)
unfolding fraction_nanos
fraction_nanos-IsFraction [] nanos plain short h =
    let e : 0 ≡ nanos = ok-injective h in
    (subst (λ n. IsFraction [] n) e none_given, omega (arith, e))
fraction_nanos-IsFraction (c ∷ fraction) nanos plain short h =
    let (n, n_is, rest) =
      >>=-eq-ok (ok_or (parse_unsigned u32_max (c ∷ fraction)) invalid_fraction) _ h in
    let read = ok_or-eq-ok (parse_unsigned u32_max (c ∷ fraction)) invalid_fraction n_is in
    let e : n * 10 ^ (9 - length (as_bytes (c ∷ fraction))) % 4294967296 ≡ nanos =
      ok-injective rest in
    let bound =
      scaled (length (c ∷ fraction)) n short (parse_unsigned_small u32_max (c ∷ fraction) n read) in
    let same = ap (λ s. n * 10 ^ (9 - length s)) plain in
    let nanos_is : nanos ≡ n * 10 ^ (9 - length (c ∷ fraction)) = omega (arith, e, same, bound) in
    (given read nanos_is, omega (arith, nanos_is, bound))

-- A text of decimal seconds, with the duration that it stands for.
pub record IsDecimal (value : Str) (duration : Duration) : Type 0 where
  pub whole : Str
  pub fraction : Str
  pub parts : (value ≡ whole ++ (codes "." ++ fraction)) ⊎ ((value ≡ whole) × (fraction ≡ []))
  pub digits : All IsDigit fraction
  pub short : length fraction ≤ 9
  pub whole_is : parse_unsigned u64_max whole ≡ some duration.secs
  pub fraction_is : IsFraction fraction duration.nanos
  pub secs_fit : duration.secs ≤ u64_max
  pub nanos_fit : duration.nanos < 1000000000

parts_or-split :
    (value : Str) (found : Option (Str × Str))
    → split_once (codes ".") value ≡ found
    → (value ≡ (parts_or value found).0 ++ (codes "." ++ (parts_or value found).1))
      ⊎ ((value ≡ (parts_or value found).0) × ((parts_or value found).1 ≡ []))
parts_or-split value none e = inr (refl, refl)
parts_or-split value (some (a, b)) e = inl (split_once-eq-some (codes ".") value a b e)

digits_only :
    (fraction : Str) (nanos : ℕ)
    → (if ltb 9 (length (as_bytes fraction)) || not (all is_ascii_digit (as_bytes fraction))
        then err invalid_fraction
        else fraction_nanos fraction)
      ≡ ok nanos
    → ((length (as_bytes fraction) ≤ 9) × (all is_ascii_digit (as_bytes fraction) ≡ true))
      × (fraction_nanos fraction ≡ ok nanos)
digits_only fraction nanos h =
    elim (Bool-cases
      (ltb 9 (length (as_bytes fraction)) || not (all is_ascii_digit (as_bytes fraction)))) [
        | inl bad ↦ absurd (ground (arith, bad, h))
        | inr good ↦ ((ground (arith, good), ground (arith, good)), rw good at h)
      ]

-- A text that is read as decimal seconds is a whole number of seconds that a `u64` holds, and maybe
-- a point with at most nine digits; the nanoseconds are the digits, moved up to nine places. They
-- are below one second, so that neither the multiplication of the `u32` nor `Duration::new` carries.
pub parse_decimal_duration-IsDecimal :
    (value : Str) (duration : Duration)
    → parse_decimal_duration value ≡ ok duration
    → IsDecimal value duration
unfolding parse_decimal_duration
parse_decimal_duration-IsDecimal value duration h =
    let parts = parts_or value (split_once (codes ".") value) in
    let long = ltb 9 (length (as_bytes parts.1)) || not (all is_ascii_digit (as_bytes parts.1)) in
    let (seconds, secs_is, h1) =
      >>=-eq-ok (ok_or (parse_unsigned u64_max parts.0) invalid_whole) _ h in
    let (nanos, nanos_is, h2) =
      >>=-eq-ok (if long then err invalid_fraction else fraction_nanos parts.1) _ h1 in
    let (digits, read) = digits_only parts.1 nanos nanos_is in
    let plain =
      as_bytes_small parts.1
        (All-map _ (λ (b : ℕ). b < 128) _ (λ b d. ground (arith, d)) (all→All _ _ digits.1)) in
    let (fraction_is, fit) =
      fraction_nanos-IsFraction parts.1 nanos plain (omega (arith, digits.0, ap length plain))
        read in
    let whole_is = ok_or-eq-ok (parse_unsigned u64_max parts.0) invalid_whole secs_is in
    let same : ◌≡◌ {A = Duration} (record { secs = seconds; nanos = nanos }) duration =
      ok-injective h2 in
    subst (IsDecimal value) same (record {
      whole = parts.0;
      fraction = parts.1;
      parts = parts_or-split value (split_once (codes ".") value) refl;
      digits =
          subst (All IsDigit) plain
            (All-map _ IsDigit _ (λ b d. ground (arith, d)) (all→All _ _ digits.1));
      short = omega (arith, digits.0, ap length plain);
      whole_is = whole_is;
      fraction_is = fraction_is;
      secs_fit = parse_unsigned_bound u64_max parts.0 seconds whole_is;
      nanos_fit = fit;
    })
