-- ===== src/Network/Mac/Spelling.antt =====
-- src/model/network.rs, `MacAddress::from_str`: which texts are addresses.
use Prim.Native.Nat.{bit_or}
use keenetic_rci.Prelude.{
  ℕ, zero, suc, ◌+◌, ◌-◌, ◌*◌, ◌%◌, ◌<◌, ◌≡◌, ◌↔◌, ◌⊎◌, inl, inr, false, not, ◌&&◌, Option, none,
  some, [], ◌∷◌, Result, ok, ◌>>=◌, >>=-eq-ok, ok-injective, ◌==◌, length, get_or, drop, arith,
  refl, sym, ap, ◌∙◌, Bool-cases, subst,
}
use keenetic_rci.Prelude.Bits.{bit_or_nibble}
use keenetic_rci.Prelude.Str.{Str, Bytes, as_bytes}
use keenetic_rci.Network.Mac.{
  ParseMacAddressError, MacAddress, decode_hex, hex_or, check_octet, octets_from, parse_mac,
}

-- The hexadecimal digit `c` has the value `v`, in either case.
abbrev pub IsHex : ℕ → ℕ → Type 0
IsHex c v =
    (c ≡ v + b'0') × (v < 10)
    ⊎ (c + 10 ≡ v + b'a') × (9 < v) × (v < 16)
    ⊎ (c + 10 ≡ v + b'A') × (9 < v) × (v < 16)

pub decode_hex-IsHex : (c v : ℕ) → decode_hex c ≡ some v → IsHex c v
unfolding decode_hex
decode_hex-IsHex c v h = ground arith

IsHex-decode_hex : (c v : ℕ) → IsHex c v → decode_hex c ≡ some v
unfolding decode_hex
IsHex-decode_hex c v h = ground arith

IsHex_small : (c v : ℕ) → IsHex c v → v < 16
IsHex_small c v h = ground arith

-- Two hexadecimal digits of either case, with the octet that they spell.
pub record IsOctet (first second octet : ℕ) : Type 0 where
  pub high : ℕ
  pub low : ℕ
  pub first_is : IsHex first high
  pub second_is : IsHex second low
  pub together : octet ≡ high * 16 + low

-- Pairs of hexadecimal digits with colons between them, and the octets that they spell.
pub data Spells : Bytes → Bytes → Type 0 where
  last :
      {octet first second : ℕ}
      → IsOctet first second octet
      → Spells (octet ∷ []) (first ∷ second ∷ [])
  more :
      {octet first second : ℕ} {octets text : Bytes}
      → IsOctet first second octet
      → Spells octets text
      → Spells (octet ∷ octets) (first ∷ second ∷ b':' ∷ text)

decode_hex_small : (c d : ℕ) → decode_hex c ≡ some d → d < 16
unfolding decode_hex
decode_hex_small c d h = ground arith

-- The loop on what is left of the text.
rest_from : ℕ → ℕ → Bytes → Result Bytes ParseMacAddressError
rest_from zero index text = ok []
rest_from (suc left) index text = do
  octet ← check_octet index (get_or text 0 0) (get_or text 1 0) (get_or text 2 0)
  octets ← rest_from left (suc index) (drop 3 text)
  ok (octet ∷ octets)

get_or-drop : (i k j : ℕ) (xs : Bytes) → j ≡ i + k → get_or (drop i xs) k 0 ≡ get_or xs j 0
get_or-drop zero k j xs e = let same : j ≡ k = omega arith in rw same refl
get_or-drop (suc i) k j [] e = refl
get_or-drop (suc i) k zero (x ∷ xs) e = absurd (omega arith)
get_or-drop (suc i) k (suc j) (x ∷ xs) e = get_or-drop i k j xs (omega arith)

drop-drop : (i k j : ℕ) (xs : Bytes) → j ≡ i + k → drop k (drop i xs) ≡ drop j xs
drop-drop zero k j xs e = let same : j ≡ k = omega arith in rw same refl
drop-drop (suc i) zero zero [] e = refl
drop-drop (suc i) (suc k) zero [] e = refl
drop-drop (suc i) zero (suc j) [] e = refl
drop-drop (suc i) (suc k) (suc j) [] e = refl
drop-drop (suc i) k zero (x ∷ xs) e = absurd (omega arith)
drop-drop (suc i) k (suc j) (x ∷ xs) e = drop-drop i k j xs (omega arith)

octets_from-rest_from :
    (left index : ℕ) (bytes : Bytes)
    → octets_from left index bytes ≡ rest_from left index (drop (index * 3) bytes)
unfolding octets_from rest_from
octets_from-rest_from zero index bytes = refl
octets_from-rest_from (suc left) index bytes =
    rw
      (
        get_or-drop (index * 3) 0 (index * 3) bytes (omega arith),
        get_or-drop (index * 3) 1 (index * 3 + 1) bytes refl,
        get_or-drop (index * 3) 2 (index * 3 + 2) bytes refl,
        drop-drop (index * 3) 3 (suc index * 3) bytes (omega arith),
        octets_from-rest_from left (suc index) bytes,
      )
      refl

packed : (high low : ℕ) → high < 16 → low < 16 → bit_or (high * 16 % 256) low ≡ high * 16 + low
packed high low a b =
    let fits : high * 16 % 256 ≡ high * 16 = omega arith in rw fits (bit_or_nibble high low b)

hex_or-eq-ok : (o : Option ℕ) (p d : ℕ) → hex_or o p ≡ ok d → o ≡ some d
hex_or-eq-ok none p d h = cc
hex_or-eq-ok (some x) p d h = cc

check_octet-eq-ok :
    (index a b c octet : ℕ)
    → check_octet index a b c ≡ ok octet
    → IsOctet a b octet × ((index ≡ 5) ⊎ (c ≡ b':'))
unfolding check_octet
check_octet-eq-ok index a b c octet h = elim (Bool-cases (not (index == 5) && not (c == b':'))) [
  | inl bad ↦ absurd (ground (arith, bad, h))
  | inr good ↦
      let sized : _ ≡ ok octet = rw good at h in
      let (high, a_is, rest) = >>=-eq-ok (hex_or (decode_hex a) (index * 3)) _ sized in
      let (low, b_is, e) = >>=-eq-ok (hex_or (decode_hex b) (index * 3 + 1)) _ rest in
      let first = hex_or-eq-ok (decode_hex a) (index * 3) high a_is in
      let second = hex_or-eq-ok (decode_hex b) (index * 3 + 1) low b_is in
      let value = packed high low (decode_hex_small a high first) (decode_hex_small b low second) in
      let same : bit_or (high * 16 % 256) low ≡ octet = ok-injective e in
      (
        record {
          high = high;
          low = low;
          first_is = decode_hex-IsHex a high first;
          second_is = decode_hex-IsHex b low second;
          together = sym same ∙ value;
        },
        ground (arith, good),
      )
]

check_octet_takes :
    (index a b c octet : ℕ)
    → IsOctet a b octet
    → (index ≡ 5) ⊎ (c ≡ b':')
    → check_octet index a b c ≡ ok octet
unfolding check_octet
check_octet_takes index a b c octet o s =
    let small = IsHex_small a o.high o.first_is in
    let small' = IsHex_small b o.low o.second_is in
    let good : (not (index == 5) && not (c == b':')) ≡ false = ground (arith, s) in
    rw (good, IsHex-decode_hex a o.high o.first_is, IsHex-decode_hex b o.low o.second_is)
      (ap ok (packed o.high o.low small small' ∙ sym o.together))

-- What the loop reads of a text of the right length.
rest_from-Spells :
    (left index : ℕ) (text octets : Bytes)
    → suc left + index ≡ 6
    → length text ≡ suc left * 3 - 1
    → rest_from (suc left) index text ≡ ok octets
    → Spells octets text
unfolding rest_from
rest_from-Spells left index [] octets e n h = absurd (omega arith)
rest_from-Spells left index (a ∷ []) octets e n h = absurd (omega arith)
rest_from-Spells zero index (a ∷ b ∷ []) octets e n h =
    let (octet, now, rest) = >>=-eq-ok (check_octet index a b 0) _ h in
    let (read, between) = check_octet-eq-ok index a b 0 octet now in
    subst (λ os. Spells os (a ∷ b ∷ [])) (ok-injective rest) (last read)
rest_from-Spells (suc left) index (a ∷ b ∷ []) octets e n h = absurd (omega arith)
rest_from-Spells zero index (a ∷ b ∷ c ∷ text) octets e n h = absurd (omega arith)
rest_from-Spells (suc left) index (a ∷ b ∷ c ∷ text) octets e n h =
    let (octet, now, rest) = >>=-eq-ok (check_octet index a b c) _ h in
    let (others, later, same) = >>=-eq-ok (rest_from (suc left) (suc index) text) _ rest in
    let (read, between) = check_octet-eq-ok index a b c octet now in
    let colon : c ≡ b':' = elim between [ inl i ↦ absurd (omega arith) | inr k ↦ k ] in
    let inner = rest_from-Spells left (suc index) text others (omega arith) (omega arith) later in
    subst (λ os. Spells os (a ∷ b ∷ c ∷ text)) (ok-injective same)
      (subst (λ x. Spells (octet ∷ others) (a ∷ b ∷ x ∷ text)) (sym colon) (more read inner))

Spells_some : {octets text : Bytes} → Spells octets text → 0 < length octets
Spells_some (last s) = omega arith
Spells_some (more s inner) = omega arith

Spells_length : {octets text : Bytes} → Spells octets text → suc (length text) ≡ length octets * 3
Spells_length (last s) = omega arith
Spells_length (more s inner) = omega (arith, Spells_length inner)

Spells-rest_from :
    (left index : ℕ) (text octets : Bytes)
    → suc left + index ≡ 6
    → length octets ≡ suc left
    → Spells octets text
    → rest_from (suc left) index text ≡ ok octets
unfolding rest_from
Spells-rest_from zero index text octets e n (last {octet = o} {first = a} {second = b} s) =
    rw (check_octet_takes index a b 0 o s (inl (omega arith))) refl
Spells-rest_from (suc left) index text octets e n (last s) = absurd (omega arith)
Spells-rest_from zero index text octets e n (more s inner) =
    absurd (omega (arith, Spells_some inner))
Spells-rest_from (suc left) index text octets e n
      (more {octet = o} {first = a} {second = b} {octets = os} {text = rest} s inner) =
    rw
      (
        check_octet_takes index a b b':' o s (inr refl),
        Spells-rest_from left (suc index) rest os (omega arith) (omega arith) inner,
      )
      refl

-- A text is taken as a MAC address, with the octets as its value, just if it spells six octets: two
-- hexadecimal digits of either case for each, high digit first, with a colon between two octets and
-- nothing else.
pub parse_mac_iff :
    (value : Str) (mac : MacAddress)
    → (parse_mac value ≡ ok mac) ↔ ((length mac ≡ 6) × Spells mac (as_bytes value))
unfolding parse_mac
parse_mac_iff value mac = elim (Bool-cases (length (as_bytes value) == 17)) [
  | inl long ↦
      rw (long, octets_from-rest_from 6 0 (as_bytes value))
        (
          λ h.
              let s = rest_from-Spells 5 0 (as_bytes value) mac refl (ground arith) h in
              let n : length (as_bytes value) ≡ 17 = ground (arith, long) in
              (omega (arith, Spells_length s, n), s),
          λ (n, s). Spells-rest_from 5 0 (as_bytes value) mac refl n s,
        )
  | inr other ↦
      rw other (
        λ h. absurd (cc),
        λ (n, s). absurd (let e = Spells_length s in ground (arith, e, n, other)),
      )
]
