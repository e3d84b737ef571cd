-- ===== src/Mobile/Cell.antt =====
-- src/model/mobile.rs, `ServingCell::eci`: the bounds of the E-UTRAN cell identity.
use Prim.Native.Nat.{bit_or}
use keenetic_rci.Prelude.{
  ℕ, ◌+◌, ◌*◌, ◌/◌, ◌%◌, ◌<◌, ◌≡◌, ◌↔◌, inl, inr, true, ◌&&◌, Option, none, some, leb, arith, refl,
  sym, ap, ◌∙◌, Bool-cases,
}
use keenetic_rci.Prelude.Bits.{bit_or_byte}
use keenetic_rci.Prelude.Optional.{some-injective}
use keenetic_rci.Mobile.{ServingCell, eci, eci_of}

-- An identity of 28 bits, with the base station above the sector.
pub record IsIdentity (cell : ServingCell) (identity : ℕ) : Type 0 where
  pub enb : ℕ
  pub sector : ℕ
  pub enb_is : cell.enb_id ≡ some enb
  pub sector_is : cell.sector_id ≡ some sector
  pub enb_fits : enb < 1048576
  pub sector_fits : sector < 256
  pub identity_is : identity ≡ enb * 256 + sector

shifted :
    (enb sector : ℕ)
    → enb < 1048576
    → sector < 256
    → bit_or (enb * 256 % 4294967296) sector ≡ enb * 256 + sector
shifted enb sector a b =
    let fits : enb * 256 % 4294967296 ≡ enb * 256 = omega arith in
    rw fits (bit_or_byte enb sector b)

IsIdentity-eci : (cell : ServingCell) (n : ℕ) → IsIdentity cell n → eci cell ≡ some n
unfolding eci
IsIdentity-eci cell n i =
    let a = i.enb_fits in
    let b = i.sector_fits in
    let inside : (leb i.enb 0x000fffff && leb i.sector 0x00ff) ≡ true = ground (arith, a, b) in
    rw (i.enb_is, i.sector_is, inside) (ap some (shifted i.enb i.sector a b ∙ sym i.identity_is))

eci_cases :
    (cell : ServingCell) (n : ℕ) (enb sector : Option ℕ)
    → cell.enb_id ≡ enb
    → cell.sector_id ≡ sector
    → eci_of enb sector ≡ some n
    → IsIdentity cell n
eci_cases cell n none sector e s h = cc
eci_cases cell n (some enb) none e s h = cc
eci_cases cell n (some enb) (some sector) e s h =
    elim (Bool-cases (leb enb 0x000fffff && leb sector 0x00ff)) [
      | inl inside ↦
          let a : enb < 1048576 = ground (arith, inside) in
          let b : sector < 256 = ground (arith, inside) in
          let value : bit_or (enb * 256 % 4294967296) sector ≡ n =
            some-injective (sym (rw inside refl) ∙ h) in
          record {
            enb = enb;
            sector = sector;
            enb_is = e;
            sector_is = s;
            enb_fits = a;
            sector_fits = b;
            identity_is = sym value ∙ shifted enb sector a b;
          }
      | inr outside ↦ absurd (ground (arith, outside, h))
    ]

-- The cell identity is given just if the base station and the sector are known and fit in 20 and 8
-- bits; it is then below 2^28 and has the base station above the sector, so that it determines both.
pub eci_iff :
    (cell : ServingCell) (n : ℕ)
    → (eci cell ≡ some n)
      ↔ ((n < 268435456) × (cell.enb_id ≡ some (n / 256)) × (cell.sector_id ≡ some (n % 256)))
unfolding eci
eci_iff cell n = (
  λ h.
      let i = eci_cases cell n cell.enb_id cell.sector_id refl refl h in
      let a = i.enb_fits in
      let b = i.sector_fits in
      let e = i.identity_is in
      let up : i.enb ≡ n / 256 = omega (arith, a, b, e) in
      let down : i.sector ≡ n % 256 = omega (arith, a, b, e) in
      (omega (arith, a, b, e), i.enb_is ∙ ap some up, i.sector_is ∙ ap some down),
  λ (small, enb_is, sector_is). IsIdentity-eci cell n (record {
    enb = n / 256;
    sector = n % 256;
    enb_is = enb_is;
    sector_is = sector_is;
    enb_fits = omega arith;
    sector_fits = omega arith;
    identity_is = omega arith;
  }),
)
