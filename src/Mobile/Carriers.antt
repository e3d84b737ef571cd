-- ===== src/Mobile/Carriers.antt =====
-- src/model/mobile.rs, `ComponentCarrier::has_radio_identity_conflict`.
use keenetic_rci.Prelude.{
  ℕ, ◌≡◌, ◌≢◌, ◌↔◌, ◌⊎◌, inl, inr, Bool, true, ◌||◌, Option, none, some, ◌==◌, ==_iff, str_eq,
  str_eq_sound, str_eq_refl, arith, refl, sym, ap, ◌∙◌, Bool-cases,
}
use keenetic_rci.Prelude.Optional.{some-injective}
use keenetic_rci.Mobile.{
  RadioBand, number, nr, same_band, conflicting, ComponentCarrier, has_radio_identity_conflict,
}

-- Two values that are both known and differ.
pub record Differ {ℓ} {T : Type ℓ} (left right : Option T) : Type ℓ where
  pub one : T
  pub other : T
  pub left_is : left ≡ some one
  pub right_is : right ≡ some other
  pub apart : one ≢ other

-- A test that decides equality.
abbrev Decides {ℓ} : {T : Type ℓ} → (T → T → Bool) → Type ℓ
Decides {T = T} same = (a b : T) → (same a b ≡ true) ↔ (a ≡ b)

number_of : RadioBand → ℕ
number_of (number a) = a
number_of (nr a) = a
number_of (RadioBand.other a) = 0

same_band-Decides : Decides same_band
unfolding number_of
same_band-Decides (number a) (number b) =
    let (to, back) = ==_iff a b in (λ h. ap number (to h), λ e. back (ap number_of e))
same_band-Decides (nr a) (nr b) =
    let (to, back) = ==_iff a b in (λ h. ap nr (to h), λ e. back (ap number_of e))
same_band-Decides (RadioBand.other a) (RadioBand.other b) = (
  λ h. ap RadioBand.other (str_eq_sound a b h),
  λ e. let same : a ≡ b = cc in ap (λ t. str_eq a t) (sym same) ∙ str_eq_refl a,
)
same_band-Decides (number a) (nr b) = (λ h. absurd (ground arith), λ e. absurd (cc))
same_band-Decides (number a) (RadioBand.other b) = (λ h. absurd (ground arith), λ e. absurd (cc))
same_band-Decides (nr a) (number b) = (λ h. absurd (ground arith), λ e. absurd (cc))
same_band-Decides (nr a) (RadioBand.other b) = (λ h. absurd (ground arith), λ e. absurd (cc))
same_band-Decides (RadioBand.other a) (number b) = (λ h. absurd (ground arith), λ e. absurd (cc))
same_band-Decides (RadioBand.other a) (nr b) = (λ h. absurd (ground arith), λ e. absurd (cc))

conflicting_iff {ℓ} :
    {T : Type ℓ} (same : T → T → Bool)
    → Decides same
    → (left right : Option T) → (conflicting same left right ≡ true) ↔ Differ left right
unfolding conflicting
conflicting_iff same decides none right =
    (λ h. absurd (ground arith), λ d. let e = d.left_is in absurd (cc))
conflicting_iff same decides (some a) none =
    (λ h. absurd (ground arith), λ d. let e = d.right_is in absurd (cc))
conflicting_iff same decides (some a) (some b) = (
  λ h. record {
    one = a;
    other = b;
    left_is = refl;
    right_is = refl;
    apart = λ e. let k = (decides a b).1 e in absurd (ground (arith, k, h));
  },
  λ d. elim (Bool-cases (same a b)) [
    | inl equal ↦
        let e = (decides a b).0 equal in
        let l : a ≡ d.one = some-injective d.left_is in
        let r : b ≡ d.other = some-injective d.right_is in absurd (d.apart (sym l ∙ e ∙ r))
    | inr apart ↦ rw apart refl
  ],
)

module _ {ℓ κ μ} {A : Type ℓ} {B : Type κ} {C : Type μ} (a b c : Bool) where
  either_of : (a ≡ true → A) → (b ≡ true → B) → (c ≡ true → C) → (a || b || c) ≡ true → A ⊎ B ⊎ C
  either_of f g k h = elim (Bool-cases a) [
    | inl first ↦ inl (f first)
    | inr past ↦ elim (Bool-cases b) [
      | inl second ↦ inr (inl (g second))
      | inr beyond ↦ inr (inr (k (ground (arith, past, beyond, h))))
    ]
  ]

  of_either : (A → a ≡ true) → (B → b ≡ true) → (C → c ≡ true) → A ⊎ B ⊎ C → (a || b || c) ≡ true
  of_either f g k (inl x) = rw (f x) refl
  of_either f g k (inr (inl y)) = ground (arith, g y)
  of_either f g k (inr (inr z)) = ground (arith, k z)

-- Two carriers are in conflict just if the band, the EARFCN or the physical cell is known of both and
-- differs; what is not known of one of them is no conflict.
pub has_radio_identity_conflict_iff :
    (left right : ComponentCarrier)
    → (has_radio_identity_conflict left right ≡ true) ↔ (
        Differ left.band right.band
        ⊎ Differ left.earfcn right.earfcn
        ⊎ Differ left.physical_cell_id right.physical_cell_id)
unfolding has_radio_identity_conflict
has_radio_identity_conflict_iff left right =
    let (band, band') = conflicting_iff same_band same_band-Decides left.band right.band in
    let (earfcn, earfcn') = conflicting_iff (λ a b. a == b) ==_iff left.earfcn right.earfcn in
    let (cell, cell') =
      conflicting_iff (λ a b. a == b) ==_iff left.physical_cell_id right.physical_cell_id in
    (λ h. either_of _ _ _ band earfcn cell h, λ d. of_either _ _ _ band' earfcn' cell' d)
