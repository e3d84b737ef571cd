-- ===== src/Identifiers/Reports.antt =====
-- src/model/reported.rs: what a field that the modem reports is read as.
use keenetic_rci.Prelude.{◌≡◌, ◌≢◌, Option, none, some, [], ◌∷◌, Result, ok, err, refl}
use keenetic_rci.Prelude.Str.{Str}
use keenetic_rci.Identifiers.{Reported, reported, reported_of, optional_reported, reported_str}

module _ {ℓ κ} {T : Type ℓ} {E : Type κ} (from_str : Str → Result T E) (show : T → Option Str) where
  -- A value that is taken reads back as the text.
  abbrev pub ReadsBack : Type (ℓ ⊔ κ)
  ReadsBack = (value : Str) (t : T) → from_str value ≡ ok t → show t ≡ some value

  kept_of :
      ReadsBack
      → (value : Str) (r : Result T E) → from_str value ≡ r
      → reported_str show (reported_of value r) ≡ some value
  unfolding reported_str
  kept_of back value (ok t) e = back value t e
  kept_of back value (err x) e = refl

  -- For a type whose values read back as the texts they were taken from, `as_str` of what is made
  -- of any text is this text, recognized or not.
  pub reported_str-reported :
      ReadsBack → (value : Str) → reported_str show (reported from_str value) ≡ some value
  unfolding reported
  reported_str-reported back value = kept_of back value (from_str value) refl

  -- What an optional field is read as: nothing for a missing or an empty value, and for another
  -- text a value that gives this text back.
  pub data IsRead : Option Str → Option (Reported T) → Type (ℓ ⊔ κ) where
    missing : IsRead none none
    blank : IsRead (some []) none
    there :
        (value : Str) (r : Reported T)
        → value ≢ []
        → reported_str show r ≡ some value
        → IsRead (some value) (some r)

  -- For a type whose values read back as the texts they were taken from, an optional field is no value when it is missing or empty, and otherwise a
  -- value whose `as_str` is the text.
  pub optional_reported-IsRead :
      ReadsBack → (field : Option Str) → IsRead field (optional_reported from_str field)
  unfolding optional_reported
  optional_reported-IsRead back none = missing
  optional_reported-IsRead back (some []) = blank
  optional_reported-IsRead back (some (c ∷ value)) =
      there (c ∷ value) _ (λ e. cc) (reported_str-reported back (c ∷ value))
