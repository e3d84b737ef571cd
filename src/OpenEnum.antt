-- ===== src/OpenEnum.antt =====
-- src/model.rs, `open_string_enum!`: enums whose variants stand for texts of the router, with a
-- variant `other` that keeps any text that is not known.
use keenetic_rci.Prelude.{
  ◌≡◌, List, [], ◌∷◌, ◌∙◌, inl, inr, if◌then◌else◌, All, str_eq, str_eq_sound, Bool-cases,
}
use keenetic_rci.Prelude.Str.{Str}

-- The `match` of `From<Box<str>>`, which `From<&str>`, `from_str` and the deserializer share: the
-- first literal that is the text, and else `Other`.
unfoldable pub from_wire {ℓ} : {T : Type ℓ} → (Str → T) → List (Str × T) → Str → T
from_wire other [] value = other value
from_wire other ((wire, variant) ∷ variants) value =
    if str_eq wire value then variant else from_wire other variants value

module _ {ℓ} {T : Type ℓ} (other : Str → T) (as_str : T → Str) where
  -- The table of the macro: each variant is shown as its own literal, and `Other` as its text.
  abbrev pub IsTable : List (Str × T) → Type 0
  IsTable variants = All (λ v. as_str v.1 ≡ v.0) variants

  pub as_str-from_wire :
      (variants : List (Str × T))
      → IsTable variants
      → ((s : Str) → as_str (other s) ≡ s)
      → (value : Str) → as_str (from_wire other variants value) ≡ value
  unfolding from_wire
  as_str-from_wire [] shown kept value = kept value
  as_str-from_wire ((wire, variant) ∷ variants) shown kept value =
      elim (Bool-cases (str_eq wire value)) [
        | inl same ↦ rw same (shown.0 ∙ str_eq_sound wire value same)
        | inr differs ↦ rw differs (as_str-from_wire variants shown.1 kept value)
      ]
