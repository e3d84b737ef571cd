-- ===== src/Classifiers/Radio.antt =====
-- src/model/mobile.rs: the classifiers of radio access, by `open_string_enum!`.
use keenetic_rci.Prelude.{◌≡◌, List, [], ◌∷◌, refl}
use keenetic_rci.Prelude.Str.{Str, codes}
use keenetic_rci.OpenEnum.{from_wire, as_str-from_wire}

pub data RadioAccessTechnology : Type 0 where
  g2 g3 g4 g4_plus g5 : RadioAccessTechnology
  other : Str → RadioAccessTechnology

abbrev pub radio_access_technology_table : List (Str × RadioAccessTechnology)
radio_access_technology_table =
    (codes "2G", RadioAccessTechnology.g2)
    ∷ (codes "3G", RadioAccessTechnology.g3)
    ∷ (codes "4G", RadioAccessTechnology.g4)
    ∷ (codes "4G+", RadioAccessTechnology.g4_plus)
    ∷ (codes "5G", RadioAccessTechnology.g5)
    ∷ []

unfoldable pub radio_access_technology : Str → RadioAccessTechnology
radio_access_technology value =
    from_wire RadioAccessTechnology.other radio_access_technology_table value

abbrev pub radio_access_technology_str : RadioAccessTechnology → Str
radio_access_technology_str RadioAccessTechnology.g2 = codes "2G"
radio_access_technology_str RadioAccessTechnology.g3 = codes "3G"
radio_access_technology_str RadioAccessTechnology.g4 = codes "4G"
radio_access_technology_str RadioAccessTechnology.g4_plus = codes "4G+"
radio_access_technology_str RadioAccessTechnology.g5 = codes "5G"
radio_access_technology_str (RadioAccessTechnology.other value) = value

-- What the router reports reads back as the same text.
pub radio_texts :
    (value : Str) → (radio_access_technology_str (radio_access_technology value) ≡ value)
unfolding radio_access_technology
radio_texts value =
    as_str-from_wire RadioAccessTechnology.other radio_access_technology_str
      radio_access_technology_table (refl, (refl, (refl, (refl, (refl, tt))))) (λ s. refl) value
