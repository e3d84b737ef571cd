-- ===== src/Classifiers/Modes.antt =====
-- src/model/system_mode.rs: the classifiers of operating modes, by `open_string_enum!`.
use keenetic_rci.Prelude.{◌≡◌, List, [], ◌∷◌, refl}
use keenetic_rci.Prelude.Str.{Str, codes}
use keenetic_rci.OpenEnum.{from_wire, as_str-from_wire}

pub data SystemOperatingMode : Type 0 where
  router extender access_point adapter : SystemOperatingMode
  other : Str → SystemOperatingMode

abbrev pub system_operating_mode_table : List (Str × SystemOperatingMode)
system_operating_mode_table =
    (codes "router", SystemOperatingMode.router)
    ∷ (codes "extender", SystemOperatingMode.extender)
    ∷ (codes "access-point", SystemOperatingMode.access_point)
    ∷ (codes "adapter", SystemOperatingMode.adapter)
    ∷ []

unfoldable pub system_operating_mode : Str → SystemOperatingMode
system_operating_mode value = from_wire SystemOperatingMode.other system_operating_mode_table value

abbrev pub system_operating_mode_str : SystemOperatingMode → Str
system_operating_mode_str SystemOperatingMode.router = codes "router"
system_operating_mode_str SystemOperatingMode.extender = codes "extender"
system_operating_mode_str SystemOperatingMode.access_point = codes "access-point"
system_operating_mode_str SystemOperatingMode.adapter = codes "adapter"
system_operating_mode_str (SystemOperatingMode.other value) = value

-- What the router reports reads back as the same text.
pub modes_texts : (value : Str) → (system_operating_mode_str (system_operating_mode value) ≡ value)
unfolding system_operating_mode
modes_texts value =
    as_str-from_wire SystemOperatingMode.other system_operating_mode_str system_operating_mode_table
      (refl, (refl, (refl, (refl, tt)))) (λ s. refl) value
