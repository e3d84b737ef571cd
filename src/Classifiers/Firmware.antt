-- ===== src/Classifiers/Firmware.antt =====
-- src/model/version.rs: the classifiers of firmware and hardware, by `open_string_enum!`.
use keenetic_rci.Prelude.{◌≡◌, List, [], ◌∷◌, refl}
use keenetic_rci.Prelude.Str.{Str, codes}
use keenetic_rci.OpenEnum.{from_wire, as_str-from_wire}

pub data Architecture : Type 0 where
  mips aarch64 : Architecture
  other : Str → Architecture

abbrev pub architecture_table : List (Str × Architecture)
architecture_table =
    (codes "mips", Architecture.mips) ∷ (codes "aarch64", Architecture.aarch64) ∷ []

unfoldable pub architecture : Str → Architecture
architecture value = from_wire Architecture.other architecture_table value

abbrev pub architecture_str : Architecture → Str
architecture_str Architecture.mips = codes "mips"
architecture_str Architecture.aarch64 = codes "aarch64"
architecture_str (Architecture.other value) = value

pub data FirmwareChannel : Type 0 where
  stable : FirmwareChannel
  other : Str → FirmwareChannel

abbrev pub firmware_channel_table : List (Str × FirmwareChannel)
firmware_channel_table = (codes "stable", FirmwareChannel.stable) ∷ []

unfoldable pub firmware_channel : Str → FirmwareChannel
firmware_channel value = from_wire FirmwareChannel.other firmware_channel_table value

abbrev pub firmware_channel_str : FirmwareChannel → Str
firmware_channel_str FirmwareChannel.stable = codes "stable"
firmware_channel_str (FirmwareChannel.other value) = value

pub data HardwareType : Type 0 where
  router extender : HardwareType
  other : Str → HardwareType

abbrev pub hardware_type_table : List (Str × HardwareType)
hardware_type_table =
    (codes "router", HardwareType.router) ∷ (codes "extender", HardwareType.extender) ∷ []

unfoldable pub hardware_type : Str → HardwareType
hardware_type value = from_wire HardwareType.other hardware_type_table value

abbrev pub hardware_type_str : HardwareType → Str
hardware_type_str HardwareType.router = codes "router"
hardware_type_str HardwareType.extender = codes "extender"
hardware_type_str (HardwareType.other value) = value

-- What the router reports reads back as the same text.
pub firmware_texts :
    (value : Str)
    → (architecture_str (architecture value) ≡ value)
      × (firmware_channel_str (firmware_channel value) ≡ value)
      × (hardware_type_str (hardware_type value) ≡ value)
unfolding architecture firmware_channel hardware_type
firmware_texts value = (
  as_str-from_wire Architecture.other architecture_str architecture_table (refl, (refl, tt))
      (λ s. refl) value,
  as_str-from_wire FirmwareChannel.other firmware_channel_str firmware_channel_table (refl, tt)
      (λ s. refl) value,
  as_str-from_wire HardwareType.other hardware_type_str hardware_type_table (refl, (refl, tt))
      (λ s. refl) value,
)
