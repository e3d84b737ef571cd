-- ===== src/Classifiers/Storage.antt =====
-- src/model/storage.rs: the classifiers of USB devices and media, by `open_string_enum!`.
use keenetic_rci.Prelude.{◌≡◌, List, [], ◌∷◌, refl}
use keenetic_rci.Prelude.Str.{Str, codes}
use keenetic_rci.OpenEnum.{from_wire, as_str-from_wire}

pub data UsbSubsystem : Type 0 where
  network storage printer : UsbSubsystem
  other : Str → UsbSubsystem

abbrev pub usb_subsystem_table : List (Str × UsbSubsystem)
usb_subsystem_table =
    (codes "network", UsbSubsystem.network)
    ∷ (codes "storage", UsbSubsystem.storage)
    ∷ (codes "printer", UsbSubsystem.printer)
    ∷ []

unfoldable pub usb_subsystem : Str → UsbSubsystem
usb_subsystem value = from_wire UsbSubsystem.other usb_subsystem_table value

abbrev pub usb_subsystem_str : UsbSubsystem → Str
usb_subsystem_str UsbSubsystem.network = codes "network"
usb_subsystem_str UsbSubsystem.storage = codes "storage"
usb_subsystem_str UsbSubsystem.printer = codes "printer"
usb_subsystem_str (UsbSubsystem.other value) = value

pub data UsbVersion : Type 0 where
  v1_0 v1_1 v2_0 v2_01 v3_0 v3_1 v3_2 : UsbVersion
  other : Str → UsbVersion

abbrev pub usb_version_table : List (Str × UsbVersion)
usb_version_table =
    (codes "1.00", UsbVersion.v1_0)
    ∷ (codes "1.10", UsbVersion.v1_1)
    ∷ (codes "2.00", UsbVersion.v2_0)
    ∷ (codes "2.01", UsbVersion.v2_01)
    ∷ (codes "3.00", UsbVersion.v3_0)
    ∷ (codes "3.10", UsbVersion.v3_1)
    ∷ (codes "3.20", UsbVersion.v3_2)
    ∷ []

unfoldable pub usb_version : Str → UsbVersion
usb_version value = from_wire UsbVersion.other usb_version_table value

abbrev pub usb_version_str : UsbVersion → Str
usb_version_str UsbVersion.v1_0 = codes "1.00"
usb_version_str UsbVersion.v1_1 = codes "1.10"
usb_version_str UsbVersion.v2_0 = codes "2.00"
usb_version_str UsbVersion.v2_01 = codes "2.01"
usb_version_str UsbVersion.v3_0 = codes "3.00"
usb_version_str UsbVersion.v3_1 = codes "3.10"
usb_version_str UsbVersion.v3_2 = codes "3.20"
usb_version_str (UsbVersion.other value) = value

pub data UsbPowerControl : Type 0 where
  enabled disabled : UsbPowerControl
  other : Str → UsbPowerControl

abbrev pub usb_power_control_table : List (Str × UsbPowerControl)
usb_power_control_table =
    (codes "yes", UsbPowerControl.enabled) ∷ (codes "no", UsbPowerControl.disabled) ∷ []

unfoldable pub usb_power_control : Str → UsbPowerControl
usb_power_control value = from_wire UsbPowerControl.other usb_power_control_table value

abbrev pub usb_power_control_str : UsbPowerControl → Str
usb_power_control_str UsbPowerControl.enabled = codes "yes"
usb_power_control_str UsbPowerControl.disabled = codes "no"
usb_power_control_str (UsbPowerControl.other value) = value

pub data MediaBus : Type 0 where
  usb mtd : MediaBus
  other : Str → MediaBus

abbrev pub media_bus_table : List (Str × MediaBus)
media_bus_table = (codes "usb", MediaBus.usb) ∷ (codes "mtd", MediaBus.mtd) ∷ []

unfoldable pub media_bus : Str → MediaBus
media_bus value = from_wire MediaBus.other media_bus_table value

abbrev pub media_bus_str : MediaBus → Str
media_bus_str MediaBus.usb = codes "usb"
media_bus_str MediaBus.mtd = codes "mtd"
media_bus_str (MediaBus.other value) = value

pub data MediaState : Type 0 where
  active mounted unmounted error : MediaState
  other : Str → MediaState

abbrev pub media_state_table : List (Str × MediaState)
media_state_table =
    (codes "ACTIVE", MediaState.active)
    ∷ (codes "MOUNTED", MediaState.mounted)
    ∷ (codes "UNMOUNTED", MediaState.unmounted)
    ∷ (codes "ERROR", MediaState.error)
    ∷ []

unfoldable pub media_state : Str → MediaState
media_state value = from_wire MediaState.other media_state_table value

abbrev pub media_state_str : MediaState → Str
media_state_str MediaState.active = codes "ACTIVE"
media_state_str MediaState.mounted = codes "MOUNTED"
media_state_str MediaState.unmounted = codes "UNMOUNTED"
media_state_str MediaState.error = codes "ERROR"
media_state_str (MediaState.other value) = value

pub data FileSystemType : Type 0 where
  ext4 ntfs fat32 ex_fat ubifs swap : FileSystemType
  other : Str → FileSystemType

abbrev pub file_system_type_table : List (Str × FileSystemType)
file_system_type_table =
    (codes "ext4", FileSystemType.ext4)
    ∷ (codes "ntfs", FileSystemType.ntfs)
    ∷ (codes "fat32", FileSystemType.fat32)
    ∷ (codes "exfat", FileSystemType.ex_fat)
    ∷ (codes "ubifs", FileSystemType.ubifs)
    ∷ (codes "swap", FileSystemType.swap)
    ∷ []

unfoldable pub file_system_type : Str → FileSystemType
file_system_type value = from_wire FileSystemType.other file_system_type_table value

abbrev pub file_system_type_str : FileSystemType → Str
file_system_type_str FileSystemType.ext4 = codes "ext4"
file_system_type_str FileSystemType.ntfs = codes "ntfs"
file_system_type_str FileSystemType.fat32 = codes "fat32"
file_system_type_str FileSystemType.ex_fat = codes "exfat"
file_system_type_str FileSystemType.ubifs = codes "ubifs"
file_system_type_str FileSystemType.swap = codes "swap"
file_system_type_str (FileSystemType.other value) = value

-- What the router reports reads back as the same text.
pub storage_texts :
    (value : Str)
    → (usb_subsystem_str (usb_subsystem value) ≡ value)
      × (usb_version_str (usb_version value) ≡ value)
      × (usb_power_control_str (usb_power_control value) ≡ value)
      × (media_bus_str (media_bus value) ≡ value)
      × (media_state_str (media_state value) ≡ value)
      × (file_system_type_str (file_system_type value) ≡ value)
unfolding usb_subsystem usb_version usb_power_control media_bus media_state file_system_type
storage_texts value = (
  as_str-from_wire UsbSubsystem.other usb_subsystem_str usb_subsystem_table
      (refl, (refl, (refl, tt))) (λ s. refl) value,
  as_str-from_wire UsbVersion.other usb_version_str usb_version_table
      (refl, (refl, (refl, (refl, (refl, (refl, (refl, tt))))))) (λ s. refl) value,
  as_str-from_wire UsbPowerControl.other usb_power_control_str usb_power_control_table
      (refl, (refl, tt)) (λ s. refl) value,
  as_str-from_wire MediaBus.other media_bus_str media_bus_table (refl, (refl, tt)) (λ s. refl)
      value,
  as_str-from_wire MediaState.other media_state_str media_state_table
      (refl, (refl, (refl, (refl, tt)))) (λ s. refl) value,
  as_str-from_wire FileSystemType.other file_system_type_str file_system_type_table
      (refl, (refl, (refl, (refl, (refl, (refl, tt)))))) (λ s. refl) value,
)
