-- ===== src/Storage.antt =====
-- src/model/storage.rs: USB devices and storage media, and how their answers are read. A map keeps
-- its entries in the order of their keys; a byte count is its number.
use keenetic_rci.Prelude.{ℕ, Bool, true, Option, none, some, List, [], ◌∷◌, Result, ok, err, ◌>>=◌}
use keenetic_rci.Prelude.Str.{Str}
use keenetic_rci.Json.{Value, null, string, DeserializeError, invalid_type, invalid_value, custom}
use keenetic_rci.Network.{identifier, InvalidText}
use keenetic_rci.Network.Decimal.{read_u64}
use keenetic_rci.Classifiers.Storage.{
  UsbSubsystem, UsbVersion, UsbPowerControl, MediaBus, MediaState, FileSystemType,
}

-- `UsbDeviceId`, `MediaId`, `PartitionId` and `VolumeId`, by `string_identifier!`.
abbrev pub usb_device_id_from : Str → Result Str InvalidText
usb_device_id_from value = identifier value

abbrev pub media_id_from : Str → Result Str InvalidText
media_id_from value = identifier value

abbrev pub partition_id_from : Str → Result Str InvalidText
partition_id_from value = identifier value

abbrev pub volume_id_from : Str → Result Str InvalidText
volume_id_from value = identifier value

pub record UsbDevice : Type 0 where
  pub device_path : Option Str
  pub dev_path : Option Str
  pub alias : Option Str
  pub label : Option Str
  pub no_led : Bool
  pub port : Option ℕ
  pub power_control : Option UsbPowerControl
  pub subsystem : UsbSubsystem
  pub usb_version : Option UsbVersion

pub record UsbDevices : Type 0 where
  pub devices : List (Str × UsbDevice)

pub record MediaPartition : Type 0 where
  pub id : Option Str
  pub uuid : Option Str
  pub label : Option Str
  pub file_system : FileSystemType
  pub check_supported : Option Bool
  pub format_supported : List FileSystemType
  pub state : MediaState
  pub total : ℕ
  pub free : ℕ
  pub used_by : List Str

pub record MediaDevice : Type 0 where
  pub bus : Option MediaBus
  pub port : Option ℕ
  pub ejectable : Option Bool
  pub removable : Option Bool
  pub state : MediaState
  pub manufacturer : Option Str
  pub product : Option Str
  pub serial : Option Str
  pub initialize_supported : List FileSystemType
  pub size : ℕ
  pub partitions : List (Str × MediaPartition)

pub record MediaInventory : Type 0 where
  pub media : List (Str × MediaDevice)

-- `deserialize_byte_count`
unfoldable pub deserialize_byte_count : Value → Result ℕ DeserializeError
deserialize_byte_count value = read_u64 value

-- `filter` of `optional_nonempty_string`, src/model.rs.
abbrev pub not_blank : Str → Option Str
not_blank [] = none
not_blank (c ∷ value) = some (c ∷ value)

-- `optional_nonempty_string`, src/model.rs.
unfoldable pub optional_nonempty_string : Value → Result (Option Str) DeserializeError
optional_nonempty_string null = ok none
optional_nonempty_string (string value) = ok (not_blank value)
optional_nonempty_string _ = err invalid_type

-- `map(VolumeId::try_from).transpose()`, with the error of the visitor.
abbrev pub checked_id : Result Str InvalidText → Result (Option Str) DeserializeError
checked_id (ok value) = ok (some value)
checked_id (err e) = err custom

abbrev pub volume_of : Option Str → Result (Option Str) DeserializeError
volume_of none = ok none
volume_of (some value) = checked_id (volume_id_from value)

-- `deserialize_optional_volume_id`
unfoldable pub deserialize_optional_volume_id : Value → Result (Option Str) DeserializeError
unfolding optional_nonempty_string
deserialize_optional_volume_id value = do text ← optional_nonempty_string value; volume_of text

-- `deserialize_presence_marker`
unfoldable pub deserialize_presence_marker : Value → Result Bool DeserializeError
deserialize_presence_marker (string []) = ok true
deserialize_presence_marker (string (c ∷ value)) = err invalid_value
deserialize_presence_marker _ = err invalid_type
