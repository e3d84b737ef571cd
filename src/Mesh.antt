-- ===== src/Mesh.antt =====
-- src/model/mesh.rs: the extenders of a mesh system, and how their answers are read. An IPv4 address
-- is a number; the deserializer that is derived for a member is an argument.
use keenetic_rci.Prelude.{
  ℕ, Bool, Option, none, some, List, [], ◌∷◌, Result, ok, err, ◌>>=◌, map_ok, ltb, if◌then◌else◌,
}
use keenetic_rci.Prelude.Str.{Str}
use keenetic_rci.Prelude.Optional.{ok_or}
use keenetic_rci.Prelude.Pieces.{split_once, parse_unsigned}
use keenetic_rci.Prelude.Words.{u8_max, u64_max, fitting}
use keenetic_rci.Json.{
  Value, number, string, unsigned, array, object, Items, no_items, item, no_fields, field,
  DeserializeError, invalid_type, invalid_value, custom,
}
use keenetic_rci.Text.{InlineAscii}
use keenetic_rci.Hardware.{HardwareId}
use keenetic_rci.Identifiers.{Reported}
use keenetic_rci.Network.Mac.{MacAddress}
use keenetic_rci.Network.Readings.{Uptime}
use keenetic_rci.Interfaces.{LinkState}
use keenetic_rci.Clients.{WifiPeerLink}
use keenetic_rci.Classifiers.Firmware.{FirmwareChannel, HardwareType}
use keenetic_rci.Classifiers.Modes.{SystemOperatingMode}
pub mod Memory

pub record MwsControllerStatus : Type 0 where
  pub update_pending : Bool

pub record MwsStatus : Type 0 where
  pub auto_update : Bool
  pub controller : MwsControllerStatus

pub record MwsPort : Type 0 where
  pub label : Str
  pub appearance : Option Str
  pub link : LinkState

pub record MwsBand : Type 0 where
  pub index : ℕ

pub record MwsWireless : Type 0 where
  pub bands : List MwsBand

pub record MwsMemoryUsage : Type 0 where
  pub free_kib : ℕ
  pub total_kib : ℕ

pub data InvalidMwsMemoryUsage : Type 0 where
  invalid_usage : InvalidMwsMemoryUsage

-- The last test of `MwsMemoryUsage::from_str`.
unfoldable pub usage_of : ℕ → ℕ → Result MwsMemoryUsage InvalidMwsMemoryUsage
usage_of free_kib total_kib =
    if ltb total_kib free_kib
    then err invalid_usage
    else ok (record { free_kib = free_kib; total_kib = total_kib })

-- `MwsMemoryUsage::from_str`
unfoldable pub parse_memory_usage : Str → Result MwsMemoryUsage InvalidMwsMemoryUsage
unfolding usage_of
parse_memory_usage value = do
  (free, total) ← ok_or (split_once (b'/' ∷ []) value) invalid_usage
  free_kib ← ok_or (parse_unsigned u64_max free) invalid_usage
  total_kib ← ok_or (parse_unsigned u64_max total) invalid_usage
  usage_of free_kib total_kib

abbrev usage_or_custom :
    Result MwsMemoryUsage InvalidMwsMemoryUsage → Result MwsMemoryUsage DeserializeError
usage_or_custom (ok usage) = ok usage
usage_or_custom (err e) = err custom

-- The visitor of `MwsMemoryUsage`.
unfoldable pub deserialize_memory_usage : Value → Result MwsMemoryUsage DeserializeError
unfolding parse_memory_usage
deserialize_memory_usage (string value) = usage_or_custom (parse_memory_usage value)
deserialize_memory_usage _ = err invalid_type

pub record MwsMemberSystem : Type 0 where
  pub cpu_load_percent : ℕ
  pub memory : MwsMemoryUsage
  pub uptime : Uptime

pub record MwsBackhaul : Type 0 where
  pub uplink : Str
  pub root : Str
  pub bridge : Str
  pub cost : ℕ
  pub link : WifiPeerLink
  pub psm : Bool
  pub mld : Bool
  pub ebf : Bool
  pub downlink_multi_user : Bool
  pub uplink_multi_user : Bool
  pub downlink_ofdma : Bool
  pub pmf : Bool

pub record MwsRciStatus : Type 0 where
  pub errors : ℕ

pub record MwsMember : Type 0 where
  pub cid : Str
  pub model : Str
  pub mac : MacAddress
  pub known_host : Option Str
  pub ports : List MwsPort
  pub wireless : Option MwsWireless
  pub ip : ℕ
  pub mode : SystemOperatingMode
  pub hw_type : Option HardwareType
  pub hw_id : Option (Reported HardwareId)
  pub firmware : Option Str
  pub firmware_available : Option Str
  pub firmware_release : Option Str
  pub firmware_release_available : Option Str
  pub firmware_channel : Option FirmwareChannel
  pub region : Option (Reported InlineAscii)
  pub associations : Option ℕ
  pub internet_available : Option Bool
  pub system : Option MwsMemberSystem
  pub backhaul : Option MwsBackhaul
  pub rci : Option MwsRciStatus

-- `deserialize_u8_string`
unfoldable pub deserialize_u8_string : Value → Result ℕ DeserializeError
deserialize_u8_string (number (unsigned value)) = ok_or (fitting u8_max value) custom
deserialize_u8_string (string value) = ok_or (parse_unsigned u8_max value) custom
deserialize_u8_string _ = err invalid_type

module _ (read_member : Value → Result MwsMember DeserializeError) where
  -- The loop of `visit_seq`.
  unfoldable pub members_from : Items → Result (List MwsMember) DeserializeError
  members_from no_items = ok []
  members_from (item value values) = do
    member ← read_member value
    members ← members_from values
    ok (member ∷ members)

  -- The visitor of `MwsMembers`: an array, or an object that is empty.
  unfoldable pub deserialize_members : Value → Result (List MwsMember) DeserializeError
  unfolding members_from
  deserialize_members (array values) = members_from values
  deserialize_members (object no_fields) = ok []
  deserialize_members (object (field key value fields')) = err custom
  deserialize_members _ = err invalid_type
