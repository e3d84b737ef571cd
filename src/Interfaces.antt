-- ===== src/Interfaces.antt =====
-- src/model.rs: the interfaces of the router, their classifiers, and the choice of the mobile ones.
use keenetic_rci.Prelude.{ℕ, Bool, true, false, Option, List, [], ◌∷◌, ◌&&◌, any, if◌then◌else◌}
use keenetic_rci.Prelude.Str.{Str, codes}
use keenetic_rci.OpenEnum.{from_wire}
pub mod Classifiers
pub mod Broadband

pub data LinkState : Type 0 where
  up down : LinkState
  other : Str → LinkState

pub data InterfaceState : Type 0 where
  up down : InterfaceState
  other : Str → InterfaceState

pub data InterfaceLayerState : Type 0 where
  running pending disabled : InterfaceLayerState
  other : Str → InterfaceLayerState

pub data InterfaceKind : Type 0 where
  bridge port gigabit_ethernet wifi usb_lte usb_qmi : InterfaceKind
  other : Str → InterfaceKind

pub data InterfaceTrait : Type 0 where
  mobile usb_lte usb_qmi ip ip6 : InterfaceTrait
  other : Str → InterfaceTrait

-- The tables of `open_string_enum!`, `From<Box<str>>` by them, and `as_str`.
abbrev pub link_states : List (Str × LinkState)
link_states = (codes "up", LinkState.up) ∷ (codes "down", LinkState.down) ∷ []

unfoldable pub link_state : Str → LinkState
link_state value = from_wire LinkState.other link_states value

abbrev pub link_state_str : LinkState → Str
link_state_str LinkState.up = codes "up"
link_state_str LinkState.down = codes "down"
link_state_str (LinkState.other value) = value

abbrev pub interface_states : List (Str × InterfaceState)
interface_states = (codes "up", InterfaceState.up) ∷ (codes "down", InterfaceState.down) ∷ []

unfoldable pub interface_state : Str → InterfaceState
interface_state value = from_wire InterfaceState.other interface_states value

abbrev pub interface_state_str : InterfaceState → Str
interface_state_str InterfaceState.up = codes "up"
interface_state_str InterfaceState.down = codes "down"
interface_state_str (InterfaceState.other value) = value

abbrev pub layer_states : List (Str × InterfaceLayerState)
layer_states =
    (codes "running", running) ∷ (codes "pending", pending) ∷ (codes "disabled", disabled) ∷ []

unfoldable pub layer_state : Str → InterfaceLayerState
layer_state value = from_wire InterfaceLayerState.other layer_states value

abbrev pub layer_state_str : InterfaceLayerState → Str
layer_state_str running = codes "running"
layer_state_str pending = codes "pending"
layer_state_str disabled = codes "disabled"
layer_state_str (InterfaceLayerState.other value) = value

abbrev pub interface_kinds : List (Str × InterfaceKind)
interface_kinds =
    (codes "Bridge", bridge)
    ∷ (codes "Port", port)
    ∷ (codes "GigabitEthernet", gigabit_ethernet)
    ∷ (codes "Wifi", wifi)
    ∷ (codes "UsbLte", InterfaceKind.usb_lte)
    ∷ (codes "UsbQmi", InterfaceKind.usb_qmi)
    ∷ []

unfoldable pub interface_kind : Str → InterfaceKind
interface_kind value = from_wire InterfaceKind.other interface_kinds value

abbrev pub interface_kind_str : InterfaceKind → Str
interface_kind_str bridge = codes "Bridge"
interface_kind_str port = codes "Port"
interface_kind_str gigabit_ethernet = codes "GigabitEthernet"
interface_kind_str wifi = codes "Wifi"
interface_kind_str InterfaceKind.usb_lte = codes "UsbLte"
interface_kind_str InterfaceKind.usb_qmi = codes "UsbQmi"
interface_kind_str (InterfaceKind.other value) = value

abbrev pub interface_traits : List (Str × InterfaceTrait)
interface_traits =
    (codes "Mobile", mobile)
    ∷ (codes "UsbLte", InterfaceTrait.usb_lte)
    ∷ (codes "UsbQmi", InterfaceTrait.usb_qmi)
    ∷ (codes "Ip", ip)
    ∷ (codes "Ip6", ip6)
    ∷ []

unfoldable pub interface_trait : Str → InterfaceTrait
interface_trait value = from_wire InterfaceTrait.other interface_traits value

abbrev pub interface_trait_str : InterfaceTrait → Str
interface_trait_str mobile = codes "Mobile"
interface_trait_str InterfaceTrait.usb_lte = codes "UsbLte"
interface_trait_str InterfaceTrait.usb_qmi = codes "UsbQmi"
interface_trait_str ip = codes "Ip"
interface_trait_str ip6 = codes "Ip6"
interface_trait_str (InterfaceTrait.other value) = value

pub record InterfaceLayerSummary : Type 0 where
  pub conf : InterfaceLayerState
  pub link : Option InterfaceLayerState
  pub ctrl : Option InterfaceLayerState
  pub ipv4 : Option InterfaceLayerState
  pub ipv6 : Option InterfaceLayerState

pub record InterfaceSummary : Type 0 where
  pub layer : InterfaceLayerSummary

-- `InterfaceId` is a validated text, and `Mtu` a number.
pub record Interface : Type 0 where
  pub id : Str
  pub index : ℕ
  pub interface_name : Str
  pub kind : InterfaceKind
  pub traits : List InterfaceTrait
  pub link : LinkState
  pub admin_only : Bool
  pub summary : InterfaceSummary
  pub description : Option Str
  pub state : Option InterfaceState
  pub mtu : Option ℕ

abbrev pub is_mobile_trait : InterfaceTrait → Bool
is_mobile_trait mobile = true
is_mobile_trait InterfaceTrait.usb_lte = true
is_mobile_trait InterfaceTrait.usb_qmi = true
is_mobile_trait ip = false
is_mobile_trait ip6 = false
is_mobile_trait (InterfaceTrait.other value) = false

-- `Interface::is_mobile_broadband`
unfoldable pub is_mobile_broadband : Interface → Bool
is_mobile_broadband interface = any is_mobile_trait interface.traits

-- `Interfaces`: the entries of the map in the order of their keys.
abbrev pub Interfaces : Type 0
Interfaces = List (Str × Interface)

-- `Interfaces::lte`
unfoldable pub lte : Interfaces → Interfaces
lte [] = []
lte ((name, interface) ∷ interfaces) =
    if is_mobile_broadband interface then (name, interface) ∷ lte interfaces else lte interfaces
