-- ===== src/Examples/Neighbours.antt =====
-- Interfaces and clients of a small network.
use keenetic_rci.Prelude.{ℕ, ◌≡◌, ◌↔◌, false, none, some, List, [], ◌∷◌, ok, err, refl, map, str_eq}
use keenetic_rci.Prelude.Str.{Str, codes}
use keenetic_rci.Json.{custom}
use keenetic_rci.Interfaces.{
  Interface, Interfaces, InterfaceLayerSummary, interface_kind, interface_trait, link_state,
  running,
}
use keenetic_rci.Classifiers.Wifi.{wifi_mode, wifi_mode_str, wifi_security, wifi_security_str}
use keenetic_rci.Classifiers.Texts.{every_classifier_reads_back}
use keenetic_rci.Interfaces.Broadband.{Mentions}
use keenetic_rci.Network.Mac.{MacAddress}
use keenetic_rci.Clients.{ArpEntry, DhcpBinding, client_index, client_get}
use keenetic_rci.Clients.Joining.{client_get-client_index}
use keenetic_rci.Classifiers.Addresses.{arp_state}
use keenetic_rci.Network.Readings.{infinite}
use keenetic_rci.Mobile.{radio_band}
use keenetic_rci.Mobile.Interface.{
  MobileInterfaceWire, MobileInterface, HasFields, mobile_interface, mobile_interface_iff,
}

abbrev layers : InterfaceLayerSummary
layers = record { conf = running; link = none; ctrl = none; ipv4 = none; ipv6 = none }

abbrev interface_with : Str → List Str → Interface
interface_with name traits = record {
  id = name;
  index = 0;
  interface_name = name;
  kind = interface_kind (codes "Bridge");
  traits = map interface_trait traits;
  link = link_state (codes "up");
  admin_only = false;
  summary = record { layer = layers };
  description = none;
  state = none;
  mtu = none;
}

abbrev bridge_traits : List Str
bridge_traits = codes "Ethernet" ∷ codes "Ip" ∷ []

abbrev modem_traits : List Str
modem_traits = codes "Ip" ∷ codes "UsbLte" ∷ []

abbrev two_interfaces : Interfaces
two_interfaces =
    (codes "Bridge0", interface_with (codes "Bridge0") bridge_traits)
    ∷ (codes "UsbLte0", interface_with (codes "UsbLte0") modem_traits)
    ∷ []

abbrev future : Str
future = codes "future-state"

every_classifier_reads_back_example :
    (wifi_mode_str (wifi_mode future) ≡ future)
    × (wifi_security_str (wifi_security future) ≡ future)
every_classifier_reads_back_example = (every_classifier_reads_back future).0

abbrev mac : MacAddress
mac = 2 ∷ 0 ∷ 0 ∷ 0 ∷ 0 ∷ 1 ∷ []

abbrev other_mac : MacAddress
other_mac = 2 ∷ 0 ∷ 0 ∷ 0 ∷ 0 ∷ 0 ∷ []

abbrev arp_entry : MacAddress → ℕ → ArpEntry
arp_entry owner ip = record {
  ip = ip;
  mac = owner;
  interface = codes "Bridge0";
  name = none;
  state = arp_state (codes "STALE");
}

abbrev lease : DhcpBinding
lease = record {
  ip = 7;
  mac = mac;
  via = mac;
  hostname = none;
  name = some (codes "printer");
  device = none;
  mode = none;
  expires = infinite;
}

abbrev entries : List ArpEntry
entries = arp_entry mac 5 ∷ arp_entry other_mac 6 ∷ arp_entry mac 7 ∷ []

client_get-client_index_example :
    client_get (client_index [] [] entries (lease ∷ [])) mac
    ≡ some (record {
      mac = mac;
      association = none;
      hotspot = none;
      arp = arp_entry mac 5 ∷ arp_entry mac 7 ∷ [];
      dhcp = lease ∷ [];
    })
unfolding str_eq
client_get-client_index_example = client_get-client_index [] [] entries (lease ∷ []) mac

abbrev modem_wire : MobileInterfaceWire
modem_wire = record {
  id = codes "UsbLte0";
  index = 0;
  interface_name = codes "UsbLte0";
  kind = interface_kind (codes "UsbLte");
  traits = map interface_trait modem_traits;
  link = link_state (codes "up");
  admin_only = false;
  summary = record { layer = layers };
  description = none;
  state = none;
  mtu = none;
  plugged = none;
  connection_state = none;
  operator = none;
  apn = none;
  sim_state = none;
  pin_attempts = none;
  embedded = none;
  roaming = none;
  imei = none;
  imsi = none;
  iccid = none;
  phone_number = none;
  signal_level = none;
  rssi = none;
  rsrp = none;
  rsrq = none;
  cinr = none;
  modem_temperature = none;
  plmn = none;
  enb_id = some 100001;
  sector_id = some 1;
  tac = none;
  active = none;
  network = none;
  band = some (radio_band (codes "7"));
  earfcn = none;
  downlink_frequency = none;
  uplink_frequency = none;
  bandwidth = none;
  physical_cell_id = none;
  reported_carriers = [];
  modem = none;
  sim = none;
}

mobile_interface_iff_example :
    (((mobile : MobileInterface) × (mobile_interface modem_wire ≡ ok mobile)
        × HasFields modem_wire mobile)
      ↔ Mentions modem_traits)
    × ((mobile_interface modem_wire ≡ err custom) ↔ (¬ Mentions modem_traits))
mobile_interface_iff_example = mobile_interface_iff modem_wire modem_traits refl
