-- ===== src/Clients.antt =====
-- src/model/clients.rs, wifi.rs, hotspot.rs and ip.rs: the records that the router reports of its
-- clients, and the index that joins them by MAC address. A text is a `Str`, an address and a float a
-- number.
use keenetic_rci.Prelude.{
  ℕ, zero, suc, Bool, true, false, ◌||◌, Option, none, some, List, [], ◌∷◌, ◌++◌, ltb, ◌==◌,
  if◌then◌else◌, str_eq, map,
}
use keenetic_rci.Prelude.Str.{Str}
use keenetic_rci.Network.Mac.{MacAddress}
use keenetic_rci.Network.Readings.{Duration, LeaseExpiration, Uptime}
use keenetic_rci.Network.Rates.{DataRate}
use keenetic_rci.Interfaces.{LinkState}
use keenetic_rci.Classifiers.Wifi.{WifiMode, WifiSecurity}
use keenetic_rci.Classifiers.Addresses.{ArpState, DhcpBindingMode}
use keenetic_rci.Classifiers.Hotspot.{HotspotAccess, TrafficShapeMode}
pub mod Ordering
pub mod Lookup
pub mod Joining
pub mod Views

-- `wifi.rs`
pub record WifiPeerLink : Type 0 where
  pub ap : Str
  pub authenticated : Bool
  pub transmit_rate : DataRate
  pub uptime : Uptime
  pub channel_width : ℕ
  pub mode : WifiMode
  pub guard_interval : ℕ
  pub rssi : ℕ
  pub mcs : ℕ
  pub transmit_spatial_streams : ℕ
  pub security : WifiSecurity

pub record Association : Type 0 where
  pub mac : MacAddress
  pub link : WifiPeerLink
  pub psm : Option Bool
  pub transmitted : ℕ
  pub received : ℕ
  pub ebf : Option Bool
  pub downlink_multi_user : Option Bool
  pub uplink_multi_user : Option Bool
  pub downlink_ofdma : Option Bool
  pub uplink_ofdma : Option Bool

-- `hotspot.rs`
pub record InterfaceReference : Type 0 where
  pub id : Str
  pub name : Str
  pub description : Str

pub record HotspotDhcp : Type 0 where
  pub expires : LeaseExpiration

pub record TrafficShape : Type 0 where
  pub receive : DataRate
  pub transmit : DataRate
  pub mode : TrafficShapeMode
  pub schedule : Option Str

pub record HotspotHost : Type 0 where
  pub mac : MacAddress
  pub via : MacAddress
  pub ip : Option ℕ
  pub ip6 : List ℕ
  pub hostname : Option Str
  pub name : Option Str
  pub interface : Option InterfaceReference
  pub dhcp : Option HotspotDhcp
  pub registered : Bool
  pub access : HotspotAccess
  pub schedule : Option Str
  pub policy : Option Str
  pub priority : ℕ
  pub active : Bool
  pub received : ℕ
  pub transmitted : ℕ
  pub uptime : Uptime
  pub first_seen : Option Duration
  pub last_seen : Option Duration
  pub link : Option LinkState
  pub auto_negotiation : Option Bool
  pub duplex : Option Bool
  pub port : Option ℕ
  pub speed : Option DataRate
  pub ssid : Option Str
  pub ap : Option Str
  pub psm : Option Bool
  pub authenticated : Option Bool
  pub transmit_rate : Option DataRate
  pub channel_width : Option ℕ
  pub mode : Option WifiMode
  pub guard_interval : Option ℕ
  pub rssi : Option ℕ
  pub mcs : Option ℕ
  pub transmit_spatial_streams : Option ℕ
  pub ebf : Option Bool
  pub security : Option WifiSecurity
  pub traffic_shape : TrafficShape

-- `ip.rs`
pub record ArpEntry : Type 0 where
  pub ip : ℕ
  pub mac : MacAddress
  pub interface : Str
  pub name : Option Str
  pub state : ArpState

pub record DhcpBinding : Type 0 where
  pub ip : ℕ
  pub mac : MacAddress
  pub via : MacAddress
  pub hostname : Option Str
  pub name : Option Str
  pub device : Option Str
  pub mode : Option DhcpBindingMode
  pub expires : LeaseExpiration

pub data ClientActivity : Type 0 where
  active inactive unknown : ClientActivity

pub record ConnectedClient : Type 0 where
  pub mac : MacAddress
  pub association : Option Association
  pub hotspot : Option HotspotHost
  pub arp : List ArpEntry
  pub dhcp : List DhcpBinding

-- The order of `[u8; 6]`, which `MacAddress` derives.
abbrev pub mac_ltb : MacAddress → MacAddress → Bool
mac_ltb [] [] = false
mac_ltb [] (b ∷ m) = true
mac_ltb (a ∷ k) [] = false
mac_ltb (a ∷ k) (b ∷ m) = let later = mac_ltb k m in if a == b then later else ltb a b

-- `BTreeMap<MacAddress, ConnectedClient>`: the entries in the order of their keys.
abbrev pub ClientIndex : Type 0
ClientIndex = List (MacAddress × ConnectedClient)

-- The client that `entry` inserts.
abbrev pub new_client : MacAddress → ConnectedClient
new_client mac = record { mac = mac; association = none; hotspot = none; arp = []; dhcp = [] }

-- `entry` with the assignment through the reference that it returns.
unfoldable pub update : MacAddress → (ConnectedClient → ConnectedClient) → ClientIndex → ClientIndex
update mac change [] = (mac, change (new_client mac)) ∷ []
update mac change ((key, client) ∷ clients) =
    let rest = update mac change clients in
    if str_eq mac key
    then (key, change client) ∷ clients
    else if mac_ltb mac key
    then (mac, change (new_client mac)) ∷ (key, client) ∷ clients
    else (key, client) ∷ rest

abbrev pub set_association : Association → ConnectedClient → ConnectedClient
set_association a client = record client { association = some a }

abbrev pub set_hotspot : HotspotHost → ConnectedClient → ConnectedClient
set_hotspot host client = record client { hotspot = some host }

abbrev pub push_arp : ArpEntry → ConnectedClient → ConnectedClient
push_arp entry client = record client { arp = client.arp ++ (entry ∷ []) }

abbrev pub push_dhcp : DhcpBinding → ConnectedClient → ConnectedClient
push_dhcp lease client = record client { dhcp = client.dhcp ++ (lease ∷ []) }

-- One of the loops of `ClientIndex::new`.
unfoldable pub add_all {ℓ} :
    {A : Type ℓ}
    → (A → MacAddress)
    → (A → ConnectedClient → ConnectedClient)
    → List A
    → ClientIndex
    → ClientIndex
unfolding update
add_all key put [] clients = clients
add_all key put (a ∷ as') clients = add_all key put as' (update (key a) (put a) clients)

-- `ClientIndex::new`
unfoldable pub client_index :
    List Association → List HotspotHost → List ArpEntry → List DhcpBinding → ClientIndex
unfolding add_all
client_index associations hotspot arp dhcp =
    let joined = add_all (λ (a : Association). a.mac) set_association associations [] in
    let joined = add_all (λ (h : HotspotHost). h.mac) set_hotspot hotspot joined in
    let joined = add_all (λ (e : ArpEntry). e.mac) push_arp arp joined in
    add_all (λ (l : DhcpBinding). l.mac) push_dhcp dhcp joined

-- `ClientIndex::get`
unfoldable pub client_get : ClientIndex → MacAddress → Option ConnectedClient
client_get [] mac = none
client_get ((key, client) ∷ clients) mac =
    let rest = client_get clients mac in if str_eq key mac then some client else rest
