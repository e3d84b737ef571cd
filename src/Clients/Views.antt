-- ===== src/Clients/Views.antt =====
-- src/model/clients.rs: what a `ConnectedClient` tells of its records.
use keenetic_rci.Prelude.{ℕ, true, false, Option, none, some, List, [], ◌∷◌, ◌++◌, map}
use keenetic_rci.Prelude.Str.{Str}
use keenetic_rci.Clients.{
  ConnectedClient, ClientActivity, active, inactive, unknown, Association, HotspotHost, ArpEntry,
  DhcpBinding, InterfaceReference,
}

-- `Option::into_iter`, and `flatten` of optional values.
abbrev pub to_list {ℓ} : {A : Type ℓ} → Option A → List A
to_list none = []
to_list (some a) = a ∷ []

abbrev pub present {ℓ κ} : {A : Type ℓ} {B : Type κ} → (A → Option B) → List A → List B
present f [] = []
present f (a ∷ items) = to_list (f a) ++ present f items

abbrev activity_of : Option Association → Option HotspotHost → ClientActivity
activity_of (some a) hotspot = active
activity_of none none = unknown
activity_of none (some host) = elim host.active [ true ↦ active | false ↦ inactive ]

-- `ConnectedClient::activity`
unfoldable pub activity : ConnectedClient → ClientActivity
activity client = activity_of client.association client.hotspot

abbrev host_ip : Option HotspotHost → List ℕ
host_ip none = []
host_ip (some host) = to_list host.ip

-- `ipv4_addresses` and `ipv6_addresses`
unfoldable pub ipv4_addresses : ConnectedClient → List ℕ
ipv4_addresses client =
    host_ip client.hotspot
    ++ (map (λ (e : ArpEntry). e.ip) client.arp ++ map (λ (l : DhcpBinding). l.ip) client.dhcp)

abbrev host_ip6 : Option HotspotHost → List ℕ
host_ip6 none = []
host_ip6 (some host) = host.ip6

unfoldable pub ipv6_addresses : ConnectedClient → List ℕ
ipv6_addresses client = host_ip6 client.hotspot

abbrev host_names : Option HotspotHost → List Str
host_names none = []
host_names (some host) = to_list host.name ++ to_list host.hostname

abbrev lease_names : List DhcpBinding → List Str
lease_names [] = []
lease_names (lease ∷ leases) = to_list lease.name ++ (to_list lease.hostname ++ lease_names leases)

-- `names`
unfoldable pub names : ConnectedClient → List Str
names client =
    host_names client.hotspot
    ++ (present (λ (e : ArpEntry). e.name) client.arp ++ lease_names client.dhcp)

abbrev interface_of : Option HotspotHost → Option InterfaceReference
interface_of none = none
interface_of (some host) = host.interface

abbrev reference_id : Option InterfaceReference → List Str
reference_id none = []
reference_id (some reference) = reference.id ∷ []

abbrev association_ap : Option Association → List Str
association_ap none = []
association_ap (some a) = a.link.ap ∷ []

abbrev host_ap : Option HotspotHost → List Str
host_ap none = []
host_ap (some host) = to_list host.ap

-- `hotspot_interface` and `interface_ids`
unfoldable pub hotspot_interface : ConnectedClient → Option InterfaceReference
hotspot_interface client = interface_of client.hotspot

unfoldable pub interface_ids : ConnectedClient → List Str
unfolding hotspot_interface
interface_ids client =
    association_ap client.association
    ++ (reference_id (hotspot_interface client)
        ++ (host_ap client.hotspot
            ++ (map (λ (e : ArpEntry). e.interface) client.arp
                ++ present (λ (l : DhcpBinding). l.device) client.dhcp)))
