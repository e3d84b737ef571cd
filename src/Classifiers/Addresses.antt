-- ===== src/Classifiers/Addresses.antt =====
-- src/model/ip.rs: the classifiers of ARP entries and DHCP leases, by `open_string_enum!`.
use keenetic_rci.Prelude.{◌≡◌, List, [], ◌∷◌, refl}
use keenetic_rci.Prelude.Str.{Str, codes}
use keenetic_rci.OpenEnum.{from_wire, as_str-from_wire}

pub data ArpState : Type 0 where
  incomplete reachable stale delay probe failed permanent : ArpState
  other : Str → ArpState

abbrev pub arp_state_table : List (Str × ArpState)
arp_state_table =
    (codes "INCOMPLETE", ArpState.incomplete)
    ∷ (codes "REACHABLE", ArpState.reachable)
    ∷ (codes "STALE", ArpState.stale)
    ∷ (codes "DELAY", ArpState.delay)
    ∷ (codes "PROBE", ArpState.probe)
    ∷ (codes "FAILED", ArpState.failed)
    ∷ (codes "PERMANENT", ArpState.permanent)
    ∷ []

unfoldable pub arp_state : Str → ArpState
arp_state value = from_wire ArpState.other arp_state_table value

abbrev pub arp_state_str : ArpState → Str
arp_state_str ArpState.incomplete = codes "INCOMPLETE"
arp_state_str ArpState.reachable = codes "REACHABLE"
arp_state_str ArpState.stale = codes "STALE"
arp_state_str ArpState.delay = codes "DELAY"
arp_state_str ArpState.probe = codes "PROBE"
arp_state_str ArpState.failed = codes "FAILED"
arp_state_str ArpState.permanent = codes "PERMANENT"
arp_state_str (ArpState.other value) = value

pub data DhcpBindingMode : Type 0 where
  extender : DhcpBindingMode
  other : Str → DhcpBindingMode

abbrev pub dhcp_binding_mode_table : List (Str × DhcpBindingMode)
dhcp_binding_mode_table = (codes "extender", DhcpBindingMode.extender) ∷ []

unfoldable pub dhcp_binding_mode : Str → DhcpBindingMode
dhcp_binding_mode value = from_wire DhcpBindingMode.other dhcp_binding_mode_table value

abbrev pub dhcp_binding_mode_str : DhcpBindingMode → Str
dhcp_binding_mode_str DhcpBindingMode.extender = codes "extender"
dhcp_binding_mode_str (DhcpBindingMode.other value) = value

-- What the router reports reads back as the same text.
pub addresses_texts :
    (value : Str)
    → (arp_state_str (arp_state value) ≡ value)
      × (dhcp_binding_mode_str (dhcp_binding_mode value) ≡ value)
unfolding arp_state dhcp_binding_mode
addresses_texts value = (
  as_str-from_wire ArpState.other arp_state_str arp_state_table
      (refl, (refl, (refl, (refl, (refl, (refl, (refl, tt))))))) (λ s. refl) value,
  as_str-from_wire DhcpBindingMode.other dhcp_binding_mode_str dhcp_binding_mode_table (refl, tt)
      (λ s. refl) value,
)
