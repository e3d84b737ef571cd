-- ===== src/Mobile/Interface.antt =====
-- src/model/mobile.rs: `MobileInterface`, its parts and its reading from an answer. A map by carrier
-- keeps its entries in the order of their keys.
use keenetic_rci.Prelude.{
  ℕ, ◌≡◌, ◌↔◌, inl, inr, Bool, Option, List, Result, ok, err, if◌then◌else◌, arith, refl,
  Bool-cases, map,
}
use keenetic_rci.Prelude.Str.{Str}
use keenetic_rci.Text.{InlineAscii}
use keenetic_rci.Prelude.Words.{ℤ}
use keenetic_rci.Json.{DeserializeError, custom}
use keenetic_rci.Identifiers.{Reported}
use keenetic_rci.Classifiers.Radio.{RadioAccessTechnology}
use keenetic_rci.Interfaces.{
  Interface, InterfaceKind, InterfaceTrait, LinkState, InterfaceState, InterfaceSummary,
  is_mobile_broadband, interface_trait,
}
use keenetic_rci.Interfaces.Broadband.{Mentions, is_mobile_broadband_iff}
use keenetic_rci.Mobile.{
  MobileConnectionState, SimState, RadioBand, ServingCell, ComponentCarrier, eci,
}

pub record LteModem : Type 0 where
  pub manufacturer : Option Str
  pub model : Option Str
  pub revision : Option Str

pub record LteSim : Type 0 where
  pub service_provider : Option Str

-- `MobileInterfaceWire`: the fields of the answer, read by their own deserializers.
pub record MobileInterfaceWire : Type 0 where
  pub id : Str
  pub index : ℕ
  pub interface_name : Str
  pub kind : InterfaceKind
  pub traits : List InterfaceTrait
  pub link : LinkState
  pub admin_only : Bool
  pub summary : InterfaceSummary
  pub description : Option Str
  pub state : Option InterfaceState
  pub mtu : Option ℕ
  pub plugged : Option Str
  pub connection_state : Option MobileConnectionState
  pub operator : Option Str
  pub apn : Option Str
  pub sim_state : Option SimState
  pub pin_attempts : Option ℕ
  pub embedded : Option Bool
  pub roaming : Option Bool
  pub imei : Option (Reported InlineAscii)
  pub imsi : Option (Reported InlineAscii)
  pub iccid : Option (Reported InlineAscii)
  pub phone_number : Option Str
  pub signal_level : Option ℤ
  pub rssi : Option ℕ
  pub rsrp : Option ℕ
  pub rsrq : Option ℕ
  pub cinr : Option ℕ
  pub modem_temperature : Option ℕ
  pub plmn : Option InlineAscii
  pub enb_id : Option ℕ
  pub sector_id : Option ℕ
  pub tac : Option ℕ
  pub active : Option Bool
  pub network : Option RadioAccessTechnology
  pub band : Option RadioBand
  pub earfcn : Option ℕ
  pub downlink_frequency : Option ℕ
  pub uplink_frequency : Option ℕ
  pub bandwidth : Option ℕ
  pub physical_cell_id : Option ℕ
  pub reported_carriers : List (ℕ × ComponentCarrier)
  pub modem : Option LteModem
  pub sim : Option LteSim

pub record MobileSignal : Type 0 where
  pub level : Option ℤ
  pub rssi : Option ℕ
  pub rsrp : Option ℕ
  pub rsrq : Option ℕ
  pub cinr : Option ℕ

pub record MobileStatus : Type 0 where
  pub plugged : Option Str
  pub connection_state : Option MobileConnectionState
  pub operator : Option Str
  pub apn : Option Str
  pub sim_state : Option SimState
  pub pin_attempts : Option ℕ
  pub embedded : Option Bool
  pub roaming : Option Bool
  pub imei : Option (Reported InlineAscii)
  pub imsi : Option (Reported InlineAscii)
  pub iccid : Option (Reported InlineAscii)
  pub phone_number : Option Str
  pub signal : MobileSignal
  pub modem_temperature : Option ℕ
  pub cell : ServingCell
  pub primary_carrier : ComponentCarrier
  pub reported_carriers : List (ℕ × ComponentCarrier)
  pub modem : Option LteModem
  pub sim : Option LteSim

pub record MobileInterface : Type 0 where
  pub interface : Interface
  pub status : MobileStatus

-- `MobileInterfaceWire::into_parts`
abbrev pub interface_part : MobileInterfaceWire → Interface
interface_part wire = record {
  id = wire.id;
  index = wire.index;
  interface_name = wire.interface_name;
  kind = wire.kind;
  traits = wire.traits;
  link = wire.link;
  admin_only = wire.admin_only;
  summary = wire.summary;
  description = wire.description;
  state = wire.state;
  mtu = wire.mtu;
}

abbrev pub status_part : MobileInterfaceWire → MobileStatus
status_part wire = record {
  plugged = wire.plugged;
  connection_state = wire.connection_state;
  operator = wire.operator;
  apn = wire.apn;
  sim_state = wire.sim_state;
  pin_attempts = wire.pin_attempts;
  embedded = wire.embedded;
  roaming = wire.roaming;
  imei = wire.imei;
  imsi = wire.imsi;
  iccid = wire.iccid;
  phone_number = wire.phone_number;
  signal = record {
    level = wire.signal_level;
    rssi = wire.rssi;
    rsrp = wire.rsrp;
    rsrq = wire.rsrq;
    cinr = wire.cinr;
  };
  modem_temperature = wire.modem_temperature;
  cell = record {
    plmn = wire.plmn;
    enb_id = wire.enb_id;
    sector_id = wire.sector_id;
    tac = wire.tac;
  };
  primary_carrier = record {
    active = wire.active;
    network = wire.network;
    band = wire.band;
    earfcn = wire.earfcn;
    downlink_frequency = wire.downlink_frequency;
    uplink_frequency = wire.uplink_frequency;
    bandwidth = wire.bandwidth;
    physical_cell_id = wire.physical_cell_id;
  };
  reported_carriers = wire.reported_carriers;
  modem = wire.modem;
  sim = wire.sim;
}

-- `MobileInterface::deserialize`, once the fields are read.
unfoldable pub mobile_interface : MobileInterfaceWire → Result MobileInterface DeserializeError
mobile_interface wire =
    let interface = interface_part wire in
    let status = status_part wire in
    if is_mobile_broadband interface
    then ok (record { interface = interface; status = status })
    else err custom

-- `MobileInterface::eci`
abbrev pub interface_eci : MobileInterface → Option ℕ
interface_eci mobile = eci mobile.status.cell

-- Each field of the answer is at its place in the mobile interface.
pub record HasFields (wire : MobileInterfaceWire) (mobile : MobileInterface) : Type 0 where
  pub interface_id : mobile.interface.id ≡ wire.id
  pub interface_index : mobile.interface.index ≡ wire.index
  pub interface_name_same : mobile.interface.interface_name ≡ wire.interface_name
  pub interface_kind : mobile.interface.kind ≡ wire.kind
  pub interface_traits : mobile.interface.traits ≡ wire.traits
  pub interface_link : mobile.interface.link ≡ wire.link
  pub interface_admin_only : mobile.interface.admin_only ≡ wire.admin_only
  pub interface_summary : mobile.interface.summary ≡ wire.summary
  pub interface_description : mobile.interface.description ≡ wire.description
  pub interface_state : mobile.interface.state ≡ wire.state
  pub interface_mtu : mobile.interface.mtu ≡ wire.mtu
  pub status_plugged : mobile.status.plugged ≡ wire.plugged
  pub status_connection_state : mobile.status.connection_state ≡ wire.connection_state
  pub status_operator : mobile.status.operator ≡ wire.operator
  pub status_apn : mobile.status.apn ≡ wire.apn
  pub status_sim_state : mobile.status.sim_state ≡ wire.sim_state
  pub status_pin_attempts : mobile.status.pin_attempts ≡ wire.pin_attempts
  pub status_embedded : mobile.status.embedded ≡ wire.embedded
  pub status_roaming : mobile.status.roaming ≡ wire.roaming
  pub status_imei : mobile.status.imei ≡ wire.imei
  pub status_imsi : mobile.status.imsi ≡ wire.imsi
  pub status_iccid : mobile.status.iccid ≡ wire.iccid
  pub status_phone_number : mobile.status.phone_number ≡ wire.phone_number
  pub signal_level : mobile.status.signal.level ≡ wire.signal_level
  pub signal_rssi : mobile.status.signal.rssi ≡ wire.rssi
  pub signal_rsrp : mobile.status.signal.rsrp ≡ wire.rsrp
  pub signal_rsrq : mobile.status.signal.rsrq ≡ wire.rsrq
  pub signal_cinr : mobile.status.signal.cinr ≡ wire.cinr
  pub status_modem_temperature : mobile.status.modem_temperature ≡ wire.modem_temperature
  pub cell_plmn : mobile.status.cell.plmn ≡ wire.plmn
  pub cell_enb_id : mobile.status.cell.enb_id ≡ wire.enb_id
  pub cell_sector_id : mobile.status.cell.sector_id ≡ wire.sector_id
  pub cell_tac : mobile.status.cell.tac ≡ wire.tac
  pub primary_carrier_active : mobile.status.primary_carrier.active ≡ wire.active
  pub primary_carrier_network : mobile.status.primary_carrier.network ≡ wire.network
  pub primary_carrier_band : mobile.status.primary_carrier.band ≡ wire.band
  pub primary_carrier_earfcn : mobile.status.primary_carrier.earfcn ≡ wire.earfcn
  pub primary_carrier_downlink_frequency :
      mobile.status.primary_carrier.downlink_frequency ≡ wire.downlink_frequency
  pub primary_carrier_uplink_frequency :
      mobile.status.primary_carrier.uplink_frequency ≡ wire.uplink_frequency
  pub primary_carrier_bandwidth : mobile.status.primary_carrier.bandwidth ≡ wire.bandwidth
  pub primary_carrier_physical_cell_id :
      mobile.status.primary_carrier.physical_cell_id ≡ wire.physical_cell_id
  pub status_reported_carriers : mobile.status.reported_carriers ≡ wire.reported_carriers
  pub status_modem : mobile.status.modem ≡ wire.modem
  pub status_sim : mobile.status.sim ≡ wire.sim

parts-HasFields :
    (wire : MobileInterfaceWire)
    → HasFields wire (record { interface = interface_part wire; status = status_part wire })
parts-HasFields wire = record {
  interface_id = refl;
  interface_index = refl;
  interface_name_same = refl;
  interface_kind = refl;
  interface_traits = refl;
  interface_link = refl;
  interface_admin_only = refl;
  interface_summary = refl;
  interface_description = refl;
  interface_state = refl;
  interface_mtu = refl;
  status_plugged = refl;
  status_connection_state = refl;
  status_operator = refl;
  status_apn = refl;
  status_sim_state = refl;
  status_pin_attempts = refl;
  status_embedded = refl;
  status_roaming = refl;
  status_imei = refl;
  status_imsi = refl;
  status_iccid = refl;
  status_phone_number = refl;
  signal_level = refl;
  signal_rssi = refl;
  signal_rsrp = refl;
  signal_rsrq = refl;
  signal_cinr = refl;
  status_modem_temperature = refl;
  cell_plmn = refl;
  cell_enb_id = refl;
  cell_sector_id = refl;
  cell_tac = refl;
  primary_carrier_active = refl;
  primary_carrier_network = refl;
  primary_carrier_band = refl;
  primary_carrier_earfcn = refl;
  primary_carrier_downlink_frequency = refl;
  primary_carrier_uplink_frequency = refl;
  primary_carrier_bandwidth = refl;
  primary_carrier_physical_cell_id = refl;
  status_reported_carriers = refl;
  status_modem = refl;
  status_sim = refl;
}

-- An answer whose traits the router reported by these texts is taken as a mobile interface, and then as
-- one with each field of the answer at its place, just if one of the texts marks a mobile interface;
-- every other is refused.
pub mobile_interface_iff :
    (wire : MobileInterfaceWire) (texts : List Str)
    → wire.traits ≡ map interface_trait texts
    → (((mobile : MobileInterface) × (mobile_interface wire ≡ ok mobile) × HasFields wire mobile)
        ↔ Mentions texts)
      × ((mobile_interface wire ≡ err custom) ↔ (¬ Mentions texts))
unfolding mobile_interface
mobile_interface_iff wire texts traits =
    let (to, back) = is_mobile_broadband_iff (interface_part wire) texts traits in
    elim (Bool-cases (is_mobile_broadband (interface_part wire))) [
      | inl broad ↦ rw broad (
        (λ h. to broad, λ m. (_, refl, parts-HasFields wire)),
        (λ h. absurd (cc), λ n. absurd (n (to broad))),
      )
      | inr other ↦
          let away : ¬ Mentions texts = λ m. let e = back m in absurd (ground (arith, e, other)) in
          rw other
            ((λ (mobile, e, fields). absurd (cc), λ m. absurd (away m)), (λ h. away, λ n. refl))
    ]
