-- ===== src/Routes.antt =====
-- src/model/routing.rs, connectivity.rs and interface_stat.rs: routes, checks, name servers, the time
-- and the counters of an interface. An IP address is a number; the parsers of addresses and of
-- networks (ipnet) are arguments, and so is the type of networks.
use keenetic_rci.Prelude.{
  ℕ, Bool, Option, none, some, List, Result, ok, err, ◌>>=◌, leb, if◌then◌else◌, ◌==◌,
}
use keenetic_rci.Prelude.Str.{Str}
use keenetic_rci.Prelude.Words.{u16_max}
use keenetic_rci.Json.{
  Value, number, string, unsigned, negative, DeserializeError, invalid_type, invalid_value, custom,
}
use keenetic_rci.Network.{identifier, IpAddr, NetworkHost}
use keenetic_rci.Network.Readings.{Duration}
use keenetic_rci.Network.Rates.{DataRate}
use keenetic_rci.System.{non_zero}
use keenetic_rci.Storage.{optional_nonempty_string, checked_id}
use keenetic_rci.Classifiers.Routing.{RouteProtocol}
use keenetic_rci.Classifiers.Connectivity.{PingCheckMode, PingCheckStatus}

module _ (Net : Type 0) where
  -- `Ipv4Route` and `Ipv6Route`, which differ in the family of the networks only.
  pub record Route : Type 0 where
    pub destination : Net
    pub gateway : Option ℕ
    pub interface : Str
    pub metric : ℕ
    pub flags : Str
    pub rejecting : Bool
    pub proto : RouteProtocol
    pub floating : Bool
    pub static_route : Bool

  -- `IpRoutes` and `Ipv6Routes`
  pub record IpRoutes : Type 0 where
    pub routes : List Route

-- `is_unspecified`, and the closure of `optional_ipv4_gateway` and `optional_ipv6_gateway`.
abbrev pub gateway_of : ℕ → Option ℕ
gateway_of address = if address == 0 then none else some address

abbrev parsed_gateway : Option ℕ → Result (Option ℕ) DeserializeError
parsed_gateway none = err custom
parsed_gateway (some address) = ok (gateway_of address)

-- `optional_ipv4_gateway` and `optional_ipv6_gateway`
unfoldable pub optional_gateway : (Str → Option ℕ) → Value → Result (Option ℕ) DeserializeError
optional_gateway parse_address (string value) = parsed_gateway (parse_address value)
optional_gateway parse_address _ = err invalid_type

pub record PingCheckCacheEntry : Type 0 where
  pub host : NetworkHost
  pub addresses : List IpAddr

pub record PingCheckInterface : Type 0 where
  pub ignore_failure : Bool
  pub success_count : ℕ
  pub failure_count : ℕ
  pub status : PingCheckStatus
  pub ip_cache : List PingCheckCacheEntry

pub record PingCheckProfile : Type 0 where
  pub profile : Str
  pub targets : List NetworkHost
  pub port : Option ℕ
  pub update_interval : Option Duration
  pub timeout : Option Duration
  pub max_failures : Option ℕ
  pub mode : Option PingCheckMode
  pub interfaces : List (Str × PingCheckInterface)

pub record PingCheckProfiles : Type 0 where
  pub profiles : List PingCheckProfile

pub record IpNameServer : Type 0 where
  pub address : IpAddr
  pub domain : Option Str
  pub global_priority : Option ℕ
  pub service : Option Str
  pub interface : Option Str

pub record IpNameServers : Type 0 where
  pub servers : List IpNameServer

pub record NtpStatus : Type 0 where
  pub elapsed : Duration
  pub server : NetworkHost
  pub accurate : Bool
  pub synchronized : Bool
  pub ndss_time : Bool
  pub user_time : Bool

-- `u16::deserialize` with `NonZeroU16::new`; a number out of range is an invalid value.
unfoldable pub optional_nonzero_u16 : Value → Result (Option ℕ) DeserializeError
optional_nonzero_u16 (number (unsigned value)) =
    if leb value u16_max then ok (non_zero value) else err invalid_value
optional_nonzero_u16 (number (negative value)) = err invalid_value
optional_nonzero_u16 _ = err invalid_type

abbrev interface_id_of : Option Str → Result (Option Str) DeserializeError
interface_id_of none = ok none
interface_id_of (some value) = checked_id (identifier value)

-- `optional_interface_id`
unfoldable pub optional_interface_id : Value → Result (Option Str) DeserializeError
unfolding optional_nonempty_string
optional_interface_id value = do text ← optional_nonempty_string value; interface_id_of text

pub record InterfaceStat : Type 0 where
  pub received_packets : ℕ
  pub received_multicast_packets : ℕ
  pub received_broadcast_packets : ℕ
  pub received : ℕ
  pub receive_errors : ℕ
  pub receive_dropped : ℕ
  pub transmitted_packets : ℕ
  pub transmitted_multicast_packets : ℕ
  pub transmitted_broadcast_packets : ℕ
  pub transmitted : ℕ
  pub transmit_errors : ℕ
  pub transmit_dropped : ℕ
  pub timestamp : Duration
  pub last_overflow : Duration
  pub receive_rate : Option DataRate
  pub transmit_rate : Option DataRate
