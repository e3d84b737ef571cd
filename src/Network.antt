-- ===== src/Network.antt =====
-- src/model.rs (`string_identifier!`) and src/model/network.rs: validated texts and hosts. Parsing
-- an IP address is an argument.
use keenetic_rci.Prelude.{
  ℕ, Option, none, some, [], ◌∷◌, Result, ok, err, ◌>>=◌, any, if◌then◌else◌,
}
use keenetic_rci.Prelude.Str.{Str, is_control}
pub mod Mac
pub mod Readings
pub mod Decimal
pub mod Rates

-- `std::net::IpAddr`, with the address as a number.
pub data IpAddr : Type 0 where
  v4 : ℕ → IpAddr
  v6 : ℕ → IpAddr

-- `InvalidInterfaceId`, `InvalidNetworkHost`, and the errors of the other identifiers.
pub data InvalidText : Type 0 where
  empty : InvalidText
  control_character : InvalidText

abbrev no_control : Str → Result (Unit {0}) InvalidText
no_control value = if any is_control value then err control_character else ok tt

-- `validate_network_host`, which is also the check of `string_identifier!`.
unfoldable pub validate : Str → Result (Unit {0}) InvalidText
validate [] = err empty
validate (c ∷ value) = no_control (c ∷ value)

-- `string_identifier!`: `try_from`. The identifier is the text itself.
unfoldable pub identifier : Str → Result Str InvalidText
unfolding validate
identifier value = do _ ← validate value; ok value

-- `NetworkHost`
pub data NetworkHost : Type 0 where
  address : IpAddr → NetworkHost
  name : Str → NetworkHost

abbrev pub host_of : Str → Option IpAddr → NetworkHost
host_of value none = name value
host_of value (some a) = address a

-- `NetworkHost::from_str`
unfoldable pub parse_host : (Str → Option IpAddr) → Str → Result NetworkHost InvalidText
unfolding validate
parse_host parse_ip value = do _ ← validate value; ok (host_of value (parse_ip value))

-- `NetworkHost::address`
abbrev pub host_address : NetworkHost → Option IpAddr
host_address (address a) = some a
host_address (name n) = none
