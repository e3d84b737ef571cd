-- ===== src/NetworkTest.antt =====
-- src/request/network_test.rs: what the three kinds of network tests share.
use keenetic_rci.Prelude.{
  ℕ, Bool, true, false, ◌&&◌, Option, none, some, List, [], ◌∷◌, ◌++◌, Result, ok, err, leb, ◌==◌,
  ◌≤◌, ◌≡◌, refl, arith, if◌then◌else◌,
}
use keenetic_rci.Prelude.Str.{Str, codes}
use keenetic_rci.Network.{IpAddr, v4, v6, InvalidText, NetworkHost, host_address}
pub use keenetic_rci.Prelude.Words.{u8_max, u16_max, u32_max, u64_max}
pub mod Ping
pub mod Traceroute
pub mod Iperf3

pub data IpFamily : Type 0 where
  ipv4 ipv6 : IpFamily

-- `IpFamily::of`
abbrev pub family_of : IpAddr → IpFamily
family_of (v4 a) = ipv4
family_of (v6 a) = ipv6

abbrev pub same_family : IpFamily → IpFamily → Bool
same_family ipv4 ipv4 = true
same_family ipv6 ipv6 = true
same_family _ _ = false

-- `IpFamily::label`
abbrev pub label : IpFamily → Str
label ipv4 = codes "IPv4"
label ipv6 = codes "IPv6"

pub data NetworkTestSource : Type 0 where
  address : IpAddr → NetworkTestSource
  interface : Str → NetworkTestSource

pub data InvalidNetworkTestOption : Type 0 where
  host : InvalidText → InvalidNetworkTestOption
  address_family : (tool option expected actual : Str) → InvalidNetworkTestOption
  out_of_range : (option : Str) (least greatest value : ℕ) → InvalidNetworkTestOption
  tcp_traceroute_packet_size : ℕ → InvalidNetworkTestOption

abbrev pub min_packet_size : ℕ
min_packet_size = 28

abbrev pub tcp_traceroute_size : ℕ
tcp_traceroute_size = 52

abbrev pub Checked : Type 0
Checked = Result (Unit {0}) InvalidNetworkTestOption

-- `ensure_range`
unfoldable pub ensure_range : Str → ℕ → ℕ → ℕ → Checked
ensure_range option value least greatest =
    if leb least value && leb value greatest
    then ok tt
    else err (out_of_range option least greatest value)

abbrev target_family : Str → IpFamily → Option IpAddr → Checked
target_family tool expected none = ok tt
target_family tool expected (some a) =
    if same_family expected (family_of a)
    then ok tt
    else err (address_family tool (codes "target") (label expected) (label (family_of a)))

-- `ensure_target_family`
unfoldable pub ensure_target_family : NetworkHost → Str → IpFamily → Checked
ensure_target_family h tool expected = target_family tool expected (host_address h)

-- `ensure_source_family`
unfoldable pub ensure_source_family : NetworkTestSource → Str → IpFamily → Checked
ensure_source_family (interface i) tool family = ok tt
ensure_source_family (address a) tool family =
    if same_family (family_of a) family
    then ok tt
    else err (address_family tool (codes "source address") (label family) (label (family_of a)))

-- `NonZeroU8::new` and the wider ones, with the error that the setters make of `None`.
unfoldable pub nonzero : Str → ℕ → ℕ → Result ℕ InvalidNetworkTestOption
nonzero option greatest value =
    if value == 0 then err (out_of_range option 1 greatest 0) else ok value

-- A value of the JSON map that is sent.
pub data Entry : Type 0 where
  text : Str → Entry
  number : ℕ → Entry
  flag : Entry

abbrev pub Entries : Type 0
Entries = List (Str × Entry)

-- `serialize_option`
abbrev pub option_entry : Str → Option ℕ → Entries
option_entry key none = []
option_entry key (some value) = (key, number value) ∷ []

-- `serialize_source`; showing an address as text is an argument.
abbrev pub source_entry : (IpAddr → Str) → Option NetworkTestSource → Entries
source_entry show none = []
source_entry show (some (address a)) = (codes "source-address", text (show a)) ∷ []
source_entry show (some (interface i)) = (codes "source-interface", text i) ∷ []

-- The family of a literal target, as an invariant.
abbrev pub TargetIs : IpFamily → NetworkHost → Type 0
TargetIs family (NetworkHost.address a) = family_of a ≡ family
TargetIs family (NetworkHost.name n) = Unit

abbrev pub SourceIs : IpFamily → Option NetworkTestSource → Type 0
SourceIs family (some (address a)) = family_of a ≡ family
SourceIs family _ = Unit

abbrev pub Within : ℕ → ℕ → Option ℕ → Type 0
Within least greatest none = Unit
Within least greatest (some value) = (least ≤ value) × (value ≤ greatest)

pub ensure_target_family-TargetIs :
    (h : NetworkHost) (tool : Str) (family : IpFamily)
    → ensure_target_family h tool family ≡ ok tt
    → TargetIs family h
unfolding ensure_target_family
ensure_target_family-TargetIs (NetworkHost.address (v4 a)) tool ipv4 h = refl
ensure_target_family-TargetIs (NetworkHost.address (v4 a)) tool ipv6 h = cc
ensure_target_family-TargetIs (NetworkHost.address (v6 a)) tool ipv4 h = cc
ensure_target_family-TargetIs (NetworkHost.address (v6 a)) tool ipv6 h = refl
ensure_target_family-TargetIs (NetworkHost.name n) tool family h = tt

pub ensure_source_family-SourceIs :
    (source : NetworkTestSource) (tool : Str) (family : IpFamily)
    → ensure_source_family source tool family ≡ ok tt
    → SourceIs family (some source)
unfolding ensure_source_family
ensure_source_family-SourceIs (address (v4 a)) tool ipv4 h = refl
ensure_source_family-SourceIs (address (v4 a)) tool ipv6 h = cc
ensure_source_family-SourceIs (address (v6 a)) tool ipv4 h = cc
ensure_source_family-SourceIs (address (v6 a)) tool ipv6 h = refl
ensure_source_family-SourceIs (interface i) tool family h = tt

pub ensure_range-Within :
    (option : Str) (value least greatest : ℕ)
    → ensure_range option value least greatest ≡ ok tt
    → Within least greatest (some value)
unfolding ensure_range
ensure_range-Within option value least greatest h = ground arith

pub nonzero-Within :
    (option : Str) (greatest value n : ℕ)
    → value ≤ greatest
    → nonzero option greatest value ≡ ok n
    → Within 1 greatest (some n)
unfolding nonzero
nonzero-Within option greatest value n small h = ground arith
