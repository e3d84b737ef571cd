-- ===== src/Mobile.antt =====
-- src/model/mobile.rs: the values of a mobile interface, and its reading from an answer. The parsers of
-- floats are not part of it: a measurement is the bits of its float.
use Prim.Native.Nat.{bit_or}
use keenetic_rci.Prelude.{
  ℕ, zero, suc, ◌+◌, ◌*◌, ◌^◌, ◌%◌, Bool, true, false, not, ◌&&◌, ◌||◌, Option, none, some, List,
  [], ◌∷◌, leb, ◌==◌, if◌then◌else◌, str_eq,
}
use keenetic_rci.Prelude.Str.{Str, codes}
use keenetic_rci.Prelude.Pieces.{parse_unsigned}
use keenetic_rci.Prelude.Words.{u16_max}
use keenetic_rci.Text.{InlineAscii}
use keenetic_rci.Identifiers.{Reported}
use keenetic_rci.Classifiers.Radio.{RadioAccessTechnology}
pub mod Cell
pub mod Carriers
pub mod Interface

-- `str::eq_ignore_ascii_case`
abbrev ascii_lower : ℕ → ℕ
ascii_lower c = if leb b'A' c && leb c b'Z' then c + 32 else c

unfoldable pub eq_ignore_case : Str → Str → Bool
eq_ignore_case [] [] = true
eq_ignore_case (a ∷ s) (b ∷ t) = ascii_lower a == ascii_lower b && eq_ignore_case s t
eq_ignore_case _ _ = false

pub data MobileConnectionState : Type 0 where
  initializing connected : MobileConnectionState
  other : Str → MobileConnectionState

-- `MobileConnectionState::from_str` and `as_str`
unfoldable pub connection_state : Str → MobileConnectionState
unfolding eq_ignore_case
connection_state value =
    if eq_ignore_case value (codes "Initializing")
    then initializing
    else if eq_ignore_case value (codes "Connected")
    then connected
    else MobileConnectionState.other value

abbrev pub connection_state_str : MobileConnectionState → Str
connection_state_str initializing = codes "Initializing"
connection_state_str connected = codes "Connected"
connection_state_str (MobileConnectionState.other value) = value

pub data SimState : Type 0 where
  ready pin_required puk_required invalid : SimState
  other : Str → SimState

-- `SimState::from_str` and `as_str`
unfoldable pub sim_state : Str → SimState
unfolding eq_ignore_case
sim_state value =
    if eq_ignore_case value (codes "READY")
    then ready
    else if eq_ignore_case value (codes "SIM PIN")
    then pin_required
    else if eq_ignore_case value (codes "SIM PUK")
    then puk_required
    else if eq_ignore_case value (codes "INVALID")
    then invalid
    else SimState.other value

abbrev pub sim_state_str : SimState → Str
sim_state_str ready = codes "READY"
sim_state_str pin_required = codes "SIM PIN"
sim_state_str puk_required = codes "SIM PUK"
sim_state_str invalid = codes "INVALID"
sim_state_str (SimState.other value) = value

pub data RadioBand : Type 0 where
  number nr : ℕ → RadioBand
  other : Str → RadioBand

-- The number after a leading `n` or `N`.
abbrev after_n : Str → Option ℕ
after_n [] = none
after_n (c ∷ value) =
    let parsed = parse_unsigned u16_max value in if c == b'n' || c == b'N' then parsed else none

abbrev band_of : Str → Option ℕ → Option ℕ → RadioBand
band_of value (some n) later = number n
band_of value none (some n) = nr n
band_of value none none = RadioBand.other value

-- `RadioBand::from_str`
unfoldable pub radio_band : Str → RadioBand
radio_band value = band_of value (parse_unsigned u16_max value) (after_n value)

-- `ComponentCarrierId::new`
abbrev pub carrier_id : ℕ → Option ℕ
carrier_id zero = none
carrier_id (suc n) = some (suc n)

pub record ServingCell : Type 0 where
  pub plmn : Option InlineAscii
  pub enb_id : Option ℕ
  pub sector_id : Option ℕ
  pub tac : Option ℕ

abbrev pub eci_of : Option ℕ → Option ℕ → Option ℕ
eci_of none sector = none
eci_of (some enb) none = none
eci_of (some enb) (some sector) =
    if leb enb 0x000fffff && leb sector 0x00ff
    then some (bit_or (enb * 2 ^ 8 % 2 ^ 32) sector)
    else none

-- `ServingCell::eci`; the shift of a `u32` drops what leaves its 32 bits.
unfoldable pub eci : ServingCell → Option ℕ
eci cell = eci_of cell.enb_id cell.sector_id

pub record ComponentCarrier : Type 0 where
  pub active : Option Bool
  pub network : Option RadioAccessTechnology
  pub band : Option RadioBand
  pub earfcn : Option ℕ
  pub downlink_frequency : Option ℕ
  pub uplink_frequency : Option ℕ
  pub bandwidth : Option ℕ
  pub physical_cell_id : Option ℕ

-- `PartialEq` of `RadioBand`, and `conflicting`.
abbrev pub same_band : RadioBand → RadioBand → Bool
same_band (number a) (number b) = a == b
same_band (nr a) (nr b) = a == b
same_band (RadioBand.other a) (RadioBand.other b) = str_eq a b
same_band _ _ = false

unfoldable pub conflicting {ℓ} : {T : Type ℓ} → (T → T → Bool) → Option T → Option T → Bool
conflicting same (some left) (some right) = not (same left right)
conflicting same none right = false
conflicting same (some left) none = false

-- `ComponentCarrier::has_radio_identity_conflict`
unfoldable pub has_radio_identity_conflict : ComponentCarrier → ComponentCarrier → Bool
unfolding conflicting
has_radio_identity_conflict left right =
    conflicting same_band left.band right.band
    || conflicting (λ a b. a == b) left.earfcn right.earfcn
    || conflicting (λ a b. a == b) left.physical_cell_id right.physical_cell_id
