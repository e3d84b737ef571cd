-- ===== src/Classifiers/Connectivity.antt =====
-- src/model/connectivity.rs: the classifiers of connectivity checks, by `open_string_enum!`.
use keenetic_rci.Prelude.{◌≡◌, List, [], ◌∷◌, refl}
use keenetic_rci.Prelude.Str.{Str, codes}
use keenetic_rci.OpenEnum.{from_wire, as_str-from_wire}

pub data PingCheckMode : Type 0 where
  icmp connect : PingCheckMode
  other : Str → PingCheckMode

abbrev pub ping_check_mode_table : List (Str × PingCheckMode)
ping_check_mode_table =
    (codes "icmp", PingCheckMode.icmp) ∷ (codes "connect", PingCheckMode.connect) ∷ []

unfoldable pub ping_check_mode : Str → PingCheckMode
ping_check_mode value = from_wire PingCheckMode.other ping_check_mode_table value

abbrev pub ping_check_mode_str : PingCheckMode → Str
ping_check_mode_str PingCheckMode.icmp = codes "icmp"
ping_check_mode_str PingCheckMode.connect = codes "connect"
ping_check_mode_str (PingCheckMode.other value) = value

pub data PingCheckStatus : Type 0 where
  pass fail not_ready : PingCheckStatus
  other : Str → PingCheckStatus

abbrev pub ping_check_status_table : List (Str × PingCheckStatus)
ping_check_status_table =
    (codes "pass", PingCheckStatus.pass)
    ∷ (codes "fail", PingCheckStatus.fail)
    ∷ (codes "not ready", PingCheckStatus.not_ready)
    ∷ []

unfoldable pub ping_check_status : Str → PingCheckStatus
ping_check_status value = from_wire PingCheckStatus.other ping_check_status_table value

abbrev pub ping_check_status_str : PingCheckStatus → Str
ping_check_status_str PingCheckStatus.pass = codes "pass"
ping_check_status_str PingCheckStatus.fail = codes "fail"
ping_check_status_str PingCheckStatus.not_ready = codes "not ready"
ping_check_status_str (PingCheckStatus.other value) = value

-- What the router reports reads back as the same text.
pub connectivity_texts :
    (value : Str)
    → (ping_check_mode_str (ping_check_mode value) ≡ value)
      × (ping_check_status_str (ping_check_status value) ≡ value)
unfolding ping_check_mode ping_check_status
connectivity_texts value = (
  as_str-from_wire PingCheckMode.other ping_check_mode_str ping_check_mode_table (refl, (refl, tt))
      (λ s. refl) value,
  as_str-from_wire PingCheckStatus.other ping_check_status_str ping_check_status_table
      (refl, (refl, (refl, tt))) (λ s. refl) value,
)
