-- ===== src/Classifiers/Hotspot.antt =====
-- src/model/hotspot.rs: the classifiers of hosts of the hotspot, by `open_string_enum!`.
use keenetic_rci.Prelude.{◌≡◌, List, [], ◌∷◌, refl}
use keenetic_rci.Prelude.Str.{Str, codes}
use keenetic_rci.OpenEnum.{from_wire, as_str-from_wire}

pub data HotspotAccess : Type 0 where
  permit deny : HotspotAccess
  other : Str → HotspotAccess

abbrev pub hotspot_access_table : List (Str × HotspotAccess)
hotspot_access_table =
    (codes "permit", HotspotAccess.permit) ∷ (codes "deny", HotspotAccess.deny) ∷ []

unfoldable pub hotspot_access : Str → HotspotAccess
hotspot_access value = from_wire HotspotAccess.other hotspot_access_table value

abbrev pub hotspot_access_str : HotspotAccess → Str
hotspot_access_str HotspotAccess.permit = codes "permit"
hotspot_access_str HotspotAccess.deny = codes "deny"
hotspot_access_str (HotspotAccess.other value) = value

pub data TrafficShapeMode : Type 0 where
  mac : TrafficShapeMode
  other : Str → TrafficShapeMode

abbrev pub traffic_shape_mode_table : List (Str × TrafficShapeMode)
traffic_shape_mode_table = (codes "mac", TrafficShapeMode.mac) ∷ []

unfoldable pub traffic_shape_mode : Str → TrafficShapeMode
traffic_shape_mode value = from_wire TrafficShapeMode.other traffic_shape_mode_table value

abbrev pub traffic_shape_mode_str : TrafficShapeMode → Str
traffic_shape_mode_str TrafficShapeMode.mac = codes "mac"
traffic_shape_mode_str (TrafficShapeMode.other value) = value

-- What the router reports reads back as the same text.
pub hotspot_texts :
    (value : Str)
    → (hotspot_access_str (hotspot_access value) ≡ value)
      × (traffic_shape_mode_str (traffic_shape_mode value) ≡ value)
unfolding hotspot_access traffic_shape_mode
hotspot_texts value = (
  as_str-from_wire HotspotAccess.other hotspot_access_str hotspot_access_table (refl, (refl, tt))
      (λ s. refl) value,
  as_str-from_wire TrafficShapeMode.other traffic_shape_mode_str traffic_shape_mode_table (refl, tt)
      (λ s. refl) value,
)
