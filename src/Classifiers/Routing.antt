-- ===== src/Classifiers/Routing.antt =====
-- src/model/routing.rs: the classifiers of routes, by `open_string_enum!`.
use keenetic_rci.Prelude.{◌≡◌, List, [], ◌∷◌, refl}
use keenetic_rci.Prelude.Str.{Str, codes}
use keenetic_rci.OpenEnum.{from_wire, as_str-from_wire}

pub data RouteProtocol : Type 0 where
  boot kernel static : RouteProtocol
  other : Str → RouteProtocol

abbrev pub route_protocol_table : List (Str × RouteProtocol)
route_protocol_table =
    (codes "boot", RouteProtocol.boot)
    ∷ (codes "kernel", RouteProtocol.kernel)
    ∷ (codes "static", RouteProtocol.static)
    ∷ []

unfoldable pub route_protocol : Str → RouteProtocol
route_protocol value = from_wire RouteProtocol.other route_protocol_table value

abbrev pub route_protocol_str : RouteProtocol → Str
route_protocol_str RouteProtocol.boot = codes "boot"
route_protocol_str RouteProtocol.kernel = codes "kernel"
route_protocol_str RouteProtocol.static = codes "static"
route_protocol_str (RouteProtocol.other value) = value

-- What the router reports reads back as the same text.
pub routing_texts : (value : Str) → (route_protocol_str (route_protocol value) ≡ value)
unfolding route_protocol
routing_texts value =
    as_str-from_wire RouteProtocol.other route_protocol_str route_protocol_table
      (refl, (refl, (refl, tt))) (λ s. refl) value
