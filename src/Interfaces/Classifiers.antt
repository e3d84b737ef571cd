-- ===== src/Interfaces/Classifiers.antt =====
-- src/model.rs: the classifiers of an interface, as texts.
use keenetic_rci.Prelude.{◌≡◌, refl}
use keenetic_rci.Prelude.Str.{Str}
use keenetic_rci.OpenEnum.{as_str-from_wire}
use keenetic_rci.Interfaces.{
  LinkState, InterfaceState, InterfaceLayerState, InterfaceKind, InterfaceTrait, link_states,
  link_state, link_state_str, interface_states, interface_state, interface_state_str, layer_states,
  layer_state, layer_state_str, interface_kinds, interface_kind, interface_kind_str,
  interface_traits, interface_trait, interface_trait_str,
}

-- What the router reports as a link state, an administrative state, a layer state, an interface
-- kind or an interface trait reads back as the same text, whether it is known or not.
pub classifiers_read_back :
    (value : Str)
    → (link_state_str (link_state value) ≡ value)
      × (interface_state_str (interface_state value) ≡ value)
      × (layer_state_str (layer_state value) ≡ value)
      × (interface_kind_str (interface_kind value) ≡ value)
      × (interface_trait_str (interface_trait value) ≡ value)
unfolding link_state interface_state layer_state interface_kind interface_trait
classifiers_read_back value = (
  as_str-from_wire LinkState.other link_state_str link_states (refl, (refl, tt)) (λ s. refl) value,
  as_str-from_wire InterfaceState.other interface_state_str interface_states (refl, (refl, tt))
      (λ s. refl) value,
  as_str-from_wire InterfaceLayerState.other layer_state_str layer_states (refl, (refl, (refl, tt)))
      (λ s. refl) value,
  as_str-from_wire InterfaceKind.other interface_kind_str interface_kinds
      (refl, (refl, (refl, (refl, (refl, (refl, tt)))))) (λ s. refl) value,
  as_str-from_wire InterfaceTrait.other interface_trait_str interface_traits
      (refl, (refl, (refl, (refl, (refl, tt))))) (λ s. refl) value,
)
