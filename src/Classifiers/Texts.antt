-- ===== src/Classifiers/Texts.antt =====
-- src/model: every open enum of the answers, as a text.
use keenetic_rci.Prelude.{◌≡◌}
use keenetic_rci.Prelude.Str.{Str}
use keenetic_rci.Classifiers.Wifi.{
  wifi_texts, wifi_mode, wifi_mode_str, wifi_security, wifi_security_str,
}
use keenetic_rci.Classifiers.Addresses.{
  addresses_texts, arp_state, arp_state_str, dhcp_binding_mode, dhcp_binding_mode_str,
}
use keenetic_rci.Classifiers.Hotspot.{
  hotspot_texts, hotspot_access, hotspot_access_str, traffic_shape_mode, traffic_shape_mode_str,
}
use keenetic_rci.Classifiers.Storage.{
  storage_texts, usb_subsystem, usb_subsystem_str, usb_version, usb_version_str, usb_power_control,
  usb_power_control_str, media_bus, media_bus_str, media_state, media_state_str, file_system_type,
  file_system_type_str,
}
use keenetic_rci.Classifiers.Connectivity.{
  connectivity_texts, ping_check_mode, ping_check_mode_str, ping_check_status,
  ping_check_status_str,
}
use keenetic_rci.Classifiers.Routing.{routing_texts, route_protocol, route_protocol_str}
use keenetic_rci.Classifiers.Firmware.{
  firmware_texts, architecture, architecture_str, firmware_channel, firmware_channel_str,
  hardware_type, hardware_type_str,
}
use keenetic_rci.Classifiers.Modes.{modes_texts, system_operating_mode, system_operating_mode_str}
use keenetic_rci.Classifiers.Radio.{
  radio_texts, radio_access_technology, radio_access_technology_str,
}
use keenetic_rci.Interfaces.Classifiers.{classifiers_read_back}
use keenetic_rci.Interfaces.{
  link_state, link_state_str, interface_state, interface_state_str, layer_state, layer_state_str,
  interface_kind, interface_kind_str, interface_trait, interface_trait_str,
}

-- A text that the router reports for a Wi-Fi mode or security, the state of an ARP entry, the mode of
-- a DHCP lease, the access or traffic shape of a host, a USB subsystem, version or power control, a
-- media bus or state, a file system, a ping check, a route, the architecture, the firmware channel,
-- the hardware type, the operating mode, the radio technology, or of an interface the link, the
-- state, a layer, the kind or a trait, reads back as the same text,
-- whether it is known or not.
pub every_classifier_reads_back :
    (value : Str)
    → ((wifi_mode_str (wifi_mode value) ≡ value)
        × (wifi_security_str (wifi_security value) ≡ value))
      × ((arp_state_str (arp_state value) ≡ value)
          × (dhcp_binding_mode_str (dhcp_binding_mode value) ≡ value))
      × ((hotspot_access_str (hotspot_access value) ≡ value)
          × (traffic_shape_mode_str (traffic_shape_mode value) ≡ value))
      × ((usb_subsystem_str (usb_subsystem value) ≡ value)
          × (usb_version_str (usb_version value) ≡ value)
          × (usb_power_control_str (usb_power_control value) ≡ value)
          × (media_bus_str (media_bus value) ≡ value)
          × (media_state_str (media_state value) ≡ value)
          × (file_system_type_str (file_system_type value) ≡ value))
      × ((ping_check_mode_str (ping_check_mode value) ≡ value)
          × (ping_check_status_str (ping_check_status value) ≡ value))
      × (route_protocol_str (route_protocol value) ≡ value)
      × ((architecture_str (architecture value) ≡ value)
          × (firmware_channel_str (firmware_channel value) ≡ value)
          × (hardware_type_str (hardware_type value) ≡ value))
      × (system_operating_mode_str (system_operating_mode value) ≡ value)
      × (radio_access_technology_str (radio_access_technology value) ≡ value)
      × ((link_state_str (link_state value) ≡ value)
          × (interface_state_str (interface_state value) ≡ value)
          × (layer_state_str (layer_state value) ≡ value)
          × (interface_kind_str (interface_kind value) ≡ value)
          × (interface_trait_str (interface_trait value) ≡ value))
every_classifier_reads_back value = (
  wifi_texts value,
  addresses_texts value,
  hotspot_texts value,
  storage_texts value,
  connectivity_texts value,
  routing_texts value,
  firmware_texts value,
  modes_texts value,
  radio_texts value,
  classifiers_read_back value,
)
