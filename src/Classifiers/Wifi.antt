-- ===== src/Classifiers/Wifi.antt =====
-- src/model/wifi.rs: the classifiers of Wi-Fi links, by `open_string_enum!`.
use keenetic_rci.Prelude.{◌≡◌, List, [], ◌∷◌, refl}
use keenetic_rci.Prelude.Str.{Str, codes}
use keenetic_rci.OpenEnum.{from_wire, as_str-from_wire}

pub data WifiMode : Type 0 where
  b g n ac ax : WifiMode
  other : Str → WifiMode

abbrev pub wifi_mode_table : List (Str × WifiMode)
wifi_mode_table =
    (codes "11b", WifiMode.b)
    ∷ (codes "11g", WifiMode.g)
    ∷ (codes "11n", WifiMode.n)
    ∷ (codes "11ac", WifiMode.ac)
    ∷ (codes "11ax", WifiMode.ax)
    ∷ []

unfoldable pub wifi_mode : Str → WifiMode
wifi_mode value = from_wire WifiMode.other wifi_mode_table value

abbrev pub wifi_mode_str : WifiMode → Str
wifi_mode_str WifiMode.b = codes "11b"
wifi_mode_str WifiMode.g = codes "11g"
wifi_mode_str WifiMode.n = codes "11n"
wifi_mode_str WifiMode.ac = codes "11ac"
wifi_mode_str WifiMode.ax = codes "11ax"
wifi_mode_str (WifiMode.other value) = value

pub data WifiSecurity : Type 0 where
  is_open wpa2_psk wpa3_psk wpa2_wpa3_psk : WifiSecurity
  other : Str → WifiSecurity

abbrev pub wifi_security_table : List (Str × WifiSecurity)
wifi_security_table =
    (codes "open", WifiSecurity.is_open)
    ∷ (codes "wpa2-psk", WifiSecurity.wpa2_psk)
    ∷ (codes "wpa3-psk", WifiSecurity.wpa3_psk)
    ∷ (codes "wpa2-wpa3-psk", WifiSecurity.wpa2_wpa3_psk)
    ∷ []

unfoldable pub wifi_security : Str → WifiSecurity
wifi_security value = from_wire WifiSecurity.other wifi_security_table value

abbrev pub wifi_security_str : WifiSecurity → Str
wifi_security_str WifiSecurity.is_open = codes "open"
wifi_security_str WifiSecurity.wpa2_psk = codes "wpa2-psk"
wifi_security_str WifiSecurity.wpa3_psk = codes "wpa3-psk"
wifi_security_str WifiSecurity.wpa2_wpa3_psk = codes "wpa2-wpa3-psk"
wifi_security_str (WifiSecurity.other value) = value

-- What the router reports reads back as the same text.
pub wifi_texts :
    (value : Str)
    → (wifi_mode_str (wifi_mode value) ≡ value) × (wifi_security_str (wifi_security value) ≡ value)
unfolding wifi_mode wifi_security
wifi_texts value = (
  as_str-from_wire WifiMode.other wifi_mode_str wifi_mode_table
      (refl, (refl, (refl, (refl, (refl, tt))))) (λ s. refl) value,
  as_str-from_wire WifiSecurity.other wifi_security_str wifi_security_table
      (refl, (refl, (refl, (refl, tt)))) (λ s. refl) value,
)
