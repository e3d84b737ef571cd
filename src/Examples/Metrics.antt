-- ===== src/Examples/Metrics.antt =====
-- Supported modes, memory usage, and the codes of a version.
use keenetic_rci.Prelude.{◌≡◌, ◌↔◌, List, [], ◌∷◌, ok, err, map, All, refl}
use keenetic_rci.Prelude.Str.{Str, codes, as_bytes, encode_utf8}
use keenetic_rci.Prelude.Pieces.{
  split, trim, trim_start, trim_end, is_whitespace, split_once, strip_prefix, parse_unsigned,
  digits_from,
}
use keenetic_rci.Json.{string, custom}
use keenetic_rci.Text.{parse, position}
use keenetic_rci.OpenEnum.{from_wire}
use keenetic_rci.Classifiers.Modes.{
  SystemOperatingMode, system_operating_mode, system_operating_mode_str,
}
use keenetic_rci.System.{
  cpu_load, mtu, invalid_cpu_load, invalid_mtu, deserialize_supported_modes, supported_modes,
  supported_mode,
}
use keenetic_rci.System.Supported.{IsNamed, deserialize_supported_modes_iff}
use keenetic_rci.Mesh.{MwsMemoryUsage, invalid_usage, parse_memory_usage, usage_of}
use keenetic_rci.Mesh.Memory.{IsUsage, parse_memory_usage_iff}
use keenetic_rci.Versions.{parse_region, wrong_letter}

abbrev modes_text : Str
modes_text = codes "router, future-mode"

abbrev two_modes : List SystemOperatingMode
two_modes = SystemOperatingMode.router ∷ SystemOperatingMode.other (codes "future-mode") ∷ []

deserialize_supported_modes_iff_example :
    (deserialize_supported_modes (string modes_text) ≡ ok two_modes) ↔ (
      All IsNamed (split b',' modes_text)
      × (two_modes ≡ map (λ piece. system_operating_mode (trim piece)) (split b',' modes_text))
      × (map system_operating_mode_str two_modes ≡ map trim (split b',' modes_text)))
deserialize_supported_modes_iff_example = deserialize_supported_modes_iff modes_text two_modes

blank_mode : deserialize_supported_modes (string (codes "router, ,adapter")) ≡ err custom
unfolding deserialize_supported_modes supported_modes supported_mode split trim trim_start trim_end
    is_whitespace system_operating_mode from_wire
blank_mode = refl

abbrev usage : MwsMemoryUsage
usage = record { free_kib = 40; total_kib = 128 }

abbrev usage_text : Str
usage_text = codes "40/128"

usage_parsed : parse_memory_usage usage_text ≡ ok usage
unfolding parse_memory_usage usage_of split_once strip_prefix parse_unsigned digits_from
usage_parsed = refl

usage_refused : parse_memory_usage (codes "129/128") ≡ err invalid_usage
unfolding parse_memory_usage usage_of split_once strip_prefix parse_unsigned digits_from
usage_refused = refl

parse_memory_usage_iff_example :
    (parse_memory_usage usage_text ≡ ok usage) ↔ IsUsage usage_text usage
parse_memory_usage_iff_example = parse_memory_usage_iff usage_text usage

region_refused : parse_region (codes "Ea") ≡ err (wrong_letter 1)
unfolding parse_region parse position as_bytes encode_utf8
region_refused = refl

loads : (cpu_load 100 ≡ ok 100) × (cpu_load 101 ≡ err (invalid_cpu_load 101))
unfolding cpu_load
loads = (refl, refl)

mtus : (mtu 63 ≡ err (invalid_mtu 63)) × (mtu 64 ≡ ok 64)
unfolding mtu
mtus = (refl, refl)
