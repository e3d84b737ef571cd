-- ===== src/Examples/Values.antt =====
-- Values of the answers on concrete texts.
use keenetic_rci.Prelude.{
  ℕ, ◌/◌, ◌%◌, Result, ◌≡◌, ◌↔◌, ◌<◌, some, none, [], ◌∷◌, ok, err, arith, refl, length,
}
use keenetic_rci.Prelude.Str.{Str, codes, as_bytes, encode_utf8}
use keenetic_rci.Prelude.Pieces.{split_once, strip_prefix, split, parse_unsigned, digits_from}
use keenetic_rci.Prelude.Words.{fitting}
use keenetic_rci.Network.Mac.{
  parse_mac, display_mac, octets_from, check_octet, decode_hex, invalid_separator,
}
use keenetic_rci.Network.Mac.Display.{parse_mac-display_mac}
use keenetic_rci.Network.Mac.Spelling.{Spells, parse_mac_iff}
use keenetic_rci.Network.Readings.{Duration, from_secs, parse_human_uptime, uptime_seconds}
use keenetic_rci.Network.Readings.Times.{IsHuman, parse_human_uptime-IsHuman}
use keenetic_rci.Network.Decimal.{parse_decimal_duration, fraction_nanos}
use keenetic_rci.Network.Decimal.Fractions.{IsDecimal, parse_decimal_duration-IsDecimal}
use keenetic_rci.Hardware.{HardwareId, ParseHardwareIdError, parse_hardware_id}
use keenetic_rci.Hardware.Reading.{parse_hardware_id_total}
use keenetic_rci.Cli.{parse_command}
use keenetic_rci.Cli.Commands.{IsRead, parse_command-IsRead}
use keenetic_rci.Mobile.{ServingCell, ComponentCarrier, eci, number}
use keenetic_rci.Mobile.Cell.{eci_iff}

abbrev mac_text : Str
mac_text = codes "02:aB:00:ff:10:7e"

abbrev mac : Str
mac = 2 ∷ 171 ∷ 0 ∷ 255 ∷ 16 ∷ 126 ∷ []

mac_parsed : parse_mac mac_text ≡ ok mac
unfolding parse_mac octets_from check_octet decode_hex as_bytes encode_utf8
mac_parsed = refl

mac_refused : parse_mac (codes "02:ab:00-ff:10:7e") ≡ err (invalid_separator 8)
unfolding parse_mac octets_from check_octet decode_hex as_bytes encode_utf8
mac_refused = refl

parse_mac_iff_example :
    (parse_mac mac_text ≡ ok mac) ↔ ((length mac ≡ 6) × Spells mac (as_bytes mac_text))
parse_mac_iff_example = parse_mac_iff mac_text mac

parse_mac-display_mac_example : parse_mac (display_mac mac) ≡ ok mac
parse_mac-display_mac_example = parse_mac-display_mac mac (
  refl,
  (omega arith, (omega arith, (omega arith, (omega arith, (omega arith, (omega arith, tt)))))),
)

abbrev uptime_text : Str
uptime_text = codes "2 days, 03:04:05"

uptime_read : parse_human_uptime uptime_text ≡ some (from_secs 183845)
unfolding parse_human_uptime split_once strip_prefix split parse_unsigned digits_from uptime_seconds
    fitting
uptime_read = refl

parse_human_uptime-IsHuman_example : IsHuman uptime_text (from_secs 183845)
parse_human_uptime-IsHuman_example =
    parse_human_uptime-IsHuman uptime_text (from_secs 183845) uptime_read

abbrev half : Duration
half = record { secs = 12; nanos = 50000000 }

half_read : parse_decimal_duration (codes "12.05") ≡ ok half
unfolding parse_decimal_duration fraction_nanos split_once strip_prefix parse_unsigned digits_from
    as_bytes encode_utf8
half_read = refl

parse_decimal_duration-IsDecimal_example : IsDecimal (codes "12.05") half
parse_decimal_duration-IsDecimal_example =
    parse_decimal_duration-IsDecimal (codes "12.05") half half_read

abbrev largest : ℕ
largest = 18446744073709

abbrev hardware : Str
hardware = codes "NC-0012"

parse_hardware_id_total_example :
    (r : Result HardwareId ParseHardwareIdError) × (parse_hardware_id hardware ≡ some r)
parse_hardware_id_total_example = parse_hardware_id_total hardware

abbrev blank_command : Str
blank_command = codes " \n "

parse_command-IsRead_example : IsRead blank_command (parse_command blank_command)
parse_command-IsRead_example = parse_command-IsRead blank_command

abbrev cell : ServingCell
cell = record { plmn = none; enb_id = some 100001; sector_id = some 1; tac = none }

eci_iff_example : (eci cell ≡ some 25600257) ↔ (
    (25600257 < 268435456)
    × (cell.enb_id ≡ some (25600257 / 256))
    × (cell.sector_id ≡ some (25600257 % 256)))
eci_iff_example = eci_iff cell 25600257

abbrev carrier : ℕ → ComponentCarrier
carrier band = record {
  active = none;
  network = none;
  band = some (number band);
  earfcn = none;
  downlink_frequency = none;
  uplink_frequency = none;
  bandwidth = none;
  physical_cell_id = some 42;
}
