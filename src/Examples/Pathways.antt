-- ===== src/Examples/Pathways.antt =====
-- Paths that are taken and refused, with segments that need no escapes.
use keenetic_rci.Prelude.{◌≡◌, Option, some, ok, err, refl, str_eq}
use keenetic_rci.Prelude.Str.{Str, codes, as_bytes, encode_utf8, is_control}
use keenetic_rci.Paths.{
  rci, parse_path, segmented, canonical_loop, finished_path, checked_segment, checked_decoded,
  split_slash, contains_str, validate_percent_encoding,
}
use keenetic_rci.Paths.Segments.{IsCanonical, parse_path-IsCanonical}

abbrev same_text : Str → Option Str
same_text segment = some segment

abbrev kept : Str → Str
kept decoded = decoded

abbrev path : Str
path = codes "show/version"

path_taken : parse_path same_text kept rci path ≡ ok path
unfolding parse_path segmented canonical_loop finished_path checked_segment checked_decoded
    split_slash contains_str validate_percent_encoding str_eq as_bytes encode_utf8 is_control
path_taken = refl

dots_refused :
    parse_path same_text kept rci (codes "show/../ci")
    ≡ err (record { kind = rci; reason = codes "empty, `.` and `..` segments are forbidden" })
unfolding parse_path segmented canonical_loop finished_path checked_segment checked_decoded
    split_slash contains_str validate_percent_encoding str_eq as_bytes encode_utf8 is_control
dots_refused = refl

parse_path-IsCanonical_example : IsCanonical same_text kept rci path path
parse_path-IsCanonical_example = parse_path-IsCanonical same_text kept rci path path path_taken
