-- ===== src/Paths.antt =====
-- src/path.rs: validated relative paths. The crate `percent_encoding` is a parameter: `decode` is
-- `percent_decode_str(..).decode_utf8()`, and `encode` is `utf8_percent_encode` with the crate's set.
use keenetic_rci.Prelude.{
  ℕ, Bool, true, false, not, ◌&&◌, ◌||◌, Option, none, some, List, [], ◌∷◌, ◌++◌, Result, ok, err,
  ◌>>=◌, map_err, ◌==◌, leb, if◌then◌else◌, any, str_eq,
}
use keenetic_rci.Prelude.Str.{Str, Bytes, codes, as_bytes, is_control}
pub mod Segments

pub data PathKind : Type 0 where
  rci ci : PathKind

pub record InvalidPath : Type 0 where
  pub kind : PathKind
  pub reason : Str

abbrev pub starts_with : Str → Str → Bool
starts_with value [] = true
starts_with [] (p ∷ prefix) = false
starts_with (c ∷ value) (p ∷ prefix) = c == p && starts_with value prefix

-- `contains` with a text
unfoldable pub contains_str : Str → Str → Bool
contains_str [] part = starts_with [] part
contains_str (c ∷ value) part = starts_with (c ∷ value) part || contains_str value part

-- `split('/')`
abbrev pub push : ℕ → List Str → List Str
push c [] = (c ∷ []) ∷ []
push c (segment ∷ segments) = (c ∷ segment) ∷ segments

unfoldable pub split_slash : Str → List Str
split_slash [] = [] ∷ []
split_slash (c ∷ value) =
    let rest = split_slash value in if c == b'/' then [] ∷ rest else push c rest

abbrev pub is_ascii_hexdigit : ℕ → Bool
is_ascii_hexdigit b =
    leb b'0' b && leb b b'9' || leb b'a' b && leb b b'f' || leb b'A' b && leb b b'F'

abbrev pub bad_escape : Str
bad_escape = codes "percent escapes must contain two hexadecimal digits"

-- `validate_percent_encoding`
unfoldable pub validate_percent_encoding : Bytes → Result (Unit {0}) Str
validate_percent_encoding [] = ok tt
validate_percent_encoding (b ∷ []) = if b == b'%' then err bad_escape else ok tt
validate_percent_encoding (b ∷ high ∷ []) =
    let on = validate_percent_encoding (high ∷ []) in if b == b'%' then err bad_escape else on
validate_percent_encoding (b ∷ high ∷ low ∷ tail) =
    let skip = validate_percent_encoding tail in
    let on = validate_percent_encoding (high ∷ low ∷ tail) in
    if b == b'%'
    then if is_ascii_hexdigit high && is_ascii_hexdigit low then skip else err bad_escape
    else on

abbrev pub namespace_prefix : PathKind → Str
namespace_prefix rci = codes "rci/"
namespace_prefix ci = codes "ci/"

-- An early return of an error.
abbrev pub forbid : PathKind → Bool → Str → Result (Unit {0}) InvalidPath
forbid kind true reason = err (record { kind = kind; reason = reason })
forbid kind false reason = ok tt

abbrev pub checked_escapes : PathKind → Str → Result (Unit {0}) InvalidPath
checked_escapes kind segment =
    map_err (λ reason. record { kind = kind; reason = reason })
      (validate_percent_encoding (as_bytes segment))

abbrev pub decoded_or : PathKind → Option Str → Result Str InvalidPath
decoded_or kind none = err (record { kind = kind; reason = codes "segments must be valid UTF-8" })
decoded_or kind (some decoded) = ok decoded

abbrev pub is_dots : Str → Bool
is_dots decoded = str_eq decoded [] || str_eq decoded (codes ".") || str_eq decoded (codes "..")

abbrev pub is_separator : ℕ → Bool
is_separator c = c == b'/' || c == b'\\'

module _ (decode : Str → Option Str) (encode : Str → Str) (kind : PathKind) where
  -- What the loop asks of a decoded segment.
  unfoldable pub checked_decoded : Str → Result Str InvalidPath
  checked_decoded decoded = do
    _ ← forbid kind (is_dots decoded) (codes "empty, `.` and `..` segments are forbidden")
    _ ← forbid kind (any is_separator decoded) (codes "encoded path separators are forbidden")
    _ ← forbid kind (any is_control decoded) (codes "control characters are forbidden")
    ok decoded

  -- A round of the loop, up to its end.
  unfoldable pub checked_segment : Str → Result Str InvalidPath
  checked_segment segment = do
    _ ← forbid kind (str_eq segment []) (codes "empty path segments are forbidden")
    _ ← checked_escapes kind segment
    decoded ← decoded_or kind (decode segment)
    checked_decoded decoded

  abbrev pub slash : Bool → Str
  slash true = []
  slash false = codes "/"

  -- The loop over the segments, with whether the next is the first, and the text so far.
  unfoldable pub canonical_loop : Bool → Str → List Str → Result Str InvalidPath
  canonical_loop first canonical [] = ok canonical
  canonical_loop first canonical (segment ∷ segments) = checked_segment segment >>= λ decoded.
      canonical_loop false (canonical ++ (slash first ++ encode decoded)) segments

  unfoldable pub finished_path : Str → Result Str InvalidPath
  finished_path canonical = do
    _ ←
        forbid kind (starts_with canonical (namespace_prefix kind))
          (codes "the namespace prefix must be omitted")
    ok canonical

  unfoldable pub segmented : Str → Result Str InvalidPath
  segmented value = do
    canonical ← canonical_loop true [] (split_slash value)
    finished_path canonical

  -- `parse`
  unfoldable pub parse_path : Str → Result Str InvalidPath
  parse_path value = do
    _ ← forbid kind (str_eq value []) (codes "the path is empty")
    _ ← forbid kind (starts_with value (codes "/")) (codes "the path must be relative")
    _ ←
        forbid kind (any (λ c. c == b'?' || c == b'#') value)
          (codes "query strings and fragments are forbidden")
    _ ← forbid kind (any (λ c. c == b'\\') value) (codes "backslashes are forbidden")
    _ ← forbid kind (contains_str value (codes "://")) (codes "schemes and hosts are forbidden")
    _ ←
        forbid kind (starts_with value (namespace_prefix kind))
          (codes "the namespace prefix must be omitted")
    segmented value
