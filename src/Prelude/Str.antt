-- ===== src/Prelude/Str.antt =====
-- Texts. A `str` is the list of its scalar values; `as_bytes` is its UTF-8 encoding and
-- `from_utf8` the decoder of the standard library.
use Prim.Native.Nat.{ℕ, zero, suc, ◌+◌, ◌-◌, ◌*◌, ◌/◌, ◌%◌, ◌<◌}
use Prim.Native.Char.{code}
use Prim.Native.String.{String}
use mathlib.Core.Path.{◌≡◌, refl}
use mathlib.Core.Bool.{Bool, ◌&&◌, ◌||◌}
use mathlib.Core.Option.{Option, none, some}
use mathlib.Core.List.{List, [], ◌∷◌, ◌++◌}
use native.Mathlib.Omega.{arith}
use keenetic_rci.Prelude.Tests.{ltb, leb, ◌==◌, if◌then◌else◌}
use keenetic_rci.Prelude.Lists.{All}

abbrev pub Str : Type 0
Str = List ℕ

abbrev pub Bytes : Type 0
Bytes = List ℕ

-- A text literal as scalar values.
abbrev pub codes : String → Str
codes String.[] = []
codes (String.◌∷◌ c s) = code c ∷ codes s

-- `char::encode_utf8`.
unfoldable pub encode_utf8 : ℕ → Bytes
encode_utf8 c =
    if ltb c 0x80
    then c ∷ []
    else if ltb c 0x800
    then (0xc0 + c / 64) ∷ (0x80 + c % 64) ∷ []
    else if ltb c 0x10000
    then (0xe0 + c / 4096) ∷ (0x80 + c / 64 % 64) ∷ (0x80 + c % 64) ∷ []
    else (0xf0 + c / 262144) ∷ (0x80 + c / 4096 % 64) ∷ (0x80 + c / 64 % 64) ∷ (0x80 + c % 64) ∷ []

-- `str::as_bytes`.
unfoldable pub as_bytes : Str → Bytes
as_bytes [] = []
as_bytes (c ∷ s) = encode_utf8 c ++ as_bytes s

-- The decoder between two bytes: how many continuation bytes are due, the bits read so far, and
-- the range of the next byte, which rules out overlong forms, surrogates and values past 0x10ffff.
record Decoder : Type 0 where
  due : ℕ
  bits : ℕ
  low : ℕ
  high : ℕ

abbrev ready : Decoder
ready = record { due = 0; bits = 0; low = 0x80; high = 0xbf }

abbrev within : ℕ → ℕ → ℕ → Bool
within lo hi b = leb lo b && leb b hi

lead : ℕ → Option (Decoder × Option ℕ)
lead b =
    if ltb b 0x80
    then some (ready, some b)
    else if within 0xc2 0xdf b
    then some (record { due = 1; bits = b - 0xc0; low = 0x80; high = 0xbf }, none)
    else if within 0xe0 0xef b
    then some (
      record {
        due = 2;
        bits = b - 0xe0;
        low = if b == 0xe0 then 0xa0 else 0x80;
        high = if b == 0xed then 0x9f else 0xbf;
      },
      none,
    )
    else if within 0xf0 0xf4 b
    then some (
      record {
        due = 3;
        bits = b - 0xf0;
        low = if b == 0xf0 then 0x90 else 0x80;
        high = if b == 0xf4 then 0x8f else 0xbf;
      },
      none,
    )
    else none

-- `due` bytes are still to come, the last argument among them.
continue_with : ℕ → Decoder → ℕ → Option (Decoder × Option ℕ)
continue_with zero d b = lead b
continue_with (suc zero) d b =
    if within d.low d.high b then some (ready, some (d.bits * 64 + (b - 0x80))) else none
continue_with (suc n) d b =
    if within d.low d.high b
    then some (record { due = n; bits = d.bits * 64 + (b - 0x80); low = 0x80; high = 0xbf }, none)
    else none

abbrev emit : Option ℕ → Option Str → Option Str
emit none rest = rest
emit (some c) none = none
emit (some c) (some s) = some (c ∷ s)

decode : Decoder → Bytes → Option Str
decode d [] = if d.due == 0 then some [] else none
decode d (b ∷ bs) = elim (continue_with d.due d b) [
  | none ↦ none
  | some (d', c) ↦ emit c (decode d' bs)
]

-- `str::from_utf8`; `none` is the error.
unfoldable pub from_utf8 : Bytes → Option Str
unfolding decode continue_with lead
from_utf8 bs = decode ready bs

-- ASCII bytes are their own text, in both directions.
pub as_bytes_ascii : (s : Str) → All (λ c. c < 128) s → as_bytes s ≡ s
unfolding as_bytes encode_utf8
as_bytes_ascii [] h = refl
as_bytes_ascii (c ∷ s) h = ground (arith, as_bytes_ascii s h.1)

decode_ascii : (s : Bytes) → All (λ c. c < 128) s → decode ready s ≡ some s
unfolding decode continue_with lead
decode_ascii [] h = refl
decode_ascii (c ∷ s) h = ground (arith, decode_ascii s h.1)

pub from_utf8_ascii : (s : Bytes) → All (λ c. c < 128) s → from_utf8 s ≡ some s
unfolding from_utf8
from_utf8_ascii s h = decode_ascii s h

-- `char::is_control`: the scalar values of category Cc.
unfoldable pub is_control : ℕ → Bool
is_control c = ltb c 32 || (leb 127 c && leb c 159)
