-- ===== src/Prelude/Pieces.antt =====
-- The library functions on texts that the models use: `str::split`, `split_once`, `trim`, and
-- `parse` for unsigned numbers.
use Prim.Native.Nat.{ℕ, ◌+◌, ◌-◌, ◌*◌, ◌≤◌}
use mathlib.Core.Path.{◌≡◌, refl, ap, sym, ◌∙◌}
use mathlib.Core.Logic.{inl, inr}
use mathlib.Core.Bool.{Bool, false, ◌&&◌, ◌||◌}
use mathlib.Core.Option.{Option, none, some}
use mathlib.Core.List.{List, [], ◌∷◌, ◌++◌}
use native.Mathlib.Omega.{arith}
use keenetic_rci.Prelude.Tests.{leb, ◌==◌, if◌then◌else◌, Bool-cases}
use keenetic_rci.Prelude.Lists.{All}
use keenetic_rci.Prelude.Str.{Str}

-- `char::is_whitespace`: the scalar values with the property White_Space.
unfoldable pub is_whitespace : ℕ → Bool
is_whitespace c =
    (leb 9 c && leb c 13)
    || c == 32
    || c == 0x85
    || c == 0xa0
    || c == 0x1680
    || (leb 0x2000 c && leb c 0x200a)
    || c == 0x2028
    || c == 0x2029
    || c == 0x202f
    || c == 0x205f
    || c == 0x3000

-- `trim_start`, `trim_end` and `trim`.
unfoldable pub trim_start : Str → Str
trim_start [] = []
trim_start (c ∷ s) = if is_whitespace c then trim_start s else c ∷ s

abbrev pub kept_end : ℕ → Str → Str
kept_end c [] = if is_whitespace c then [] else c ∷ []
kept_end c (d ∷ s) = c ∷ d ∷ s

unfoldable pub trim_end : Str → Str
trim_end [] = []
trim_end (c ∷ s) = kept_end c (trim_end s)

unfoldable pub trim : Str → Str
unfolding trim_start trim_end
trim s = trim_end (trim_start s)

-- `str::strip_prefix`
unfoldable pub strip_prefix : Str → Str → Option Str
strip_prefix [] s = some s
strip_prefix (p ∷ ps) [] = none
strip_prefix (p ∷ ps) (c ∷ s) = let rest = strip_prefix ps s in if p == c then rest else none

abbrev after_char : ℕ → Option (Str × Str) → Option (Str × Str)
after_char c none = none
after_char c (some (front, back)) = some (c ∷ front, back)

abbrev split_here : ℕ → Option Str → Option (Str × Str) → Option (Str × Str)
split_here c none later = after_char c later
split_here c (some back) later = some ([], back)

-- `str::split_once` at the first occurrence of a text that is not empty.
unfoldable pub split_once : Str → Str → Option (Str × Str)
unfolding strip_prefix
split_once separator [] = none
split_once separator (c ∷ s) =
    split_here c (strip_prefix separator (c ∷ s)) (split_once separator s)

abbrev pub push_front : ℕ → List Str → List Str
push_front c [] = (c ∷ []) ∷ []
push_front c (piece ∷ pieces) = (c ∷ piece) ∷ pieces

-- `str::split` at a character.
unfoldable pub split : ℕ → Str → List Str
split separator [] = [] ∷ []
split separator (c ∷ s) =
    let pieces = split separator s in if c == separator then [] ∷ pieces else push_front c pieces

abbrev pub join : ℕ → List Str → Str
join separator [] = []
join separator (piece ∷ []) = piece
join separator (piece ∷ next ∷ pieces) = piece ++ (separator ∷ join separator (next ∷ pieces))

-- The digits after a value that has been read, with checked arithmetic.
unfoldable pub digits_from : ℕ → ℕ → Str → Option ℕ
digits_from greatest value [] = some value
digits_from greatest value (c ∷ s) =
    let next = value * 10 + (c - b'0') in
    let rest = digits_from greatest next s in
    if leb b'0' c && leb c b'9' && leb next greatest then rest else none

-- `parse::<u64>` and its like: an optional sign, and one digit at least.
unfoldable pub parse_unsigned : ℕ → Str → Option ℕ
unfolding digits_from
parse_unsigned greatest [] = none
parse_unsigned greatest (c ∷ []) = digits_from greatest 0 (c ∷ [])
parse_unsigned greatest (c ∷ d ∷ s) =
    if c == b'+' then digits_from greatest 0 (d ∷ s) else digits_from greatest 0 (c ∷ d ∷ s)

pub digits_from_bound :
    (greatest value : ℕ) (s : Str) (n : ℕ)
    → value ≤ greatest
    → digits_from greatest value s ≡ some n
    → n ≤ greatest
unfolding digits_from
digits_from_bound greatest value [] n h e = ground arith
digits_from_bound greatest value (c ∷ s) n h e =
    elim (Bool-cases (leb b'0' c && leb c b'9' && leb (value * 10 + (c - b'0')) greatest)) [
      | inl good ↦
          let rest = rw good at e in
          digits_from_bound greatest (value * 10 + (c - b'0')) s n (ground (arith, good)) rest
      | inr bad ↦ absurd (ground (arith, bad, e))
    ]

pub parse_unsigned_bound :
    (greatest : ℕ) (s : Str) (n : ℕ) → parse_unsigned greatest s ≡ some n → n ≤ greatest
unfolding parse_unsigned
parse_unsigned_bound greatest [] n e = cc
parse_unsigned_bound greatest (c ∷ []) n e = digits_from_bound greatest 0 (c ∷ []) n (omega arith) e
parse_unsigned_bound greatest (c ∷ d ∷ s) n e = elim (Bool-cases (c == b'+')) [
  | inl plus ↦ digits_from_bound greatest 0 (d ∷ s) n (omega arith) (rw plus at e)
  | inr digit ↦ digits_from_bound greatest 0 (c ∷ d ∷ s) n (omega arith) (rw digit at e)
]

pub strip_prefix-eq-some : (p s rest : Str) → strip_prefix p s ≡ some rest → s ≡ p ++ rest
unfolding strip_prefix
strip_prefix-eq-some [] s rest e = cc
strip_prefix-eq-some (p ∷ ps) [] rest e = cc
strip_prefix-eq-some (p ∷ ps) (c ∷ s) rest e = elim (Bool-cases (p == c)) [
  | inl same ↦
      let k : p ≡ c = ground (arith, same) in
      let inner = strip_prefix-eq-some ps s rest (rw same at e) in rw (k, inner) refl
  | inr other ↦ absurd (ground (arith, other, e))
]

split_here_parts :
    (separator : Str) (c : ℕ) (s front back : Str) (now : Option Str) (later : Option (Str × Str))
    → strip_prefix separator (c ∷ s) ≡ now
    → split_once separator s ≡ later
    → split_here c now later ≡ some (front, back)
    → ((f b : Str) → split_once separator s ≡ some (f, b) → s ≡ f ++ (separator ++ b))
    → c ∷ s ≡ front ++ (separator ++ back)
split_here_parts separator c s front back none none n l e inner = absurd (ground arith)
split_here_parts separator c s front back none (some (f, b)) n l e inner =
    let one : c ∷ f ≡ front = cc in
    let two : b ≡ back = cc in rw (sym one, sym two) (ap (λ t. c ∷ t) (inner f b l))
split_here_parts separator c s front back (some rest) later n l e inner =
    let one : [] ≡ front = cc in
    let two : rest ≡ back = cc in
    rw (sym one, sym two) (strip_prefix-eq-some separator (c ∷ s) rest n)

-- The two parts of a text that is split once, with the separator between them.
pub split_once-eq-some :
    (separator s front back : Str)
    → split_once separator s ≡ some (front, back)
    → s ≡ front ++ (separator ++ back)
unfolding split_once
split_once-eq-some separator [] front back e = cc
split_once-eq-some separator (c ∷ s) front back e =
    split_here_parts separator c s front back (strip_prefix separator (c ∷ s))
      (split_once separator s) refl refl e (split_once-eq-some separator s)

push_front_some : (c : ℕ) (pieces : List Str) → ¬ (push_front c pieces ≡ [])
push_front_some c [] e = cc
push_front_some c (piece ∷ pieces) e = cc

join_empty :
    (separator : ℕ) (pieces : List Str)
    → ¬ (pieces ≡ [])
    → join separator ([] ∷ pieces) ≡ separator ∷ join separator pieces
join_empty separator [] h = absurd (h refl)
join_empty separator (piece ∷ pieces) h = refl

join-push_front :
    (separator c : ℕ) (pieces : List Str)
    → join separator (push_front c pieces) ≡ c ∷ join separator pieces
join-push_front separator c [] = refl
join-push_front separator c (piece ∷ []) = refl
join-push_front separator c (piece ∷ next ∷ pieces) = refl

push_front-All :
    (separator c : ℕ) (pieces : List Str)
    → (c == separator) ≡ false
    → All (λ piece. All (λ d. (d == separator) ≡ false) piece) pieces
    → All (λ piece. All (λ d. (d == separator) ≡ false) piece) (push_front c pieces)
push_front-All separator c [] away h = ((away, tt), tt)
push_front-All separator c (piece ∷ pieces) away (h, later) = ((away, h), later)

split_some : (separator : ℕ) (s : Str) → ¬ (split separator s ≡ [])
unfolding split
split_some separator [] e = cc
split_some separator (c ∷ s) e = elim (Bool-cases (c == separator)) [
  | inl here ↦ absurd (ground (arith, here, e))
  | inr away ↦ push_front_some c (split separator s) (sym (rw away) ∙ e)
]

pub join-split : (separator : ℕ) (s : Str) → join separator (split separator s) ≡ s
unfolding split
join-split separator [] = refl
join-split separator (c ∷ s) = elim (Bool-cases (c == separator)) [
  | inl here ↦
      let same : c ≡ separator = ground (arith, here) in
      rw (here, same)
        (join_empty separator (split separator s) (split_some separator s)
          ∙ ap (λ t. separator ∷ t) (join-split separator s))
  | inr away ↦
      rw away
        (join-push_front separator c (split separator s) ∙ ap (λ t. c ∷ t) (join-split separator s))
]

-- No piece of a split text holds the separator.
pub split_without :
    (separator : ℕ) (s : Str)
    → All (λ piece. All (λ c. (c == separator) ≡ false) piece) (split separator s)
unfolding split
split_without separator [] = (tt, tt)
split_without separator (c ∷ s) = elim (Bool-cases (c == separator)) [
  | inl here ↦ rw here (tt, split_without separator s)
  | inr away ↦
      rw away (push_front-All separator c (split separator s) away (split_without separator s))
]
