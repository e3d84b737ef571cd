-- ===== src/Paths/Segments.antt =====
-- src/path.rs, `parse`: what a path that is taken consists of.
use keenetic_rci.Prelude.{
  ◌==◌, ◌≡◌, Bool, true, false, ◌||◌, Option, List, [], ◌∷◌, ◌++◌, Result, ok, ◌>>=◌, >>=-eq-ok,
  ok-injective, refl, sym, ap, ◌∙◌, any, str_eq, append-nil, append_assoc, All, All-map, subst, ℕ,
  ◌≢◌, some, none, arith, map, str_eq_refl, Bool-cases, inl, inr,
}
use keenetic_rci.Prelude.Str.{Str, codes, is_control}
use keenetic_rci.Prelude.Pieces.{split, join, push_front, join-split, split_without}
use keenetic_rci.Paths.{
  push, PathKind, InvalidPath, starts_with, split_slash, namespace_prefix, forbid, checked_escapes,
  decoded_or, is_dots, is_separator, checked_decoded, checked_segment, slash, canonical_loop,
  finished_path, segmented, parse_path, contains_str,
}

-- A character of a decoded segment: no slash, no backslash, no control character.
abbrev pub IsSegmentChar : ℕ → Type 0
IsSegmentChar c = (c ≢ b'/') × (c ≢ b'\\') × (is_control c ≡ false)

-- A decoded segment: it is not empty, `.` or `..`.
abbrev pub IsSegment : Str → Type 0
IsSegment decoded =
    (decoded ≢ []) × (decoded ≢ codes ".") × (decoded ≢ codes "..") × All IsSegmentChar decoded

different : (s t : Str) → str_eq s t ≡ false → s ≢ t
different s t h e = let same = str_eq_refl t in ground (arith, h, same, ap (λ x. str_eq x t) e)

chars : (s : Str) → any is_separator s ≡ false → any is_control s ≡ false → All IsSegmentChar s
chars [] h k = tt
chars (c ∷ s) h k = (
  (λ e. ground (arith, h, e), λ e. ground (arith, h, e), ground (arith, k)),
  chars s (ground (arith, h)) (ground (arith, k)),
)

dots-IsSegment :
    (decoded : Str)
    → is_dots decoded ≡ false
    → any is_separator decoded ≡ false
    → any is_control decoded ≡ false
    → IsSegment decoded
dots-IsSegment decoded dots separators controls = (
  different decoded [] (ground (arith, dots)),
  different decoded (codes ".") (ground (arith, dots)),
  different decoded (codes "..") (ground (arith, dots)),
  chars decoded separators controls,
)

split_slash-split : (value : Str) → split_slash value ≡ split b'/' value
unfolding split_slash split
split_slash-split [] = refl
split_slash-split (c ∷ value) = elim (Bool-cases (c == b'/')) [
  | inl here ↦ rw (here, split_slash-split value) refl
  | inr away ↦ rw (away, split_slash-split value) (push_same c (split b'/' value))
]
  where
    push_same : (d : ℕ) (pieces : List Str) → push d pieces ≡ push_front d pieces
    push_same d [] = refl
    push_same d (piece ∷ pieces) = refl

no_slash :
    (pieces : List Str)
    → All (λ piece. All (λ c. (c == b'/') ≡ false) piece) pieces
    → All (λ piece. All (λ c. c ≢ b'/') piece) pieces
no_slash pieces h =
    All-map _ _ pieces (λ piece k. All-map _ _ piece (λ c e. λ q. ground (arith, e, q)) k) h

forbid-eq-ok {ℓ} :
    {A : Type ℓ} (kind : PathKind) (test : Bool) (reason : Str) (rest : Result A InvalidPath)
    {a : A}
    → (forbid kind test reason >>= λ _. rest) ≡ ok a
    → (test ≡ false) × (rest ≡ ok a)
forbid-eq-ok kind true reason rest h = cc
forbid-eq-ok kind false reason rest h = (refl, h)

module _ (decode : Str → Option Str) (encode : Str → Str) (kind : PathKind) where
  checked_decoded-IsSegment :
      (decoded d : Str) → checked_decoded decode encode kind decoded ≡ ok d → IsSegment d
  unfolding checked_decoded
  checked_decoded-IsSegment decoded d h =
      let (dots, h1) = forbid-eq-ok kind (is_dots decoded) _ _ h in
      let (separators, h2) = forbid-eq-ok kind (any is_separator decoded) _ _ h1 in
      let (controls, h3) = forbid-eq-ok kind (any is_control decoded) _ _ h2 in
      subst IsSegment (ok-injective h3) (dots-IsSegment decoded dots separators controls)

  -- The decoded segments of the segments, in order.
  abbrev pub Decodes : List Str → List Str → Type 0
  Decodes [] [] = Unit
  Decodes [] (d ∷ ds) = ⊥
  Decodes (segment ∷ segments) [] = ⊥
  Decodes (segment ∷ segments) (d ∷ ds) =
      (segment ≢ []) × (decode segment ≡ some d) × IsSegment d × Decodes segments ds

  decoded_or-eq-ok : (o : Option Str) (d : Str) → decoded_or kind o ≡ ok d → o ≡ some d
  decoded_or-eq-ok none d h = cc
  decoded_or-eq-ok (some x) d h = ap some (ok-injective h)

  checked_decoded_same :
      (decoded d : Str) → checked_decoded decode encode kind decoded ≡ ok d → decoded ≡ d
  unfolding checked_decoded
  checked_decoded_same decoded d h =
      let (dots, h1) = forbid-eq-ok kind (is_dots decoded) _ _ h in
      let (separators, h2) = forbid-eq-ok kind (any is_separator decoded) _ _ h1 in
      let (controls, h3) = forbid-eq-ok kind (any is_control decoded) _ _ h2 in ok-injective h3

  checked_segment-IsSegment :
      (segment d : Str)
      → checked_segment decode encode kind segment ≡ ok d
      → (segment ≢ []) × (decode segment ≡ some d) × IsSegment d
  unfolding checked_segment
  checked_segment-IsSegment segment d h =
      let (full, h1) = forbid-eq-ok kind (str_eq segment []) _ _ h in
      let (u, valid, h2) = >>=-eq-ok (checked_escapes kind segment) _ h1 in
      let (decoded, found, h3) = >>=-eq-ok (decoded_or kind (decode segment)) _ h2 in
      let same = checked_decoded_same decoded d h3 in
      (
        different segment [] full,
        decoded_or-eq-ok (decode segment) decoded found ∙ ap some same,
        checked_decoded-IsSegment decoded d h3,
      )

  -- The text of the encodings, as the loop makes it.
  unfoldable rendered : Bool → List Str → Str
  rendered first [] = []
  rendered first (d ∷ ds) = (slash decode encode kind first ++ encode d) ++ rendered false ds

  join-rendered :
      (d : Str) (ds : List Str) → encode d ++ rendered false ds ≡ join b'/' (map encode (d ∷ ds))
  unfolding rendered
  join-rendered d [] = append-nil (encode d)
  join-rendered d (e ∷ ds) = ap (λ t. encode d ++ b'/' ∷ t) (join-rendered e ds)

  rendered-join : (ds : List Str) → rendered true ds ≡ join b'/' (map encode ds)
  unfolding rendered
  rendered-join [] = refl
  rendered-join (d ∷ ds) = join-rendered d ds

  record Renders (first : Bool) (before path : Str) (segments : List Str) : Type 0 where
    decoded : List Str
    decodes : Decodes segments decoded
    text : path ≡ before ++ rendered first decoded

  canonical_loop-Renders :
      (first : Bool) (before path : Str) (segments : List Str)
      → canonical_loop decode encode kind first before segments ≡ ok path
      → Renders first before path segments
  unfolding canonical_loop rendered
  canonical_loop-Renders first before path [] h = record {
    decoded = [];
    decodes = tt;
    text = sym (ok-injective h) ∙ sym (append-nil before);
  }
  canonical_loop-Renders first before path (segment ∷ segments) h =
      let (d, checked, rest) =
        >>=-eq-ok (checked_segment decode encode kind segment)
          (λ d.
            canonical_loop decode encode kind false
              (before ++ (slash decode encode kind first ++ encode d)) segments)
          h in
      let (full, found, good) = checked_segment-IsSegment segment d checked in
      let r = canonical_loop-Renders false _ path segments rest in
      record {
        decoded = d ∷ r.decoded;
        decodes = (full, found, good, r.decodes);
        text =
            r.text
            ∙ append_assoc before (slash decode encode kind first ++ encode d)
                (rendered false r.decoded);
      }

  -- A path that is taken: the value is segments with slashes between them, none with a slash in it;
  -- each is decoded, and the path is the encodings of these with slashes between them, and does not
  -- begin with the prefix of its namespace.
  pub record IsCanonical (value path : Str) : Type 0 where
    pub segments : List Str
    pub decoded : List Str
    pub joined : value ≡ join b'/' segments
    pub apart : All (λ segment. All (λ c. c ≢ b'/') segment) segments
    pub decodes : Decodes segments decoded
    pub text : path ≡ join b'/' (map encode decoded)
    pub no_prefix : starts_with path (namespace_prefix kind) ≡ false

  segmented-IsCanonical :
      (value path : Str) → segmented decode encode kind value ≡ ok path → IsCanonical value path
  unfolding segmented finished_path
  segmented-IsCanonical value path h =
      let (canonical, looped, h1) =
        >>=-eq-ok (canonical_loop decode encode kind true [] (split_slash value))
          (finished_path decode encode kind) h in
      let (no_prefix, h2) =
        forbid-eq-ok kind (starts_with canonical (namespace_prefix kind)) _ (ok canonical) h1 in
      let same = ok-injective h2 in
      let r = canonical_loop-Renders true [] canonical (split_slash value) looped in
      record {
        segments = split_slash value;
        decoded = r.decoded;
        joined =
            sym (join-split b'/' value) ∙ ap (λ l. join b'/' l) (sym (split_slash-split value));
        apart =
            subst (λ l. All (λ segment. All (λ c. c ≢ b'/') segment) l)
              (sym (split_slash-split value))
              (no_slash (split b'/' value) (split_without b'/' value));
        decodes = r.decodes;
        text = sym same ∙ r.text ∙ rendered-join r.decoded;
        no_prefix = ap (λ t. starts_with t (namespace_prefix kind)) (sym same) ∙ no_prefix;
      }

  -- When `parse` takes a value, the value is segments between slashes, none of them empty; each is
  -- percent-decoded to a text that is not empty, `.` or `..` and has no slash, backslash or control
  -- character; and the path is the encodings of these texts, in order, with a slash between two, and
  -- does not begin with the prefix of its namespace.
  pub parse_path-IsCanonical :
      (value path : Str) → parse_path decode encode kind value ≡ ok path → IsCanonical value path
  unfolding parse_path
  parse_path-IsCanonical value path h =
      let (p1, h1) = forbid-eq-ok kind (str_eq value []) _ _ h in
      let (p2, h2) = forbid-eq-ok kind (starts_with value (codes "/")) _ _ h1 in
      let (p3, h3) = forbid-eq-ok kind (any (λ c. c == b'?' || c == b'#') value) _ _ h2 in
      let (p4, h4) = forbid-eq-ok kind (any (λ c. c == b'\\') value) _ _ h3 in
      let (p5, h5) = forbid-eq-ok kind (contains_str value (codes "://")) _ _ h4 in
      let (p6, h6) = forbid-eq-ok kind (starts_with value (namespace_prefix kind)) _ _ h5 in
      segmented-IsCanonical value path h6
