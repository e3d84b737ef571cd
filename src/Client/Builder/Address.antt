-- ===== src/Client/Builder/Address.antt =====
-- src/client.rs, `normalize_base_url`, the text: where the scheme and the authority end.
use keenetic_rci.Prelude.{
  ℕ, ◌≡◌, ◌≢◌, ◌⊎◌, inl, inr, false, ◌&&◌, Option, none, some, [], ◌∷◌, ◌++◌, ◌==◌, any, All, arith,
  refl, sym, ap, ◌∙◌, Bool-cases, length, length-append,
}
use keenetic_rci.Prelude.Optional.{some-injective}
use keenetic_rci.Prelude.Str.{Str, codes}
use keenetic_rci.Client.Builder.{slashes, first_some, after_scheme, ends_authority, split_authority}

-- The `://` after the text is the first: none begins earlier.
abbrev pub IsFirst : Str → Type 0
IsFirst scheme = (pre post : Str) → ¬ (scheme ++ codes ":/" ≡ pre ++ (b':' ∷ b'/' ∷ b'/' ∷ post))

-- A character of an authority: it does not end it, and there is no user before it.
abbrev pub IsAuthorityChar : ℕ → Type 0
IsAuthorityChar c = (c ≢ b'/') × (c ≢ b'?') × (c ≢ b'#') × (c ≢ b'@')

-- The text: something, the first `://`, an authority, and at most a slash.
pub record IsOriginText (value : Str) : Type 0 where
  pub scheme : Str
  pub authority : Str
  pub tail : Str
  pub text : value ≡ scheme ++ (b':' ∷ b'/' ∷ b'/' ∷ authority ++ tail)
  pub first : IsFirst scheme
  pub plain : All IsAuthorityChar authority
  pub no_path : (tail ≡ []) ⊎ (tail ≡ codes "/")

empty-IsFirst : IsFirst []
empty-IsFirst pre post e =
    let long = ap length e ∙ length-append pre (b':' ∷ b'/' ∷ b'/' ∷ post) in omega (arith, long)

slashes-eq-some : (s rest : Str) → slashes s ≡ some rest → s ≡ b'/' ∷ b'/' ∷ rest
slashes-eq-some [] rest h = cc
slashes-eq-some (a ∷ []) rest h = cc
slashes-eq-some (a ∷ b ∷ s) rest h = elim (Bool-cases (a == b'/' && b == b'/')) [
  | inl both ↦
      let one : a ≡ b'/' = ground (arith, both) in
      let two : b ≡ b'/' = ground (arith, both) in
      let three : s ≡ rest = some-injective (rw both at h) in rw (one, two, three) refl
  | inr other ↦ absurd (ground (arith, other, h))
]

-- The parts before and after a `://` that is looked for begins here.
starts_here :
    (c : ℕ) (scheme post : Str)
    → c ∷ (scheme ++ codes ":/") ≡ b':' ∷ b'/' ∷ b'/' ∷ post
    → (rest : Str) → (c ≡ b':') × (tail : Str) × (slashes (scheme ++ rest) ≡ some tail)
starts_here c [] post e rest = absurd (ground arith)
starts_here c (a ∷ []) post e rest = absurd (ground arith)
starts_here c (a ∷ b ∷ scheme) post e rest =
    let one : a ≡ b'/' = ground arith in
    let two : b ≡ b'/' = ground arith in (ground arith, scheme ++ rest, rw (one, two) refl)

later-IsFirst :
    (c : ℕ) (scheme rest : Str)
    → ¬ ((c ≡ b':') × (tail : Str) × (slashes (scheme ++ rest) ≡ some tail))
    → IsFirst scheme
    → IsFirst (c ∷ scheme)
later-IsFirst c scheme rest away first [] post e = away (starts_here c scheme post e rest)
later-IsFirst c scheme rest away first (x ∷ pre) post e = first pre post (ground arith)

-- The text before a `://` that is the first.
abbrev pub Cut : Str → Str → Type 0
Cut value rest = (scheme : Str) × (value ≡ scheme ++ (b':' ∷ b'/' ∷ b'/' ∷ rest)) × IsFirst scheme

later-Cut :
    (c : ℕ) (value rest : Str)
    → ¬ ((c ≡ b':') × (tail : Str) × (slashes value ≡ some tail))
    → Cut value rest
    → Cut (c ∷ value) rest
later-Cut c value rest away (scheme, e, first) = (
  c ∷ scheme,
  ap (λ t. c ∷ t) e,
  later-IsFirst c scheme (b':' ∷ b'/' ∷ b'/' ∷ rest)
      (λ (colon, tail, found). away (colon, tail, ap slashes e ∙ found)) first,
)

here-Cut :
    (c : ℕ) (value rest : Str) (found later : Option Str)
    → c ≡ b':'
    → slashes value ≡ found
    → first_some found later ≡ some rest
    → (later ≡ some rest → Cut value rest)
    → Cut (c ∷ value) rest
here-Cut c value rest none later colon e h more =
    later-Cut c value rest (λ (k, t, f). none_some t (sym e ∙ f)) (more h)
  where
    none_some : (t : Str) → ¬ (◌≡◌ {A = Option Str} none (some t))
    none_some t h = cc
here-Cut c value rest (some tail) later colon e h more =
    let same = some-injective h in
    ([], rw (colon, slashes-eq-some value tail e, same) refl, empty-IsFirst)

pub after_scheme-Cut : (value rest : Str) → after_scheme value ≡ some rest → Cut value rest
unfolding after_scheme
after_scheme-Cut [] rest h = cc
after_scheme-Cut (c ∷ value) rest h = elim (Bool-cases (c == b':')) [
  | inr other ↦
      later-Cut c value rest (λ (colon, t, f). ground (arith, colon, other))
        (after_scheme-Cut value rest (rw other at h))
  | inl colon ↦
      here-Cut c value rest (slashes value) (after_scheme value) (ground (arith, colon)) refl
        (rw colon at h) (after_scheme-Cut value rest)
]

-- Two slashes do not come at once after the colon of an earlier part.
no_slashes :
    (c : ℕ) (scheme rest : Str)
    → IsFirst (c ∷ scheme)
    → c ≡ b':'
    → slashes (scheme ++ (b':' ∷ b'/' ∷ b'/' ∷ rest)) ≡ none
no_slashes c [] rest first colon = refl
no_slashes c (a ∷ []) rest first colon = elim (Bool-cases (a == b'/')) [
  | inl same ↦ rw same refl
  | inr other ↦ rw other refl
]
no_slashes c (a ∷ b ∷ scheme) rest first colon = elim (Bool-cases (a == b'/' && b == b'/')) [
  | inr other ↦ rw other refl
  | inl both ↦
      let one : a ≡ b'/' = ground (arith, both) in
      let two : b ≡ b'/' = ground (arith, both) in
      absurd (first [] (scheme ++ codes ":/") (rw (colon, one, two) refl))
]

pub after_scheme_takes :
    (scheme rest : Str)
    → IsFirst scheme
    → after_scheme (scheme ++ (b':' ∷ b'/' ∷ b'/' ∷ rest)) ≡ some rest
unfolding after_scheme
after_scheme_takes [] rest first = refl
after_scheme_takes (c ∷ scheme) rest first =
    let later =
      after_scheme_takes scheme rest (λ pre post e. first (c ∷ pre) post (ap (λ t. c ∷ t) e)) in
    elim (Bool-cases (c == b':')) [
      | inl colon ↦ rw (colon, no_slashes c scheme rest first (ground (arith, colon)), later) refl
      | inr other ↦ rw (other, later) refl
    ]

pub split_authority_parts :
    (rest : Str)
    → any (λ c. c == b'@') (split_authority rest).0 ≡ false
    → (rest ≡ (split_authority rest).0 ++ (split_authority rest).1)
      × All IsAuthorityChar (split_authority rest).0
unfolding split_authority
split_authority_parts [] h = (refl, tt)
split_authority_parts (c ∷ rest) h = elim (Bool-cases (ends_authority c)) [
  | inl ends ↦ rw ends (refl, tt)
  | inr goes ↦
      let k = rw goes at h in
      let (text, plain) = split_authority_parts rest (ground (arith, k)) in
      rw goes (
        ap (λ t. c ∷ t) text,
        (
          (
            λ e. ground (arith, goes, e),
            λ e. ground (arith, goes, e),
            λ e. ground (arith, goes, e),
            λ e. ground (arith, k, e),
          ),
          plain,
        ),
      )
]

pub split_authority_takes :
    (authority tail : Str)
    → All IsAuthorityChar authority
    → (tail ≡ []) ⊎ (tail ≡ codes "/")
    → split_authority (authority ++ tail) ≡ (authority, tail)
unfolding split_authority
split_authority_takes [] tail h (inl e) = rw e refl
split_authority_takes [] tail h (inr e) = rw e refl
split_authority_takes (c ∷ authority) tail ((a, b, d, at), h) t =
    let goes : ends_authority c ≡ false = ground (arith, a, b, d) in
    rw (goes, split_authority_takes authority tail h t) refl

pub no_user :
    (authority : Str) → All IsAuthorityChar authority → any (λ c. c == b'@') authority ≡ false
no_user [] h = refl
no_user (c ∷ authority) ((a, b, d, at), h) = ground (arith, at, no_user authority h)
