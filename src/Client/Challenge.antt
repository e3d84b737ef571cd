-- ===== src/Client/Challenge.antt =====
-- src/client.rs, `parse_challenge`: the realm and the challenge of a 401 response to `GET /auth`.
use keenetic_rci.Prelude.{
  Option, none, some, [], ◌∷◌, Result, ok, err, ◌>>=◌, ◌≡◌, ◌≢◌, ◌↔◌, arith, refl, ap, >>=-eq-ok,
}
use keenetic_rci.Prelude.Str.{Str, Bytes, codes}
use keenetic_rci.Error.{
  incomplete_headers, invalid_header, empty_header, AuthenticationError, unsupported,
  malformed_response,
}

abbrev pub realm_header : Str
realm_header = codes "x-ndm-realm"

abbrev pub challenge_header : Str
challenge_header = codes "x-ndm-challenge"

module _ (to_str : Bytes → Option Str) where
  abbrev pub both_headers : Option Bytes → Option Bytes → Result (Bytes × Bytes) AuthenticationError
  both_headers none none = err unsupported
  both_headers (some realm) (some challenge) = ok (realm, challenge)
  both_headers _ _ = err (malformed_response incomplete_headers)

  abbrev pub decoded : Str → Option Str → Result Str AuthenticationError
  decoded name none = err (malformed_response (invalid_header name))
  decoded name (some text) = ok text

  abbrev pub header_text : Str → Bytes → Result Str AuthenticationError
  header_text name value = decoded name (to_str value)

  abbrev pub nonempty_text : Str → Str → Result (Unit {0}) AuthenticationError
  nonempty_text name [] = err (malformed_response (empty_header name))
  nonempty_text name (c ∷ text) = ok tt

  abbrev pub both_nonempty : Str → Str → Result (Str × Str) AuthenticationError
  both_nonempty realm challenge = do
    _ ← nonempty_text realm_header realm
    _ ← nonempty_text challenge_header challenge
    ok (realm, challenge)

  -- `parse_challenge`
  unfoldable pub parse_challenge : (Str → Option Bytes) → Result (Str × Str) AuthenticationError
  parse_challenge header = do
    (realm_value, challenge_value) ← both_headers (header realm_header) (header challenge_header)
    realm ← header_text realm_header realm_value
    challenge ← header_text challenge_header challenge_value
    both_nonempty realm challenge

  -- The two headers are there, are text, and are not empty.
  pub record HasChallenge (header : Str → Option Bytes) (realm challenge : Str) : Type 0 where
    pub realm_value : Bytes
    pub challenge_value : Bytes
    pub realm_there : header realm_header ≡ some realm_value
    pub challenge_there : header challenge_header ≡ some challenge_value
    pub realm_text : to_str realm_value ≡ some realm
    pub challenge_text : to_str challenge_value ≡ some challenge
    pub realm_nonempty : realm ≢ []
    pub challenge_nonempty : challenge ≢ []

  both_headers_inv :
      (a b : Option Bytes) {x y : Bytes}
      → both_headers a b ≡ ok (x, y)
      → (a ≡ some x) × (b ≡ some y)
  both_headers_inv none none h = cc
  both_headers_inv none (some b) h = cc
  both_headers_inv (some a) none h = cc
  both_headers_inv (some a) (some b) h = ground arith

  texts_inv :
      (a b : Option Str) {realm challenge : Str}
      → (decoded realm_header a >>= λ r. decoded challenge_header b >>= λ c. both_nonempty r c)
        ≡ ok (realm, challenge)
      → (a ≡ some realm) × (b ≡ some challenge) × (realm ≢ []) × (challenge ≢ [])
  texts_inv none b h = cc
  texts_inv (some r) none h = cc
  texts_inv (some []) (some c) h = cc
  texts_inv (some (x ∷ r)) (some []) h = cc
  texts_inv (some (x ∷ r)) (some (y ∷ c)) {realm} {challenge} h =
      let same : x ∷ r ≡ realm = cc in
      let same' : y ∷ c ≡ challenge = cc in (ap some same, ap some same', (λ e. cc), λ e. cc)

  parse_challenge-HasChallenge :
      (header : Str → Option Bytes) (realm challenge : Str)
      → parse_challenge header ≡ ok (realm, challenge)
      → HasChallenge header realm challenge
  unfolding parse_challenge
  parse_challenge-HasChallenge header realm challenge h =
      let ((x, y), both, rest) =
        >>=-eq-ok (both_headers (header realm_header) (header challenge_header)) _ h in
      let (there, there') = both_headers_inv (header realm_header) (header challenge_header) both in
      let (r, c, r_some, c_some) = texts_inv (to_str x) (to_str y) rest in
      record {
        realm_value = x;
        challenge_value = y;
        realm_there = there;
        challenge_there = there';
        realm_text = r;
        challenge_text = c;
        realm_nonempty = r_some;
        challenge_nonempty = c_some;
      }

  texts_ok :
      (realm challenge : Str)
      → realm ≢ []
      → challenge ≢ []
      → both_nonempty realm challenge ≡ ok (realm, challenge)
  texts_ok [] challenge h k = absurd (h refl)
  texts_ok (x ∷ realm) [] h k = absurd (k refl)
  texts_ok (x ∷ realm) (y ∷ challenge) h k = refl

  HasChallenge-parse_challenge :
      (header : Str → Option Bytes) (realm challenge : Str)
      → HasChallenge header realm challenge
      → parse_challenge header ≡ ok (realm, challenge)
  unfolding parse_challenge
  HasChallenge-parse_challenge header realm challenge c =
      rw (c.realm_there, c.challenge_there)
        (rw (c.realm_text, header_text, decoded)
          (rw (c.challenge_text, header_text, decoded)
            (texts_ok realm challenge c.realm_nonempty c.challenge_nonempty)))

  -- `parse_challenge` succeeds with a realm and a challenge just when both headers are there, are
  -- text, hold these two, and neither is empty.
  pub parse_challenge_iff :
      (header : Str → Option Bytes) (realm challenge : Str)
      → (parse_challenge header ≡ ok (realm, challenge)) ↔ HasChallenge header realm challenge
  parse_challenge_iff header realm challenge = (
    parse_challenge-HasChallenge header realm challenge,
    HasChallenge-parse_challenge header realm challenge,
  )
