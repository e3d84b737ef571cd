-- ===== src/Examples/Scans.antt =====
-- A byte search with the contract of `memchr`, and the prefilter run on concrete bodies with it.
use keenetic_rci.Prelude.{
  ℕ, zero, suc, ◌≡◌, ◌≢◌, ◌↔◌, Bool, true, false, ◌&&◌, Option, none, some, [], ◌∷◌, ◌++◌, arith,
  refl, ap, ◌∙◌, inl, inr, length, All, ◌==◌, Bool-cases, if◌then◌else◌,
}
use keenetic_rci.Prelude.Str.{Bytes, codes}
use keenetic_rci.Client.Inspect.Token.{literal, closing}
use keenetic_rci.Client.Inspect.Tokens.{
  HasToken, this_token, no_quote, later_token, plain, escaped, closed, tokens_are_inspected,
}
use keenetic_rci.Client.Inspect.{
  Memchr, json_string_matches, contains_json_string, needs_rci_inspection, scan_quotes,
  escaped_value, fold_digits, json_hex_value,
}
use keenetic_rci.Client.Inspect.Scan.{Occurs}
use keenetic_rci.Client.Inspect.Filter.{needs_rci_inspection_iff}

abbrev next : Option ℕ → Option ℕ
next none = none
next (some i) = some (suc i)

abbrev first_at : ℕ → Bytes → Option ℕ
first_at b [] = none
first_at b (x ∷ h) = let rest = first_at b h in if x == b then some zero else next rest

abbrev starts : Bytes → Bytes → Bool
starts h [] = true
starts [] (y ∷ n) = false
starts (x ∷ h) (y ∷ n) = x == y && starts h n

abbrev find_at : Bytes → Bytes → Option ℕ
find_at [] n = if starts [] n then some zero else none
find_at (x ∷ h) n = let rest = find_at h n in if starts (x ∷ h) n then some zero else next rest

next-eq-some : (o : Option ℕ) (i : ℕ) → next o ≡ some i → (j : ℕ) × (o ≡ some j) × (i ≡ suc j)
next-eq-some none i h = cc
next-eq-some (some j) i h = (j, refl, ground arith)

next-eq-none : (o : Option ℕ) → next o ≡ none → o ≡ none
next-eq-none none h = refl
next-eq-none (some j) h = cc

pub first_at-some :
    (b : ℕ) (h : Bytes) (i : ℕ)
    → first_at b h ≡ some i
    → (pre post : Bytes) × (h ≡ pre ++ b ∷ post) × (length pre ≡ i) × All (λ x. x ≢ b) pre
first_at-some b [] i e = cc
first_at-some b (x ∷ h) i e = elim (Bool-cases (x == b)) [
  | inl same ↦
      let q : x ≡ b = ground (arith, same) in
      ([], h, ap (λ t. t ∷ h) q, ground (arith, e, same), tt)
  | inr other ↦
      let (j, found, q) = next-eq-some (first_at b h) i (rw other at e) in
      let (pre, post, split, long, clean) = first_at-some b h j found in
      (x ∷ pre, post, ap (λ t. x ∷ t) split, omega arith, ((λ z. ground arith), clean))
]

pub first_at-none : (b : ℕ) (h : Bytes) → first_at b h ≡ none → All (λ x. x ≢ b) h
first_at-none b [] e = tt
first_at-none b (x ∷ h) e = elim (Bool-cases (x == b)) [
  | inl same ↦ absurd (ground (arith, e, same))
  | inr other ↦
      ((λ z. ground arith), first_at-none b h (next-eq-none (first_at b h) (rw other at e)))
]

starts-true : (h n : Bytes) → starts h n ≡ true → (post : Bytes) × (h ≡ n ++ post)
starts-true h [] e = (h, refl)
starts-true [] (y ∷ n) e = cc
starts-true (x ∷ h) (y ∷ n) e =
    let same : x ≡ y = ground arith in
    let (post, split) = starts-true h n (ground arith) in (post, cc)

starts_append : (n post : Bytes) → starts (n ++ post) n ≡ true
starts_append [] post = refl
starts_append (y ∷ n) post = ground (arith, starts_append n post)

pub find_at-some :
    (h n : Bytes) (i : ℕ) → find_at h n ≡ some i → (pre post : Bytes) × (h ≡ pre ++ (n ++ post))
find_at-some [] n i e = elim (Bool-cases (starts [] n)) [
  | inl here ↦ let (post, split) = starts-true [] n here in ([], post, split)
  | inr missing ↦ absurd (ground (arith, e, missing))
]
find_at-some (x ∷ h) n i e = elim (Bool-cases (starts (x ∷ h) n)) [
  | inl here ↦ let (post, split) = starts-true (x ∷ h) n here in ([], post, split)
  | inr missing ↦
      let (j, found, q) = next-eq-some (find_at h n) i (rw missing at e) in
      let (pre, post, split) = find_at-some h n j found in (x ∷ pre, post, ap (λ t. x ∷ t) split)
]

pub find_at-none : (h n : Bytes) → find_at h n ≡ none → (pre post : Bytes) → h ≢ pre ++ (n ++ post)
find_at-none [] n e [] post q =
    let here : starts [] n ≡ true = ap (λ t. starts t n) q ∙ starts_append n post in
    absurd (ground (arith, e, here))
find_at-none [] n e (a ∷ pre) post q = cc
find_at-none (x ∷ h) n e [] post q =
    let here : starts (x ∷ h) n ≡ true = ap (λ t. starts t n) q ∙ starts_append n post in
    absurd (ground (arith, e, here))
find_at-none (x ∷ h) n e (a ∷ pre) post q = elim (Bool-cases (starts (x ∷ h) n)) [
  | inl here ↦ absurd (ground (arith, e, here))
  | inr missing ↦
      find_at-none h n (next-eq-none (find_at h n) (rw missing at e)) pre post (ground arith)
]

unfoldable pub search_bytes : Memchr
search_bytes = record {
  memchr = first_at;
  find = find_at;
  memchr_some = first_at-some;
  memchr_none = first_at-none;
  find_some = find_at-some;
  find_none = find_at-none;
}

-- The body `{"status":[],"error":1}`, with the first letter of `status` as an escape.
abbrev body : Bytes
body = codes "{\"\\u0073tatus\":[],\"error\":1}"

abbrev plain_body : Bytes
plain_body = codes "{\"state\":[],\"error\":1}"

body_inspected : needs_rci_inspection search_bytes body ≡ true
unfolding needs_rci_inspection contains_json_string scan_quotes json_string_matches escaped_value
    fold_digits json_hex_value search_bytes
body_inspected = refl

plain_body_skipped : needs_rci_inspection search_bytes plain_body ≡ false
unfolding needs_rci_inspection contains_json_string scan_quotes json_string_matches escaped_value
    fold_digits json_hex_value search_bytes
plain_body_skipped = refl

-- The body `{"a":"x\"status","b":"y\"error"}`, which has neither word as a string token: the quotes
-- that are escaped count too.
abbrev quoted_body : Bytes
quoted_body = codes "{\"a\":\"x\\\"status\",\"b\":\"y\\\"error\"}"

quoted_body_inspected : needs_rci_inspection search_bytes quoted_body ≡ true
unfolding needs_rci_inspection contains_json_string scan_quotes json_string_matches escaped_value
    fold_digits json_hex_value search_bytes
quoted_body_inspected = refl

needs_rci_inspection_iff_example :
    (needs_rci_inspection search_bytes body ≡ true)
    ↔ (Occurs (codes "status") body × Occurs (codes "error") body)
needs_rci_inspection_iff_example = needs_rci_inspection_iff search_bytes body

spelled : json_string_matches (codes "a\\u0062\":1") (codes "ab") ≡ true
unfolding json_string_matches escaped_value fold_digits json_hex_value
spelled = refl

-- The body `{"status":[{"status":"error"}]}`.
abbrev pub error_bytes : Bytes
error_bytes = codes "{\"status\":[{\"status\":\"error\"}]}"

pub error-Occurs : Occurs (codes "status") error_bytes × Occurs (codes "error") error_bytes
unfolding needs_rci_inspection contains_json_string scan_quotes json_string_matches escaped_value
    fold_digits json_hex_value search_bytes
error-Occurs = (needs_rci_inspection_iff search_bytes error_bytes).0 refl

-- The body `["a\"","status","error"]`.
abbrev three_tokens : Bytes
three_tokens = codes "[\"a\\\"\",\"status\",\"error\"]"

status_there : HasToken (codes "status") three_tokens
status_there = no_quote (omega arith) (
    later_token (plain (omega arith) (omega arith) (escaped closed)) (
      no_quote (omega arith) (
        this_token (
          literal refl (
            literal refl
              (literal refl (literal refl (literal refl (literal refl (closing refl))))))))))

error_there : HasToken (codes "error") three_tokens
error_there = no_quote (omega arith) (
    later_token (plain (omega arith) (omega arith) (escaped closed)) (
      no_quote (omega arith) (
        later_token
          (plain (omega arith) (omega arith) (
            plain (omega arith) (omega arith) (
              plain (omega arith) (omega arith) (
                plain (omega arith) (omega arith)
                  (plain (omega arith) (omega arith) (plain (omega arith) (omega arith) closed))))))
          (no_quote (omega arith) (
            this_token (
              literal refl
                (literal refl (literal refl (literal refl (literal refl (closing refl)))))))))))

tokens_are_inspected_example : needs_rci_inspection search_bytes three_tokens ≡ true
tokens_are_inspected_example =
    tokens_are_inspected search_bytes three_tokens status_there error_there
