-- ===== src/Client/Inspect/Filter.antt =====
-- src/client.rs, `contains_json_string` and `needs_rci_inspection`, against occurrences of a token.
use keenetic_rci.Prelude.{
  ℕ, ◌+◌, ◌≡◌, ◌↔◌, inl, inr, true, [], ◌∷◌, ◌++◌, arith, refl, sym, ap, ◌∙◌, length, Option-cases,
  append_assoc,
}
use keenetic_rci.Prelude.Str.{Bytes, codes}
use keenetic_rci.Client.Inspect.{Memchr, contains_json_string, needs_rci_inspection}
use keenetic_rci.Client.Inspect.Token.{Spells, closing, literal, escape, NoBackslash}
use keenetic_rci.Client.Inspect.Scan.{Occurs, scan_quotes-Occurs, scan_quotes_complete}

-- The token of a text in its plain form, between quotes.
abbrev pub quoted : Bytes → Bytes
quoted expected = b'"' ∷ expected ++ b'"' ∷ []

plain_token : (expected rest : Bytes) → Spells expected (expected ++ b'"' ∷ rest)
plain_token [] rest = closing refl
plain_token (e ∷ expected) rest = literal refl (plain_token expected rest)

-- Without a backslash a token stands in its plain form.
unescaped :
    {expected token : Bytes}
    → Spells expected token
    → NoBackslash token
    → (rest : Bytes) × (token ≡ expected ++ b'"' ∷ rest)
unescaped (closing {rest} e) h = (rest, e)
unescaped (literal {e = x} {expected} {rest} e d) h =
    let (tail, q) = unescaped d (rw e at h).1 in (tail, e ∙ ap (λ t. x ∷ t) q)
unescaped (escape {rest} d3 d2 d1 d0 v3 v2 v1 v0 e digits value d) h = absurd ((rw e at h).0 refl)

All-split :
    (bytes pre post : Bytes) (b : ℕ)
    → bytes ≡ pre ++ b ∷ post
    → NoBackslash bytes
    → NoBackslash post
All-split [] [] post b e h = cc
All-split [] (a ∷ pre) post b e h = cc
All-split (x ∷ bytes) [] post b e h = let q : bytes ≡ post = ground arith in rw q at h.1
All-split (x ∷ bytes) (a ∷ pre) post b e h = All-split bytes pre post b (ground arith) h.1

plain_occurrence :
    (expected bytes : Bytes) (o : Occurs expected bytes)
    → NoBackslash bytes
    → (pre post : Bytes) × (bytes ≡ pre ++ (quoted expected ++ post))
plain_occurrence expected bytes o h =
    let (rest, q) = unescaped o.spelled (All-split bytes o.pre o.token b'"' o.split h) in
    (
      o.pre,
      rest,
      o.split ∙ ap (λ t. o.pre ++ b'"' ∷ t) (q ∙ sym (append_assoc expected (b'"' ∷ []) rest)),
    )

occurrence_plain :
    (expected bytes pre post : Bytes)
    → bytes ≡ pre ++ (quoted expected ++ post)
    → Occurs expected bytes
occurrence_plain expected bytes pre post e = record {
  pre = pre;
  token = expected ++ b'"' ∷ post;
  split = e ∙ ap (λ t. pre ++ b'"' ∷ t) (append_assoc expected (b'"' ∷ []) post);
  spelled = plain_token expected post;
}

module _ (m : Memchr) where
  contains_sound :
      (bytes expected : Bytes)
      → contains_json_string m bytes expected (quoted expected) ≡ true
      → Occurs expected bytes
  unfolding contains_json_string
  contains_sound bytes expected h = elim (Option-cases (m.find bytes (quoted expected))) [
    | inr (i, found) ↦
        let (pre, post, e) = m.find_some bytes (quoted expected) i found in
        occurrence_plain expected bytes pre post e
    | inl missing ↦ elim (Option-cases (m.memchr b'\\' bytes)) [
      | inl plain ↦ absurd (ground (arith, missing, plain, h))
      | inr (i, escaped) ↦
          scan_quotes-Occurs m (length bytes + 1) bytes expected
            (ground (arith, missing, escaped, h))
    ]
  ]

  contains_complete :
      (bytes expected : Bytes)
      → NoBackslash expected
      → Occurs expected bytes
      → contains_json_string m bytes expected (quoted expected) ≡ true
  unfolding contains_json_string
  contains_complete bytes expected plain o = elim (Option-cases (m.find bytes (quoted expected))) [
    | inr (i, found) ↦ rw (found, contains_json_string)
    | inl missing ↦
        rw (missing, contains_json_string)
          (elim (Option-cases (m.memchr b'\\' bytes)) [
            | inl none' ↦
                let (pre, post, e) =
                  plain_occurrence expected bytes o (m.memchr_none b'\\' bytes none') in
                absurd (m.find_none bytes (quoted expected) missing pre post e)
            | inr (i, escaped) ↦
                rw escaped
                  (scan_quotes_complete m (length bytes + 1) bytes expected plain (omega arith) o)
          ])
  ]

  -- For a text without a backslash, `contains_json_string` is true just when somewhere in the bytes
  -- a quote is followed by a token that spells the text, each byte plain or as a `\u` escape, and
  -- closes. The fuel of the scan is always enough.
  pub contains_json_string_iff :
      (bytes expected : Bytes)
      → NoBackslash expected
      → (contains_json_string m bytes expected (quoted expected) ≡ true) ↔ Occurs expected bytes
  contains_json_string_iff bytes expected plain =
      (contains_sound bytes expected, contains_complete bytes expected plain)

  -- A response body is searched for errors just when for each of `status` and `error` a quote stands
  -- somewhere in it, and after it the word, each byte plain or as a `\u` escape, and a quote. The
  -- first quote may be any: one that opens a string token, one that closes another, or an escaped one.
  pub needs_rci_inspection_iff :
      (bytes : Bytes)
      → (needs_rci_inspection m bytes ≡ true)
        ↔ (Occurs (codes "status") bytes × Occurs (codes "error") bytes)
  unfolding needs_rci_inspection
  needs_rci_inspection_iff bytes = (
    λ h. (
      contains_sound bytes (codes "status") (ground arith),
      contains_sound bytes (codes "error") (ground arith),
    ),
    λ (s, e).
        rw (contains_complete bytes (codes "status") (omega arith) s)
          (contains_complete bytes (codes "error") (omega arith) e),
  )
