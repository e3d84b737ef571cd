-- ===== src/Client/Inspect/Scan.antt =====
-- src/client.rs, the loop of `contains_json_string`, against occurrences of a token.
use keenetic_rci.Prelude.{
  ℕ, zero, suc, ◌+◌, ◌<◌, ◌≡◌, ◌≢◌, inl, inr, true, ◌||◌, some, [], ◌∷◌, ◌++◌, arith, refl, sym, ap,
  ◌∙◌, length, drop, All, Option-cases, Bool-cases, append_assoc, length-append,
}
use keenetic_rci.Prelude.Str.{Bytes}
use keenetic_rci.Client.Inspect.{Memchr, json_string_matches, scan_quotes}
use keenetic_rci.Client.Inspect.Token.{
  Spells, NoBackslash, json_string_matches-Spells, Spells-json_string_matches,
}

-- A quote stands in `bytes`, be it escaped or not, and after it `expected` is spelled, with a quote
-- at its end.
pub record Occurs (expected bytes : Bytes) : Type 0 where
  pub pre : Bytes
  pub token : Bytes
  pub split : bytes ≡ pre ++ b'"' ∷ token
  pub spelled : Spells expected token

-- The first quote of a text with a quote at `pre` is that one or stands before it.
data FirstQuote (pre token pre' post : Bytes) : Type 0 where
  same : token ≡ post → FirstQuote pre token pre' post
  earlier : (mid : Bytes) → post ≡ mid ++ b'"' ∷ token → FirstQuote pre token pre' post

first_quote :
    (pre token pre' post : Bytes)
    → pre ++ b'"' ∷ token ≡ pre' ++ b'"' ∷ post
    → All (λ b. b ≢ b'"') pre'
    → FirstQuote pre token pre' post
first_quote [] token [] post e h = same (ground arith)
first_quote [] token (b ∷ pre') post e h = absurd (h.0 (ground arith))
first_quote (a ∷ pre) token [] post e h = earlier pre (ground arith)
first_quote (a ∷ pre) token (b ∷ pre') post e h =
    elim (first_quote pre token pre' post (ground arith) h.1) [
      | same q ↦ same q
      | earlier mid q ↦ earlier mid q
    ]

drop-append : (xs ys : Bytes) (y : ℕ) → drop (suc (length xs)) (xs ++ y ∷ ys) ≡ ys
drop-append [] ys y = refl
drop-append (x ∷ xs) ys y = drop-append xs ys y

after_quote :
    (bytes pre post : Bytes) (i : ℕ)
    → bytes ≡ pre ++ b'"' ∷ post
    → length pre ≡ i
    → drop (i + 1) bytes ≡ post
after_quote bytes pre post i e h =
    let k : i + 1 ≡ suc (length pre) = omega arith in rw (e, k) (drop-append pre post b'"')

-- The position that `memchr` returns, as a split of the text.
abbrev FirstAt : ℕ → Bytes → ℕ → Type 0
FirstAt b bytes i =
    (pre post : Bytes) × (bytes ≡ pre ++ b ∷ post) × (length pre ≡ i) × All (λ x. x ≢ b) pre

length-split :
    (bytes pre post : Bytes) (b : ℕ) → bytes ≡ pre ++ b ∷ post → length post < length bytes
length-split bytes pre post b e = rw e (omega (arith, length-append pre (b ∷ post)))

Occurs-later :
    (expected bytes pre post : Bytes)
    → bytes ≡ pre ++ b'"' ∷ post
    → Occurs expected post
    → Occurs expected bytes
Occurs-later expected bytes pre post e o = record {
  pre = pre ++ b'"' ∷ o.pre;
  token = o.token;
  split =
      e
      ∙ ap (λ t. pre ++ b'"' ∷ t) o.split
      ∙ sym (append_assoc pre (b'"' ∷ o.pre) (b'"' ∷ o.token));
  spelled = o.spelled;
}

module _ (m : Memchr) where
  -- One round, at the split that `memchr` finds.
  scan_round :
      (fuel : ℕ) (remaining expected pre post : Bytes) (i : ℕ)
      → m.memchr b'"' remaining ≡ some i
      → remaining ≡ pre ++ b'"' ∷ post
      → length pre ≡ i
      → scan_quotes m (suc fuel) remaining expected
        ≡ (json_string_matches post expected || scan_quotes m fuel post expected)
  unfolding scan_quotes
  scan_round fuel remaining expected pre post i found e h =
      rw (found, scan_quotes) (rw (after_quote remaining pre post i e h))

  -- What the scan finds is there.
  scan_step-Occurs :
      (fuel : ℕ) (remaining expected : Bytes) (i : ℕ)
      → m.memchr b'"' remaining ≡ some i
      → FirstAt b'"' remaining i
      → ((post : Bytes) → scan_quotes m fuel post expected ≡ true → Occurs expected post)
      → scan_quotes m (suc fuel) remaining expected ≡ true
      → Occurs expected remaining
  scan_step-Occurs fuel remaining expected i found (pre, post, e, h, absent) ih hit =
      let round = scan_round fuel remaining expected pre post i found e h in
      elim (Bool-cases (json_string_matches post expected)) [
        | inl match ↦ record {
          pre = pre;
          token = post;
          split = e;
          spelled = json_string_matches-Spells expected post match;
        }
        | inr other ↦
            Occurs-later expected remaining pre post e (ih post (ground (arith, round, hit, other)))
      ]

  pub scan_quotes-Occurs :
      (fuel : ℕ) (remaining expected : Bytes)
      → scan_quotes m fuel remaining expected ≡ true
      → Occurs expected remaining
  unfolding scan_quotes
  scan_quotes-Occurs zero remaining expected h = cc
  scan_quotes-Occurs (suc fuel) remaining expected h =
      elim (Option-cases (m.memchr b'"' remaining)) [
        | inl absent ↦ absurd (ground (arith, absent, h))
        | inr (i, found) ↦
            scan_step-Occurs fuel remaining expected i found (m.memchr_some b'"' remaining i found)
              (λ post. scan_quotes-Occurs fuel post expected) h
      ]

  -- With enough fuel the scan misses nothing.
  scan_step_complete :
      (fuel : ℕ) (remaining expected : Bytes) (i : ℕ)
      → m.memchr b'"' remaining ≡ some i
      → FirstAt b'"' remaining i
      → NoBackslash expected
      → length remaining < suc fuel
      → ((post : Bytes)
          → length post < fuel
          → Occurs expected post
          → scan_quotes m fuel post expected ≡ true)
      → Occurs expected remaining
      → scan_quotes m (suc fuel) remaining expected ≡ true
  scan_step_complete fuel remaining expected i found (pre, post, e, h, absent) plain fits ih o =
      scan_round fuel remaining expected pre post i found e h
      ∙ elim (first_quote o.pre o.token pre post (sym o.split ∙ e) absent) [
        | same q ↦ rw (Spells-json_string_matches (rw q at o.spelled) plain)
        | earlier mid q ↦
            let shorter = length-split remaining pre post b'"' e in
            let rest =
              ih post (omega arith)
                (record { pre = mid; token = o.token; split = q; spelled = o.spelled }) in
            ground (arith, rest)
      ]

  none_before : (bytes pre post : Bytes) (b : ℕ) → All (λ x. x ≢ b) bytes → bytes ≢ pre ++ b ∷ post
  none_before [] [] post b h e = cc
  none_before [] (a ∷ pre) post b h e = cc
  none_before (x ∷ bytes) [] post b h e = h.0 (ground arith)
  none_before (x ∷ bytes) (a ∷ pre) post b h e = none_before bytes pre post b h.1 (ground arith)

  pub scan_quotes_complete :
      (fuel : ℕ) (remaining expected : Bytes)
      → NoBackslash expected
      → length remaining < fuel
      → Occurs expected remaining
      → scan_quotes m fuel remaining expected ≡ true
  scan_quotes_complete zero remaining expected plain fits o = absurd (omega arith)
  scan_quotes_complete (suc fuel) remaining expected plain fits o =
      elim (Option-cases (m.memchr b'"' remaining)) [
        | inl absent ↦
            absurd (
              none_before remaining o.pre o.token b'"' (m.memchr_none b'"' remaining absent)
                o.split)
        | inr (i, found) ↦
            scan_step_complete fuel remaining expected i found
              (m.memchr_some b'"' remaining i found) plain fits
              (λ post small. scan_quotes_complete fuel post expected plain small) o
      ]
