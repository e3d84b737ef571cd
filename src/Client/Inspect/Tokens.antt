-- ===== src/Client/Inspect/Tokens.antt =====
-- src/client.rs, `needs_rci_inspection`, against the string tokens of a JSON text, found from its start.
use keenetic_rci.Prelude.{ℕ, ◌≡◌, ◌≢◌, true, [], ◌∷◌, refl, ap}
use keenetic_rci.Prelude.Str.{Bytes, codes}
use keenetic_rci.Client.Inspect.{Memchr, needs_rci_inspection}
use keenetic_rci.Client.Inspect.Token.{Spells}
use keenetic_rci.Client.Inspect.Scan.{Occurs}
use keenetic_rci.Client.Inspect.Filter.{needs_rci_inspection_iff}

-- Bytes inside a string, up to its closing quote and what comes after: a backslash takes the next byte
-- with it.
pub data Closes (after : Bytes) : Bytes → Type 0 where
  closed : Closes after (b'"' ∷ after)
  plain :
      {c : ℕ} {bytes : Bytes} → c ≢ b'"' → c ≢ b'\\' → Closes after bytes → Closes after (c ∷ bytes)
  escaped : {c : ℕ} {bytes : Bytes} → Closes after bytes → Closes after (b'\\' ∷ c ∷ bytes)

-- Bytes outside strings, in which one of the string tokens spells the text.
pub data HasToken (expected : Bytes) : Bytes → Type 0 where
  this_token : {bytes : Bytes} → Spells expected bytes → HasToken expected (b'"' ∷ bytes)
  no_quote :
      {c : ℕ} {bytes : Bytes} → c ≢ b'"' → HasToken expected bytes → HasToken expected (c ∷ bytes)
  later_token :
      {bytes after : Bytes}
      → Closes after bytes
      → HasToken expected after
      → HasToken expected (b'"' ∷ bytes)

Occurs-behind :
    (expected : Bytes) (c : ℕ) (bytes : Bytes) → Occurs expected bytes → Occurs expected (c ∷ bytes)
Occurs-behind expected c bytes o = record {
  pre = c ∷ o.pre;
  token = o.token;
  split = ap (λ t. c ∷ t) o.split;
  spelled = o.spelled;
}

Closes-Occurs :
    (expected : Bytes) {after bytes : Bytes}
    → Closes after bytes
    → Occurs expected after
    → Occurs expected bytes
Closes-Occurs expected closed o = Occurs-behind expected _ _ o
Closes-Occurs expected (plain a b rest) o =
    Occurs-behind expected _ _ (Closes-Occurs expected rest o)
Closes-Occurs expected (escaped rest) o =
    Occurs-behind expected _ _ (Occurs-behind expected _ _ (Closes-Occurs expected rest o))

HasToken-Occurs :
    (expected : Bytes) {bytes : Bytes} → HasToken expected bytes → Occurs expected bytes
HasToken-Occurs expected (this_token {bytes} s) = record {
  pre = [];
  token = bytes;
  split = refl;
  spelled = s;
}
HasToken-Occurs expected (no_quote a rest) =
    Occurs-behind expected _ _ (HasToken-Occurs expected rest)
HasToken-Occurs expected (later_token string rest) =
    Occurs-behind expected _ _ (Closes-Occurs expected string (HasToken-Occurs expected rest))

-- A body whose string tokens, read from its start, include one that spells `status` and one that spells
-- `error`, each byte plain or as a `\u` escape, is searched for errors: none of them is missed.
pub tokens_are_inspected :
    (m : Memchr) (bytes : Bytes)
    → HasToken (codes "status") bytes
    → HasToken (codes "error") bytes
    → needs_rci_inspection m bytes ≡ true
tokens_are_inspected m bytes status error =
    (needs_rci_inspection_iff m bytes).1
      (HasToken-Occurs (codes "status") status, HasToken-Occurs (codes "error") error)
