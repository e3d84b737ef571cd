-- ===== src/Client/Builder/Base.antt =====
-- src/client.rs, `normalize_base_url`: which addresses are taken, and the URL that they give.
use keenetic_rci.Prelude.{
  ◌≡◌, ◌≢◌, ◌⊎◌, Bool, true, false, not, ◌||◌, Option, none, some, [], Result, ok, ◌>>=◌, >>=-eq-ok,
  ◌==◌, arith, refl, sym, ◌∙◌, ◌↔◌, ◌∷◌, ◌++◌, str_eq_refl, inl, inr, str_eq, str_eq_sound,
  Bool-cases, any, map_err, map_err-eq-ok, ok-injective, ap,
}
use keenetic_rci.Prelude.Str.{Str, codes}
use keenetic_rci.Client.Platform.{Platform}
use keenetic_rci.Client.Builder.Address.{
  IsOriginText, after_scheme-Cut, after_scheme_takes, split_authority_parts, split_authority_takes,
  no_user,
}
use keenetic_rci.Client.Builder.{
  ConfigError, Urls, after_scheme, split_authority, is_some, is_root, reject, required, checked_url,
  parsed_url, checked_text, normalize_base_url,
}

pub reject-eq-ok {ℓ} :
    {A : Type ℓ} (test : Bool) (e : ConfigError) (rest : Result A ConfigError) {a : A}
    → (reject test e >>= λ _. rest) ≡ ok a
    → (test ≡ false) × (rest ≡ ok a)
reject-eq-ok true e rest h = cc
reject-eq-ok false e rest h = (refl, h)

pub required-eq-ok {ℓ} :
    {A : Type ℓ} (o : Option A) (e : ConfigError) {a : A} → required o e ≡ ok a → o ≡ some a
required-eq-ok none e h = cc
required-eq-ok (some a) e h = ap some (ok-injective h)

module _ (p : Platform) (urls : Urls p.Url) where
  -- An origin: HTTP or HTTPS, a host, no user, no password, no path, no query and no fragment.
  pub record IsOrigin (url : p.Url) : Type 0 where
    pub web : (urls.scheme url ≡ codes "http") ⊎ (urls.scheme url ≡ codes "https")
    pub host : urls.host url ≢ none
    pub no_user : urls.username url ≡ []
    pub no_password : urls.password url ≡ none
    pub root : (urls.path url ≡ []) ⊎ (urls.path url ≡ codes "/")
    pub no_query : urls.query url ≡ none
    pub no_fragment : urls.fragment url ≡ none

  -- The address comes from an origin that the text was parsed to.
  pub record FromOrigin (value : Str) (base : p.Url) : Type 0 where
    pub url : p.Url
    pub parsed : urls.parse value ≡ ok url
    pub origin : IsOrigin url
    pub normal : base ≡ p.set_path url (codes "/")

  some_or_none {ℓ} : {A : Type ℓ} (o : Option A) → is_some o ≡ false → o ≡ none
  some_or_none none h = refl
  some_or_none (some a) h = cc

  is_some-none {ℓ} : {A : Type ℓ} (o : Option A) → not (is_some o) ≡ false → o ≢ none
  is_some-none none h = cc
  is_some-none (some a) h = λ e. cc

  one_of : (s t u : Str) → not (str_eq s t || str_eq s u) ≡ false → (s ≡ t) ⊎ (s ≡ u)
  one_of s t u h = elim (Bool-cases (str_eq s t)) [
    | inl same ↦ inl (str_eq_sound s t same)
    | inr other ↦ inr (str_eq_sound s u (ground (arith, h, other)))
  ]

  checked_url-IsOrigin :
      (url base : p.Url)
      → checked_url p urls url ≡ ok base
      → IsOrigin url × (base ≡ p.set_path url (codes "/"))
  unfolding checked_url
  checked_url-IsOrigin url base h =
      let (web, h1) = reject-eq-ok _ _ _ h in
      let (host, h2) = reject-eq-ok _ _ _ h1 in
      let (user, h3) =
        reject-eq-ok (not (str_eq (urls.username url) []) || is_some (urls.password url)) _ _ h2 in
      let (origin, h4) =
        reject-eq-ok
          (not (is_root (urls.path url)) || is_some (urls.query url) || is_some (urls.fragment url))
          _ _ h3 in
      (
        record {
          web = one_of (urls.scheme url) _ _ web;
          host = is_some-none (urls.host url) host;
          no_user = str_eq_sound (urls.username url) [] (ground (arith, user));
          no_password = some_or_none (urls.password url) (ground (arith, user));
          root = one_of (urls.path url) _ _ (ground (arith, origin));
          no_query = some_or_none (urls.query url) (ground (arith, origin));
          no_fragment = some_or_none (urls.fragment url) (ground (arith, origin));
        },
        sym (ok-injective h4),
      )

  is_one_of : (s t u : Str) → (s ≡ t) ⊎ (s ≡ u) → not (str_eq s t || str_eq s u) ≡ false
  is_one_of s t u (inl e) = let same = str_eq_refl t in rw e (ground (arith, same))
  is_one_of s t u (inr e) = let same = str_eq_refl u in rw e (ground (arith, same))

  not_some {ℓ} : {A : Type ℓ} (o : Option A) → o ≡ none → is_some o ≡ false
  not_some o e = rw e refl

  some_given {ℓ} : {A : Type ℓ} (o : Option A) → o ≢ none → not (is_some o) ≡ false
  some_given none h = absurd (h refl)
  some_given (some a) h = refl

  checked_url_takes :
      (url : p.Url) → IsOrigin url → checked_url p urls url ≡ ok (p.set_path url (codes "/"))
  unfolding checked_url
  checked_url_takes url o =
      let user = str_eq_refl [] in
      let root = is_one_of (urls.path url) [] (codes "/") o.root in
      let query = not_some (urls.query url) o.no_query in
      let fragment = not_some (urls.fragment url) o.no_fragment in
      let origin : (not (is_root (urls.path url))
            || is_some (urls.query url)
            || is_some (urls.fragment url))
          ≡ false =
        ground (arith, root, query, fragment) in
      rw
        (
          is_one_of (urls.scheme url) (codes "http") (codes "https") o.web,
          some_given (urls.host url) o.host,
          o.no_user,
          user,
          o.no_password,
          origin,
        )
        refl

  parsed_url-FromOrigin :
      (value : Str) (base : p.Url) → parsed_url p urls value ≡ ok base → FromOrigin value base
  unfolding parsed_url
  parsed_url-FromOrigin value base h =
      let (url, parsed, checked) =
        >>=-eq-ok (map_err ConfigError.invalid_base_url (urls.parse value)) (checked_url p urls)
          h in
      let (origin, normal) = checked_url-IsOrigin url base checked in
      record { url = url; parsed = map_err-eq-ok _ _ parsed; origin = origin; normal = normal }

  pub normalize-FromOrigin :
      (value : Str) (base : p.Url)
      → normalize_base_url p urls value ≡ ok base
      → IsOriginText value × FromOrigin value base
  unfolding normalize_base_url checked_text
  normalize-FromOrigin value base h =
      let (remainder, split, h1) =
        >>=-eq-ok (required (after_scheme value) (ConfigError.invalid_base_url _)) _ h in
      let (no_at, h2) = reject-eq-ok (any (λ c. c == b'@') (split_authority remainder).0) _ _ h1 in
      let (end, h3) = reject-eq-ok (not (is_root (split_authority remainder).1)) _ _ h2 in
      let (scheme, cut, first) =
        after_scheme-Cut value remainder (required-eq-ok (after_scheme value) _ split) in
      let (parts, plain) = split_authority_parts remainder no_at in
      (
        record {
          scheme = scheme;
          authority = (split_authority remainder).0;
          tail = (split_authority remainder).1;
          text = cut ∙ ap (λ t. scheme ++ (b':' ∷ b'/' ∷ b'/' ∷ t)) parts;
          first = first;
          plain = plain;
          no_path = one_of (split_authority remainder).1 _ _ end;
        },
        parsed_url-FromOrigin value base h3,
      )

  -- An address is normalized to a base URL just if its text is that of an origin and it is parsed to
  -- one, whose path is then set to `/`.
  pub normalize_base_url_iff :
      (value : Str) (base : p.Url)
      → (normalize_base_url p urls value ≡ ok base) ↔ (IsOriginText value × FromOrigin value base)
  unfolding normalize_base_url checked_text parsed_url
  normalize_base_url_iff value base = (
    normalize-FromOrigin value base,
    λ (t, from).
        let cut =
          ap after_scheme t.text ∙ after_scheme_takes t.scheme (t.authority ++ t.tail) t.first in
        let parts = split_authority_takes t.authority t.tail t.plain t.no_path in
        let end = is_one_of t.tail [] (codes "/") t.no_path in
        rw
          (
            cut,
            parts,
            no_user t.authority t.plain,
            end,
            from.parsed,
            checked_url_takes from.url from.origin,
          )
          (ap ok (sym from.normal)),
  )
