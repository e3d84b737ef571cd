-- ===== src/Client/Session/Traffic.antt =====
-- src/client.rs, `send_authenticated`: which requests a call sends, and in which order.
use mathlib.Core.List.{map-append}
use keenetic_rci.Prelude.{
  ℕ, ◌≡◌, ◌⊎◌, Bool, true, false, Option, none, some, List, [], ◌∷◌, ◌++◌, Result, ok, err, ◌==◌,
  if◌then◌else◌, arith, refl, sym, ap, ◌∙◌, inl, inr, map, append-nil, append_assoc, Bool-cases,
}
use keenetic_rci.Prelude.Str.{Str, Bytes}
use keenetic_rci.Error.{Method, get, post, Error, AuthenticationError}
use keenetic_rci.Auth.{Credentials}
use keenetic_rci.Client.Platform.{Platform, HttpRequest, Response, is_success}
use keenetic_rci.Client.Session.{
  Outcome, returns, fails, panic, auth_endpoint, PreparedRequest, Inner, State, M, pass, receive,
  send_once, prepare, post_login, post_json, post_password, answer, challenged, login,
  perform_authentication, settle, retained, authenticate, retry, unauthorized, send_authenticated,
}

module _ (p : Platform) where
  -- A request as the router sees it: its method, its URL and its body.
  abbrev pub Sent : Type 0
  Sent = Method × p.Url × Option Bytes

  abbrev pub seen : HttpRequest p.Url → Sent
  seen q = (q.method, q.url, q.body)

  abbrev pub sends : State p → List Sent
  sends s = map seen s.sent

  -- The call sends requests that `L` describes, after those sent before.
  pub record Emits {A : Type 0} (L : List Sent → Type 0) (s : State p) (r : Outcome A × State p)
      : Type 0 where
    pub new : List Sent
    pub grows : sends r.1 ≡ sends s ++ new
    pub fits : L new

  pub nothing-Emits :
      {A : Type 0} (L : List Sent → Type 0) (s : State p) (o : Outcome A) → L [] → Emits L s (o, s)
  nothing-Emits L s o h = record { new = []; grows = sym (append-nil (sends s)); fits = h }

  pub weaken-Emits :
      {A : Type 0} (L K : List Sent → Type 0) (s : State p) (r : Outcome A × State p)
      → ((l : List Sent) → L l → K l)
      → Emits L s r
      → Emits K s r
  weaken-Emits L K s r f e = record { new = e.new; grows = e.grows; fits = f e.new e.fits }

  pub pass-Emits :
      {A B : Type 0} (L K N : List Sent → Type 0) (s : State p) (r : Outcome A × State p)
      (f : A → M p B)
      → ((l : List Sent) → L l → N l)
      → ((l k : List Sent) → L l → K k → N (l ++ k))
      → Emits L s r
      → ((a : A) (t : State p) → Emits K t (f a t))
      → Emits N s (pass p r f)
  pass-Emits L K N s (returns a, t) f stop more e k = record {
    new = e.new ++ (k a t).new;
    grows =
        (k a t).grows
        ∙ ap (λ l. l ++ (k a t).new) e.grows
        ∙ append_assoc (sends s) e.new (k a t).new;
    fits = more e.new (k a t).new e.fits (k a t).fits;
  }
  pass-Emits L K N s (fails x, t) f stop more e k = record {
    new = e.new;
    grows = e.grows;
    fits = stop e.new e.fits;
  }
  pass-Emits L K N s (panic, t) f stop more e k = record {
    new = e.new;
    grows = e.grows;
    fits = stop e.new e.fits;
  }

  pub if-Emits :
      {A : Type 0} (L : List Sent → Type 0) (b : Bool) (m m' : M p A) (s : State p)
      → Emits L s (m s)
      → Emits L s (m' s)
      → Emits L s ((if b then m else m') s)
  if-Emits L true m m' s h k = h
  if-Emits L false m m' s h k = k

  receive-Emits :
      (request : PreparedRequest p) (reply : Option (Response p.Url)) (s t : State p) (q : Sent)
      → sends t ≡ sends s ++ q ∷ []
      → Emits (λ l. l ≡ q ∷ []) s (receive p request reply t)
  receive-Emits request none s t q e = record { new = q ∷ []; grows = e; fits = refl }
  receive-Emits request (some response) s t q e = record { new = q ∷ []; grows = e; fits = refl }

  abbrev pub target : PreparedRequest p → Sent
  target request = (request.context.method, request.url, request.body)

  send_once-Emits :
      (inner : Inner p) (request : PreparedRequest p) (s : State p)
      → Emits (λ l. l ≡ target request ∷ []) s (send_once p inner request s)
  unfolding send_once
  send_once-Emits inner request s =
      receive-Emits request _ s _ (target request) (map-append seen s.sent _)

  module _ (inner : Inner p) where
    abbrev pub auth_get : Sent
    auth_get = (get, p.set_path inner.base_url auth_endpoint, none)

    abbrev pub auth_post : Bytes → Sent
    auth_post body = (post, p.set_path inner.base_url auth_endpoint, some body)

    abbrev Posts : List Sent → Type 0
    Posts l = (l ≡ []) ⊎ ((body : Bytes) × (l ≡ auth_post body ∷ []))

    abbrev Login : List Sent → Type 0
    Login l = (l ≡ auth_get ∷ []) ⊎ ((body : Bytes) × (l ≡ auth_get ∷ auth_post body ∷ []))

    post_login-Emits : (body : Bytes) (s : State p) → Emits Posts s (post_login p inner body s)
    unfolding post_login prepare
    post_login-Emits body s =
        pass-Emits (λ l. l ≡ auth_post body ∷ []) (λ l. l ≡ []) Posts s _ _ (λ l h. inr (body, h))
          (λ l k h e. inr (body, ground arith)) (send_once-Emits inner _ s)
          λ response t. if-Emits _ (response.status == 401) _ _ t (nothing-Emits _ t _ refl) (
            if-Emits _ (is_success response.status) _ _ t (nothing-Emits _ t _ refl)
              (nothing-Emits _ t _ refl))

    post_json-Emits : (body : Option Bytes) (s : State p) → Emits Posts s (post_json p inner body s)
    unfolding post_json
    post_json-Emits none s = nothing-Emits _ s _ (inl refl)
    post_json-Emits (some body) s = post_login-Emits body s

    post_password-Emits :
        (c : Credentials) (password : Option Str) (s : State p)
        → Emits Posts s (post_password p inner c password s)
    unfolding post_password
    post_password-Emits c none s = nothing-Emits _ s _ (inl refl)
    post_password-Emits c (some password) s = post_json-Emits _ s

    answer-Emits :
        (c : Credentials) (challenge : Result (Str × Str) AuthenticationError) (s : State p)
        → Emits Posts s (answer p inner c challenge s)
    unfolding answer
    answer-Emits c (err e) s = nothing-Emits _ s _ (inl refl)
    answer-Emits c (ok (realm, challenge)) s = post_password-Emits c _ s

    Login-after : (l k : List Sent) → l ≡ auth_get ∷ [] → Posts k → Login (l ++ k)
    Login-after l k e (inl f) = inl (ground arith)
    Login-after l k e (inr (body, f)) = inr (body, ground arith)

    login-Emits : (c : Credentials) (s : State p) → Emits Login s (login p inner c s)
    unfolding login challenged prepare
    login-Emits c s =
        pass-Emits (λ l. l ≡ auth_get ∷ []) Posts Login s _ _ (λ l h. inl h) Login-after
          (send_once-Emits inner _ s)
          λ response t.
            if-Emits Posts (response.status == 200) _ _ t (nothing-Emits _ t _ (inl refl)) (
              if-Emits Posts (response.status == 401) _ _ t (answer-Emits c _ t)
                (nothing-Emits _ t _ (inl refl)))

    -- What an authentication sends: nothing, `GET /auth`, or that and `POST /auth`.
    abbrev pub AuthRequests : List Sent → Type 0
    AuthRequests l = (l ≡ []) ⊎ Login l

    perform_authentication-Emits :
        (credentials : Option Credentials) (s : State p)
        → Emits AuthRequests s (perform_authentication p inner credentials s)
    unfolding perform_authentication
    perform_authentication-Emits none s = nothing-Emits _ s _ (inl refl)
    perform_authentication-Emits (some c) s =
        weaken-Emits Login _ s _ (λ l h. inr h) (login-Emits c s)

    settle-Emits :
        (s : State p) (r : Outcome (Unit {0}) × State p)
        → Emits AuthRequests s r
        → Emits AuthRequests s (settle p r)
    unfolding settle
    settle-Emits s (returns u, t) e = record { new = e.new; grows = e.grows; fits = e.fits }
    settle-Emits s (fails x, t) e = record { new = e.new; grows = e.grows; fits = e.fits }
    settle-Emits s (panic, t) e = e

    retained-Emits :
        (last : Option (Result (Unit {0}) Error)) (s : State p)
        → Emits AuthRequests s (retained p last s)
    unfolding retained
    retained-Emits none s = nothing-Emits _ s _ (inl refl)
    retained-Emits (some result) s = nothing-Emits _ s _ (inl refl)

    authenticate-Emits :
        (observed : ℕ) (s : State p) → Emits AuthRequests s (authenticate p inner observed s)
    unfolding authenticate
    authenticate-Emits observed s = elim (Bool-cases (s.auth.generation == observed)) [
      | inl same ↦ rw same (settle-Emits s _ (perform_authentication-Emits inner.credentials s))
      | inr moved ↦ rw moved (retained-Emits s.auth.last_result s)
    ]

    module _ (request : PreparedRequest p) where
      abbrev Retries : List Sent → Type 0
      Retries l =
          (auth : List Sent) × AuthRequests auth × ((l ≡ auth) ⊎ (l ≡ auth ++ target request ∷ []))

      retry-Emits :
          (observed : ℕ) (s : State p) → Emits Retries s (retry p inner request observed s)
      unfolding retry
      retry-Emits observed s =
          pass-Emits AuthRequests (λ l. l ≡ target request ∷ []) Retries s _ _
            (λ l h. (l, h, inl refl)) (λ l k h e. (l, h, inr (ap (λ t. l ++ t) e)))
            (authenticate-Emits observed s)
            λ u t.
              pass-Emits (λ l. l ≡ target request ∷ []) (λ l. l ≡ []) (λ l. l ≡ target request ∷ [])
                t _ _ (λ l h. h) (λ l k h e. ground (arith, append-nil l))
                (send_once-Emits inner request t)
                λ response v.
                  if-Emits _ (response.status == 401) _ _ v (nothing-Emits _ v _ refl)
                    (nothing-Emits _ v _ refl)

      unauthorized-Emits :
          (observed : ℕ) (credentials : Option Credentials) (s : State p)
          → Emits Retries s (unauthorized p inner request observed credentials s)
      unfolding unauthorized
      unauthorized-Emits observed none s = nothing-Emits Retries s _ ([], inl refl, inl refl)
      unauthorized-Emits observed (some c) s = retry-Emits observed s

      -- The requests of one call: the request itself; or that, what the authentication sends, and
      -- perhaps the request a second and last time.
      pub data Trail (l : List Sent) : Type 0 where
        alone : l ≡ target request ∷ [] → Trail l
        gave_up : (auth : List Sent) → AuthRequests auth → l ≡ target request ∷ auth → Trail l
        repeated :
            (auth : List Sent)
            → AuthRequests auth
            → l ≡ target request ∷ (auth ++ target request ∷ [])
            → Trail l

      Trail-after : (l k : List Sent) → l ≡ target request ∷ [] → Retries k → Trail (l ++ k)
      Trail-after l k e (auth, h, inl f) = gave_up auth h (ground arith)
      Trail-after l k e (auth, h, inr f) = repeated auth h (ground arith)

      -- One call of `send_authenticated` sends its request, at most once `GET /auth` without a
      -- body and then at most once `POST /auth` with one, and the request at most once more, after
      -- these, with the same method, URL and body; nothing else.
      pub send_authenticated-Trail :
          (s : State p) → Emits Trail s (send_authenticated p inner request s)
      unfolding send_authenticated
      send_authenticated-Trail s =
          pass-Emits (λ l. l ≡ target request ∷ []) Retries Trail s _ _ (λ l h. alone h) Trail-after
            (send_once-Emits inner request s)
            λ response t.
              if-Emits Retries (response.status == 401) _ _ t
                (unauthorized-Emits s.auth_generation inner.credentials t)
                (nothing-Emits Retries t _ ([], inl refl, inl refl))
