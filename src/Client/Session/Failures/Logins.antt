-- ===== src/Client/Session/Failures/Logins.antt =====
-- src/client.rs, from `perform_authentication` up to `send_successful`: what their errors are about.
use keenetic_rci.Prelude.{ℕ, inl, inr, Option, none, some, ◌==◌, Result, ok, err, refl}
use keenetic_rci.Prelude.Str.{Str, Bytes}
use keenetic_rci.Error.{Error, get, post, AuthenticationError, context_of}
use keenetic_rci.Auth.{Credentials}
use keenetic_rci.Client.Platform.{Platform, Response, is_success}
use keenetic_rci.Client.Session.{
  Outcome, returns, fails, panic, PreparedRequest, Inner, State, send_once, prepare, auth_context,
  prepare_auth, post_login, post_json, post_password, answer, challenged, login,
  perform_authentication, settle, retained, authenticate, retry, unauthorized, send_authenticated,
  send_successful,
}
use keenetic_rci.Client.Session.Failures.{
  IsLogin, IsOwn, IsKept, IsClean, IsAbout, Fails, pass-Fails, if-Fails, weaken, returned-Fails,
  thrown-Fails, send_once-Fails,
}
use keenetic_rci.Prelude.{Bool-cases}

module _ (p : Platform) where
  post_login-Fails :
      (inner : Inner p) (body : Bytes) (s : State p)
      → IsClean p s
      → Fails p (IsLogin p) (post_login p inner body s)
  unfolding post_login prepare context_of
  post_login-Fails inner body s h =
      let request = prepare_auth p inner post (some body) in
      pass-Fails p (IsLogin p) (send_once p inner request s) _
        (weaken p (IsAbout p (auth_context p post)) (IsLogin p) _ (λ e q. inr (inr q))
          (send_once-Fails p inner request s h))
        λ (response : Response p.Url) t k.
          if-Fails p (IsLogin p) (response.status == 401) _ _ t
            (thrown-Fails p (IsLogin p) _ t (inl refl) k)
            (if-Fails p (IsLogin p) (is_success response.status) _ _ t
              (returned-Fails p (IsLogin p) tt t k)
              (thrown-Fails p (IsLogin p) _ t (inr (inr refl)) k))

  post_password-Fails :
      (inner : Inner p) (credentials : Credentials) (password : Option Str) (s : State p)
      → IsClean p s
      → Fails p (IsLogin p) (post_password p inner credentials password s)
  unfolding post_password post_json context_of
  post_password-Fails inner credentials none s h = record { told = tt; clean = h }
  post_password-Fails inner credentials (some password) s h =
      posted (p.auth_json credentials.login password)
    where
      posted : (body : Option Bytes) → Fails p (IsLogin p) (post_json p inner body s)
      posted none = record { told = inr (inr refl); clean = h }
      posted (some body) = post_login-Fails inner body s h

  answer-Fails :
      (inner : Inner p) (credentials : Credentials)
      (challenge : Result (Str × Str) AuthenticationError) (s : State p)
      → IsClean p s
      → Fails p (IsLogin p) (answer p inner credentials challenge s)
  unfolding answer context_of
  answer-Fails inner credentials (err e) s h = record { told = inl refl; clean = h }
  answer-Fails inner credentials (ok (realm, challenge)) s h =
      post_password-Fails inner credentials _ s h

  challenged-Fails :
      (inner : Inner p) (credentials : Credentials) (response : Response p.Url) (s : State p)
      → IsClean p s
      → Fails p (IsLogin p) (challenged p inner credentials response s)
  unfolding challenged context_of
  challenged-Fails inner credentials response s h =
      if-Fails p (IsLogin p) (response.status == 200) _ _ s (returned-Fails p (IsLogin p) tt s h) (
        if-Fails p (IsLogin p) (response.status == 401) _ _ s (answer-Fails inner credentials _ s h)
          (thrown-Fails p (IsLogin p) _ s (inr (inl refl)) h))

  perform_authentication-Fails :
      (inner : Inner p) (credentials : Option Credentials) (s : State p)
      → IsClean p s
      → Fails p (IsLogin p) (perform_authentication p inner credentials s)
  unfolding perform_authentication login prepare
  perform_authentication-Fails inner none s h = record { told = tt; clean = h }
  perform_authentication-Fails inner (some credentials) s h =
      pass-Fails p (IsLogin p) (send_once p inner (prepare_auth p inner get none) s) _
        (weaken p (IsAbout p (auth_context p get)) (IsLogin p) _ (λ e q. inr (inl q))
          (send_once-Fails p inner (prepare_auth p inner get none) s h))
        λ (response : Response p.Url) t k. challenged-Fails inner credentials response t k

  settle-Fails :
      (r : Outcome (Unit {0}) × State p) → Fails p (IsLogin p) r → Fails p (IsLogin p) (settle p r)
  unfolding settle
  settle-Fails (returns u, s) h = record { told = tt; clean = tt }
  settle-Fails (fails e, s) h = record { told = h.told; clean = h.told }
  settle-Fails (panic, s) h = record { told = tt; clean = h.clean }

  retained-Fails :
      (kept : Option (Result (Unit {0}) Error)) (s : State p)
      → IsKept p kept
      → IsClean p s
      → Fails p (IsLogin p) (retained p kept s)
  unfolding retained
  retained-Fails none s k h = record { told = tt; clean = h }
  retained-Fails (some (ok u)) s k h = record { told = tt; clean = h }
  retained-Fails (some (err e)) s k h = record { told = k; clean = h }

  authenticate-Fails :
      (inner : Inner p) (observed : ℕ) (s : State p)
      → IsClean p s
      → Fails p (IsLogin p) (authenticate p inner observed s)
  unfolding authenticate
  authenticate-Fails inner observed s h = elim (Bool-cases (s.auth.generation == observed)) [
    | inl current ↦
        rw current (settle-Fails _ (perform_authentication-Fails inner inner.credentials s h))
    | inr later ↦ rw later (retained-Fails s.auth.last_result s h h)
  ]

  module _ (inner : Inner p) (request : PreparedRequest p) where
    abbrev Own : Error → Type 0
    Own e = IsOwn p request.context e

    sent_itself : (s : State p) → IsClean p s → Fails p Own (send_once p inner request s)
    sent_itself s h =
        weaken p (IsAbout p request.context) Own _ (λ e q. inr q)
          (send_once-Fails p inner request s h)

    retry-Fails :
        (observed : ℕ) (s : State p) → IsClean p s → Fails p Own (retry p inner request observed s)
    unfolding retry context_of
    retry-Fails observed s h =
        pass-Fails p Own (authenticate p inner observed s) _
          (weaken p (IsLogin p) Own _ (λ e q. inl q) (authenticate-Fails inner observed s h))
          λ u t k.
            pass-Fails p Own (send_once p inner request t) _ (sent_itself t k)
              λ (response : Response p.Url) v j.
                if-Fails p Own (response.status == 401) _ _ v
                  (thrown-Fails p Own _ v (inl (inl refl)) j) (returned-Fails p Own response v j)

    unauthorized-Fails :
        (observed : ℕ) (credentials : Option Credentials) (s : State p)
        → IsClean p s
        → Fails p Own (unauthorized p inner request observed credentials s)
    unfolding unauthorized context_of
    unauthorized-Fails observed none s h = record { told = inl (inl refl); clean = h }
    unauthorized-Fails observed (some credentials) s h = retry-Fails observed s h

    send_authenticated-Fails :
        (s : State p) → IsClean p s → Fails p Own (send_authenticated p inner request s)
    unfolding send_authenticated
    send_authenticated-Fails s h =
        pass-Fails p Own (send_once p inner request s) _ (sent_itself s h)
          λ (response : Response p.Url) t k.
            if-Fails p Own (response.status == 401) _ _ t
              (unauthorized-Fails s.auth_generation inner.credentials t k)
              (returned-Fails p Own response t k)

    -- A failure of `send_successful` is one of a login or about the request that was given, and the
    -- failure that is kept for other calls is one of a login.
    pub send_successful-Fails :
        (s : State p) → IsClean p s → Fails p Own (send_successful p inner request s)
    unfolding send_successful context_of
    send_successful-Fails s h =
        pass-Fails p Own (send_authenticated p inner request s) _ (send_authenticated-Fails s h)
          λ (response : Response p.Url) t k.
            if-Fails p Own (is_success response.status) _ _ t (returned-Fails p Own response t k)
              (thrown-Fails p Own _ t (inr refl) k)
