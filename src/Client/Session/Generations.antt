-- ===== src/Client/Session/Generations.antt =====
-- src/client.rs, `authenticate` and its callers: the generation counters of a session, and the
-- `expect`s.
use keenetic_rci.Prelude.{
  ℕ, ◌^◌, ◌<◌, ◌≡◌, ◌≢◌, Bool, true, false, Option, none, some, Result, ok, err, ◌==◌,
  if◌then◌else◌, arith, refl, sym, ap, ◌∙◌, inl, inr, Bool-cases,
}
use keenetic_rci.Prelude.Str.{Str, Bytes}
use keenetic_rci.Error.{Error, AuthenticationError}
use keenetic_rci.Auth.{Credentials}
use keenetic_rci.Auth.Hex.{AreDigests, response_hash-IsResponse}
use keenetic_rci.Client.Platform.{Platform, Response, is_success}
use keenetic_rci.Client.Session.{
  Outcome, returns, fails, panic, AuthState, PreparedRequest, Inner, State, M, pass, receive,
  send_once, post_login, post_json, post_password, answer, challenged, login,
  perform_authentication, publish, settle, retained, authenticate, retry, unauthorized,
  send_authenticated,
}

module _ (p : Platform) where
  -- A call that leaves the counters and the kept result alone, and does not panic.
  pub record Quiet {A : Type 0} (s : State p) (r : Outcome A × State p) : Type 0 where
    pub same_auth : r.1.auth ≡ s.auth
    pub same_published : r.1.auth_generation ≡ s.auth_generation
    pub no_panic : r.0 ≢ panic

  returns-Quiet : {A : Type 0} (a : A) (s : State p) → Quiet s (returns a, s)
  returns-Quiet a s = record { same_auth = refl; same_published = refl; no_panic = λ e. cc }

  fails-Quiet : {A : Type 0} (e : Error) (s : State p) → Quiet {A = A} s (fails e, s)
  fails-Quiet e s = record { same_auth = refl; same_published = refl; no_panic = λ q. cc }

  pass-Quiet :
      {A B : Type 0} (s : State p) (r : Outcome A × State p) (f : A → M p B)
      → Quiet s r
      → ((a : A) (t : State p) → Quiet t (f a t))
      → Quiet s (pass p r f)
  pass-Quiet s (returns a, t) f q k = record {
    same_auth = (k a t).same_auth ∙ q.same_auth;
    same_published = (k a t).same_published ∙ q.same_published;
    no_panic = (k a t).no_panic;
  }
  pass-Quiet s (fails e, t) f q k = record {
    same_auth = q.same_auth;
    same_published = q.same_published;
    no_panic = λ z. cc;
  }
  pass-Quiet s (panic, t) f q k = absurd (q.no_panic refl)

  if-Quiet :
      {A : Type 0} (b : Bool) (m m' : M p A) (s : State p)
      → Quiet s (m s)
      → Quiet s (m' s)
      → Quiet s ((if b then m else m') s)
  if-Quiet true m m' s h k = h
  if-Quiet false m m' s h k = k

  receive-Quiet :
      (request : PreparedRequest p) (reply : Option (Response p.Url)) (s t : State p)
      → t.auth ≡ s.auth
      → t.auth_generation ≡ s.auth_generation
      → Quiet s (receive p request reply t)
  receive-Quiet request none s t e g = record {
    same_auth = e;
    same_published = g;
    no_panic = λ q. cc;
  }
  receive-Quiet request (some response) s t e g = record {
    same_auth = e;
    same_published = g;
    no_panic = λ q. cc;
  }

  pub send_once-Quiet :
      (inner : Inner p) (request : PreparedRequest p) (s : State p)
      → Quiet s (send_once p inner request s)
  unfolding send_once
  send_once-Quiet inner request s = receive-Quiet request _ s _ refl refl

  post_login-Quiet :
      (inner : Inner p) (body : Bytes) (s : State p) → Quiet s (post_login p inner body s)
  unfolding post_login
  post_login-Quiet inner body s = pass-Quiet s _ _ (send_once-Quiet inner _ s) λ response t.
      if-Quiet (response.status == 401) _ _ t (fails-Quiet _ t)
        (if-Quiet (is_success response.status) _ _ t (returns-Quiet tt t) (fails-Quiet _ t))

  -- The counters are in step, fit a word, and only a generation of 0 may have no result.
  pub record IsSynced (s : State p) : Type 0 where
    pub published : s.auth_generation ≡ s.auth.generation
    pub word : s.auth.generation < 2 ^ 64
    pub first : s.auth.last_result ≡ none → s.auth.generation ≡ 0

  Quiet-IsSynced :
      {A : Type 0} (s : State p) (r : Outcome A × State p) → Quiet s r → IsSynced s → IsSynced r.1
  Quiet-IsSynced s r q i = record {
    published = rw (q.same_auth, q.same_published) i.published;
    word = rw q.same_auth i.word;
    first = rw q.same_auth i.first;
  }

  publish-IsSynced :
      (result : Result (Unit {0}) Error) (s : State p) → IsSynced (publish p result s)
  publish-IsSynced result s = record { published = refl; word = omega arith; first = λ e. cc }

  -- A step that keeps the counters in step and does not panic.
  pub record Safe {A : Type 0} (r : Outcome A × State p) : Type 0 where
    pub synced : IsSynced r.1
    pub no_panic : r.0 ≢ panic

  Quiet-Safe :
      {A : Type 0} (s : State p) (r : Outcome A × State p) → IsSynced s → Quiet s r → Safe r
  Quiet-Safe s r i q = record { synced = Quiet-IsSynced s r q i; no_panic = q.no_panic }

  pass-Safe :
      {A B : Type 0} (r : Outcome A × State p) (f : A → M p B)
      → Safe r
      → ((a : A) (t : State p) → IsSynced t → Safe (f a t))
      → Safe (pass p r f)
  pass-Safe (returns a, t) f q k = k a t q.synced
  pass-Safe (fails e, t) f q k = record { synced = q.synced; no_panic = λ z. cc }
  pass-Safe (panic, t) f q k = absurd (q.no_panic refl)

  if-Safe :
      {A : Type 0} (b : Bool) (m m' : M p A) (s : State p)
      → Safe (m s)
      → Safe (m' s)
      → Safe ((if b then m else m') s)
  if-Safe true m m' s h k = h
  if-Safe false m m' s h k = k

  module _ (digests : AreDigests p.md5 p.sha256) where
    post_json-Quiet :
        (inner : Inner p) (body : Option Bytes) (s : State p) → Quiet s (post_json p inner body s)
    unfolding post_json
    post_json-Quiet inner none s = fails-Quiet _ s
    post_json-Quiet inner (some body) s = post_login-Quiet inner body s

    answer-Quiet :
        (inner : Inner p) (c : Credentials) (challenge : Result (Str × Str) AuthenticationError)
        (s : State p)
        → Quiet s (answer p inner c challenge s)
    unfolding answer post_password
    answer-Quiet inner c (err e) s = fails-Quiet _ s
    answer-Quiet inner c (ok (realm, challenge)) s =
        rw
          (response_hash-IsResponse p.md5 p.sha256 c.login realm c.password challenge
            digests).readable
          (post_json-Quiet inner _ s)

    login-Quiet : (inner : Inner p) (c : Credentials) (s : State p) → Quiet s (login p inner c s)
    unfolding login challenged
    login-Quiet inner c s = pass-Quiet s _ _ (send_once-Quiet inner _ s) λ response t.
        if-Quiet (response.status == 200) _ _ t (returns-Quiet tt t)
          (if-Quiet (response.status == 401) _ _ t (answer-Quiet inner c _ t) (fails-Quiet _ t))

    settle-Safe : (s : State p) (r : Outcome (Unit {0}) × State p) → Quiet s r → Safe (settle p r)
    unfolding settle
    settle-Safe s (returns u, t) q = record {
      synced = publish-IsSynced (ok u) t;
      no_panic = λ e. cc;
    }
    settle-Safe s (fails e, t) q = record {
      synced = publish-IsSynced (err e) t;
      no_panic = λ z. cc;
    }
    settle-Safe s (panic, t) q = absurd (q.no_panic refl)

    perform_authentication-Quiet :
        (inner : Inner p) (credentials : Option Credentials) (s : State p)
        → credentials ≢ none
        → Quiet s (perform_authentication p inner credentials s)
    unfolding perform_authentication
    perform_authentication-Quiet inner none s has = absurd (has refl)
    perform_authentication-Quiet inner (some c) s has = login-Quiet inner c s

    -- A waiter that finds a new generation finds its result, since only generation 0 has none.
    retained-Safe :
        (last : Option (Result (Unit {0}) Error)) (s : State p)
        → IsSynced s
        → last ≢ none
        → Safe (retained p last s)
    unfolding retained
    retained-Safe none s i h = absurd (h refl)
    retained-Safe (some (ok u)) s i h = record { synced = i; no_panic = λ e. cc }
    retained-Safe (some (err e)) s i h = record { synced = i; no_panic = λ z. cc }

    -- From counters in step, `authenticate` leaves them in step and does not panic, when there are
    -- credentials, the digests have their documented lengths, and the observed generation is 0 if no
    -- authentication has completed yet.
    pub authenticate-Safe :
        (inner : Inner p) (observed : ℕ) (s : State p)
        → inner.credentials ≢ none
        → IsSynced s
        → (s.auth.last_result ≡ none → observed ≡ 0)
        → Safe (authenticate p inner observed s)
    unfolding authenticate
    authenticate-Safe inner observed s has i old =
        elim (Bool-cases (s.auth.generation == observed)) [
          | inl same ↦
              rw same (settle-Safe s _ (perform_authentication-Quiet inner inner.credentials s has))
          | inr moved ↦ rw moved (
              retained-Safe s.auth.last_result s i
                (λ e. absurd (ground (arith, i.first e, old e, moved))))
        ]

    retry-Safe :
        (inner : Inner p) (request : PreparedRequest p) (observed : ℕ) (s : State p)
        → inner.credentials ≢ none
        → IsSynced s
        → (s.auth.last_result ≡ none → observed ≡ 0)
        → Safe (retry p inner request observed s)
    unfolding retry
    retry-Safe inner request observed s has i old =
        pass-Safe _ _ (authenticate-Safe inner observed s has i old) λ u t j.
          pass-Safe _ _ (Quiet-Safe t _ j (send_once-Quiet inner request t)) λ response v k.
            if-Safe (response.status == 401) _ _ v (Quiet-Safe v _ k (fails-Quiet _ v))
              (Quiet-Safe v _ k (returns-Quiet response v))

    unauthorized-Safe :
        (inner : Inner p) (request : PreparedRequest p) (observed : ℕ)
        (credentials : Option Credentials) (s : State p)
        → inner.credentials ≡ credentials
        → IsSynced s
        → (s.auth.last_result ≡ none → observed ≡ 0)
        → Safe (unauthorized p inner request observed credentials s)
    unfolding unauthorized
    unauthorized-Safe inner request observed none s e i old = Quiet-Safe s _ i (fails-Quiet _ s)
    unauthorized-Safe inner request observed (some c) s e i old =
        retry-Safe inner request observed s (λ q. cc) i old

    -- After a quiet first request, a result that is missing means that generation 0 was observed.
    first-Safe :
        {A B : Type 0} (s : State p) (r : Outcome A × State p) (f : A → M p B)
        → IsSynced s
        → Quiet s r
        → ((a : A) (t : State p)
            → IsSynced t
            → (t.auth.last_result ≡ none → s.auth_generation ≡ 0)
            → Safe (f a t))
        → Safe (pass p r f)
    first-Safe s (returns a, t) f i q k =
        k a t (Quiet-IsSynced s (returns a, t) q i)
          (λ e. i.published ∙ i.first (sym (ap (λ (x : AuthState). x.last_result) q.same_auth) ∙ e))
    first-Safe s (fails e, t) f i q k = record {
      synced = Quiet-IsSynced s (fails e, t) q i;
      no_panic = λ z. cc;
    }
    first-Safe s (panic, t) f i q k = absurd (q.no_panic refl)

    -- When the digests have their documented lengths, a call of `send_authenticated` from counters in
    -- step leaves them in step and does not panic: no `expect` behind it can fail.
    pub send_authenticated-Safe :
        (inner : Inner p) (request : PreparedRequest p) (s : State p)
        → IsSynced s
        → Safe (send_authenticated p inner request s)
    unfolding send_authenticated
    send_authenticated-Safe inner request s i =
        first-Safe s _ _ i (send_once-Quiet inner request s) λ response t j old.
          if-Safe (response.status == 401) _ _ t
            (unauthorized-Safe inner request s.auth_generation inner.credentials t refl j old)
            (Quiet-Safe t _ j (returns-Quiet response t))
