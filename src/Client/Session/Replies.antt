-- ===== src/Client/Session/Replies.antt =====
-- src/client.rs, `send_authenticated` and `send_successful`: which responses a call can return.
use keenetic_rci.Prelude.{
  ℕ, ◌≤◌, ◌<◌, ◌≡◌, ◌≢◌, Bool, true, false, Option, none, some, ◌==◌, if◌then◌else◌, arith, refl,
  subst,
}
use keenetic_rci.Error.{Error, authentication, unauthorized_after_authentication, http}
use keenetic_rci.Auth.{Credentials}
use keenetic_rci.Client.Platform.{Platform, Response, is_success}
use keenetic_rci.Client.Session.{
  Outcome, returns, fails, panic, PreparedRequest, Inner, State, M, pass, send_once, authenticate,
  retry, unauthorized, send_authenticated, send_successful, pure, throw,
}

module _ (p : Platform) where
  -- Each response that is returned has the property.
  abbrev Holds : (Response p.Url → Type 0) → Outcome (Response p.Url) → Type 0
  Holds P (returns response) = P response
  Holds P (fails e) = Unit
  Holds P panic = Unit

  record Answers (P : Response p.Url → Type 0) (r : Outcome (Response p.Url) × State p)
      : Type 0 where
    holds : Holds P r.0

  failed-Answers : (P : Response p.Url → Type 0) (e : Error) (t : State p) → Answers P (fails e, t)
  failed-Answers P e t = record { holds = tt }

  pass-Answers :
      {A : Type 0} (P : Response p.Url → Type 0) (r : Outcome A × State p)
      (f : A → M p (Response p.Url))
      → ((a : A) (t : State p) → Answers P (f a t))
      → Answers P (pass p r f)
  pass-Answers P (returns a, t) f k = k a t
  pass-Answers P (fails e, t) f k = failed-Answers P e t
  pass-Answers P (panic, t) f k = record { holds = tt }

  if-Answers :
      (P : Response p.Url → Type 0) (b : Bool) (m m' : M p (Response p.Url)) (t : State p)
      → (b ≡ true → Answers P (m t))
      → (b ≡ false → Answers P (m' t))
      → Answers P ((if b then m else m') t)
  if-Answers P true m m' t h k = h refl
  if-Answers P false m m' t h k = k refl

  Answers-returned :
      (P : Response p.Url → Type 0) (r : Outcome (Response p.Url) × State p)
      (response : Response p.Url) (t : State p)
      → Answers P r
      → r ≡ (returns response, t)
      → P response
  Answers-returned P r response t h e = subst (λ o. Holds P o.0) e h.holds

  module _ (inner : Inner p) (request : PreparedRequest p) where
    abbrev Accepted : Response p.Url → Type 0
    Accepted response = response.status ≢ 401

    retry-Answers :
        (observed : ℕ) (s : State p) → Answers Accepted (retry p inner request observed s)
    unfolding retry
    retry-Answers observed s =
        pass-Answers {A = Unit} Accepted (authenticate p inner observed s) _ λ u t.
          pass-Answers Accepted (send_once p inner request t) _ λ (response : Response p.Url) v.
            if-Answers Accepted (response.status == 401)
              (throw p (authentication unauthorized_after_authentication)) (pure p response) v
              (λ e. failed-Answers Accepted _ v) (λ e. record { holds = λ q. ground (arith, e, q) })

    unauthorized-Answers :
        (observed : ℕ) (credentials : Option Credentials) (s : State p)
        → Answers Accepted (unauthorized p inner request observed credentials s)
    unfolding unauthorized
    unauthorized-Answers observed none s = failed-Answers Accepted _ s
    unauthorized-Answers observed (some c) s = retry-Answers observed s

    send_authenticated-Answers :
        (s : State p) → Answers Accepted (send_authenticated p inner request s)
    unfolding send_authenticated
    send_authenticated-Answers s =
        pass-Answers Accepted (send_once p inner request s) _ λ (response : Response p.Url) t.
          if-Answers Accepted (response.status == 401)
            (unauthorized p inner request s.auth_generation inner.credentials) (pure p response) t
            (λ e. unauthorized-Answers s.auth_generation inner.credentials t)
            (λ e. record { holds = λ q. ground (arith, e, q) })

    -- A response that `send_authenticated` returns is never a 401.
    pub send_authenticated-not_401 :
        (s : State p) (response : Response p.Url) (t : State p)
        → send_authenticated p inner request s ≡ (returns response, t)
        → response.status ≢ 401
    send_authenticated-not_401 s response t e =
        Answers-returned Accepted _ response t (send_authenticated-Answers s) e

    abbrev Success : Response p.Url → Type 0
    Success response = (200 ≤ response.status) × (response.status < 300)

    send_successful-Answers : (s : State p) → Answers Success (send_successful p inner request s)
    unfolding send_successful is_success
    send_successful-Answers s =
        pass-Answers Success (send_authenticated p inner request s) _
          λ (response : Response p.Url) t.
            if-Answers Success (is_success response.status) (pure p response)
              (throw p (http request.context response.status)) t
              (λ e. record { holds = ground (arith, e) }) (λ e. failed-Answers Success _ t)

    -- A response that `send_successful` returns has a status from 200 to 299.
    pub send_successful-Success :
        (s : State p) (response : Response p.Url) (t : State p)
        → send_successful p inner request s ≡ (returns response, t)
        → (200 ≤ response.status) × (response.status < 300)
    send_successful-Success s response t e =
        Answers-returned Success _ response t (send_successful-Answers s) e
