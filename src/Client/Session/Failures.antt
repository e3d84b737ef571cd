-- ===== src/Client/Session/Failures.antt =====
-- src/client.rs, from `send_once` up to `send_successful`: what the error of a failed call is about.
use keenetic_rci.Prelude.{
  ℕ, ◌≡◌, ◌⊎◌, inl, inr, Bool, true, false, Option, none, some, ◌==◌, Result, ok, err,
  if◌then◌else◌, refl, subst,
}
use keenetic_rci.Prelude.Str.{Str, Bytes}
use keenetic_rci.Error.{
  Error, get, post, RequestContext, AuthenticationError, context_of, transport, authentication,
  rejected_credentials, unauthorized_after_authentication, required, http, json_serialization,
}
use keenetic_rci.Auth.{Credentials, response_hash, hash_as_str}
use keenetic_rci.Client.Challenge.{parse_challenge}
use keenetic_rci.Client.Platform.{Platform, Response, is_success}
use keenetic_rci.Client.Session.{
  Outcome, returns, fails, panic, PreparedRequest, Inner, State, M, pass, pure, throw, wire,
  receive, send_once, prepare, auth_context, prepare_auth, post_login, post_json, post_password,
  answer, challenged, login, perform_authentication, publish, settle, retained, outcome,
  authenticate, retry, unauthorized, send_authenticated, send_successful,
}
pub mod Logins

module _ (p : Platform) where
  -- Errors of a login: without a request, or about the GET or the POST of the login's own endpoint.
  abbrev pub IsLogin : Error → Type 0
  IsLogin e =
      (context_of e ≡ none)
      ⊎ (context_of e ≡ some (auth_context p get))
      ⊎ (context_of e ≡ some (auth_context p post))

  -- An error of a login, or one about the request.
  abbrev pub IsOwn : RequestContext → Error → Type 0
  IsOwn context e = IsLogin e ⊎ (context_of e ≡ some context)

  -- The result that is kept, if any, is no failure but one of a login.
  abbrev pub IsKept : Option (Result (Unit {0}) Error) → Type 0
  IsKept none = Unit
  IsKept (some (ok u)) = Unit
  IsKept (some (err e)) = IsLogin e

  abbrev pub IsClean : State p → Type 0
  IsClean s = IsKept s.auth.last_result

  abbrev Told : {A : Type 0} → (Error → Type 0) → Outcome A → Type 0
  Told P (returns a) = Unit
  Told P (fails e) = P e
  Told P panic = Unit

  -- A failure has the property, and the state after the call is clean.
  pub record Fails {A : Type 0} (P : Error → Type 0) (r : Outcome A × State p) : Type 0 where
    pub told : Told P r.0
    pub clean : IsClean r.1

  pub fails-Fails :
      {A : Type 0} (P : Error → Type 0) (r : Outcome A × State p) (e : Error) (t : State p)
      → Fails P r
      → r ≡ (fails e, t)
      → P e × IsClean t
  fails-Fails P r e t h same =
      let moved = subst (λ o. Fails P o) same h in (moved.told, moved.clean)

  pub pass-Fails :
      {A B : Type 0} (P : Error → Type 0) (r : Outcome A × State p) (f : A → M p B)
      → Fails P r
      → ((a : A) (t : State p) → IsClean t → Fails P (f a t))
      → Fails P (pass p r f)
  pass-Fails P (returns a, t) f h k = k a t h.clean
  pass-Fails P (fails e, t) f h k = record { told = h.told; clean = h.clean }
  pass-Fails P (panic, t) f h k = record { told = tt; clean = h.clean }

  pub if-Fails :
      {A : Type 0} (P : Error → Type 0) (b : Bool) (m m' : M p A) (t : State p)
      → Fails P (m t)
      → Fails P (m' t)
      → Fails P ((if b then m else m') t)
  if-Fails P true m m' t h k = h
  if-Fails P false m m' t h k = k

  pub weaken :
      {A : Type 0} (P Q : Error → Type 0) (r : Outcome A × State p)
      → ((e : Error) → P e → Q e)
      → Fails P r
      → Fails Q r
  weaken P Q (returns a, t) imply h = record { told = tt; clean = h.clean }
  weaken P Q (fails e, t) imply h = record { told = imply e h.told; clean = h.clean }
  weaken P Q (panic, t) imply h = record { told = tt; clean = h.clean }

  pub returned-Fails :
      {A : Type 0} (P : Error → Type 0) (a : A) (t : State p) → IsClean t → Fails P (pure p a t)
  returned-Fails P a t h = record { told = tt; clean = h }

  pub thrown-Fails :
      {A : Type 0} (P : Error → Type 0) (e : Error) (t : State p)
      → P e
      → IsClean t
      → Fails P (throw p {A = A} e t)
  thrown-Fails P e t told h = record { told = told; clean = h }

  abbrev pub IsAbout : RequestContext → Error → Type 0
  IsAbout context e = context_of e ≡ some context

  pub receive-Fails :
      (request : PreparedRequest p) (reply : Option (Response p.Url)) (s : State p)
      → IsClean s
      → Fails (IsAbout request.context) (receive p request reply s)
  unfolding context_of
  receive-Fails request none s h = record { told = refl; clean = h }
  receive-Fails request (some response) s h = record { told = tt; clean = h }

  pub send_once-Fails :
      (inner : Inner p) (request : PreparedRequest p) (s : State p)
      → IsClean s
      → Fails (IsAbout request.context) (send_once p inner request s)
  unfolding send_once
  send_once-Fails inner request s h = receive-Fails request _ _ h
