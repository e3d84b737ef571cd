-- ===== src/Client/Session.antt =====
-- src/client.rs, `Inner`: sending a request, and the challenge-response authentication behind it.
-- One call at a time.
use keenetic_rci.Prelude.{
  ℕ, ◌+◌, ◌%◌, ◌^◌, Bool, true, false, Option, none, some, List, [], ◌∷◌, ◌++◌, Result, ok, err,
  ◌==◌, if◌then◌else◌,
}
use keenetic_rci.Prelude.Str.{Str, Bytes, codes}
use keenetic_rci.Error.{
  Method, get, post, RequestContext, AuthenticationError, required, rejected_credentials,
  unauthorized_after_authentication, Error, json_serialization, transport, authentication, http,
}
use keenetic_rci.Auth.{Credentials, response_hash, hash_as_str}
use keenetic_rci.Client.Challenge.{parse_challenge}
use keenetic_rci.Client.Platform.{Platform, HttpRequest, Response, is_success}
pub mod Generations
pub mod Traffic
pub mod Replies
pub mod Failures

-- How a call ends. `panic` is a failed `expect`.
pub data Outcome (A : Type 0) : Type 0 where
  returns : A → Outcome A
  fails : Error → Outcome A
  panic : Outcome A

abbrev pub auth_endpoint : Str
auth_endpoint = codes "/auth"

-- `AuthState`
pub record AuthState : Type 0 where
  pub generation : ℕ
  pub last_result : Option (Result (Unit {0}) Error)

abbrev pub default_auth : AuthState
default_auth = record { generation = 0; last_result = none }

abbrev pub outcome : Result (Unit {0}) Error → Outcome (Unit {0})
outcome (ok u) = returns u
outcome (err e) = fails e

module _ (p : Platform) where
  -- `PreparedRequest`
  pub record PreparedRequest : Type 0 where
    pub context : RequestContext
    pub url : p.Url
    pub body : Option Bytes

  -- The fields of `Inner` that never change.
  pub record Inner : Type 0 where
    pub base_url : p.Url
    pub credentials : Option Credentials
    pub request_timeout : ℕ
    pub request_timeout_per_request : Bool

  -- The fields of `Inner` that calls change, the world, and the requests sent so far, oldest first.
  pub record State : Type 0 where
    pub cookies : p.Jar
    pub auth_generation : ℕ
    pub auth : AuthState
    pub world : p.World
    pub sent : List (HttpRequest p.Url)

  abbrev pub M : Type 0 → Type 0
  M A = State → Outcome A × State

  abbrev pub pass : {A B : Type 0} → Outcome A × State → (A → M B) → Outcome B × State
  pass (returns a, s) f = f a s
  pass (fails e, s) f = (fails e, s)
  pass (panic, s) f = (panic, s)

  infixl 5 ◌>>=◌
  abbrev pub ◌>>=◌ : {A B : Type 0} → M A → (A → M B) → M B
  ◌>>=◌ m f s = pass (m s) f

  abbrev pub pure : {A : Type 0} → A → M A
  pure a s = (returns a, s)

  abbrev pub throw : {A : Type 0} → Error → M A
  throw e s = (fails e, s)

  -- The request that `send_once` builds.
  abbrev pub wire : Inner → PreparedRequest → State → HttpRequest p.Url
  wire inner request s = record {
    method = request.context.method;
    url = request.url;
    timeout = if inner.request_timeout_per_request then some inner.request_timeout else none;
    cookie = p.cookies s.cookies request.url;
    content_type = elim request.body [ none ↦ none | some _ ↦ some (codes "application/json") ];
    body = request.body;
  }

  abbrev pub receive : PreparedRequest → Option (Response p.Url) → M (Response p.Url)
  receive request none s = (fails (transport request.context), s)
  receive request (some response) s = (
    returns response,
    record s {
      cookies = elim response.set_cookie [
        | [] ↦ s.cookies
        | _ ↦ p.set_cookies s.cookies response.set_cookie response.url
      ];
    },
  )

  -- `send_once`
  unfoldable pub send_once : Inner → PreparedRequest → M (Response p.Url)
  send_once inner request s =
      let out = wire inner request s in
      let (reply, world) = p.send s.world out in
      receive request reply (record s { world = world; sent = s.sent ++ out ∷ [] })

  -- `prepare`, with `endpoint_url`
  unfoldable pub prepare : Inner → Method → Str → Option Bytes → PreparedRequest
  prepare inner method endpoint body = record {
    context = record { method = method; endpoint = endpoint };
    url = p.set_path inner.base_url endpoint;
    body = body;
  }

  -- `auth_context` and `prepare_auth`
  abbrev pub auth_context : Method → RequestContext
  auth_context method = record { method = method; endpoint = auth_endpoint }

  abbrev pub prepare_auth : Inner → Method → Option Bytes → PreparedRequest
  prepare_auth inner method body = prepare inner method auth_endpoint body

  -- The end of `perform_authentication`: the login is posted.
  unfoldable pub post_login : Inner → Bytes → M (Unit {0})
  post_login inner body = do
    let request = prepare_auth inner post (some body)
    response ← send_once inner request
    if response.status == 401
        then throw (authentication rejected_credentials)
        else if is_success response.status
        then pure tt
        else throw (http request.context response.status)

  -- The middle of it: the JSON text of the login, and the answer to a challenge.
  unfoldable pub post_json : Inner → Option Bytes → M (Unit {0})
  post_json inner none = throw (json_serialization (auth_context post))
  post_json inner (some body) = post_login inner body

  unfoldable pub post_password : Inner → Credentials → Option Str → M (Unit {0})
  post_password inner credentials none s = (panic, s)
  post_password inner credentials (some password) s =
      post_json inner (p.auth_json credentials.login password) s

  unfoldable pub answer :
      Inner → Credentials → Result (Str × Str) AuthenticationError → M (Unit {0})
  answer inner credentials (err e) = throw (authentication e)
  answer inner credentials (ok (realm, challenge)) = post_password inner credentials (
      hash_as_str
        (response_hash p.md5 p.sha256 credentials.login realm credentials.password challenge))

  -- The response to `GET /auth`.
  unfoldable pub challenged : Inner → Credentials → Response p.Url → M (Unit {0})
  challenged inner credentials response =
      if response.status == 200
      then pure tt
      else if response.status == 401
      then answer inner credentials (parse_challenge p.to_str response.header)
      else throw (http (auth_context get) response.status)

  unfoldable pub login : Inner → Credentials → M (Unit {0})
  login inner credentials = do
    response ← send_once inner (prepare_auth inner get none)
    challenged inner credentials response

  -- `perform_authentication`; without credentials its `expect` fails.
  unfoldable pub perform_authentication : Inner → Option Credentials → M (Unit {0})
  perform_authentication inner none s = (panic, s)
  perform_authentication inner (some credentials) s = login inner credentials s

  -- The end of `authenticate`: the result is kept under a new generation.
  abbrev pub publish : Result (Unit {0}) Error → State → State
  publish result s =
      let generation = (s.auth.generation + 1) % 2 ^ 64 in
      record s {
        auth = record { generation = generation; last_result = some result };
        auth_generation = generation;
      }

  unfoldable pub settle : Outcome (Unit {0}) × State → Outcome (Unit {0}) × State
  settle (returns u, s) = (returns u, publish (ok u) s)
  settle (fails e, s) = (fails e, publish (err e) s)
  settle (panic, s) = (panic, s)

  -- The result that a generation retains; `expect` fails where there is none.
  unfoldable pub retained : Option (Result (Unit {0}) Error) → M (Unit {0})
  retained none s = (panic, s)
  retained (some result) s = (outcome result, s)

  -- `authenticate`
  unfoldable pub authenticate : Inner → ℕ → M (Unit {0})
  authenticate inner observed s =
      if s.auth.generation == observed
      then settle (perform_authentication inner inner.credentials s)
      else retained s.auth.last_result s

  -- The second half of `send_authenticated`, after a 401.
  unfoldable pub retry : Inner → PreparedRequest → ℕ → M (Response p.Url)
  retry inner request observed = do
    _ ← authenticate inner observed
    response ← send_once inner request
    if response.status == 401
        then throw (authentication unauthorized_after_authentication)
        else pure response

  unfoldable pub unauthorized :
      Inner → PreparedRequest → ℕ → Option Credentials → M (Response p.Url)
  unauthorized inner request observed none = throw (authentication required)
  unauthorized inner request observed (some _) = retry inner request observed

  -- `send_authenticated`
  unfoldable pub send_authenticated : Inner → PreparedRequest → M (Response p.Url)
  send_authenticated inner request s =
      let observed = s.auth_generation in
      (do
        response ← send_once inner request
        if response.status == 401
            then unauthorized inner request observed inner.credentials
            else pure response)
        s

  -- `send_successful`
  unfoldable pub send_successful : Inner → PreparedRequest → M (Response p.Url)
  send_successful inner request = do
    response ← send_authenticated inner request
    if is_success response.status
        then pure response
        else throw (http request.context response.status)

  abbrev pub read_text : PreparedRequest → Option Str → M Str
  read_text request none = throw (transport request.context)
  read_text request (some text) = pure text

  -- `send_text`
  unfoldable pub send_text : Inner → PreparedRequest → M Str
  send_text inner request = do
    response ← send_successful inner request
    read_text request response.text
