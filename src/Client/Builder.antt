-- ===== src/Client/Builder.antt =====
-- src/client.rs, `KeeneticClientBuilder` and `normalize_base_url`. The crate `url` and the building
-- of the internal transport are parameters.
use keenetic_rci.Prelude.{
  ℕ, ◌≡◌, Bool, true, false, not, ◌&&◌, ◌||◌, Option, none, some, [], ◌∷◌, Result, ok, err, ◌>>=◌,
  map_err, ◌==◌, if◌then◌else◌, any, str_eq,
}
use keenetic_rci.Prelude.Str.{Str, codes}
use keenetic_rci.Auth.{Credentials}
use keenetic_rci.Client.Platform.{Platform}
use keenetic_rci.Client.Session.{Inner, State, default_auth}
pub mod Address
pub mod Base
pub mod Origin

-- `ConfigError`
pub data ConfigError : Type 0 where
  missing_base_url missing_host embedded_credentials not_an_origin : ConfigError
  empty_login connect_timeout_with_http_client http_client : ConfigError
  invalid_base_url unsupported_scheme zero_timeout : Str → ConfigError

-- What is read of a `url::Url`; `parse` gives the text of its error.
pub record Urls (Url : Type 0) : Type 0 where
  pub parse : Str → Result Url Str
  pub scheme : Url → Str
  pub host : Url → Option Str
  pub username : Url → Str
  pub password : Url → Option Str
  pub path : Url → Str
  pub query : Url → Option Str
  pub fragment : Url → Option Str

-- The fields of the builder; durations are numbers.
pub record Builder (H : Type 0) : Type 0 where
  pub base_url : Option Str
  pub credentials : Option Credentials
  pub http_client : Option H
  pub request_timeout : ℕ
  pub connect_timeout : ℕ
  pub connect_timeout_explicit : Bool

abbrev pub slashes : Str → Option Str
slashes (a ∷ b ∷ rest) = if a == b'/' && b == b'/' then some rest else none
slashes _ = none

abbrev pub first_some : Option Str → Option Str → Option Str
first_some (some rest) later = some rest
first_some none later = later

-- `split_once("://")`, its second part
unfoldable pub after_scheme : Str → Option Str
after_scheme [] = none
after_scheme (c ∷ value) =
    let later = after_scheme value in if c == b':' then first_some (slashes value) later else later

abbrev pub ends_authority : ℕ → Bool
ends_authority c = c == b'/' || c == b'?' || c == b'#'

-- The remainder, split where its authority ends.
unfoldable pub split_authority : Str → Str × Str
split_authority [] = ([], [])
split_authority (c ∷ rest) =
    let (authority, tail) = split_authority rest in
    if ends_authority c then ([], c ∷ rest) else (c ∷ authority, tail)

abbrev pub is_some {ℓ} : {A : Type ℓ} → Option A → Bool
is_some none = false
is_some (some a) = true

-- `matches!(path, "" | "/")`
abbrev pub is_root : Str → Bool
is_root path = str_eq path [] || str_eq path (codes "/")

abbrev pub is_http : Str → Bool
is_http scheme = str_eq scheme (codes "http") || str_eq scheme (codes "https")

-- An early return of an error.
abbrev pub reject : Bool → ConfigError → Result (Unit {0}) ConfigError
reject true e = err e
reject false e = ok tt

abbrev pub required {ℓ} : {A : Type ℓ} → Option A → ConfigError → Result A ConfigError
required none e = err e
required (some a) e = ok a

module _ (p : Platform) (urls : Urls p.Url) where
  -- `normalize_base_url`, after the text was parsed.
  unfoldable pub checked_url : p.Url → Result p.Url ConfigError
  checked_url url = do
    _ ← reject (not (is_http (urls.scheme url))) (unsupported_scheme (urls.scheme url))
    _ ← reject (not (is_some (urls.host url))) missing_host
    _ ←
        reject (not (str_eq (urls.username url) []) || is_some (urls.password url))
          embedded_credentials
    _ ←
        reject
          (not (is_root (urls.path url)) || is_some (urls.query url) || is_some (urls.fragment url))
          not_an_origin
    ok (p.set_path url (codes "/"))

  unfoldable pub parsed_url : Str → Result p.Url ConfigError
  parsed_url value = do url ← map_err invalid_base_url (urls.parse value); checked_url url

  unfoldable pub checked_text : Str → Str × Str → Result p.Url ConfigError
  checked_text value (authority, tail) = do
    _ ← reject (any (λ c. c == b'@') authority) embedded_credentials
    _ ← reject (not (is_root tail)) not_an_origin
    parsed_url value

  -- `normalize_base_url`
  unfoldable pub normalize_base_url : Str → Result p.Url ConfigError
  normalize_base_url value = do
    remainder ←
        required (after_scheme value) (invalid_base_url (codes "relative URL without a base"))
    checked_text value (split_authority remainder)

  module _ {H : Type 0} (new_client : ℕ → ℕ → Option H) where
    abbrev pub login_empty : Option Credentials → Bool
    login_empty none = false
    login_empty (some credentials) = str_eq credentials.login []

    -- The transport, and whether each request carries its own timeout.
    abbrev pub transport_of : Option H → ℕ → ℕ → Result (H × Bool) ConfigError
    transport_of (some client) connect_timeout request_timeout = ok (client, true)
    transport_of none connect_timeout request_timeout = do
      client ← required (new_client connect_timeout request_timeout) http_client
      ok (client, false)

    -- A `KeeneticClient`: the transport, the fields of `Inner` that stay, and the first state.
    pub record Client : Type 0 where
      pub http : H
      pub inner : Inner p
      pub initial : p.World → State p

    abbrev pub client_of : Builder H → p.Url → H × Bool → Client
    client_of b url (http, per_request) = record {
      http = http;
      inner = record {
        base_url = url;
        credentials = b.credentials;
        request_timeout = b.request_timeout;
        request_timeout_per_request = per_request;
      };
      initial = λ world. record {
        cookies = p.empty_jar;
        auth_generation = 0;
        auth = default_auth;
        world = world;
        sent = [];
      };
    }

    -- The end of `build`, once the options are accepted.
    unfoldable pub assemble : Builder H → Option Str → Result Client ConfigError
    assemble b base_url = do
      value ← required base_url missing_base_url
      url ← normalize_base_url value
      transport ← transport_of b.http_client b.connect_timeout b.request_timeout
      ok (client_of b url transport)

    -- `build`
    unfoldable pub build : Builder H → Result Client ConfigError
    build b = do
      _ ← reject (b.request_timeout == 0) (zero_timeout (codes "request_timeout"))
      _ ← reject (b.connect_timeout == 0) (zero_timeout (codes "connect_timeout"))
      _ ←
          reject (is_some b.http_client && b.connect_timeout_explicit)
            connect_timeout_with_http_client
      _ ← reject (login_empty b.credentials) empty_login
      assemble b b.base_url

module _ {H : Type 0} where
  -- `Default`; the timeouts are in seconds.
  unfoldable pub default_builder : Builder H
  default_builder = record {
    base_url = none;
    credentials = none;
    http_client = none;
    request_timeout = 10;
    connect_timeout = 3;
    connect_timeout_explicit = false;
  }

  -- The setters.
  unfoldable pub with_base_url : Str → Builder H → Builder H
  with_base_url value b = record b { base_url = some value }

  unfoldable pub with_credentials : Str → Str → Builder H → Builder H
  with_credentials login password b = record b {
    credentials = some (record { login = login; password = password });
  }

  unfoldable pub with_http_client : H → Builder H → Builder H
  with_http_client client b = record b { http_client = some client }

  unfoldable pub with_request_timeout : ℕ → Builder H → Builder H
  with_request_timeout timeout b = record b { request_timeout = timeout }

  unfoldable pub with_connect_timeout : ℕ → Builder H → Builder H
  with_connect_timeout timeout b = record b {
    connect_timeout = timeout;
    connect_timeout_explicit = true;
  }
