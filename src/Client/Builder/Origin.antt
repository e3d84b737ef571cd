-- ===== src/Client/Builder/Origin.antt =====
-- src/client.rs, `build`: when a client is built, and what it looks like.
use keenetic_rci.Prelude.{ℕ, ◌≡◌, ◌≢◌, ◌⊎◌, Bool, true, false, Option, none, some, [], Result}
use keenetic_rci.Prelude.Str.{Str}
use keenetic_rci.Client.Platform.{Platform}
use keenetic_rci.Client.Session.Generations.{IsSynced}
use keenetic_rci.Auth.{Credentials}
use keenetic_rci.Client.Builder.Address.{IsOriginText}
use keenetic_rci.Client.Builder.{ConfigError, Urls, Builder, transport_of, Client}
use keenetic_rci.Client.Builder.Base.{FromOrigin}

module _ (p : Platform) (urls : Urls p.Url) where
  module _ {H : Type 0} (new_client : ℕ → ℕ → Option H) where
    -- The transport of a client: the one that was given, with a timeout for each request, or a new
    -- one, which has the timeouts itself.
    pub data HasTransport (b : Builder H) (http : H) (per_request : Bool) : Type 0 where
      given : b.http_client ≡ some http → per_request ≡ true → HasTransport b http per_request
      built :
          b.http_client ≡ none
          → new_client b.connect_timeout b.request_timeout ≡ some http
          → per_request ≡ false
          → HasTransport b http per_request

    -- Options that can be built: no timeout is zero, a connect timeout was not set beside a given
    -- transport, and a login is not empty.
    pub record Options (b : Builder H) : Type 0 where
      pub request_timeout : b.request_timeout ≢ 0
      pub connect_timeout : b.connect_timeout ≢ 0
      pub one_transport : (b.http_client ≡ none) ⊎ (b.connect_timeout_explicit ≡ false)
      pub login :
          (credentials : Credentials) → b.credentials ≡ some credentials → credentials.login ≢ []

    -- A builder that can be built, with the base URL and the transport of its client.
    pub record Buildable (b : Builder H) (base : p.Url) (http : H) (per_request : Bool)
        : Type 0 where
      pub options : Options b
      pub value : Str
      pub value_given : b.base_url ≡ some value
      pub value_text : IsOriginText value
      pub from : FromOrigin p urls value base
      pub transport : HasTransport b http per_request

    -- What is known of a client that was built.
    pub record IsBuilt (b : Builder H) (client : Client p urls new_client) : Type 0 where
      pub buildable :
          Buildable b client.inner.base_url client.http client.inner.request_timeout_per_request
      pub same_credentials : client.inner.credentials ≡ b.credentials
      pub same_timeout : client.inner.request_timeout ≡ b.request_timeout
      pub in_step : (world : p.World) → IsSynced p (client.initial world)

    abbrev transport_for : Builder H → Option H → Result (H × Bool) ConfigError
    transport_for b client =
        transport_of p urls new_client client b.connect_timeout b.request_timeout
