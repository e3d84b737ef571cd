-- ===== src/Examples/Builders.antt =====
-- A client that is built with a given transport.
use keenetic_rci.Prelude.{ℕ, ◌≡◌, true, Option, none, some, [], ok, err, refl, str_eq}
use keenetic_rci.Prelude.Str.{Str, codes}
use keenetic_rci.Client.Builder.{
  Urls, Builder, Client, embedded_credentials, not_an_origin, connect_timeout_with_http_client,
  build, client_of, assemble, normalize_base_url, checked_text, parsed_url, checked_url,
  after_scheme, split_authority, default_builder, with_base_url, with_credentials, with_http_client,
  with_connect_timeout,
}
use keenetic_rci.Examples.Sessions.{platform}

-- Each text is a URL of the host `router`.
abbrev urls : Urls Str
urls = record {
  parse = λ value. ok value;
  scheme = λ url. codes "http";
  host = λ url. some (codes "router");
  username = λ url. [];
  password = λ url. none;
  path = λ url. codes "/";
  query = λ url. none;
  fragment = λ url. none;
}

abbrev no_client : ℕ → ℕ → Option ℕ
no_client connect request = none

unfoldable builder : Str → Builder ℕ
unfolding default_builder with_base_url with_credentials with_http_client
builder value =
    with_http_client 7
      (with_credentials (codes "admin") (codes "secret") (with_base_url value default_builder))

abbrev address : Str
address = codes "http://router/"

abbrev client : Client platform urls no_client
client = client_of platform urls no_client (builder address) (codes "http://router//") (7, true)

client_built : build platform urls no_client (builder address) ≡ ok client
unfolding build assemble normalize_base_url checked_text parsed_url checked_url after_scheme
    split_authority str_eq builder
client_built = refl

user_refused :
    build platform urls no_client (builder (codes "http://me@router")) ≡ err embedded_credentials
unfolding build assemble normalize_base_url checked_text parsed_url checked_url after_scheme
    split_authority str_eq builder
user_refused = refl

path_refused :
    build platform urls no_client (builder (codes "http://router/rci")) ≡ err not_an_origin
unfolding build assemble normalize_base_url checked_text parsed_url checked_url after_scheme
    split_authority str_eq builder
path_refused = refl

timeout_refused :
    build platform urls no_client (with_connect_timeout 5 (builder address))
    ≡ err connect_timeout_with_http_client
unfolding build builder with_connect_timeout
timeout_refused = refl
