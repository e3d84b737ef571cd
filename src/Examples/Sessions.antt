-- ===== src/Examples/Sessions.antt =====
-- A session against a scripted router: each request takes the next response of the script.
use keenetic_rci.Prelude.{
  map, ℕ, ◌≡◌, ◌≢◌, ◌↔◌, ◌<◌, false, Option, none, some, List, [], ◌∷◌, ◌++◌, ok, arith, refl,
  replicate, if◌then◌else◌, str_eq, All-replicate,
}
use keenetic_rci.Prelude.Str.{Str, Bytes, codes, as_bytes, encode_utf8, from_utf8}
use keenetic_rci.Error.{Method, get, post}
use keenetic_rci.Auth.{response_hash, encode_lower_hex, hash_as_str, hex_digit}
use keenetic_rci.Auth.Hex.{AreDigests}
use keenetic_rci.Client.Challenge.{
  realm_header, challenge_header, parse_challenge, HasChallenge, parse_challenge_iff,
}
use keenetic_rci.Client.Platform.{Platform, HttpRequest, Response, is_success}
use keenetic_rci.Client.Session
use keenetic_rci.Client.Session.{
  Inner, State, PreparedRequest, Outcome, returns, send_authenticated, send_successful,
}
use keenetic_rci.Client.Session.Generations.{IsSynced, Safe, send_authenticated-Safe}
use keenetic_rci.Client.Session.Replies.{send_authenticated-not_401}
use keenetic_rci.Client.Session.Traffic.{Emits, Trail, sends, send_authenticated-Trail}

abbrev pub reply : ℕ → (Str → Option Bytes) → Response Str
reply status header = record {
  status = status;
  header = header;
  set_cookie = codes "session" ∷ [];
  url = codes "http://router/auth";
  body = some [];
  text = some [];
}

abbrev pub no_header : Str → Option Bytes
no_header name = none

abbrev challenge_of : Str → Option Bytes
challenge_of name =
    if str_eq name realm_header
    then some (codes "Keenetic")
    else if str_eq name challenge_header
    then some (codes "ABC")
    else none

abbrev serve : List (Response Str) → HttpRequest Str → Option (Response Str) × List (Response Str)
serve [] q = (none, [])
serve (r ∷ rest) q = (some r, rest)

abbrev pub platform : Platform
platform = record {
  Url = Str;
  Jar = List Bytes;
  World = List (Response Str);
  set_path = λ url path. url ++ path;
  set_query = λ url query. url;
  append_pair = λ url key value. url;
  send = serve;
  empty_jar = [];
  cookies = λ jar url. some [];
  set_cookies = λ jar new url. jar ++ new;
  to_str = λ bytes. some bytes;
  md5 = λ input. replicate 16 7;
  sha256 = λ input. replicate 32 200;
  auth_json = λ login password. some password;
}

digests : AreDigests platform.md5 platform.sha256
digests = record {
  md5_bytes = λ input. (All-replicate (λ (b : ℕ). b < 256) 16 7 (omega arith), refl);
  sha256_bytes = λ input. (All-replicate (λ (b : ℕ). b < 256) 32 200 (omega arith), refl);
}

abbrev pub inner : Inner platform
inner = record {
  base_url = codes "http://router";
  credentials = some (record { login = codes "admin"; password = codes "secret" });
  request_timeout = 10;
  request_timeout_per_request = false;
}

abbrev script : List (Response Str)
script =
    reply 401 no_header ∷ reply 401 challenge_of ∷ reply 200 no_header ∷ reply 200 no_header ∷ []

abbrev pub fresh : State platform
fresh = record {
  cookies = [];
  auth_generation = 0;
  auth = Session.default_auth;
  world = script;
  sent = [];
}

abbrev request : PreparedRequest platform
request = Session.prepare platform inner get (codes "/rci/show/version") none

fresh-IsSynced : IsSynced platform fresh
fresh-IsSynced = record { published = refl; word = omega arith; first = λ e. refl }

parse_challenge_iff_example :
    (parse_challenge (λ bytes. some bytes) challenge_of ≡ ok (codes "Keenetic", codes "ABC"))
    ↔ HasChallenge (λ bytes. some bytes) challenge_of (codes "Keenetic") (codes "ABC")
parse_challenge_iff_example =
    parse_challenge_iff (λ bytes. some bytes) challenge_of (codes "Keenetic") (codes "ABC")

send_authenticated-Safe_example : Safe platform (send_authenticated platform inner request fresh)
send_authenticated-Safe_example =
    send_authenticated-Safe platform digests inner request fresh fresh-IsSynced

send_authenticated-Trail_example :
    Emits platform
      (Trail platform inner request)
      fresh
      (send_authenticated platform inner request fresh)
send_authenticated-Trail_example = send_authenticated-Trail platform inner request fresh

-- The request, the challenge, the login and the request again.
session_sent :
    map {B = Method × Str}
      (λ q. (q.0, q.1))
      (sends platform (send_authenticated platform inner request fresh).1)
    ≡ (get, codes "http://router/rci/show/version")
      ∷ (get, codes "http://router/auth")
      ∷ (post, codes "http://router/auth")
      ∷ (get, codes "http://router/rci/show/version")
      ∷ []
unfolding send_authenticated Session.send_once Session.unauthorized Session.retry
    Session.authenticate Session.settle Session.perform_authentication Session.login
    Session.challenged Session.answer parse_challenge str_eq Session.post_password hash_as_str
    from_utf8 response_hash encode_lower_hex hex_digit is_success Session.post_json
    Session.post_login Session.prepare Session.retained as_bytes encode_utf8
session_sent = refl

session_answer :
    send_authenticated platform inner request fresh
    ≡ (returns (reply 200 no_header), (send_authenticated platform inner request fresh).1)
unfolding send_authenticated Session.send_once Session.unauthorized Session.retry
    Session.authenticate Session.settle Session.perform_authentication Session.login
    Session.challenged Session.answer parse_challenge str_eq Session.post_password hash_as_str
    from_utf8 response_hash encode_lower_hex hex_digit is_success Session.post_json
    Session.post_login Session.prepare Session.retained as_bytes encode_utf8
session_answer = refl

send_authenticated-not_401_example : (reply 200 no_header).status ≢ 401
send_authenticated-not_401_example =
    send_authenticated-not_401 platform inner request fresh (reply 200 no_header)
      (send_authenticated platform inner request fresh).1 session_answer

session_success :
    send_successful platform inner request fresh
    ≡ (returns (reply 200 no_header), (send_successful platform inner request fresh).1)
unfolding send_authenticated Session.send_once Session.unauthorized Session.retry
    Session.authenticate Session.settle Session.perform_authentication Session.login
    Session.challenged Session.answer parse_challenge str_eq Session.post_password hash_as_str
    from_utf8 response_hash encode_lower_hex hex_digit is_success Session.post_json
    Session.post_login Session.prepare Session.retained as_bytes encode_utf8 send_successful
session_success = refl
