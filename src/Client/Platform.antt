-- ===== src/Client/Platform.antt =====
-- What src/client.rs takes from other crates: URLs, the cookie jar, the HTTP transport, the
-- digests, and the JSON text of the login. Each is a parameter; a value of `Platform` chooses all.
use keenetic_rci.Prelude.{ℕ, Bool, ◌&&◌, Option, List, leb, ltb}
use keenetic_rci.Prelude.Str.{Str, Bytes}
use keenetic_rci.Error.{Method}

-- The request handed to the transport by `send_once`.
pub record HttpRequest (Url : Type 0) : Type 0 where
  pub method : Method
  pub url : Url
  pub timeout : Option ℕ
  pub cookie : Option Bytes
  pub content_type : Option Str
  pub body : Option Bytes

-- A response. `header` is `HeaderMap::get`, `set_cookie` is `get_all(SET_COOKIE)`, and `body` and
-- `text` are what reading the rest of it gives, `none` for a transport failure.
pub record Response (Url : Type 0) : Type 0 where
  pub status : ℕ
  pub header : Str → Option Bytes
  pub set_cookie : List Bytes
  pub url : Url
  pub body : Option Bytes
  pub text : Option Str

pub record Platform : Type 1 where
  pub Url : Type 0
  pub Jar : Type 0
  -- All that a request can change outside of the client.
  pub World : Type 0
  pub set_path : Url → Str → Url
  pub set_query : Url → Option Str → Url
  pub append_pair : Url → Str → Str → Url
  pub send : World → HttpRequest Url → Option (Response Url) × World
  pub empty_jar : Jar
  pub cookies : Jar → Url → Option Bytes
  pub set_cookies : Jar → List Bytes → Url → Jar
  -- `HeaderValue::to_str`
  pub to_str : Bytes → Option Str
  pub md5 : Bytes → Bytes
  pub sha256 : Bytes → Bytes
  -- `serde_json::to_vec(&AuthPayload { login, password })`
  pub auth_json : Str → Str → Option Bytes

-- `StatusCode::is_success`
unfoldable pub is_success : ℕ → Bool
is_success status = leb 200 status && ltb status 300
