-- ===== src/Error.antt =====
-- src/error.rs: the errors of client operations. The opaque `source` values that an error carries
-- for display (a `reqwest::Error`, a `serde_json::Error`) are left out.
use keenetic_rci.Prelude.{ℕ, Option, none, some, List}
use keenetic_rci.Prelude.Str.{Str}

-- `reqwest::Method`, as far as the crate uses it.
pub data Method : Type 0 where
  get post delete : Method

pub record RequestContext : Type 0 where
  pub method : Method
  pub endpoint : Str

pub data MalformedAuthReason : Type 0 where
  incomplete_headers : MalformedAuthReason
  invalid_header : Str → MalformedAuthReason
  empty_header : Str → MalformedAuthReason

pub data AuthenticationError : Type 0 where
  required : AuthenticationError
  unsupported : AuthenticationError
  malformed_response : MalformedAuthReason → AuthenticationError
  rejected_credentials : AuthenticationError
  unauthorized_after_authentication : AuthenticationError

pub record RciStatusEntry : Type 0 where
  pub code : Option Str
  pub ident : Option Str
  pub message : Option Str

pub data Error : Type 0 where
  query_serialization : RequestContext → Error
  json_serialization : RequestContext → Error
  transport : RequestContext → Error
  authentication : AuthenticationError → Error
  http : RequestContext → ℕ → Error
  rci : RequestContext → List RciStatusEntry → Error
  response_json : RequestContext → Error
  response_deserialization : RequestContext → Str → Error

-- The `context` accessors of the errors; an authentication error has none.
unfoldable pub context_of : Error → Option RequestContext
context_of (query_serialization context) = some context
context_of (json_serialization context) = some context
context_of (transport context) = some context
context_of (authentication e) = none
context_of (http context status) = some context
context_of (rci context entries) = some context
context_of (response_json context) = some context
context_of (response_deserialization context path) = some context
