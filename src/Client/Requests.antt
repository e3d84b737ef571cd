-- ===== src/Client/Requests.antt =====
-- src/client.rs and src/request.rs: the methods of `KeeneticClient`, by the requests that they
-- prepare. The serializers of queries and bodies, and the decoders of answers, are arguments.
use keenetic_rci.Prelude.{ℕ, Bool, Option, none, some, List, [], ◌∷◌, ◌++◌, Result, ok, err}
use keenetic_rci.Prelude.Str.{Str, Bytes, codes}
use keenetic_rci.Json.{Value, object, Fields, no_fields, field, string}
use keenetic_rci.Error.{
  Method, get, post, delete, RequestContext, Error, query_serialization, json_serialization,
  transport,
}
use keenetic_rci.Network.{identifier, InvalidText}
use keenetic_rci.Cli.{CliCommand, serialize_command}
use keenetic_rci.Client.Inspect.{Memchr}
use keenetic_rci.Client.Platform.{Platform, Response}
use keenetic_rci.Client.Responses.{Decoder, decode_json_response}
use keenetic_rci.Client.Polling.{PollResponse, PollSession, start}
use keenetic_rci.Client.Session.{
  PreparedRequest, Inner, State, M, pass, pure, throw, Outcome, returns, fails, prepare,
  send_successful, send_text,
}
pub mod Endpoints
pub mod Calls
pub mod Polls
pub mod Runs
pub mod Failures

-- `endpoint`
unfoldable pub endpoint : Str → Str → Str
endpoint namespace path = codes "/" ++ (namespace ++ (codes "/" ++ path))

-- `Inner::rci_context`
unfoldable pub rci_context : Method → Str → RequestContext
unfolding endpoint
rci_context method path = record { method = method; endpoint = endpoint (codes "rci") path }

-- `Mode`, and what a sealed request gives the client.
pub data Mode : Type 0 where
  get_mode : Mode
  post_json : Bytes → Mode

pub record RciRequest : Type 0 where
  pub path : Str
  pub mode : Mode
  pub query : Option (Str × Str)

-- `ShowInterfaceStat::new` and its request.
unfoldable pub show_interface_stat : Str → Result RciRequest InvalidText
unfolding identifier
show_interface_stat name = elim (identifier name) [
  | err e ↦ err e
  | ok id ↦ ok (record {
    path = codes "show/interface/stat";
    mode = get_mode;
    query = some (codes "name", id);
  })
]

-- `show_interface_body`, as the value that is serialized.
abbrev pub show_interface_value : Str → Value
show_interface_value name = object (
    field (codes "show")
      (object (
        field (codes "interface") (object (field (codes "name") (string name) no_fields))
          no_fields))
      no_fields)

-- `interface_request!`: `ShowInterface` and `ShowLteInterface`. Serializing to memory cannot fail.
unfoldable pub show_interface : (Value → Bytes) → Str → Result RciRequest InvalidText
unfolding identifier
show_interface to_vec name = elim (identifier name) [
  | err e ↦ err e
  | ok id ↦
      ok (record { path = []; mode = post_json (to_vec (show_interface_value id)); query = none })
]

module _ (p : Platform) where
  -- `prepare_get` and the methods that call it.
  unfoldable pub prepare_get : Inner p → Str → Str → Option Str → PreparedRequest p
  unfolding prepare endpoint
  prepare_get inner namespace path query =
      let request = prepare p inner get (endpoint namespace path) none in
      record request { url = p.set_query request.url query }

  abbrev pub prepare_rci_get : Inner p → Str → Option Str → PreparedRequest p
  prepare_rci_get inner path query = prepare_get inner (codes "rci") path query

  unfoldable pub prepare_rci_get_pair : Inner p → Str → Str → Str → PreparedRequest p
  prepare_rci_get_pair inner path key value =
      let prepared = prepare_rci_get inner path none in
      record prepared { url = p.append_pair prepared.url key value }

  abbrev pub prepare_ci_get : Inner p → Str → PreparedRequest p
  prepare_ci_get inner path = prepare_get inner (codes "ci") path none

  -- `prepare_rci_post_at`, `prepare_rci_post` and `prepare_rci_delete`
  unfoldable pub prepare_rci_post_at : Inner p → Str → Bytes → PreparedRequest p
  unfolding prepare endpoint
  prepare_rci_post_at inner path body =
      prepare p inner post (endpoint (codes "rci") path) (some body)

  abbrev pub prepare_rci_post : Inner p → Bytes → PreparedRequest p
  prepare_rci_post inner body = prepare_rci_post_at inner [] body

  unfoldable pub prepare_rci_delete : Inner p → Str → PreparedRequest p
  unfolding prepare endpoint
  prepare_rci_delete inner path = prepare p inner delete (endpoint (codes "rci") path) none

  abbrev pub returned : {A : Type 0} → Result A Error → M p A
  returned (ok a) = pure p a
  returned (err e) = throw p e

  module _ (m : Memchr) {A : Type 0} (d : Decoder A) (inner : Inner p) where
    abbrev pub decode_body : PreparedRequest p → Option Bytes → M p A
    decode_body request none = throw p (transport request.context)
    decode_body request (some bytes) = returned (decode_json_response m d bytes request.context)

    -- `send_json`
    unfoldable pub send_json : PreparedRequest p → M p A
    send_json request s =
        pass p (send_successful p inner request s) λ response. decode_body request response.body

    -- `execute`
    unfoldable pub prepare_typed : RciRequest → PreparedRequest p
    prepare_typed request = elim request.mode [
      | get_mode ↦ elim request.query [
        | some (key, value) ↦ prepare_rci_get_pair inner request.path key value
        | none ↦ prepare_rci_get inner request.path none
      ]
      | post_json body ↦ prepare_rci_post inner body
    ]

    unfoldable pub execute : RciRequest → M p A
    execute request = send_json (prepare_typed request)

    -- `get`, and `get_raw` at the type of JSON values.
    unfoldable pub get_json : Str → M p A
    get_json path = send_json (prepare_rci_get inner path none)

    -- `prepared?`, and `send_json` of it.
    abbrev pub send_prepared : Result (PreparedRequest p) Error → M p A
    send_prepared (ok request) = send_json request
    send_prepared (err e) = throw p e

    abbrev pub queried : Str → Option Str → Result (PreparedRequest p) Error
    queried path none = err (query_serialization (rci_context get path))
    queried path (some query) = ok (prepare_rci_get inner path (some query))

    -- `get_with_query`; the query is what `serde_urlencoded` gives.
    unfoldable pub get_with_query : Str → Option Str → M p A
    get_with_query path query = send_prepared (queried path query)

    abbrev pub bodied : Str → Option Bytes → Result (PreparedRequest p) Error
    bodied path none = err (json_serialization (rci_context post path))
    bodied path (some body) = ok (prepare_rci_post_at inner path body)

    -- `post_at_path`; the body is what `serde_json::to_vec` gives. `post`, `post_raw`, `post_at` and
    -- `post_at_raw` call it.
    unfoldable pub post_at_path : Str → Option Bytes → M p A
    post_at_path path body = send_prepared (bodied path body)

    unfoldable pub post_body : Option Bytes → M p A
    unfolding post_at_path
    post_body body = post_at_path [] body

    -- `execute_cli_as`, and `execute_cli` at the type of replies.
    unfoldable pub execute_cli_as : (Value → Option Bytes) → CliCommand → M p A
    unfolding post_at_path
    execute_cli_as to_vec command =
        post_at_path (codes "parse") (to_vec (serialize_command command))

  -- `get_text` and `get_ci_text`
  unfoldable pub get_text : Inner p → Str → M p Str
  get_text inner path = send_text p inner (prepare_rci_get inner path none)

  unfoldable pub get_ci_text : Inner p → Str → M p Str
  get_ci_text inner path = send_text p inner (prepare_ci_get inner path)

  abbrev pub started : PollResponse → M p PollSession
  started response = pure p (start response)

  -- `start_network_test`; the body is what the request serializes to.
  unfoldable pub start_network_test :
      Memchr → Decoder PollResponse → Inner p → Str → Option Bytes → M p PollSession
  unfolding post_at_path
  start_network_test m d inner path body s = pass p (post_at_path m d inner path body s) started
