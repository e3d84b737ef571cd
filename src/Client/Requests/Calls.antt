-- ===== src/Client/Requests/Calls.antt =====
-- src/client.rs: which requests the methods of `KeeneticClient` send.
use keenetic_rci.Prelude.{
  ◌≡◌, Option, none, some, [], ◌++◌, Result, ok, err, refl, sym, ap, ◌∙◌, subst, append-nil,
}
use keenetic_rci.Prelude.Str.{Str, Bytes, codes}
use keenetic_rci.Error.{get, post, Error, query_serialization, json_serialization}
use keenetic_rci.Client.Inspect.{Memchr}
use keenetic_rci.Client.Platform.{Platform, is_success}
use keenetic_rci.Client.Responses.{Decoder}
use keenetic_rci.Client.Session.{
  PreparedRequest, Inner, State, M, pass, Outcome, fails, prepare, send_successful, send_text,
  read_text,
}
use keenetic_rci.Client.Session.Traffic.{
  Sent, Emits, nothing-Emits, pass-Emits, if-Emits, target, Trail, send_authenticated-Trail,
}
use keenetic_rci.Json.{Value, string}
use keenetic_rci.Cli.{CliCommand}
use keenetic_rci.Client.Polling.{PollResponse}
use keenetic_rci.Client.Requests.{
  endpoint, rci_context, get_mode, post_json, prepare_get, prepare_rci_get, prepare_rci_get_pair,
  prepare_rci_post_at, returned, decode_body, send_json, prepare_typed, execute, get_json,
  get_with_query, post_at_path, get_text, get_ci_text, post_body, execute_cli_as,
  start_network_test,
}

module _ (p : Platform) where
  then_nothing :
      {A B : Type 0} (inner : Inner p) (request : PreparedRequest p) (s : State p)
      (r : Outcome A × State p) (f : A → M p B)
      → Emits p (Trail p inner request) s r
      → ((a : A) (t : State p) → Emits p (λ l. l ≡ []) t (f a t))
      → Emits p (Trail p inner request) s (pass p r f)
  then_nothing inner request s r f e k =
      pass-Emits p (Trail p inner request) (λ l. l ≡ []) (Trail p inner request) s r f (λ l h. h)
        (λ l k' h q.
          let same = ap (λ t. l ++ t) q ∙ append-nil l in
          subst (Trail p inner request) (sym same) h)
        e k

  send_successful-Trail :
      (inner : Inner p) (request : PreparedRequest p) (s : State p)
      → Emits p (Trail p inner request) s (send_successful p inner request s)
  unfolding send_successful
  send_successful-Trail inner request s =
      then_nothing inner request s _ _ (send_authenticated-Trail p inner request s) λ response t.
        if-Emits p _ (is_success response.status) _ _ t (nothing-Emits p _ t _ refl)
          (nothing-Emits p _ t _ refl)

  read_text-nothing :
      (request : PreparedRequest p) (text : Option Str) (s : State p)
      → Emits p (λ l. l ≡ []) s (read_text p request text s)
  read_text-nothing request none s = nothing-Emits p _ s _ refl
  read_text-nothing request (some text) s = nothing-Emits p _ s _ refl

  send_text-Trail :
      (inner : Inner p) (request : PreparedRequest p) (s : State p)
      → Emits p (Trail p inner request) s (send_text p inner request s)
  unfolding send_text
  send_text-Trail inner request s =
      then_nothing inner request s _ _ (send_successful-Trail inner request s)
        λ response t. read_text-nothing request response.text t

  module _ (m : Memchr) {A : Type 0} (d : Decoder A) (inner : Inner p) where
    returned-nothing :
        {B : Type 0} (r : Result B Error) (s : State p) → Emits p (λ l. l ≡ []) s (returned p r s)
    returned-nothing (ok a) s = nothing-Emits p _ s _ refl
    returned-nothing (err e) s = nothing-Emits p _ s _ refl

    decode_body-nothing :
        (request : PreparedRequest p) (body : Option Bytes) (s : State p)
        → Emits p (λ l. l ≡ []) s (decode_body p m d inner request body s)
    decode_body-nothing request none s = nothing-Emits p _ s _ refl
    decode_body-nothing request (some bytes) s = returned-nothing _ s

    pub send_json-Trail :
        (request : PreparedRequest p) (s : State p)
        → Emits p (Trail p inner request) s (send_json p m d inner request s)
    unfolding send_json
    send_json-Trail request s =
        then_nothing inner request s _ _ (send_successful-Trail inner request s)
          λ response t. decode_body-nothing request response.body t

    -- A call keeps to a request: all that it sends is that request, by its method, URL and body, and
    -- what authenticates it, in the order of `Trail`.
    pub record KeepsTo {B : Type 0} (q : Sent p) (s : State p) (r : Outcome B × State p)
        : Type 0 where
      pub request : PreparedRequest p
      pub target_is : target p request ≡ q
      pub trail : Emits p (Trail p inner request) s r

    keeps :
        {B : Type 0} (request : PreparedRequest p) (s : State p) (r : Outcome B × State p)
        → Emits p (Trail p inner request) s r
        → KeepsTo (target p request) s r
    keeps request s r e = record { request = request; target_is = refl; trail = e }

    -- The URL below the base URL.
    abbrev pub below : Str → Str → p.Url
    below prefix path = p.set_path inner.base_url (prefix ++ path)

    -- A GET at `/rci/` and a path, with a query.
    abbrev pub rci_get : Str → Option Str → Sent p
    rci_get path query = (get, p.set_query (below (codes "/rci/") path) query, none)

    -- A POST at `/rci/` and a path, with a body.
    abbrev pub rci_post : Str → Bytes → Sent p
    rci_post path body = (post, below (codes "/rci/") path, some body)

    -- `get`, `get_with_query`, `get_text` and `get_ci_text`: each sends one GET, without a body, at
    -- `/rci/` or `/ci/` and the path, with its query, what authenticates it, and nothing else.
    abbrev pub GetsKeep : Str → Str → State p → Type 0
    GetsKeep path query s =
        KeepsTo (rci_get path none) s (get_json p m d inner path s)
        × KeepsTo (rci_get path (some query)) s (get_with_query p m d inner path (some query) s)
        × KeepsTo (rci_get path none) s (get_text p inner path s)
        × KeepsTo (get, p.set_query (below (codes "/ci/") path) none, none) s
            (get_ci_text p inner path s)

    gets_keep : (path query : Str) (s : State p) → GetsKeep path query s
    unfolding get_json get_with_query get_text get_ci_text prepare_get endpoint prepare
    gets_keep path query s = (
      keeps _ s _ (send_json-Trail (prepare_rci_get p inner path none) s),
      keeps _ s _ (send_json-Trail (prepare_rci_get p inner path (some query)) s),
      keeps _ s _ (send_text-Trail inner (prepare_rci_get p inner path none) s),
      keeps _ s _ (send_text-Trail inner (prepare_get p inner (codes "ci") path none) s),
    )

    -- The POSTs, with a body that was serialized, and the command line at `/rci/parse`.
    abbrev pub PostsKeep : Str → Bytes → (Value → Bytes) → CliCommand → State p → Type 0
    PostsKeep path body to_vec command s =
        KeepsTo (rci_post path body) s (post_at_path p m d inner path (some body) s)
        × KeepsTo (rci_post [] body) s (post_body p m d inner (some body) s)
        × KeepsTo (rci_post (codes "parse") (to_vec (string command.text))) s
            (execute_cli_as p m d inner (λ v. some (to_vec v)) command s)

    posts_keep :
        (path : Str) (body : Bytes) (to_vec : Value → Bytes) (command : CliCommand) (s : State p)
        → PostsKeep path body to_vec command s
    unfolding post_at_path post_body execute_cli_as endpoint prepare prepare_rci_post_at
    posts_keep path body to_vec command s = (
      keeps _ s _ (send_json-Trail (prepare_rci_post_at p inner path body) s),
      keeps _ s _ (send_json-Trail (prepare_rci_post_at p inner [] body) s),
      keeps _ s _ (
          send_json-Trail
            (prepare_rci_post_at p inner (codes "parse") (to_vec (string command.text))) s),
    )

    -- `execute` in each mode of a typed request: a GET with or without its query pair, and a POST.
    abbrev pub ExecutesKeep : Str → Str → Str → Bytes → State p → Type 0
    ExecutesKeep path key value body s =
        KeepsTo (get, p.append_pair (p.set_query (below (codes "/rci/") path) none) key value, none)
          s
          (execute p m d inner (record { path = path; mode = get_mode; query = some (key, value) })
            s)
        × KeepsTo (rci_get path none) s
            (execute p m d inner (record { path = path; mode = get_mode; query = none }) s)
        × KeepsTo (rci_post [] body) s
            (execute p m d inner (record { path = path; mode = post_json body; query = none }) s)

    executes_keep :
        (path key value : Str) (body : Bytes) (s : State p) → ExecutesKeep path key value body s
    unfolding execute prepare_typed prepare_get endpoint prepare prepare_rci_post_at
        prepare_rci_get_pair
    executes_keep path key value body s = (
      keeps _ s _ (send_json-Trail (prepare_rci_get_pair p inner path key value) s),
      keeps _ s _ (send_json-Trail (prepare_rci_get p inner path none) s),
      keeps _ s _ (send_json-Trail (prepare_rci_post_at p inner [] body) s),
    )

    -- A query or a body that cannot be serialized is the error of the call, about the method and the
    -- endpoint of its request; nothing is sent and no state changes.
    pub serialization_failures :
        (path : Str) (s : State p)
        → (get_with_query p m d inner path none s ≡ (
          fails (query_serialization (record { method = get; endpoint = codes "/rci/" ++ path })),
          s,
        ))
          × (post_at_path p m d inner path none s ≡ (
            fails (json_serialization (record { method = post; endpoint = codes "/rci/" ++ path })),
            s,
          ))
    unfolding get_with_query post_at_path rci_context endpoint
    serialization_failures path s = (refl, refl)

  module _ (m : Memchr) {A : Type 0} (d : Decoder A) (first : Decoder PollResponse)
      (inner : Inner p) where
    start_keeps :
        (path : Str) (body : Bytes) (s : State p)
        → KeepsTo m first inner
            (rci_post m first inner path body)
            s
            (start_network_test p m first inner path (some body) s)
    unfolding start_network_test post_at_path endpoint prepare prepare_rci_post_at
    start_keeps path body s = keeps m first inner _ s _ (
        then_nothing inner _ s _ _
          (send_json-Trail m first inner (prepare_rci_post_at p inner path body) s)
          λ response t. nothing-Emits p _ t _ refl)

    -- Each method that makes one request sends that request, by its method, URL and body, and what
    -- authenticates it, and nothing else: the GETs of `get`, `get_with_query`, `get_text` and
    -- `get_ci_text`; the POSTs of `post_at` and `post`, and of the command line; those of `execute` in
    -- each mode; and the POST that starts a network test.
    pub calls_keep_to_their_request :
        (path query key value : Str) (body : Bytes) (to_vec : Value → Bytes) (command : CliCommand)
        (s : State p)
        → GetsKeep m d inner path query s
          × PostsKeep m d inner path body to_vec command s
          × ExecutesKeep m d inner path key value body s
          × KeepsTo m first inner
              (rci_post m first inner path body)
              s
              (start_network_test p m first inner path (some body) s)
    calls_keep_to_their_request path query key value body to_vec command s = (
      gets_keep m d inner path query s,
      posts_keep m d inner path body to_vec command s,
      executes_keep m d inner path key value body s,
      start_keeps path body s,
    )
