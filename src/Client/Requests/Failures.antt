-- ===== src/Client/Requests/Failures.antt =====
-- src/client.rs, `get_with_query` and `execute`: what the errors of a call name of its request.
use keenetic_rci.Prelude.{
  ◌≡◌, inl, inr, Bool, true, false, Option, none, some, List, [], ◌∷◌, Result, ok, err, ◌>>=◌,
  map_err, if◌then◌else◌, refl, Bool-cases,
}
use keenetic_rci.Prelude.Str.{Str, Bytes}
use keenetic_rci.Json.{Value}
use keenetic_rci.Error.{get, RequestContext, RciStatusEntry, Error, response_json, context_of}
use keenetic_rci.Client.Inspect.{Memchr, needs_rci_inspection}
use keenetic_rci.Client.Platform.{Platform, Response}
use keenetic_rci.Client.Responses.{
  Decoder, ReadError, Category, data_error, io, syntax, eof, classify_response_error, searched,
  inspected, decode_json_response, collect_rci_errors,
}
use keenetic_rci.Client.Session.{PreparedRequest, Inner, State, fails, send_successful, prepare}
use keenetic_rci.Client.Session.Failures.{IsOwn, IsClean, Fails, fails-Fails, pass-Fails}
use keenetic_rci.Client.Session.Failures.Logins.{send_successful-Fails}
use keenetic_rci.Client.Requests.{
  rci_context, decode_body, send_json, get_with_query, prepare_rci_get, prepare_get, returned,
}

-- An error of a result is about the request.
abbrev Errs : {A : Type 0} → RequestContext → Result A Error → Type 0
Errs context (ok a) = Unit
Errs context (err e) = context_of e ≡ some context

classify-Errs :
    (context : RequestContext) (error : ReadError)
    → context_of (classify_response_error context error) ≡ some context
unfolding classify_response_error context_of
classify-Errs context error = go error.category error.path
  where
    go :
        (category : Category) (path : Str)
        → context_of (classify_response_error context (record { category = category; path = path }))
          ≡ some context
    go data_error path = refl
    go io path = refl
    go syntax path = refl
    go eof path = refl

module _ (m : Memchr) {A : Type 0} (d : Decoder A) (context : RequestContext) where
  typed-Errs : (r : Result A ReadError) → Errs context (map_err (classify_response_error context) r)
  typed-Errs (ok a) = tt
  typed-Errs (err error) = classify-Errs context error

  searched-Errs :
      (value : Value) (entries : List RciStatusEntry)
      → Errs context (searched m d context value entries)
  unfolding context_of
  searched-Errs value [] = typed-Errs (d.from_value value)
  searched-Errs value (entry ∷ entries) = refl

  inspected-Errs : (value : Option Value) → Errs context (inspected m d context value)
  unfolding context_of
  inspected-Errs none = refl
  inspected-Errs (some value) = searched-Errs value (collect_rci_errors value [])

  ended-Errs :
      (r : Result A ReadError) (at_end : Bool)
      → Errs context (
          map_err (classify_response_error context) r >>= λ response.
          if at_end then ok response else err (response_json context))
  unfolding context_of
  ended-Errs (err error) at_end = classify-Errs context error
  ended-Errs (ok a) true = tt
  ended-Errs (ok a) false = refl

  decode-Errs : (bytes : Bytes) → Errs context (decode_json_response m d bytes context)
  unfolding decode_json_response
  decode-Errs bytes = elim (Bool-cases (needs_rci_inspection m bytes)) [
    | inl looked ↦ rw looked (inspected-Errs (d.from_slice bytes))
    | inr skipped ↦ rw skipped (ended-Errs (d.from_bytes bytes) (d.at_end bytes))
  ]

module _ (p : Platform) (m : Memchr) {A : Type 0} (d : Decoder A) (inner : Inner p) where
  returned-Own :
      (context : RequestContext) (r : Result A Error) (s : State p)
      → Errs context r
      → IsClean p s
      → Fails p (IsOwn p context) (returned p r s)
  returned-Own context (ok a) s told h = record { told = tt; clean = h }
  returned-Own context (err e) s told h = record { told = inr told; clean = h }

  body-Own :
      (request : PreparedRequest p) (body : Option Bytes) (s : State p)
      → IsClean p s
      → Fails p (IsOwn p request.context) (decode_body p m d inner request body s)
  unfolding context_of
  body-Own request none s h = record { told = inr refl; clean = h }
  body-Own request (some bytes) s h =
      returned-Own request.context _ s (decode-Errs m d request.context bytes) h

  send_json-Fails :
      (request : PreparedRequest p) (s : State p)
      → IsClean p s
      → Fails p (IsOwn p request.context) (send_json p m d inner request s)
  unfolding send_json
  send_json-Fails request s h =
      pass-Fails p (IsOwn p request.context) (send_successful p inner request s) _
        (send_successful-Fails p inner request s h)
        λ (response : Response p.Url) t k. body-Own request response.body t k

  queried-Fails :
      (path : Str) (query : Option Str) (s : State p)
      → IsClean p s
      → Fails p (IsOwn p (rci_context get path)) (get_with_query p m d inner path query s)
  unfolding get_with_query prepare_get prepare rci_context context_of
  queried-Fails path none s h = record { told = inr refl; clean = h }
  queried-Fails path (some query) s h =
      send_json-Fails (prepare_rci_get p inner path (some query)) s h

  -- From a state that keeps no failure but one of a login: whatever the query, the error of a GET with
  -- a query is about the method and the path of the request, or an error of the login, which is about
  -- no request or about one to the login's own endpoint; and the state keeps no other failure after it.
  pub get_with_query-IsOwn :
      (path : Str) (query : Option Str) (s : State p) (e : Error) (t : State p)
      → IsClean p s
      → get_with_query p m d inner path query s ≡ (fails e, t)
      → IsOwn p (rci_context get path) e × IsClean p t
  get_with_query-IsOwn path query s e t h failed =
      fails-Fails p (IsOwn p (rci_context get path)) _ e t (queried-Fails path query s h) failed
