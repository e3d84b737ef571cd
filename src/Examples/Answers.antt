-- ===== src/Examples/Answers.antt =====
-- Answers of the router: an RCI error, the requests of the client's methods, and interfaces.
use keenetic_rci.Prelude.{
  Bool, ◌≡◌, false, ◌∷◌, ◌↔◌, inl, inr, true, Option, none, some, [], ok, err, refl, subst, sym,
  str_eq, str_eq_sound, Bool-cases, if◌then◌else◌,
}
use keenetic_rci.Prelude.Optional.{some-injective}
use keenetic_rci.Prelude.Str.{Str, Bytes, codes}
use keenetic_rci.Json.{Value, object, array, string, field, no_fields, item, no_items, field_get}
use keenetic_rci.Error.{get, RequestContext, RciStatusEntry, rci, transport}
use keenetic_rci.Client.Inspect.Scan.{Occurs}
use keenetic_rci.Client.Responses.{Decoder, collect_rci_errors, decode_json_response, status_entry}
use keenetic_rci.Client.Responses.Statuses.{
  Mem, ErrorIn, in_object, in_status, this_status, collect_rci_errors_iff,
}
use keenetic_rci.Client.Responses.Entries.{error_status}
use keenetic_rci.Client.Responses.Decoding.{
  Holds, is_string, holds_items, holds_fields, holds_first, holds_others, is_key, holds_value,
  holds_rest, ReadsTokens, decode_json_response_reports,
}
use keenetic_rci.Client.Session.{
  State, fails, returns, send_successful, send_authenticated, send_once, prepare,
}
use keenetic_rci.Client.Session.Failures.{IsOwn, IsClean}
use keenetic_rci.Client.Requests.Failures.{get_with_query-IsOwn}
use keenetic_rci.Client.Polling.{PollResponse}
use keenetic_rci.Client.Requests.Polls.{run_network_test}
use keenetic_rci.Client.Requests.Runs.{prepend, over, more, run_network_test-Reads}
use keenetic_rci.Client.Requests.{
  get_json, get_with_query, post_at_path, start_network_test, rci_context, send_json, prepare_get,
}
use keenetic_rci.Client.Requests.Calls.{KeepsTo, rci_post, calls_keep_to_their_request}
use keenetic_rci.Examples.Scans.{search_bytes, error_bytes, error-Occurs}
use keenetic_rci.Examples.Sessions.{platform, inner, fresh, reply, no_header}
use keenetic_rci.Client.Platform.{Response, is_success}
use keenetic_rci.Cli.{CliCommand}
use keenetic_rci.Client.Inspect.{needs_rci_inspection, contains_json_string}
use native.Mathlib.Omega.{arith}

abbrev status : Value
status = object (field (codes "status") (string (codes "error")) no_fields)

abbrev error_answer : Value
error_answer = object (field (codes "status") (array (item status no_items)) no_fields)

abbrev answer_bytes : Bytes
answer_bytes = error_bytes

abbrev entry : RciStatusEntry
entry = record { code = none; ident = none; message = none }

abbrev decoder : Decoder (Unit {0})
decoder = record {
  from_slice = λ bytes. if str_eq bytes answer_bytes then some error_answer else none;
  from_value = λ value. ok tt;
  from_bytes = λ bytes. ok tt;
  at_end = λ bytes. true;
}

nothing : (value : Value) → ¬ (◌≡◌ {A = Option Value} none (some value))
nothing value h = cc

held : (text : Str) → Holds text error_answer → Occurs text answer_bytes
held text (holds_fields is_key) = error-Occurs.0
held text (holds_fields (holds_value (holds_items (holds_first (holds_fields is_key))))) =
    error-Occurs.0
held text
      (holds_fields
        (holds_value (holds_items (holds_first (holds_fields (holds_value is_string)))))) =
    error-Occurs.1
held text (holds_fields (holds_value (holds_items (holds_first (holds_fields (holds_rest x)))))) =
    elim x [ ]
held text (holds_fields (holds_value (holds_items (holds_others x)))) = elim x [ ]
held text (holds_fields (holds_rest x)) = elim x [ ]

reads_tokens : ReadsTokens decoder
reads_tokens bytes value parsed text plain h = elim (Bool-cases (str_eq bytes answer_bytes)) [
  | inl same ↦
      let e : error_answer ≡ value = some-injective (rw same at parsed) in
      subst (Occurs text) (sym (str_eq_sound bytes answer_bytes same))
        (held text (subst (Holds text) (sym e) h))
  | inr other ↦ absurd (nothing value (rw other at parsed))
]

answer_parsed : decoder.from_slice answer_bytes ≡ some error_answer
unfolding str_eq
answer_parsed = refl

error_there : ErrorIn entry error_answer
unfolding status_entry field_get str_eq
error_there =
    in_object (in_status (this_status (error_status refl (λ t e. cc) (λ t e. cc) (λ t e. cc))))

abbrev context : RequestContext
context = record { method = get; endpoint = codes "/rci/show/version" }

collect_rci_errors_iff_example :
    Mem entry (collect_rci_errors error_answer []) ↔ ErrorIn entry error_answer
collect_rci_errors_iff_example = collect_rci_errors_iff entry error_answer

decode_json_response_reports_example :
    decode_json_response search_bytes decoder answer_bytes context
    ≡ err (rci context (collect_rci_errors error_answer []))
decode_json_response_reports_example =
    decode_json_response_reports search_bytes decoder answer_bytes context error_answer entry
      reads_tokens answer_parsed error_there

abbrev version : Str
version = codes "show/version"

-- A first reply that goes on, and one that ends the test.
abbrev said : Str → Bool → PollResponse
said line continued = record { message = line ∷ []; continued = continued }

abbrev poll_decoder : Decoder PollResponse
poll_decoder = record {
  from_slice = λ bytes. none;
  from_value = λ value. ok (said (codes "one") true);
  from_bytes = λ bytes.
      ok (if str_eq bytes (codes "1") then said (codes "one") true else said (codes "two") false);
  at_end = λ bytes. true;
}

abbrev to_vec : Value → Bytes
to_vec value = codes "{}"

abbrev no_command : CliCommand
no_command = record { text = codes "show version" }

calls_keep_to_their_request_example :
    KeepsTo platform search_bytes poll_decoder inner
      (rci_post platform search_bytes poll_decoder inner version (codes "{}"))
      fresh
      (start_network_test platform search_bytes poll_decoder inner version
        (some (codes "{}"))
        fresh)
calls_keep_to_their_request_example =
    (calls_keep_to_their_request platform search_bytes decoder poll_decoder inner version
      (codes "a=1") (codes "name") (codes "Bridge0") (codes "{}") to_vec no_command fresh).3

-- The router is out of reach.
abbrev unreachable : State platform
unreachable = record fresh { world = [] }

abbrev tried : State platform
tried =
    (get_with_query platform search_bytes decoder inner version (some (codes "a=1")) unreachable).1

get_with_query_fails :
    get_with_query platform search_bytes decoder inner version (some (codes "a=1")) unreachable
    ≡ (fails (transport (rci_context get version)), tried)
unfolding get_with_query send_json send_successful send_authenticated send_once prepare_get prepare
    rci_context
get_with_query_fails = refl

get_with_query-IsOwn_example :
    IsOwn platform (rci_context get version) (transport (rci_context get version))
    × IsClean platform tried
get_with_query-IsOwn_example =
    get_with_query-IsOwn platform search_bytes decoder inner version (some (codes "a=1"))
      unreachable (transport (rci_context get version)) tried tt get_with_query_fails

abbrev reply_with : Bytes → Response Str
reply_with body = record (reply 200 no_header) { body = some body }

abbrev before : State platform
before = record fresh { world = reply_with (codes "1") ∷ reply_with (codes "2") ∷ [] }

abbrev test : Str
test = codes "tools/ping"

abbrev after_start : State platform
after_start =
    (post_at_path platform search_bytes poll_decoder inner test (some (codes "{}")) before).1

abbrev after_poll : State platform
after_poll = (get_json platform search_bytes poll_decoder inner test after_start).1

test_started :
    post_at_path platform search_bytes poll_decoder inner test (some (codes "{}")) before
    ≡ (returns (said (codes "one") true), after_start)
unfolding post_at_path send_json send_successful send_authenticated send_once prepare
    decode_json_response needs_rci_inspection contains_json_string str_eq search_bytes is_success
test_started = refl

test_polled :
    get_json platform search_bytes poll_decoder inner test after_start
    ≡ (returns (said (codes "two") false), after_poll)
unfolding get_json prepare_get post_at_path send_json send_successful send_authenticated send_once
    prepare decode_json_response needs_rci_inspection contains_json_string str_eq search_bytes
    is_success
test_polled = refl

run_network_test-Reads_example :
    run_network_test platform search_bytes poll_decoder inner test 3 (some (codes "{}")) before
    ≡ (returns (some (codes "one" ∷ codes "two" ∷ [])), after_poll)
run_network_test-Reads_example =
    run_network_test-Reads platform search_bytes poll_decoder inner test 3 1 (some (codes "{}"))
      before after_start after_poll (said (codes "one") true)
      (prepend (codes "two" ∷ []) (returns [])) test_started
      (more (said (codes "two") false) test_polled over) (omega arith)
