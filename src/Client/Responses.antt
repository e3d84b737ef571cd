-- ===== src/Client/Responses.antt =====
-- src/client.rs: `collect_rci_errors`, `decode_json_response` and `classify_response_error`. The crates
-- `serde_json` and `serde_path_to_error` are a parameter.
use keenetic_rci.Prelude.{
  ℕ, Bool, true, false, Option, none, some, List, [], ◌∷◌, ◌++◌, Result, ok, err, ◌>>=◌, map_err,
  if◌then◌else◌, str_eq,
}
use keenetic_rci.Prelude.Str.{Str, Bytes, codes}
use keenetic_rci.Json.{
  Value, null, boolean, number, string, array, object, Items, no_items, item, Fields, no_fields,
  field, field_get, item_list, as_object, as_text,
}
use keenetic_rci.Error.{
  RequestContext, RciStatusEntry, Error, rci, response_json, response_deserialization,
}
use keenetic_rci.Client.Inspect.{Memchr, needs_rci_inspection}
pub mod Entries
pub mod Statuses
pub mod Decoding

abbrev pub text_of : Option Value → Option Str
text_of none = none
text_of (some value) = as_text value

abbrev pub entry_of : Fields → Option Str → Option RciStatusEntry
entry_of fields' none = none
entry_of fields' (some status) =
    if str_eq status (codes "error")
    then some (record {
      code = text_of (field_get fields' (codes "code"));
      ident = text_of (field_get fields' (codes "ident"));
      message = text_of (field_get fields' (codes "message"));
    })
    else none

abbrev object_entry : Option Fields → Option RciStatusEntry
object_entry none = none
object_entry (some fields') = entry_of fields' (text_of (field_get fields' (codes "status")))

-- The closure of `filter_map`.
unfoldable pub status_entry : Value → Option RciStatusEntry
status_entry status = object_entry (as_object status)

abbrev kept : Option RciStatusEntry → List RciStatusEntry → List RciStatusEntry
kept none entries = entries
kept (some entry) entries = entry ∷ entries

-- `filter_map` over the statuses.
abbrev pub status_entries : Items → List RciStatusEntry
status_entries no_items = []
status_entries (item status statuses) = kept (status_entry status) (status_entries statuses)

-- `entries.extend(...)` under its two conditions.
abbrev pub extended : Str → Value → List RciStatusEntry → List RciStatusEntry
extended key (array statuses) entries =
    if str_eq key (codes "status") then entries ++ status_entries statuses else entries
extended key _ entries = entries

-- `collect_rci_errors`; the vector is passed on.
unfoldable mutual
  pub collect_rci_errors : Value → List RciStatusEntry → List RciStatusEntry
  collect_rci_errors (object fields') entries = collect_fields fields' entries
  collect_rci_errors (array items) entries = collect_items items entries
  collect_rci_errors null entries = entries
  collect_rci_errors (boolean b) entries = entries
  collect_rci_errors (number n) entries = entries
  collect_rci_errors (string s) entries = entries

  pub collect_fields : Fields → List RciStatusEntry → List RciStatusEntry
  collect_fields no_fields entries = entries
  collect_fields (field key child rest) entries =
      collect_fields rest (collect_rci_errors child (extended key child entries))

  pub collect_items : Items → List RciStatusEntry → List RciStatusEntry
  collect_items no_items entries = entries
  collect_items (item child rest) entries = collect_items rest (collect_rci_errors child entries)

-- `serde_json::error::Category`, and an error of typed decoding with the path that it names.
pub data Category : Type 0 where
  data_error io syntax eof : Category

pub record ReadError : Type 0 where
  pub category : Category
  pub path : Str

-- The decoders of `serde_json` under `serde_path_to_error`, for a type of answers.
pub record Decoder (A : Type 0) : Type 0 where
  -- `serde_json::from_slice` into a `Value`
  pub from_slice : Bytes → Option Value
  -- `deserialize` from a `Value`, and from bytes
  pub from_value : Value → Result A ReadError
  pub from_bytes : Bytes → Result A ReadError
  -- `Deserializer::end`, once the answer is read
  pub at_end : Bytes → Bool

-- `classify_response_error`
unfoldable pub classify_response_error : RequestContext → ReadError → Error
classify_response_error context error = elim error.category [
  | data_error ↦ response_deserialization context error.path
  | _ ↦ response_json context
]

module _ (m : Memchr) {A : Type 0} (d : Decoder A) where
  -- The value after it was searched for errors.
  abbrev pub searched : RequestContext → Value → List RciStatusEntry → Result A Error
  searched context value [] = map_err (classify_response_error context) (d.from_value value)
  searched context value (entry ∷ entries) = err (rci context (entry ∷ entries))

  abbrev pub inspected : RequestContext → Option Value → Result A Error
  inspected context none = err (response_json context)
  inspected context (some value) = searched context value (collect_rci_errors value [])

  -- `decode_json_response`
  unfoldable pub decode_json_response : Bytes → RequestContext → Result A Error
  decode_json_response bytes context =
      if needs_rci_inspection m bytes then inspected context (d.from_slice bytes) else (do
        response ← map_err (classify_response_error context) (d.from_bytes bytes)
        if d.at_end bytes then ok response else err (response_json context))
