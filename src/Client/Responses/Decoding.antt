-- ===== src/Client/Responses/Decoding.antt =====
-- src/client.rs, `decode_json_response`: an answer with an error status is never taken as a success.
use keenetic_rci.Prelude.{
  ◌≡◌, ◌≤◌, inl, inr, some, List, [], ◌∷◌, err, str_eq, str_eq_sound, All, refl, sym, subst,
  Bool-cases, arith,
}
use keenetic_rci.Prelude.Optional.{some-injective}
use keenetic_rci.Prelude.Str.{Str, Bytes, codes}
use keenetic_rci.Json.{
  Value, string, array, object, Items, item, Fields, no_fields, field, field_get,
}
use keenetic_rci.Error.{RequestContext, RciStatusEntry, rci}
use keenetic_rci.Client.Inspect.{Memchr}
use keenetic_rci.Client.Inspect.Scan.{Occurs}
use keenetic_rci.Client.Inspect.Filter.{needs_rci_inspection_iff}
use keenetic_rci.Client.Responses.{collect_rci_errors, Decoder, searched, decode_json_response}
use keenetic_rci.Client.Responses.Statuses.{
  Mem, ErrorStatus, this_status, later_status, ErrorIn, in_object, in_array, ErrorInFields,
  in_status, in_child, in_rest, ErrorInItems, in_first, in_others, collect_rci_errors_iff,
}
use keenetic_rci.Client.Responses.Entries.{IsErrorStatus, error_status}

-- A text of lowercase letters.
abbrev pub IsPlain : Str → Type 0
IsPlain s = All (λ c. (b'a' ≤ c) × (c ≤ b'z')) s

module _ (text : Str) where
  -- A text is a string or the name of a field somewhere in a value.
  mutual
    pub data Holds : Value → Type 0 where
      is_string : Holds (string text)
      holds_items : {vs : Items} → HoldsItems vs → Holds (array vs)
      holds_fields : {fs : Fields} → HoldsFields fs → Holds (object fs)

    pub data HoldsItems : Items → Type 0 where
      holds_first : {v : Value} {vs : Items} → Holds v → HoldsItems (item v vs)
      holds_others : {v : Value} {vs : Items} → HoldsItems vs → HoldsItems (item v vs)

    pub data HoldsFields : Fields → Type 0 where
      is_key : {v : Value} {rest : Fields} → HoldsFields (field text v rest)
      holds_value :
          {key : Str} {v : Value} {rest : Fields} → Holds v → HoldsFields (field key v rest)
      holds_rest :
          {key : Str} {v : Value} {rest : Fields}
          → HoldsFields rest
          → HoldsFields (field key v rest)

-- What the crate relies on of JSON: a value that is read from bytes holds a text of lowercase letters
-- only if a string token in the bytes spells it, each letter plain or as a `\u` escape.
abbrev pub ReadsTokens : {A : Type 0} → Decoder A → Type 0
ReadsTokens d =
    (bytes : Bytes) (value : Value)
    → d.from_slice bytes ≡ some value
    → (text : Str) → IsPlain text
    → Holds text value
    → Occurs text bytes

field_get-Holds :
    (fs : Fields) (key : Str) (v : Value) (text : Str)
    → field_get fs key ≡ some v
    → Holds text v
    → HoldsFields text fs
unfolding field_get
field_get-Holds no_fields key v text h k = cc
field_get-Holds (field name w rest) key v text h k = elim (Bool-cases (str_eq name key)) [
  | inl same ↦
      let e : w ≡ v = some-injective (rw same at h) in holds_value (subst (Holds text) (sym e) k)
  | inr other ↦ holds_rest (field_get-Holds rest key v text (rw other at h) k)
]

field_get-is_key :
    (fs : Fields) (key : Str) (v : Value) → field_get fs key ≡ some v → HoldsFields key fs
unfolding field_get
field_get-is_key no_fields key v h = cc
field_get-is_key (field name w rest) key v h = elim (Bool-cases (str_eq name key)) [
  | inl same ↦
      subst (λ n. HoldsFields key (field n w rest)) (sym (str_eq_sound name key same)) is_key
  | inr other ↦ holds_rest (field_get-is_key rest key v (rw other at h))
]

-- An error status holds both words.
IsErrorStatus-Holds :
    (v : Value) (entry : RciStatusEntry)
    → IsErrorStatus entry v
    → Holds (codes "status") v × Holds (codes "error") v
IsErrorStatus-Holds v entry (error_status {fs} there code ident message) = (
  holds_fields (field_get-is_key fs (codes "status") (string (codes "error")) there),
  holds_fields (field_get-Holds fs (codes "status") _ (codes "error") there is_string),
)

module _ (entry : RciStatusEntry) where
  ErrorStatus-Holds :
      (vs : Items)
      → ErrorStatus entry vs
      → HoldsItems (codes "status") vs × HoldsItems (codes "error") vs
  ErrorStatus-Holds vs (this_status {v} e) =
      let (a, b) = IsErrorStatus-Holds v entry e in (holds_first a, holds_first b)
  ErrorStatus-Holds vs (later_status {vs = rest} s) =
      let (a, b) = ErrorStatus-Holds rest s in (holds_others a, holds_others b)

  mutual
    ErrorIn-Holds :
        (v : Value) → ErrorIn entry v → Holds (codes "status") v × Holds (codes "error") v
    ErrorIn-Holds v (in_object {fs} d) =
        let (a, b) = ErrorInFields-Holds fs d in (holds_fields a, holds_fields b)
    ErrorIn-Holds v (in_array {vs} d) =
        let (a, b) = ErrorInItems-Holds vs d in (holds_items a, holds_items b)

    ErrorInFields-Holds :
        (fs : Fields)
        → ErrorInFields entry fs
        → HoldsFields (codes "status") fs × HoldsFields (codes "error") fs
    ErrorInFields-Holds fs (in_status {vs} s) =
        let (a, b) = ErrorStatus-Holds vs s in (is_key, holds_value (holds_items b))
    ErrorInFields-Holds fs (in_child {v} d) =
        let (a, b) = ErrorIn-Holds v d in (holds_value a, holds_value b)
    ErrorInFields-Holds fs (in_rest {rest} d) =
        let (a, b) = ErrorInFields-Holds rest d in (holds_rest a, holds_rest b)

    ErrorInItems-Holds :
        (vs : Items)
        → ErrorInItems entry vs
        → HoldsItems (codes "status") vs × HoldsItems (codes "error") vs
    ErrorInItems-Holds vs (in_first {v} d) =
        let (a, b) = ErrorIn-Holds v d in (holds_first a, holds_first b)
    ErrorInItems-Holds vs (in_others {vs = rest} d) =
        let (a, b) = ErrorInItems-Holds rest d in (holds_others a, holds_others b)

status_IsPlain : IsPlain (codes "status")
status_IsPlain = (
  (omega arith, omega arith),
  (
    (omega arith, omega arith),
    (
      (omega arith, omega arith),
      ((omega arith, omega arith), ((omega arith, omega arith), ((omega arith, omega arith), tt))),
    ),
  ),
)

error_IsPlain : IsPlain (codes "error")
error_IsPlain = (
  (omega arith, omega arith),
  (
    (omega arith, omega arith),
    ((omega arith, omega arith), ((omega arith, omega arith), ((omega arith, omega arith), tt))),
  ),
)

module _ (m : Memchr) {A : Type 0} (d : Decoder A) (bytes : Bytes) (context : RequestContext) where
  searched-Mem :
      (value : Value) (entry : RciStatusEntry) (entries : List RciStatusEntry)
      → Mem entry entries
      → searched m d context value entries ≡ err (rci context entries)
  searched-Mem value entry [] h = absurd h
  searched-Mem value entry (e ∷ entries) h = refl

  -- An answer that is JSON with an error status in it, at any depth, is given back as the RCI error
  -- with exactly the entries that are collected, never as a decoded answer, although the search is
  -- skipped for the answers without the two tokens.
  pub decode_json_response_reports :
      (value : Value) (entry : RciStatusEntry)
      → ReadsTokens d
      → d.from_slice bytes ≡ some value
      → ErrorIn entry value
      → decode_json_response m d bytes context ≡ err (rci context (collect_rci_errors value []))
  unfolding decode_json_response
  decode_json_response_reports value entry reads parsed error =
      let (status, word) = ErrorIn-Holds entry value error in
      let searched' = (needs_rci_inspection_iff m bytes).1 (
        reads bytes value parsed (codes "status") status_IsPlain status,
        reads bytes value parsed (codes "error") error_IsPlain word,
      ) in
      rw (searched', parsed)
        (searched-Mem value entry (collect_rci_errors value [])
          ((collect_rci_errors_iff entry value).1 error))
