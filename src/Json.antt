-- ===== src/Json.antt =====
-- `serde_json::Value`, and how a visitor of the crate reads one through `deserialize_any`. The bits
-- of a float are kept; an object keeps its entries in the order of their keys.
use keenetic_rci.Prelude.{ℕ, Bool, Option, none, some, List, [], ◌∷◌, if◌then◌else◌, str_eq}
use keenetic_rci.Prelude.Str.{Str}

-- `serde_json::Number`: a `u64`, an `i64` below zero as its absolute value, or an `f64`.
pub data Number : Type 0 where
  unsigned : ℕ → Number
  negative : ℕ → Number
  float : ℕ → Number

mutual
  pub data Value : Type 0 where
    null : Value
    boolean : Bool → Value
    number : Number → Value
    string : Str → Value
    array : Items → Value
    object : Fields → Value

  pub data Items : Type 0 where
    no_items : Items
    item : Value → Items → Items

  pub data Fields : Type 0 where
    no_fields : Fields
    field : Str → Value → Fields → Fields

abbrev pub item_list : Items → List Value
item_list no_items = []
item_list (item v vs) = v ∷ item_list vs

-- `Map::get`
unfoldable pub field_get : Fields → Str → Option Value
field_get no_fields key = none
field_get (field name v fields) key = if str_eq name key then some v else field_get fields key

-- `Value::get` with a text, `Value::as_array`, `Value::as_object` and `Value::as_str`.
abbrev pub get : Value → Str → Option Value
get (object fields) key = field_get fields key
get _ key = none

abbrev pub as_array : Value → Option (List Value)
as_array (array vs) = some (item_list vs)
as_array _ = none

abbrev pub as_object : Value → Option Fields
as_object (object fields) = some fields
as_object _ = none

abbrev pub as_text : Value → Option Str
as_text (string s) = some s
as_text _ = none

-- Why a visitor of the crate refuses a value; the texts that the crate shows are left out.
pub data DeserializeError : Type 0 where
  invalid_type : DeserializeError
  invalid_value : DeserializeError
  custom : DeserializeError
