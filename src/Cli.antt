-- ===== src/Cli.antt =====
-- src/cli.rs: commands of the router's command line, and its replies.
use keenetic_rci.Prelude.{
  ℕ, Bool, true, false, Option, none, some, List, [], ◌∷◌, Result, ok, err, ◌>>=◌, any, map_err,
  if◌then◌else◌,
}
use keenetic_rci.Prelude.Str.{Str, codes, is_control}
use keenetic_rci.Prelude.Pieces.{trim}
use keenetic_rci.Json.{
  Value, string, get, as_array, as_text, DeserializeError, invalid_type, custom,
}
pub mod Commands

pub data InvalidCliCommand : Type 0 where
  empty control_character : InvalidCliCommand

-- `CliCommand(Box<str>)`
pub record CliCommand : Type 0 where
  pub text : Str

abbrev pub is_empty : Str → Bool
is_empty [] = true
is_empty (c ∷ s) = false

-- `TryFrom<Box<str>>`, which `new`, `from_str` and the other conversions call.
unfoldable pub parse_command : Str → Result CliCommand InvalidCliCommand
parse_command value =
    if is_empty (trim value)
    then err empty
    else if any is_control value
    then err control_character
    else ok (record { text = value })

-- `Serialize` and `Deserialize`
abbrev pub serialize_command : CliCommand → Value
serialize_command command = string command.text

abbrev pub customized : InvalidCliCommand → DeserializeError
customized e = custom

unfoldable pub deserialize_command : Value → Result CliCommand DeserializeError
unfolding parse_command
deserialize_command (string value) = map_err customized (parse_command value)
deserialize_command _ = err invalid_type

-- `CliReply(Value)`
pub record CliReply : Type 0 where
  pub raw : Value

abbrev kept_text : Option Str → List Str → List Str
kept_text none texts = texts
kept_text (some text) texts = text ∷ texts

abbrev pub texts_of : List Value → List Str
texts_of [] = []
texts_of (value ∷ values) = kept_text (as_text value) (texts_of values)

abbrev lines_of : Option (List Value) → List Str
lines_of none = []
lines_of (some values) = texts_of values

abbrev array_of : Option Value → Option (List Value)
array_of none = none
array_of (some value) = as_array value

abbrev text_of : Option Value → Option Str
text_of none = none
text_of (some value) = as_text value

-- `CliReply::tty_output` and `CliReply::prompt`
unfoldable pub tty_output : CliReply → List Str
tty_output reply = lines_of (array_of (get reply.raw (codes "tty-out")))

unfoldable pub prompt : CliReply → Option Str
prompt reply = text_of (get reply.raw (codes "prompt"))
