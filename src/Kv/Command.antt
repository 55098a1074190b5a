-- ===== src/Kv/Command.antt =====
-- Commands as the log carries them (infra/state_machine.go), and as service/kv_impl.go writes them.
use ddbr.Common.{Bool, true, ◌||◌, List, [], ◌∷◌, ◌++◌, if◌then◌else◌}
use ddbr.Common.Eq.{Str, str_eq, bytes, ◌==◌, str_Eq}
use ddbr.Common.Int.{ℤ}
use ddbr.Common.Result.{Result, ok, err}
use ddbr.Common.Text.{has_prefix, split, contains}

-- `CommandType` is a string type.
abbrev pub type_set : Str
type_set = bytes "set"

abbrev pub type_get : Str
type_get = bytes "get"

abbrev pub type_delete : Str
type_delete = bytes "delete"

pub record Command : Type 0 where
  pub type : Str
  pub key : Str
  pub value : Str

-- The errors of ApplyLogToStateMachine, with the text that each one quotes.
pub data ApplyError : Type 0 where
  already_applied : ℤ → ApplyError
  parse_failed : Str → ApplyError
  invalid_format : Str → ApplyError
  invalid_set_format : Str → ApplyError
  unknown_type : Str → ApplyError

-- strings.Contains(err.Error(), "log entry already applied"): the texts that may quote a command
-- are searched whole.
unfoldable pub says_applied : ApplyError → Bool
unfolding contains
says_applied (already_applied i) = true
says_applied (parse_failed s) =
    contains (bytes "failed to parse command: " ++ s) (bytes "log entry already applied")
says_applied (invalid_format s) =
    contains (bytes "invalid command format: " ++ s) (bytes "log entry already applied")
says_applied (invalid_set_format s) =
    contains (bytes "invalid set command format: " ++ s) (bytes "log entry already applied")
says_applied (unknown_type s) =
    contains (bytes "unknown command type: " ++ s) (bytes "log entry already applied")

-- fmt.Sprintf("set:%s:%s", key, value) and fmt.Sprintf("delete:%s", key)
unfoldable pub format_set : Str → Str → Str
format_set key value = bytes "set:" ++ (key ++ b':' ∷ value)

unfoldable pub format_delete : Str → Str
format_delete key = bytes "delete:" ++ key

set_parts : Str → Str → Str → List Str → Result ApplyError Command
set_parts s t key (value ∷ []) = ok (record { type = t; key = key; value = value })
set_parts s t key _ = err (invalid_set_format s)

-- The simple format: "set:key:value", "get:key" or "delete:key"
unfoldable pub parse_parts : Str → List Str → Result ApplyError Command
unfolding set_parts str_eq
parse_parts s (t ∷ key ∷ rest) =
    if t == type_set
    then set_parts s t key rest
    else if t == type_get || t == type_delete
    then ok (record { type = t; key = key; value = [] })
    else err (unknown_type t)
parse_parts s _ = err (invalid_format s)

-- json.Unmarshal into a Command: the error's text, or the command.
abbrev pub Unmarshal : Type 0
Unmarshal = Str → Result Str Command

abbrev parse_json : Result Str Command → Result ApplyError Command
parse_json (ok cmd) = ok cmd
parse_json (err e) = err (parse_failed e)

unfoldable pub parse : Unmarshal → Str → Result ApplyError Command
unfolding has_prefix split parse_parts
parse unmarshal s =
    if has_prefix s (bytes "{") then parse_json (unmarshal s) else parse_parts s (split b':' s)
