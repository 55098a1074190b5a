-- ===== src/Kv/Machine.antt =====
-- The store itself and ApplyLogToStateMachine (infra/state_machine.go). Each method holds the
-- mutex; the entries of a log are applied one after the other.
use ddbr.Common.{[], Option, none, some, if◌then◌else◌}
use ddbr.Common.Eq.{Str, bytes, ◌==◌, str_Eq}
use ddbr.Common.Int.{ℤ, pos, leb_ℤ}
use ddbr.Common.Dict.{Dict, lookup, insert, delete}
use ddbr.Common.Result.{Result, ok, err}
use ddbr.Entry.{LogEntry}
use ddbr.Kv.Command.{
  Command, ApplyError, already_applied, unknown_type, Unmarshal, parse, type_set, type_get,
  type_delete,
}

pub record StateMachine : Type 0 where
  pub entries : Dict Str Str
  pub last_applied_index : ℤ

-- GetStateMachine's first call
abbrev pub new : StateMachine
new = record { entries = []; last_applied_index = pos 0 }

unfoldable pub set : StateMachine → Str → Str → StateMachine
set sm key value = record sm { entries = insert key value sm.entries }

unfoldable pub get : StateMachine → Str → Option Str
get sm key = lookup key sm.entries

unfoldable pub remove : StateMachine → Str → StateMachine
remove sm key = record sm { entries = delete key sm.entries }

unfoldable pub or_nil : Option Str → Str
or_nil none = bytes "(nil)"
or_nil (some v) = v

-- The switch that executes the command.
unfoldable pub execute : Command → StateMachine → Result ApplyError Str × StateMachine
unfolding set get remove or_nil
execute cmd sm =
    if cmd.type == type_set
    then (ok (bytes "OK"), set sm cmd.key cmd.value)
    else if cmd.type == type_get
    then (ok (or_nil (get sm cmd.key)), sm)
    else if cmd.type == type_delete
    then (ok (bytes "OK"), remove sm cmd.key)
    else (err (unknown_type cmd.type), sm)

-- sm.SetLastAppliedIndex(entry.Index), reached only if the command was executed
abbrev pub mark_applied :
    ℤ → Result ApplyError Str × StateMachine → Result ApplyError Str × StateMachine
mark_applied i (ok r, sm) = (ok r, record sm { last_applied_index = i })
mark_applied i (err e, sm) = (err e, sm)

abbrev run_parsed :
    LogEntry → Result ApplyError Command → StateMachine → Result ApplyError Str × StateMachine
run_parsed entry (ok cmd) sm = mark_applied entry.index (execute cmd sm)
run_parsed entry (err e) sm = (err e, sm)

unfoldable pub apply_log :
    Unmarshal → LogEntry → StateMachine → Result ApplyError Str × StateMachine
apply_log unmarshal entry sm =
    if leb_ℤ entry.index sm.last_applied_index
    then (err (already_applied entry.index), sm)
    else run_parsed entry (parse unmarshal entry.command) sm
