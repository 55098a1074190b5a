-- ===== src/Examples/Kv.antt =====
-- Examples for the commands and the store (ddbr-server/infra/state_machine.go).
use ddbr.Common.{[], ◌∷◌}
use ddbr.Common.Eq.{bytes, str_Eq}
use ddbr.Common.Int.{pos}
use ddbr.Common.Result.{err}
use ddbr.Entry.{LogEntry, new_entry}
use ddbr.Kv.Command.{Unmarshal, format_set, format_delete}
use ddbr.Kv.Machine.{StateMachine}

abbrev pub no_json : Unmarshal
no_json s = err (bytes "no JSON")

abbrev pub set_a : LogEntry
set_a = new_entry (pos 1) (pos 1) (format_set (bytes "a") (bytes "1"))

abbrev no_command : LogEntry
no_command = new_entry (pos 1) (pos 1) (bytes "set")

abbrev pub after_a : StateMachine
after_a = record { entries = (bytes "a", bytes "1") ∷ []; last_applied_index = pos 1 }

abbrev delete_ab : LogEntry
delete_ab = new_entry (pos 1) (pos 2) (format_delete (bytes "a:b"))
