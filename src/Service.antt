-- ===== src/Service.antt =====
-- The key-value handlers of the leader (ddbr-server/service/kv_impl.go).
pub mod Append
pub mod Settled
pub mod Writes
pub mod Stuck
use ddbr.Common.{ℕ, Bool, true, false, not, List, [], Option, none, some, if◌then◌else◌}
use ddbr.Common.Eq.{Str, bytes}
use ddbr.Common.Int.{ℤ, pos, negsuc, ltb_ℤ, ◌+ℤ◌}
use ddbr.Common.Result.{Result, ok, err}
use ddbr.Entry.{LogEntry, new_entry}
use ddbr.Kv.Command.{ApplyError, Unmarshal, format_set, format_delete}
use ddbr.Kv.Machine
use ddbr.Kv.Machine.{StateMachine, or_nil}
use ddbr.RaftState.{RaftState}
use ddbr.RaftState.Apply.{Fault, panicked, failed}
use ddbr.RaftState.Log.{get_last_log_index, append_log}
use ddbr.Replication.{PeerStep, Outcome, replicate_logs}

-- The state of a server that the handlers read and write: configs.IsMaster(), GetRaftState() and
-- GetStateMachine().
pub record Node : Type 0 where
  pub is_master : Bool
  pub raft : RaftState
  pub kv : StateMachine

-- The message of a reply, by the text that the source gives it.
pub data Message : Type 0 where
  done : Message
  not_leader : Message
  failed_to_replicate : ApplyError → Message
  not_enough_acks : Message

-- SetResp and DeleteResp: the RespCode is 0 if `success` and else 1.
pub record WriteResp : Type 0 where
  pub success : Bool
  pub message : Message

pub record GetResp : Type 0 where
  pub success : Bool
  pub value : Str
  pub exists : Bool

-- `none` is a panic, which ends the handler without a reply.
abbrev pub Handled : Type 0
Handled = Option WriteResp × Node

abbrev pub refuse : Message → Option WriteResp
refuse m = some (record { success = false; message = m })

-- The entry that Set and Delete make for a command.
unfoldable pub next_entry : RaftState → Str → LogEntry
next_entry rs cmd =
    let next = get_last_log_index rs +ℤ pos 1 in
    new_entry rs.current_term (if ltb_ℤ next (pos 1) then pos 1 else next) cmd

-- What Set and Delete do with the result of ReplicateLogs; `write` is the store's own Set or
-- Delete.
unfoldable pub finish_write : (StateMachine → StateMachine) → Node → LogEntry → Outcome → Handled
finish_write write n entry (err panicked, sent, (rs, sm)) = (none, record n { raft = rs; kv = sm })
finish_write write n entry (err (failed x), sent, (rs, sm)) =
    (refuse (failed_to_replicate x), record n { raft = rs; kv = sm })
finish_write write n entry (ok commit, sent, (rs, sm)) =
    if ltb_ℤ commit entry.index
    then (refuse not_enough_acks, record n { raft = rs; kv = sm })
    else (some (record { success = true; message = done }), record n { raft = rs; kv = write sm })

-- The part of Set and Delete after the command is made.
unfoldable pub log_write :
    Unmarshal → List PeerStep → Str → (StateMachine → StateMachine) → Node → Handled
log_write u schedule cmd write n =
    let (rs, entry) = append_log n.raft (next_entry n.raft cmd) in
    finish_write write n entry (replicate_logs u n.is_master schedule entry (rs, n.kv))

unfoldable pub set : Unmarshal → List PeerStep → Str → Str → Node → Handled
set u schedule key value n =
    if not n.is_master
    then (refuse not_leader, n)
    else log_write u schedule (format_set key value) (λ sm. Machine.set sm key value) n

unfoldable pub delete : Unmarshal → List PeerStep → Str → Node → Handled
delete u schedule key n =
    if not n.is_master
    then (refuse not_leader, n)
    else log_write u schedule (format_delete key) (λ sm. Machine.remove sm key) n

abbrev pub found : Option Str → GetResp
found none = record { success = true; value = bytes "(nil)"; exists = false }
found (some v) = record { success = true; value = v; exists = true }

unfoldable pub get : Str → Node → GetResp
get key n =
    if not n.is_master
    then record { success = false; value = []; exists = false }
    else found (Machine.get n.kv key)
