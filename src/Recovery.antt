-- ===== src/Recovery.antt =====
-- The persistent state of a server (ddbr-server/infra/init_manager.go): PersistRaftState writes it
-- to the file raft_state.json, and recoverFromStorage reads it when the server starts.
pub mod Replay
use ddbr.Common.{Bool, true, false, not, ◌&&◌, List, [], ◌∷◌, Option, none, some, if◌then◌else◌}
use ddbr.Common.Eq.{Str}
use ddbr.Common.Int.{ℤ, ltb_ℤ}
use ddbr.Common.Result.{Result, ok, err}
use ddbr.Entry.{LogEntry, last_index}
use ddbr.Kv.Command.{ApplyError, Unmarshal}
use ddbr.Kv.Machine.{StateMachine, apply_log}
use ddbr.RaftState.{
  RaftState, set_current_term, set_voted_for, set_logs, set_last_applied, set_commit_index,
}

-- persistentState, and its JSON text: json.Marshal and json.Unmarshal of this type
pub record PersistentState : Type 0 where
  pub current_term : ℤ
  pub voted_for : ℤ
  pub logs : List LogEntry

abbrev pub MarshalState : Type 0
MarshalState = PersistentState → Str

abbrev pub UnmarshalState : Type 0
UnmarshalState = Str → Result Str PersistentState

-- What the two functions read and write; `file` is the state file, `is_init` the manager's isInit.
pub record Host : Type 0 where
  pub raft : RaftState
  pub kv : StateMachine
  pub is_master : Bool
  pub is_init : Bool
  pub file : Option Str

pub data StorageError : Type 0 where
  not_initialized : StorageError
  failed_to_write : StorageError
  failed_to_read : StorageError
  failed_to_parse : Str → StorageError

-- How ioutil.WriteFile ends; a failed call leaves any file behind.
pub data WriteFile : Type 0 where
  written : WriteFile
  write_failed : Option Str → WriteFile

abbrev pub persistent_state : RaftState → PersistentState
persistent_state rs = record {
  current_term = rs.current_term;
  voted_for = rs.voted_for;
  logs = rs.logs;
}

abbrev write_state : MarshalState → WriteFile → Host → Result StorageError (Unit {0}) × Host
write_state m written h = (ok tt, record h { file = some (m (persistent_state h.raft)) })
write_state m (write_failed left) h = (err failed_to_write, record h { file = left })

unfoldable pub persist_raft_state :
    MarshalState → WriteFile → Host → Result StorageError (Unit {0}) × Host
persist_raft_state m w h = if not h.is_init then (err not_initialized, h) else write_state m w h

abbrev pub mark_replayed : Result ApplyError Str → LogEntry → RaftState → RaftState
mark_replayed (ok r) e rs = set_last_applied e.index rs
mark_replayed (err x) e rs = rs

-- The loop over the logs; `last_applied` is read once, before it.
unfoldable pub replay :
    Unmarshal → ℤ → List LogEntry → RaftState × StateMachine → RaftState × StateMachine
replay u last_applied [] s = s
replay u last_applied (e ∷ es) (rs, sm) =
    let (r, sm') = apply_log u e sm in
    replay u last_applied es
      (if ltb_ℤ last_applied e.index then (mark_replayed r e rs, sm') else (rs, sm))

abbrev pub restored : PersistentState → RaftState → RaftState
restored s rs = set_logs s.logs (set_voted_for s.voted_for (set_current_term s.current_term rs))

-- A leader applies the logs that it loaded, and takes them all as committed.
unfoldable pub replay_logs :
    Unmarshal → List LogEntry → RaftState × StateMachine → RaftState × StateMachine
unfolding last_index
replay_logs u [] s = s
replay_logs u (e ∷ es) (rs, sm) =
    let (rs', sm') = replay u rs.last_applied (e ∷ es) (rs, sm) in
    (set_commit_index (last_index (e ∷ es)) rs', sm')

abbrev pub with_logs : Host → RaftState × StateMachine → Host
with_logs h (rs, sm) = record h { raft = rs; kv = sm }

abbrev pub load :
    Unmarshal → Result Str PersistentState → Host → Result StorageError (Unit {0}) × Host
load u (err x) h = (err (failed_to_parse x), h)
load u (ok s) h =
    let rs = restored s h.raft in
    (ok tt, with_logs h (if h.is_master then replay_logs u s.logs (rs, h.kv) else (rs, h.kv)))

abbrev pub read_file :
    Unmarshal → UnmarshalState → Option Str → Host → Result StorageError (Unit {0}) × Host
read_file u v none h = (ok tt, h)
read_file u v (some data_read) h = load u (v data_read) h

-- `readable` is false where ioutil.ReadFile fails for another reason than a missing file.
unfoldable pub recover_from_storage :
    Unmarshal → UnmarshalState → Bool → Host → Result StorageError (Unit {0}) × Host
unfolding replay_logs
recover_from_storage u v readable h =
    if not readable then (err failed_to_read, h) else read_file u v h.file h
