-- ===== src/Sync.antt =====
-- Log synchronisation: the leader's SyncLogs (ddbr-server/service/vote_service.go), and the call of
-- it by a follower, SyncLogsWithLeader (ddbr-server/infra/log_service.go).
pub mod Merge
use ddbr.Common.{
  Bool, true, false, not, List, [], ◌∷◌, ◌++◌, Option, none, some, if◌then◌else◌, get_last?,
}
use ddbr.Common.Eq.{Str, bytes}
use ddbr.Common.Int.{ℤ, pos, negsuc, ltb_ℤ, leb_ℤ}
use ddbr.Common.Result.{Result, ok, err}
use ddbr.Entry.{LogEntry, new_entry, last_index, last_term}
use ddbr.Kv.Command.{Unmarshal}
use ddbr.Kv.Machine.{StateMachine, apply_log}
use ddbr.RaftState.{RaftState, set_logs, set_current_term, set_voted_for}
use ddbr.Recovery.{MarshalState, WriteFile, Host, persist_raft_state}
use ddbr.Rpc.{LogSyncReq, LogSyncResp}

-- The entries after an index, copied without their flags.
unfoldable pub entries_after : ℤ → List LogEntry → List LogEntry
entries_after i [] = []
entries_after i (e ∷ logs) =
    let rest = entries_after i logs in
    if ltb_ℤ i e.index then new_entry e.term e.index e.command ∷ rest else rest

-- SyncLogs, where configs.IsMaster() is `is_master`
unfoldable pub sync_logs : Bool → LogSyncReq → RaftState → LogSyncResp
unfolding entries_after
sync_logs is_master req rs =
    if not is_master
    then record {
      success = false;
      message = bytes "not leader";
      entries = [];
      leader_id = negsuc 0;
    }
    else record {
      success = true;
      message = bytes "sync success";
      entries = entries_after req.last_log_index rs.logs;
      leader_id = pos 0;
    }

-- The errors of SyncLogsWithLeader.
pub data SyncError : Type 0 where
  gateway_failed : Str → SyncError
  invalid_leader_id : ℤ → SyncError
  no_leader_host : ℤ → SyncError
  no_client : Str → SyncError
  call_failed : Str → SyncError
  refused : Str → ℤ → SyncError

-- Who the leader is, from the gateway: an error's text, or its id and host.
abbrev pub GatewayAnswer : Type 0
GatewayAnswer = Result Str (ℤ × Str)

abbrev pub from_gateway : GatewayAnswer → Result SyncError (ℤ × Str)
from_gateway (err x) = err (gateway_failed x)
from_gateway (ok (id, host)) =
    if leb_ℤ id (pos 0) then err (invalid_leader_id id) else ok (id, host)

-- The first peer of the configuration that is not empty, or else the master's address.
unfoldable pub configured_host : List Str → Str → Str
configured_host [] master = master
configured_host ([] ∷ peers) master = configured_host peers master
configured_host ((c ∷ peer) ∷ peers) master = c ∷ peer

abbrev pub check_host : Result SyncError (ℤ × Str) → Result SyncError (ℤ × Str)
check_host (err x) = err x
check_host (ok (id, [])) = err (no_leader_host id)
check_host (ok (id, c ∷ host)) = ok (id, c ∷ host)

unfoldable pub find_leader : ℤ → GatewayAnswer → List Str → Str → Result SyncError (ℤ × Str)
unfolding configured_host
find_leader leader_id answer peers master = check_host (
    if leb_ℤ leader_id (pos 0)
    then from_gateway answer
    else ok (leader_id, configured_host peers master))

unfoldable pub sync_request : RaftState → LogSyncReq
unfolding last_index last_term
sync_request rs = record {
  node_id = rs.node_id;
  last_log_index = last_index rs.logs;
  last_log_term = last_term rs.logs;
}

-- Every entry is offered to the store, which may refuse it; a refusal is only logged.
unfoldable pub apply_all : Unmarshal → List LogEntry → StateMachine → StateMachine
apply_all u [] sm = sm
apply_all u (e ∷ es) sm = apply_all u es (apply_log u e sm).1

-- The last entry's term is taken over if it is newer, and the vote forgotten.
unfoldable pub take_term : List LogEntry → RaftState → RaftState
unfolding last_term
take_term es rs =
    if ltb_ℤ rs.current_term (last_term es)
    then set_voted_for (negsuc 0) (set_current_term (last_term es) rs)
    else rs

-- What is done with the answer, up to the writing of the state file.
unfoldable pub merge_entries :
    Unmarshal → List LogEntry → RaftState × StateMachine → RaftState × StateMachine
unfolding apply_all take_term
merge_entries u [] s = s
merge_entries u (e ∷ es) (rs, sm) =
    (set_logs (rs.logs ++ e ∷ es) (take_term (e ∷ es) rs), apply_all u (e ∷ es) sm)

-- `ok true` where entries were merged
abbrev pub Synced : Type 0
Synced = Result SyncError Bool × (RaftState × StateMachine)

-- The leader's client: no client for the host, an error of the call, or the answer.
abbrev pub LeaderClient : Type 0
LeaderClient = Str → Option (LogSyncReq → Result Str LogSyncResp)

abbrev pub has_entries : List LogEntry → Bool
has_entries [] = false
has_entries (e ∷ es) = true

abbrev handle_resp : Unmarshal → Result Str LogSyncResp → RaftState × StateMachine → Synced
handle_resp u (err x) s = (err (call_failed x), s)
handle_resp u (ok resp) s =
    if not resp.success
    then (err (refused resp.message resp.leader_id), s)
    else (ok (has_entries resp.entries), merge_entries u resp.entries s)

abbrev pub call_leader :
    Unmarshal
    → Str
    → Option (LogSyncReq → Result Str LogSyncResp)
    → RaftState × StateMachine
    → Synced
call_leader u host none s = (err (no_client host), s)
call_leader u host (some call) s = handle_resp u (call (sync_request s.0)) s

abbrev pub with_leader :
    Unmarshal → LeaderClient → Result SyncError (ℤ × Str) → RaftState × StateMachine → Synced
with_leader u client (err x) s = (err x, s)
with_leader u client (ok (id, host)) s = call_leader u host (client host) s

unfoldable pub sync_logs_with_leader :
    Unmarshal
    → LeaderClient
    → GatewayAnswer
    → List Str
    → Str
    → ℤ
    → RaftState × StateMachine
    → Synced
unfolding find_leader sync_request merge_entries
sync_logs_with_leader u client answer peers master leader_id (rs, sm) =
    if rs.is_master
    then (ok false, (rs, sm))
    else with_leader u client (find_leader leader_id answer peers master) (rs, sm)

-- After a merge the state is persisted; an error of that is only logged.
abbrev pub persist_synced :
    MarshalState → WriteFile → Host → Synced → Result SyncError (Unit {0}) × Host
persist_synced m w h (err x, (rs, sm)) = (err x, record h { raft = rs; kv = sm })
persist_synced m w h (ok false, (rs, sm)) = (ok tt, record h { raft = rs; kv = sm })
persist_synced m w h (ok true, (rs, sm)) =
    (ok tt, (persist_raft_state m w (record h { raft = rs; kv = sm })).1)

-- SyncLogsWithLeader as a whole
unfoldable pub sync_host :
    Unmarshal
    → MarshalState
    → WriteFile
    → LeaderClient
    → GatewayAnswer
    → List Str
    → Str
    → ℤ
    → Host
    → Result SyncError (Unit {0}) × Host
sync_host u m w client answer peers master leader_id h =
    persist_synced m w h
      (sync_logs_with_leader u client answer peers master leader_id (h.raft, h.kv))
