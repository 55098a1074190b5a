-- ===== src/Lib.antt =====
-- ddbr: a distributed key-value store in Go, replicated with Raft, and the proofs about its server.
--
-- A server (ddbr-server) keeps a log of commands. A client's Set or Delete goes to the leader, which
-- puts a command in its log, sends it to its peers, and when enough of them took it, commits it and
-- applies it to its key-value store. Get reads the leader's store. Beside that, each server runs an
-- election state machine with a log of its own, which answers the RequestVote and AppendEntries calls
-- of the others. The gateway (ddbr-gateway) passes requests on to the leader.
--
-- Files, and the code that they model:
--   Common.antt, Common/: Booleans, byte strings, Go's int64 with wrap-around, association lists
--     with a decided key equality for Go's maps, and results for Go's errors.
--   Entry.antt, Rpc.antt: the messages (ddbr-server/kitex_gen/ddbr/rpc/sever/server.go).
--   Kv/: the commands and the store (ddbr-server/infra/state_machine.go). Command: their format and
--     `parse`; Machine: Set, Get, Delete (`remove`) and ApplyLogToStateMachine (`apply_log`); Format
--     and Apply: the proofs.
--   RaftState.antt, RaftState/: the leader's record of the Raft state (ddbr-server/infra/raft_state.go).
--     Log: GetLastLogIndex, AppendLog; Config: GetConfig, UpdateConfig; Apply: ApplyCommittedLogs;
--     Entries: the older AppendEntries (ddbr-server/service/append_entries.go);
--     Commit: UpdateCommitIndex; Vote: BeginVote, becomeLeaderUnlocked and the answers to
--     sendHeartbeats. Nothing in the program calls the elections, UpdateCommitIndex or
--     the older AppendEntries of this record.
--   Replication.antt, Replication/: ReplicateLogs, doPreCommit, commitLog, sendCommitConfirmation
--     (ddbr-server/infra/replication.go).
--   Service.antt, Service/: Set, Delete and Get of the RPC service (ddbr-server/service/kv_impl.go).
--   Election.antt, Election/: the election state machine (ddbr-server/infra/raft_state_machine.go):
--     its event handlers; Append: AppendEntries; Loop: the run loop, BeginVote, the answers to the
--     heartbeats and ExpiredTimer, with `step` for one section of any goroutine; Committed:
--     applyCommittedLogs; Update: GetRaftStateMachine, UpdateConfig, updateClusterInfo; Cluster: the
--     votes of several nodes; Heartbeats: startHeartbeats and sendHeartbeats; Elected: `run`
--     for an execution, and elections from the timer to their end.
--   Recovery.antt, Recovery/: PersistRaftState and recoverFromStorage
--     (ddbr-server/infra/init_manager.go); the state file is a field of `Host`.
--   Sync.antt, Sync/: SyncLogs of the leader (ddbr-server/service/vote_service.go) and
--     SyncLogsWithLeader of a follower (ddbr-server/infra/log_service.go): `sync_host`, and
--     `sync_logs_with_leader` for the part before PersistRaftState.
--   Hosts.antt: host lists without repetition, which the next two keep.
--   Membership.antt, Membership/: the leader's host list, HeartBeat and JoinCluster
--     (ddbr-server/repo/meta_data.go, ddbr-server/service/heart_service.go).
--   Gateway.antt, Gateway/: the gateway's registry and its RegisterSever and SetLeader
--     (ddbr-gateway/repo/sever_repo.go, gateway_repo.go, ddbr-gateway/service/gateway_service.go).
--     Pool: the clients of ddbr-gateway/client/server_client.go; Handler: the service with its password
--     (ddbr-gateway/handler.go, ddbr-gateway/service/middware/password_middware.go), `serve` for one
--     request; Start: ParseConfig and CmdService; Api: the gateway as an interface for the servers.
--   Cluster.antt, Cluster/: a leader with its peers: doPreCommit calls HandleAppendEntries
--     (ddbr-server/service/append_entries_service.go) of each peer's election machine, one after the
--     other, and the confirmation of the commit follows. Calls: what the calls of a write come to;
--     First, Fresh: the first writes of a new cluster; Lost: a write to peers that are in sync.
--   Client.antt, Client/: GetLeaderClient and ClearClientCache, the server's cache of clients
--     (ddbr-server/client/gateway_client.go).
--   Config.antt, Config/: the configuration of a server and its file (ddbr-server/configs/config.go).
--   Start.antt, Start/: LoadConfig, InitializeRaftState, RegisterNodeAndGetInfo, JoinCluster and
--     InitializeResources (ddbr-server/infra/init_manager.go), over the interface of the gateway.
--   Examples/: the theorems at concrete inputs.
--
-- How the code is translated:
--   * A method that holds a mutex is a function from the old state to the answer and the new state.
--   * An int64 is an integer whose +, - wrap around at 2^63. The Go int of a slice length is a natural
--     number: no slice has 2^63 elements.
--   * Strings are lists of bytes. An error is a data type with the texts that it quotes.
--   * A slice index out of range is a panic: `none`, or the fault `panicked`.
--   * The goroutines of one ReplicateLogs call are a schedule, a list of the sections that ran before
--     the wait for them ended, by their end or by the time-out; the theorems hold for every schedule.
--     The short sections of doPreCommit before its call are taken as one.
--   * An execution of the election machine is a list of inputs: timers, events taken from the queue,
--     and calls from other goroutines, in any order. A clock reading is part of the input.
--     handleRequestVote lets go of the mutex between its parts, so it is up to four sections, and
--     sections of other goroutines come between them (Election.Loop.Order); only the timer and the next
--     event wait for its end. An election whose timer was tested before other sections ran is an input
--     of its own. Elsewhere a test and the event that it sends are one step: the count of a grant with the
--     event of a won election, and the test of BeginVote and of ExpiredTimer with their events.
--   * An election of the Raft state is a list of the sections of its goroutines, in any order.
--   * The loops of ApplyCommittedLogs and applyCommittedLogs run on fuel, one round more than the log
--     is long, and that of UpdateCommitIndex one round for each entry. That is enough: each round moves
--     the index up, and the loops stop at the log's end. The other loops are structural.
--
-- Parameters: json.Unmarshal for commands and for log entries, the making and the answers of RPC
-- clients, the remote address of a call and the order in which Go ranges over a map are arguments,
-- and the theorems hold for any. json.Marshal and json.Unmarshal of the state file are arguments
-- too; the theorem on persisting and recovering takes it that the text of the state is read back as
-- that state.
--
-- Not modelled: log messages; the RPC library and the network, whose answers are inputs; the capacity
-- of the event channel; sections that run after a ReplicateLogs call has stopped waiting for them; the
-- generated code; main and the shutdown of the processes; the ExpiredTimer of
-- raft_state.go, which nothing calls; the random password of the gateway, which is an argument; the
-- client and the benchmarks.
pub mod Client
pub mod Cluster
pub mod Common
pub mod Entry
pub mod Kv
pub mod RaftState
pub mod Rpc
pub mod Replication
pub mod Service
pub mod Election
pub mod Recovery
pub mod Sync
pub mod Hosts
pub mod Gateway
pub mod Membership
pub mod Config
pub mod Start
pub mod Examples
