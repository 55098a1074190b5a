-- ===== src/Cluster.antt =====
-- A leader and its peers (ddbr-server/infra/replication.go, which calls
-- ddbr-server/service/append_entries_service.go on each peer): the answers that a write gets are
-- those of the peers' election machines, called one after the other.
pub mod Calls
pub mod Phase
pub mod First
pub mod Lost
pub mod Fresh
use ddbr.Common.{ℕ, Bool, true, false, List, [], ◌∷◌, ◌++◌, map, Option, none, some, if◌then◌else◌}
use ddbr.Common.Eq.{Str}
use ddbr.Entry.{LogEntry}
use ddbr.Rpc.{AppendEntriesReq, AppendEntriesResp}
use ddbr.Kv.Apply.{Write, encode}
use ddbr.Kv.Command.{Unmarshal}
use ddbr.RaftState.{RaftState}
use ddbr.RaftState.Log.{append_log}
use ddbr.Replication.{PeerStep, ask, answer, pre_commit_ask, pre_commit_answer, commit_request}
use ddbr.Service.{Node, WriteResp, Handled, next_entry}
use ddbr.Service.Settled.{handle}
use ddbr.Election.{RaftStateMachine}
use ddbr.Election.Append.{UnmarshalEntry, append_entries}

-- A peer: the address under which the leader knows it, and its state machine
pub record Peer : Type 0 where
  pub address : Str
  pub machine : RaftStateMachine

-- HandleAppendEntries: the machine's answer is passed on.
unfoldable pub handle_append_entries :
    UnmarshalEntry → ℕ → AppendEntriesReq → Peer → Option AppendEntriesResp × Peer
handle_append_entries u now req m =
    let (resp, machine) = append_entries u now req m.machine in
    (resp, record m { machine = machine })

-- The sections of one peer's goroutine: a call that panics has no answer.
abbrev pub answer_steps :
    Str → LogEntry → RaftState → Option AppendEntriesResp → List PeerStep × RaftState
answer_steps peer entry rs none = (ask peer ∷ [], rs)
answer_steps peer entry rs (some resp) =
    (ask peer ∷ answer peer resp ∷ [], pre_commit_answer rs peer entry resp)

-- doPreCommit for a peer
unfoldable pub call_peer :
    UnmarshalEntry → ℕ → LogEntry → RaftState → Peer → List PeerStep × RaftState × Peer
unfolding handle_append_entries
call_peer u now entry rs m =
    let (asked, req) = pre_commit_ask rs m.address entry in
    let (resp, m') = handle_append_entries u now req m in
    let (steps, rs') = answer_steps m.address entry asked resp in (steps, rs', m')

unfoldable pub call_peers :
    UnmarshalEntry → ℕ → LogEntry → RaftState → List Peer → List PeerStep × RaftState × List Peer
call_peers u now entry rs [] = ([], rs, [])
call_peers u now entry rs (m ∷ ms) =
    let (steps, rs', m') = call_peer u now entry rs m in
    let (rest, rs'', ms') = call_peers u now entry rs' ms in (steps ++ rest, rs'', m' ∷ ms')

-- The confirmation that follows a commit
abbrev pub confirm :
    UnmarshalEntry → ℕ → LogEntry → Option WriteResp → RaftState → List Peer → List Peer
confirm u now entry none rs ms = ms
confirm u now entry (some resp) rs ms =
    if resp.success
    then map (λ m. (handle_append_entries u now (commit_request rs entry) m).1) ms
    else ms

-- A Set or Delete on the leader, with what it makes of the peers
unfoldable pub write_through :
    Unmarshal → UnmarshalEntry → ℕ → Write → Node → List Peer → Handled × List Peer
write_through u v now w n ms =
    let (rs, entry) = append_log n.raft (next_entry n.raft (encode w)) in
    let (steps, _, ms') = call_peers v now entry rs ms in
    let r = handle u steps w n in (r, confirm v now entry r.0 r.1.raft ms')
