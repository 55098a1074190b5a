-- ===== src/Election/Heartbeats.antt =====
-- startHeartbeats and sendHeartbeats of the election state machine
-- (ddbr-server/infra/raft_state_machine.go).
pub mod Stale
pub mod Own
pub mod Quiet
use ddbr.Common.{Bool, true, false, List, [], ◌∷◌, ◌++◌, if◌then◌else◌}
use ddbr.Common.Eq.{Str}
use ddbr.Common.Int.{ℤ, pos}
use ddbr.Rpc.{AppendEntriesReq}
use ddbr.Election.{RaftStateMachine, is_leader}

unfoldable pub heartbeat_request : RaftStateMachine → AppendEntriesReq
heartbeat_request sm = record {
  term = sm.current_term;
  leader_id = sm.node_id;
  prev_log_index = pos 0;
  prev_log_term = pos 0;
  entries = [];
  leader_commit = sm.commit_index;
  is_pre_commit = false;
}

-- The loop over the peers: one without an address is left out.
abbrev pub request_to : AppendEntriesReq → List Str → List (Str × AppendEntriesReq)
request_to req [] = []
request_to req ([] ∷ peers) = request_to req peers
request_to req ((c ∷ peer) ∷ peers) = (c ∷ peer, req) ∷ request_to req peers

-- sendHeartbeats, up to the answers
unfoldable pub send_heartbeats : RaftStateMachine → List (Str × AppendEntriesReq)
unfolding heartbeat_request
send_heartbeats sm = request_to (heartbeat_request sm) sm.peers

-- startHeartbeats: heartbeats at once, and then one for each tick, as long as the state that the
-- loop sees before it waits is that of a leader. A round is that state and the one at the tick.
unfoldable pub beats : List (RaftStateMachine × RaftStateMachine) → List (Str × AppendEntriesReq)
unfolding send_heartbeats
beats [] = []
beats ((seen, ticked) ∷ rounds) =
    let rest = send_heartbeats ticked ++ beats rounds in if is_leader seen.state then rest else []

unfoldable pub start_heartbeats :
    RaftStateMachine → List (RaftStateMachine × RaftStateMachine) → List (Str × AppendEntriesReq)
unfolding beats
start_heartbeats sm rounds = send_heartbeats sm ++ beats rounds
