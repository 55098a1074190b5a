-- ===== src/Election.antt =====
-- The election state machine (ddbr-server/infra/raft_state_machine.go): its state, and the handlers
-- of the events that its run loop takes from the queue.
pub mod Append
pub mod Committed
pub mod Votes
pub mod Leader
pub mod Elected
pub mod Update
pub mod Loop
pub mod Cluster
pub mod Heartbeats
use ddbr.Common.{
  ℕ, suc, ◌+◌, ◌/◌, Bool, true, false, not, ◌&&◌, ◌||◌, List, [], ◌∷◌, ◌++◌, Option, none, some,
  length, leb, ltb, if◌then◌else◌,
}
use ddbr.Common.Eq.{Str, bytes, str_Eq}
use ddbr.Common.Int.{ℤ, pos, negsuc, ltb_ℤ, leb_ℤ, eqb_ℤ, ◌+ℤ◌, half}
use ddbr.Common.Dict.{Dict, insert}
use ddbr.Entry.{LogEntry, last_index, last_term}
use ddbr.Rpc.{RequestVoteReq, RequestVoteResp}

pub data NodeState : Type 0 where
  follower candidate leader : NodeState

-- Of a RaftEvent, the fields that its type's handler reads. A vote request carries a name of its
-- response channel.
pub data RaftEvent : Type 0 where
  election_timeout : RaftEvent
  request_vote : ℕ → RequestVoteReq → RaftEvent
  request_vote_response : ℤ → Bool → RaftEvent
  heartbeat : RaftEvent
  become_leader : RaftEvent

-- Times and durations are counts of nanoseconds; `events` is eventCh, oldest first; `config_master`
-- is the global configuration's IsMaster.
pub record RaftStateMachine : Type 0 where
  pub node_id : ℤ
  pub cluster_id : ℤ
  pub peers : List Str
  pub timeout : ℤ
  pub heartbeat_period : ℤ
  pub state : NodeState
  pub current_term : ℤ
  pub voted_for : ℤ
  pub logs : List LogEntry
  pub commit_index : ℤ
  pub last_applied : ℤ
  pub next_index : Dict Str ℤ
  pub match_index : Dict Str ℤ
  pub votes_received : ℕ
  pub total_votes : ℕ
  pub last_heartbeat : ℕ
  pub events : List RaftEvent
  pub port : Str
  pub gateway_host : Str
  pub master_addr : Str
  pub is_master : Bool
  pub config_master : Bool

abbrev pub is_leader : NodeState → Bool
is_leader leader = true
is_leader _ = false

abbrev pub is_candidate : NodeState → Bool
is_candidate candidate = true
is_candidate _ = false

-- sm.eventCh <- event
abbrev pub send : RaftEvent → RaftStateMachine → RaftStateMachine
send event sm = record sm { events = sm.events ++ event ∷ [] }

abbrev pub answer : ℤ → Bool → Str → RequestVoteResp
answer term granted message = record {
  term = term;
  vote_granted = granted;
  resp_code = pos 0;
  message = message;
}

-- The candidate's log is at least as up to date as ours.
unfoldable pub log_ok : RequestVoteReq → List LogEntry → Bool
unfolding last_index last_term
log_ok req logs =
    ltb_ℤ (last_term logs) req.last_log_term
    || (eqb_ℤ req.last_log_term (last_term logs) && leb_ℤ (last_index logs) req.last_log_index)

-- A higher term is taken over, and the vote of the old one forgotten.
unfoldable pub raise_term : ℤ → RaftStateMachine → RaftStateMachine
raise_term term sm =
    if ltb_ℤ sm.current_term term
    then record sm { current_term = term; voted_for = negsuc 0; state = follower }
    else sm

unfoldable pub decide_vote : RequestVoteReq → RaftStateMachine → RequestVoteResp × RaftStateMachine
unfolding log_ok
decide_vote req sm =
    if eqb_ℤ sm.voted_for (negsuc 0) || eqb_ℤ sm.voted_for req.candidate_id
    then if log_ok req sm.logs
      then (
        answer sm.current_term true (bytes "success"),
        record sm { voted_for = req.candidate_id },
      )
      else (answer sm.current_term false (bytes "candidate's log is not up-to-date"), sm)
    else (answer sm.current_term false (bytes "already voted for another candidate"), sm)

-- handleRequestVote where no other goroutine comes between its sections; Election.Loop has these
-- sections, since the handler lets go of the mutex between them.
unfoldable pub handle_request_vote :
    RequestVoteReq → RaftStateMachine → RequestVoteResp × RaftStateMachine
unfolding raise_term decide_vote
handle_request_vote req sm =
    if ltb_ℤ req.term sm.current_term
    then (answer sm.current_term false (bytes "term is smaller than current term"), sm)
    else decide_vote req (raise_term req.term sm)

-- A majority makes the machine send itself the event that makes it the leader.
abbrev if_majority : RaftStateMachine → RaftStateMachine
if_majority sm =
    if leb (sm.total_votes / 2 + 1) sm.votes_received then send become_leader sm else sm

unfoldable pub handle_request_vote_response : ℤ → Bool → RaftStateMachine → RaftStateMachine
handle_request_vote_response term granted sm =
    if not (is_candidate sm.state) || not (eqb_ℤ sm.current_term term)
    then sm
    else if granted
    then if_majority (record sm { votes_received = suc sm.votes_received })
    else sm

unfoldable pub handle_heartbeat : ℕ → RaftStateMachine → RaftStateMachine
handle_heartbeat now sm = record sm { state = follower; last_heartbeat = now }

-- handleElectionTimeout, with the request that goes to each peer whose address is not empty.
unfoldable pub start_election : RaftStateMachine → RaftStateMachine
start_election sm = record sm {
  state = candidate;
  current_term = sm.current_term +ℤ pos 1;
  voted_for = sm.node_id;
  votes_received = 1;
  total_votes = length sm.peers + 1;
}

unfoldable pub vote_request : RaftStateMachine → RequestVoteReq
unfolding last_index last_term
vote_request sm = record {
  term = sm.current_term;
  candidate_id = sm.node_id;
  last_log_index = last_index sm.logs;
  last_log_term = last_term sm.logs;
}

abbrev to_peers : RequestVoteReq → List Str → List (Str × RequestVoteReq)
to_peers req [] = []
to_peers req ([] ∷ peers) = to_peers req peers
to_peers req ((c ∷ peer) ∷ peers) = (c ∷ peer, req) ∷ to_peers req peers

abbrev ask_peers : List Str → RaftStateMachine → RaftStateMachine × List (Str × RequestVoteReq)
ask_peers [] sm = (send become_leader sm, [])
ask_peers (peer ∷ peers) sm = (sm, to_peers (vote_request sm) (peer ∷ peers))

unfoldable pub handle_election_timeout :
    RaftStateMachine → RaftStateMachine × List (Str × RequestVoteReq)
unfolding start_election vote_request
handle_election_timeout sm =
    if is_leader sm.state then (sm, []) else ask_peers sm.peers (start_election sm)

abbrev insert_all : ℤ → List Str → Dict Str ℤ → Dict Str ℤ
insert_all n [] m = m
insert_all n (peer ∷ peers) m = insert_all n peers (insert peer n m)

unfoldable pub handle_become_leader : RaftStateMachine → RaftStateMachine
unfolding last_index
handle_become_leader sm = if not (is_candidate sm.state) then sm else record sm {
  state = leader;
  is_master = true;
  config_master = true;
  next_index = insert_all (last_index sm.logs +ℤ pos 1) sm.peers sm.next_index;
  match_index = insert_all (pos 0) sm.peers sm.match_index;
}
