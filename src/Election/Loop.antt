-- ===== src/Election/Loop.antt =====
-- The run loop of the election state machine and what other goroutines do to it
-- (ddbr-server/infra/raft_state_machine.go): an execution is a list of inputs, each of which runs
-- one section under the mutex.
pub mod Order
pub mod Whole
pub mod Falls
pub mod Vote
pub mod Sections
pub mod Safety
use ddbr.Common.{
  ℕ, ◌+◌, ◌-◌, Bool, true, false, not, ◌&&◌, ◌||◌, List, [], ◌∷◌, Option, none, some, if◌then◌else◌,
}
use ddbr.Common.Eq.{Str, bytes}
use ddbr.Common.Int.{ℤ, pos, negsuc, ltb_ℤ, leb_ℤ, eqb_ℤ, half}
use ddbr.Rpc.{RequestVoteReq, RequestVoteResp, AppendEntriesReq, AppendEntriesResp}
use ddbr.Election.{
  RaftStateMachine, RaftEvent, election_timeout, request_vote, request_vote_response, heartbeat,
  become_leader, send, is_leader, follower, answer, log_ok, handle_request_vote_response,
  handle_heartbeat, handle_election_timeout, handle_become_leader,
}
use ddbr.Election.Update.{update_cluster_info, update_config}
use ddbr.Election.Committed.{apply_committed}
use ddbr.Config.{Config}
use ddbr.Kv.Command.{Unmarshal}
use ddbr.Kv.Machine.{StateMachine}
use ddbr.Election.Append.{UnmarshalEntry, append_entries, step_down}

-- What is left of a vote request whose handler has let go of the mutex: to take the term over, to
-- look at the vote and the log, and to write the vote down. The last two have the term that the
-- handler read, which is the one that it answers with.
pub data VoteSection : Type 0 where
  raising : ℕ → RequestVoteReq → VoteSection
  deciding : ℕ → RequestVoteReq → ℤ → VoteSection
  granting : ℕ → RequestVoteReq → ℤ → VoteSection

-- What a section sends out: the answer to a vote request, an election's requests with its term and
-- candidate, or the answer to an AppendEntries call (`none` after a panic); `goes_on` sends
-- nothing, and the handler of a vote request has that section still to run.
pub data Output : Type 0 where
  silent : Output
  voted : ℕ → RequestVoteReq → RequestVoteResp → Output
  started : ℤ → ℤ → List (Str × RequestVoteReq) → Output
  answered : Option AppendEntriesResp → Output
  goes_on : VoteSection → Output

-- time.Since(sm.lastHeartbeat)
abbrev pub since_heartbeat : ℕ → RaftStateMachine → ℤ
since_heartbeat now sm = pos (now - sm.last_heartbeat)

abbrev pub with_election :
    Bool → RaftStateMachine × List (Str × RequestVoteReq) → Output × RaftStateMachine
with_election true (sm, reqs) = (silent, sm)
with_election false (sm, reqs) = (started sm.current_term sm.node_id reqs, sm)

unfoldable pub elect : RaftStateMachine → Output × RaftStateMachine
unfolding handle_election_timeout
elect sm = with_election (is_leader sm.state) (handle_election_timeout sm)

-- The election timer's branch of the loop.
unfoldable pub timer_fired : ℕ → RaftStateMachine → Output × RaftStateMachine
unfolding elect half
timer_fired now sm =
    if is_leader sm.state
    then (silent, sm)
    else if ltb_ℤ (half sm.timeout) (since_heartbeat now sm)
    then elect sm
    else (silent, sm)

-- handleRequestVote from the test of the vote on, while it holds the read lock
unfoldable pub decide_section : ℕ → RequestVoteReq → ℤ → RaftStateMachine → Output
unfolding log_ok
decide_section channel req term sm =
    if eqb_ℤ sm.voted_for (negsuc 0) || eqb_ℤ sm.voted_for req.candidate_id
    then if log_ok req sm.logs
      then goes_on (granting channel req term)
      else voted channel req (answer term false (bytes "candidate's log is not up-to-date"))
    else voted channel req (answer term false (bytes "already voted for another candidate"))

-- The first section of handleRequestVote: with the term that it knows it goes on at once.
unfoldable pub begin_request_vote : ℕ → RequestVoteReq → RaftStateMachine → Output
unfolding decide_section
begin_request_vote channel req sm =
    if ltb_ℤ req.term sm.current_term
    then voted channel req
        (answer sm.current_term false (bytes "term is smaller than current term"))
    else if ltb_ℤ sm.current_term req.term
    then goes_on (raising channel req)
    else decide_section channel req sm.current_term sm

-- The later sections. Other goroutines may have changed the term and the vote before each of them.
unfoldable pub run_vote_section : VoteSection → RaftStateMachine → Output × RaftStateMachine
unfolding decide_section
run_vote_section (raising channel req) sm = (
  goes_on (deciding channel req req.term),
  record sm { current_term = req.term; voted_for = negsuc 0; state = follower },
)
run_vote_section (deciding channel req term) sm = (decide_section channel req term sm, sm)
run_vote_section (granting channel req term) sm = (
  voted channel req (answer term true (bytes "success")),
  record sm { voted_for = req.candidate_id },
)

-- The event branch of the loop. Of a vote request it runs the first section.
unfoldable pub handle_event : ℕ → RaftEvent → RaftStateMachine → Output × RaftStateMachine
unfolding elect begin_request_vote handle_request_vote_response handle_heartbeat
    handle_become_leader
handle_event now election_timeout sm = elect sm
handle_event now (request_vote channel req) sm = (begin_request_vote channel req sm, sm)
handle_event now (request_vote_response term granted) sm =
    (silent, handle_request_vote_response term granted sm)
handle_event now heartbeat sm = (silent, handle_heartbeat now sm)
handle_event now become_leader sm = (silent, handle_become_leader sm)

abbrev pub take_from : ℕ → List RaftEvent → RaftStateMachine → Output × RaftStateMachine
take_from now [] sm = (silent, sm)
take_from now (event ∷ rest) sm = handle_event now event (record sm { events = rest })

-- BeginVote
unfoldable pub begin_vote : ℕ → RaftStateMachine → RaftStateMachine
unfolding half
begin_vote now sm =
    if is_leader sm.state
    then sm
    else if leb_ℤ (since_heartbeat now sm) (half sm.timeout)
    then sm
    else send election_timeout sm

-- The answer to a heartbeat that sendHeartbeats sent in `term`.
unfoldable pub heartbeat_answered : ℤ → AppendEntriesResp → RaftStateMachine → RaftStateMachine
unfolding step_down
heartbeat_answered term resp sm = if ltb_ℤ term resp.term then step_down resp.term sm else sm

abbrev new_peers : List Str → List Str → List Str
new_peers old [] = old
new_peers old (peer ∷ peers) = peer ∷ peers

-- ExpiredTimer after the call of the leader's HeartBeat: its peers, or `none` for an error.
unfoldable pub leader_checked : ℕ → Option (List Str) → RaftStateMachine → RaftStateMachine
unfolding begin_vote
leader_checked now none sm =
    if ltb_ℤ sm.timeout (since_heartbeat now sm) then begin_vote now sm else sm
leader_checked now (some peers) sm =
    send heartbeat (record sm { last_heartbeat = now; peers = new_peers sm.peers peers })

-- `vote_section` is a later section of a vote request; `timed_out` is handleElectionTimeout of a
-- timer that was due when the loop looked, with other sections since.
pub data Input : Type 0 where
  timer : ℕ → Input
  timed_out : Input
  vote_section : VoteSection → Input
  next_event : ℕ → Input
  vote_asked : ℕ → RequestVoteReq → Input
  vote_answered : ℤ → Bool → Input
  entries_sent : ℕ → AppendEntriesReq → Input
  heartbeat_answer : ℤ → AppendEntriesResp → Input
  vote_begun : ℕ → Input
  leader_check : ℕ → Option (List Str) → Input
  cluster_known : List Str → Input
  config_given : Config → Input
  log_applied : Unmarshal → StateMachine → Input

unfoldable pub step : UnmarshalEntry → Input → RaftStateMachine → Output × RaftStateMachine
unfolding timer_fired elect run_vote_section handle_event append_entries heartbeat_answered
    begin_vote leader_checked update_cluster_info update_config apply_committed
step u (timer now) sm = timer_fired now sm
step u timed_out sm = elect sm
step u (vote_section s) sm = run_vote_section s sm
step u (next_event now) sm = take_from now sm.events sm
step u (vote_asked channel req) sm = (silent, send (request_vote channel req) sm)
step u (vote_answered term granted) sm = (silent, send (request_vote_response term granted) sm)
step u (entries_sent now req) sm =
    let (resp, sm') = append_entries u now req sm in (answered resp, sm')
step u (heartbeat_answer term resp) sm = (silent, heartbeat_answered term resp sm)
step u (vote_begun now) sm = (silent, begin_vote now sm)
step u (leader_check now peers) sm = (silent, leader_checked now peers sm)
step u (cluster_known hosts) sm = (silent, update_cluster_info hosts sm)
step u (config_given config) sm = (silent, update_config config sm)
step u (log_applied v kv) sm = (silent, (apply_committed v (sm, kv)).1.0)
