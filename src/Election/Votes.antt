-- ===== src/Election/Votes.antt =====
-- When a vote is granted and when an election is won (ddbr-server/infra/raft_state_machine.go).
use ddbr.Common.{suc, ◌*◌, ◌<◌, ◌≡◌, ◌⊎◌, ◌↔◌, Bool, true, List, [], ◌∷◌, ◌++◌, arith}
use ddbr.Common.Int.{ℤ, negsuc, ◌<ℤ◌, ◌≤ℤ◌}
use ddbr.Entry.{LogEntry, last_index, last_term}
use ddbr.Rpc.{RequestVoteReq}
use ddbr.Election.{
  RaftStateMachine, candidate, become_leader, log_ok, handle_request_vote,
  handle_request_vote_response,
}

-- Raft's order on logs: by the last term, and then by the last index.
abbrev pub IsUpToDate : RequestVoteReq → List LogEntry → Type 0
IsUpToDate req logs =
    (last_term logs <ℤ req.last_log_term)
    ⊎ ((req.last_log_term ≡ last_term logs) × (last_index logs ≤ℤ req.last_log_index))

-- The node is free to vote for the candidate of the request.
abbrev pub IsFree : RequestVoteReq → RaftStateMachine → Type 0
IsFree req sm =
    (sm.current_term <ℤ req.term) ⊎ ((sm.voted_for ≡ negsuc 0) ⊎ (sm.voted_for ≡ req.candidate_id))

log_ok-IsUpToDate :
    (req : RequestVoteReq) (logs : List LogEntry) → (log_ok req logs ≡ true) ↔ IsUpToDate req logs
unfolding log_ok
log_ok-IsUpToDate req logs = ground arith

raised-log :
    (req : RequestVoteReq) (sm : RaftStateMachine)
    → ((handle_request_vote req sm).0.vote_granted ≡ true)
      ↔ ((sm.current_term ≤ℤ req.term) × IsFree req sm × (log_ok req sm.logs ≡ true))
unfolding handle_request_vote
raised-log req sm = ground arith

-- A vote request is granted exactly if its term is not older than the node's, the node has not
-- voted for another candidate in that term, and the candidate's log is at least as up to date as
-- its own.
pub handle_request_vote-granted :
    (req : RequestVoteReq) (sm : RaftStateMachine)
    → ((handle_request_vote req sm).0.vote_granted ≡ true)
      ↔ ((sm.current_term ≤ℤ req.term) × IsFree req sm × IsUpToDate req sm.logs)
handle_request_vote-granted req sm =
    ground (arith, raised-log req sm, log_ok-IsUpToDate req sm.logs)

-- An answer to a vote request either leaves the event queue as it is, or it is a granted vote for
-- the term in which the node is a candidate, more than half of the votes are in, and the event that
-- makes the node leader is sent.
pub handle_request_vote_response-majority :
    (term : ℤ) (granted : Bool) (sm : RaftStateMachine)
    → ((handle_request_vote_response term granted sm).events ≡ sm.events)
      ⊎ (((handle_request_vote_response term granted sm).events ≡ sm.events ++ become_leader ∷ [])
          × (sm.state ≡ candidate)
          × (sm.current_term ≡ term)
          × (granted ≡ true)
          × (sm.total_votes < 2 * suc sm.votes_received))
unfolding handle_request_vote_response
handle_request_vote_response-majority term granted sm = ground arith
