-- ===== src/Election/Loop/Whole.antt =====
-- A vote request that no other goroutine comes between (ddbr-server/infra/raft_state_machine.go).
use ddbr.Common.{ℕ, ◌≡◌, arith}
use ddbr.Rpc.{RequestVoteReq}
use ddbr.Election.{RaftStateMachine, request_vote, handle_request_vote}
use ddbr.Election.Loop.{
  Output, silent, voted, started, answered, goes_on, handle_event, run_vote_section, decide_section,
}

-- The section that comes next, if one is left.
abbrev pub then_section : Output × RaftStateMachine → Output × RaftStateMachine
then_section (goes_on s, sm) = run_vote_section s sm
then_section (silent, sm) = (silent, sm)
then_section (voted channel req resp, sm) = (voted channel req resp, sm)
then_section (started term candidate reqs, sm) = (started term candidate reqs, sm)
then_section (answered resp, sm) = (answered resp, sm)

-- The sections of handleRequestVote, one directly after the other, come to `handle_request_vote`.
pub handle_event-handle_request_vote :
    (now channel : ℕ) (req : RequestVoteReq) (sm : RaftStateMachine)
    → let (resp, sm') = handle_request_vote req sm in
      then_section (then_section (then_section (handle_event now (request_vote channel req) sm)))
      ≡ (voted channel req resp, sm')
unfolding handle_event handle_request_vote run_vote_section decide_section
handle_event-handle_request_vote now channel req sm = ground arith
