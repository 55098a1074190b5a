-- ===== src/Examples/Election.antt =====
-- Examples for the election state machine (ddbr-server/infra/raft_state_machine.go).
use ddbr.Common.{
  ℕ, suc, ◌+◌, ◌*◌, ◌<◌, ◌≡◌, ◌⊎◌, ◌↔◌, inl, inr, refl, Bool, true, false, List, [], ◌∷◌, ◌++◌,
  Option, none, some, arith, length,
}
use ddbr.Common.Eq.{Str, bytes, str_Eq}
use ddbr.Common.Int.{ℤ, pos, negsuc, half, ◌≤ℤ◌, ◌+ℤ◌}
use ddbr.Common.Result.{ok, err}
use ddbr.Rpc.{RequestVoteReq, AppendEntriesReq}
use ddbr.Election.{
  RaftStateMachine, follower, candidate, become_leader, request_vote, handle_request_vote,
}
use ddbr.Election.Append.{UnmarshalEntry, new_entries, append_entries, reply}
use ddbr.Election.Append.Merge.{raft_merge}
use ddbr.Election.Append.Replies.{append_entries-commit, append_entries-start}
use ddbr.Election.Votes.{IsFree, IsUpToDate, handle_request_vote-granted}
use ddbr.Election.Leader.{LeadsAlone, timer_then_event, step-leader, timer_then_event-one_vote}
use ddbr.Election.Elected.{Decided, run, answers, polls, election-Decided}
use ddbr.Election.Loop.{
  vote_section, raising, goes_on, Input, step, timer, next_event, vote_asked, entries_sent,
}
use ddbr.Election.Loop.Falls.{next_event-lowers_term}
use ddbr.Election.Loop.Safety.{votes, votes_from, AllHaveNextFrom, OneEach, votes-OneEach}
use ddbr.Election.Committed.{apply_committed, apply_committed-writes}
use ddbr.Common.Text.{occurrences}
use ddbr.Kv.Machine
use ddbr.Kv.Apply.{put, write_all}
use ddbr.Examples.Kv.{no_json, set_a}
use ddbr.Examples.Logs.{first, second}

abbrev pub plain_text : UnmarshalEntry
plain_text s = err (bytes "no JSON")

abbrev pub node : RaftStateMachine
node = record {
  node_id = pos 7;
  cluster_id = pos 1;
  peers = bytes "b" ∷ bytes "c" ∷ [];
  timeout = pos 1000;
  heartbeat_period = pos 100;
  state = follower;
  current_term = pos 3;
  voted_for = negsuc 0;
  logs = first ∷ second ∷ [];
  commit_index = pos 0;
  last_applied = pos 0;
  next_index = [];
  match_index = [];
  votes_received = 0;
  total_votes = 3;
  last_heartbeat = 0;
  events = [];
  port = [];
  gateway_host = [];
  master_addr = [];
  is_master = false;
  config_master = false;
}

abbrev ask_8 : RequestVoteReq
ask_8 = record { term = pos 4; candidate_id = pos 8; last_log_index = pos 2; last_log_term = pos 1 }

abbrev entries_from_8 : ℤ → AppendEntriesReq
entries_from_8 term = record {
  term = term;
  leader_id = pos 8;
  prev_log_index = pos 0;
  prev_log_term = pos 0;
  entries = bytes "set:a:9" ∷ [];
  leader_commit = pos 0;
  is_pre_commit = true;
}

abbrev won : RaftStateMachine
won = record node { state = candidate; events = become_leader ∷ [] }

-- A request of the term 9 comes in before the vote request has taken its term over.
abbrev course : List Input
course =
    vote_asked 0 ask_8
    ∷ next_event 5
    ∷ entries_sent 6 (record (entries_from_8 (pos 9)) { entries = [] })
    ∷ next_event 7
    ∷ next_event 8
    ∷ next_event 9
    ∷ timer 2000
    ∷ []

-- The node goes from the term 3 to 9 and back to 4.
next_event-lowers_term_example :
    let sm = record node { events = request_vote 0 ask_8 ∷ [] } in
    let (o, s) = step plain_text (next_event 5) sm in
    let s' = (step plain_text (entries_sent 6 (entries_from_8 (pos 9))) s).1 in
    (o ≡ goes_on (raising 0 ask_8))
    × (s'.current_term ≡ pos 9)
    × ((step plain_text (vote_section (raising 0 ask_8)) s').1.current_term ≡ pos 4)
next_event-lowers_term_example =
    next_event-lowers_term plain_text 5 6 0 ask_8 (entries_from_8 (pos 9)) []
      (record node { events = request_vote 0 ask_8 ∷ [] }) (omega arith) (omega arith) refl

votes-OneEach_example : OneEach (votes plain_text course node)
unfolding AllHaveNextFrom votes_from ddbr.Common.Int.◌+ℤ◌ ddbr.Common.Int.half
votes-OneEach_example =
    votes-OneEach plain_text course node
      (
        ((omega arith, omega arith), omega arith),
        (
          ((omega arith, omega arith), omega arith),
          (
            ((omega arith, omega arith), omega arith),
            (
              ((omega arith, omega arith), omega arith),
              (
                ((omega arith, omega arith), omega arith),
                (
                  ((omega arith, omega arith), omega arith),
                  (((omega arith, omega arith), omega arith), tt),
                ),
              ),
            ),
          ),
        ),
      )
      ((λ e. ground arith), ((λ e. ground arith), tt))

handle_request_vote-granted_example :
    ((handle_request_vote ask_8 node).0.vote_granted ≡ true)
    ↔ ((pos 3 ≤ℤ pos 4) × IsFree ask_8 node × IsUpToDate ask_8 node.logs)
handle_request_vote-granted_example = handle_request_vote-granted ask_8 node

append_entries-start_example :
    ((append_entries plain_text 5 (entries_from_8 (pos 4)) node).0 ≡ reply true (pos 3))
    × ((append_entries plain_text 5 (entries_from_8 (pos 4)) node).1.logs
        ≡ raft_merge node.logs (new_entries plain_text (pos 4) (pos 1) (bytes "set:a:9" ∷ [])))
append_entries-start_example =
    append_entries-start plain_text 5 (entries_from_8 (pos 4)) (bytes "set:a:9") [] node
      (omega arith) refl refl (omega arith)

abbrev next_from_8 : AppendEntriesReq
next_from_8 = record (entries_from_8 (pos 3)) { prev_log_index = pos 2; prev_log_term = pos 1 }

step-leader_example :
    ((now : ℕ) × (next_event 5 ≡ next_event now))
    × (won.state ≡ candidate)
    × (rest : List _) × (won.events ≡ become_leader ∷ rest)
unfolding step
step-leader_example = step-leader plain_text (next_event 5) won (λ e. cc) refl

timer_then_event-one_vote_example :
    LeadsAlone (pos 3 +ℤ pos 1) 3 (timer_then_event plain_text 2000 won)
unfolding ddbr.Common.Int.half
timer_then_event-one_vote_example =
    timer_then_event-one_vote plain_text 2000 (bytes "b") (bytes "c" ∷ []) [] won (λ e. cc) refl
      refl refl

-- One grant of two peers is enough; a refusal comes first.
election-Decided_example : Decided true (pos 4) node (
    run plain_text
      (timer 900 ∷ answers (pos 4) (false ∷ true ∷ []) (polls 901 (false ∷ true ∷ [])))
      node)
unfolding half ◌+ℤ◌
election-Decided_example =
    election-Decided plain_text 900 901 (false ∷ true ∷ []) (bytes "b") (bytes "c" ∷ []) node
      (λ e. ground (arith, e)) refl refl refl

append_entries-commit_example :
    let sm =
      (append_entries plain_text 5
        (record (entries_from_8 (pos 4)) { leader_commit = pos 9 })
        node).1 in
    (sm.commit_index ≡ pos 0)
    ⊎ ((sm.commit_index ≤ℤ pos 9) × (sm.commit_index ≤ℤ pos (length sm.logs)))
append_entries-commit_example =
    append_entries-commit plain_text 5 (record (entries_from_8 (pos 4)) { leader_commit = pos 9 })
      node

-- One entry is committed and not applied.
abbrev pub behind : RaftStateMachine
behind = record node { logs = set_a ∷ []; commit_index = pos 1 }

apply_committed-writes_example :
    let (r, (sm, kv)) = apply_committed no_json (behind, Machine.new) in
    (r ≡ ok tt)
    × ((j : Str)
        → Machine.get kv j
          ≡ write_all (put (bytes "a") (bytes "1") ∷ []) (Machine.get Machine.new) j)
    × (sm.last_applied ≡ pos 1)
    × (kv.last_applied_index ≡ pos 1)
unfolding occurrences
apply_committed-writes_example =
    apply_committed-writes no_json 0 1 (put (bytes "a") (bytes "1") ∷ []) behind Machine.new
      (omega arith) (omega arith) (omega arith) refl refl refl (refl, tt) (refl, (refl, refl), tt)
