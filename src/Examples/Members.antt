-- ===== src/Examples/Members.antt =====
-- Examples for the commit index of the Raft state and the votes of a cluster
-- (ddbr-server/infra/raft_state.go, raft_state_machine.go).
use ddbr.Common.{if◌then◌else◌, ℕ, ◌≡◌, refl, true, [], ◌∷◌, arith}
use ddbr.Common.Eq.{bytes, str_Eq}
use ddbr.Common.Int.{pos, ◌+ℤ◌, leb_ℤ}
use ddbr.Common.Result.{ok, err}
use ddbr.RaftState
use ddbr.RaftState.{RaftState}
use ddbr.RaftState.Commit.Greatest.{Commits, update_commit_index-Commits}
use ddbr.Election
use ddbr.Election.{RaftStateMachine, follower}
use ddbr.Election.Append.{UnmarshalEntry}
use ddbr.Election.Loop.{vote_asked, next_event}
use ddbr.Election.Cluster.{Execution, voters, voters-majority}
use ddbr.Examples.Election.{behind, node}
use ddbr.Examples.Kv.{no_json}
use ddbr.Kv.Machine
use ddbr.Election.Committed.{apply_committed, apply_from}
use ddbr.Election.Committed.Fuel.{Done, apply_committed_fuel}
use ddbr.Examples.Logs.{first, second}

abbrev leading : RaftState
leading = record RaftState.new {
  current_term = pos 1;
  is_master = true;
  logs = first ∷ second ∷ [];
  peers = bytes "b" ∷ bytes "c" ∷ [];
  match_index = (bytes "b", pos 1) ∷ (bytes "c", pos 1) ∷ [];
}

update_commit_index-Commits_example : (r : ℕ) × Commits leading 0 r
update_commit_index-Commits_example =
    update_commit_index-Commits leading 0 refl refl (omega arith) (omega arith)

abbrev pub no_text : UnmarshalEntry
no_text s = err (bytes "no JSON")

abbrev pub voter : Execution
voter = record {
  unmarshal = no_text;
  start = node;
  inputs =
      vote_asked 0 (record {
        term = pos 4;
        candidate_id = pos 8;
        last_log_index = pos 2;
        last_log_term = pos 1;
      })
      ∷ next_event 5
      ∷ next_event 6
      ∷ next_event 7
      ∷ next_event 8
      ∷ [];
}

voters-majority_example : pos 8 ≡ pos 8
unfolding voters ddbr.Election.Loop.Safety.votes_from ddbr.Election.Loop.Safety.AllHaveNextFrom
voters-majority_example =
    voters-majority (pos 4) (pos 8) (pos 8) (voter ∷ voter ∷ [])
      (
        (
          ((omega arith, omega arith), omega arith),
          (
            ((omega arith, omega arith), omega arith),
            (
              ((omega arith, omega arith), omega arith),
              (
                ((omega arith, omega arith), omega arith),
                (((omega arith, omega arith), omega arith), tt),
              ),
            ),
          ),
        ),
        ((λ e. ground arith), tt),
        (
          (
            ((omega arith, omega arith), omega arith),
            (
              ((omega arith, omega arith), omega arith),
              (
                ((omega arith, omega arith), omega arith),
                (
                  ((omega arith, omega arith), omega arith),
                  (((omega arith, omega arith), omega arith), tt),
                ),
              ),
            ),
          ),
          ((λ e. ground arith), tt),
          tt,
        ),
      )
      (omega arith) (omega arith)

apply_committed_fuel_example : apply_committed no_json (behind, Machine.new) ≡ (
    if leb_ℤ behind.commit_index behind.last_applied
    then (let d : Done = (ok tt, (behind, Machine.new)) in d)
    else apply_from no_json 1 (behind.last_applied +ℤ pos 1) (behind, Machine.new))
apply_committed_fuel_example =
    apply_committed_fuel no_json 1 0 behind Machine.new (omega arith) refl (omega arith)
      (omega arith)
