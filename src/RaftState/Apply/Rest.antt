-- ===== src/RaftState/Apply/Rest.antt =====
-- What ApplyCommittedLogs does not write (ddbr-server/infra/raft_state.go).
use ddbr.Common.{◌≡◌, refl, List, [], ◌∷◌, Option, none, some, inl, inr, Bool-cases}
use ddbr.Common.Eq.{Str}
use ddbr.Common.Int.{leb_ℤ}
use ddbr.Common.Result.{Result, ok, err}
use ddbr.Entry.{LogEntry}
use ddbr.Kv.Command.{ApplyError, Unmarshal}
use ddbr.Kv.Machine.{StateMachine, apply_log}
use ddbr.RaftState.{RaftState, set_last_applied}
use ddbr.RaftState.Apply.{
  goes_on, stop_with, apply_entries, apply_collected, committed_entries, apply_committed_logs,
}

-- The same log, term, next indices and commit index
pub record SameRest (r s : RaftState) : Type 0 where
  pub logs : s.logs ≡ r.logs
  pub current_term : s.current_term ≡ r.current_term
  pub next_index : s.next_index ≡ r.next_index
  pub commit_index : s.commit_index ≡ r.commit_index

same : (r : RaftState) → SameRest r r
same r = record { logs = refl; current_term = refl; next_index = refl; commit_index = refl }

stop_with-SameRest :
    (r : Result ApplyError Str) (rs : RaftState) (kv : StateMachine)
    → SameRest rs (stop_with r (rs, kv)).1.0
stop_with-SameRest (ok r) rs kv = same rs
stop_with-SameRest (err x) rs kv = same rs

apply_entries-SameRest :
    (u : Unmarshal) (es : List LogEntry) (rs : RaftState) (kv : StateMachine)
    → SameRest rs (apply_entries u es (rs, kv)).1.0
unfolding apply_entries
apply_entries-SameRest u [] rs kv = same rs
apply_entries-SameRest u (e ∷ es) rs kv =
    let (r, kv') = apply_log u e kv in
    elim (Bool-cases (goes_on r)) [
      | inl on ↦ rw on (
          let k = apply_entries-SameRest u es (set_last_applied e.index rs) kv' in
          record {
            logs = k.logs;
            current_term = k.current_term;
            next_index = k.next_index;
            commit_index = k.commit_index;
          })
      | inr off ↦ rw off (stop_with-SameRest r rs kv')
    ]

apply_collected-SameRest :
    (u : Unmarshal) (o : Option (List LogEntry)) (rs : RaftState) (kv : StateMachine)
    → SameRest rs (apply_collected u o (rs, kv)).1.0
apply_collected-SameRest u none rs kv = same rs
apply_collected-SameRest u (some es) rs kv = apply_entries-SameRest u es rs kv

pub apply_committed_logs-SameRest :
    (u : Unmarshal) (rs : RaftState) (kv : StateMachine)
    → SameRest rs (apply_committed_logs u (rs, kv)).1.0
unfolding apply_committed_logs
apply_committed_logs-SameRest u rs kv = elim (Bool-cases (leb_ℤ rs.commit_index rs.last_applied)) [
  | inl nothing ↦ rw nothing (same rs)
  | inr due ↦ rw due (apply_collected-SameRest u (committed_entries rs) rs kv)
]
