-- ===== src/RaftState/Apply.antt =====
-- ApplyCommittedLogs (ddbr-server/infra/raft_state.go): the log between LastApplied and CommitIndex
-- goes to the key-value store. The entries are collected under the mutex and applied after it.
pub mod Range
pub mod Rest
use mathlib.Core.Option
use ddbr.Common.{
  ℕ, zero, suc, Bool, true, false, ◌&&◌, List, [], ◌∷◌, Option, none, some, length, if◌then◌else◌,
}
use ddbr.Common.Eq.{Str}
use ddbr.Common.Int.{ℤ, pos, leb_ℤ, ltb_ℤ, ◌+ℤ◌, slice_get}
use ddbr.Common.Result.{Result, ok, err}
use ddbr.Entry.{LogEntry}
use ddbr.Kv.Command.{ApplyError, Unmarshal, says_applied}
use ddbr.Kv.Machine.{StateMachine, apply_log}
use ddbr.RaftState.{RaftState, set_last_applied}

-- An index out of range is a panic.
pub data Fault : Type 0 where
  panicked : Fault
  failed : ApplyError → Fault

-- for i := LastApplied + 1; i <= CommitIndex && i < len(Logs); i++, on fuel
unfoldable pub committed_from : ℕ → ℤ → ℤ → List LogEntry → Option (List LogEntry)
committed_from zero i commit logs = some []
committed_from (suc fuel) i commit logs =
    let rest = committed_from fuel (i +ℤ pos 1) commit logs in
    if leb_ℤ i commit && ltb_ℤ i (pos (length logs))
    then elim (slice_get logs i) [ none ↦ none | some e ↦ Option.map (λ es. e ∷ es) rest ]
    else some []

-- Logs has no more places than it is long, so one round more than its length is enough.
unfoldable pub committed_entries : RaftState → Option (List LogEntry)
committed_entries rs =
    committed_from (suc (length rs.logs)) (rs.last_applied +ℤ pos 1) rs.commit_index rs.logs

-- Whether the loop goes on: the entry was applied, or the error says that it had been.
abbrev pub goes_on : Result ApplyError Str → Bool
goes_on (ok r) = true
goes_on (err x) = says_applied x

abbrev pub stop_with :
    Result ApplyError Str
    → RaftState × StateMachine
    → Result Fault (Unit {0}) × (RaftState × StateMachine)
stop_with (ok r) s = (ok tt, s)
stop_with (err x) s = (err (failed x), s)

unfoldable pub apply_entries :
    Unmarshal
    → List LogEntry
    → RaftState × StateMachine
    → Result Fault (Unit {0}) × (RaftState × StateMachine)
apply_entries u [] s = (ok tt, s)
apply_entries u (e ∷ es) (rs, sm) =
    let (r, sm') = apply_log u e sm in
    let rest = apply_entries u es (set_last_applied e.index rs, sm') in
    if goes_on r then rest else stop_with r (rs, sm')

abbrev pub apply_collected :
    Unmarshal
    → Option (List LogEntry)
    → RaftState × StateMachine
    → Result Fault (Unit {0}) × (RaftState × StateMachine)
apply_collected u none s = (err panicked, s)
apply_collected u (some es) s = apply_entries u es s

unfoldable pub apply_committed_logs :
    Unmarshal → RaftState × StateMachine → Result Fault (Unit {0}) × (RaftState × StateMachine)
apply_committed_logs u (rs, sm) =
    if leb_ℤ rs.commit_index rs.last_applied
    then (ok tt, (rs, sm))
    else apply_collected u (committed_entries rs) (rs, sm)
